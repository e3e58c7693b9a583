-- ===== src/PythonInterpreter/Examples.antt =====
-- A command in a Python whose objects are numbers: a module 1, its functions 2, 3 and 4, `True` as 7
-- and texts from 10 on.
use asabru_commons.Base.{
  ℕ, ◌≡◌, refl, true, false, not, some, List, [], ◌∷◌, ◌++◌, codes, str_eq, ◌==◌, if◌then◌else◌, ok,
}
use asabru_commons.Base.Int.{pos}
use asabru_commons.Strings.{map_set, map_find}
use asabru_commons.Commands.Context.{cast_texts, new_context, texts, text, put, get}
use asabru_commons.PythonInterpreter.{
  Python, Run, module_reference, execute_result, execute_function, post_result, pre_result, execute,
  prepared, release, decref, release_result, put_result, call_execute, call_post_execute,
  after_pre_execute, run_functions, run_module, import_and_run, create_execution_context,
  get_string_from_dict,
}
use asabru_commons.PythonInterpreter.Keeps.{Keeps}
use asabru_commons.PythonInterpreter.Runs.{execute-Keeps}

abbrev snake : Python ℕ (List ℕ)
snake = record {
  run_string = λ s w. w;
  import_module = λ name w. (some 1, w);
  get_attr = λ m name w. (
    if str_eq name (codes "preExecute")
        then some 2
        else if str_eq name (codes "execute")
        then some 3
        else some 4,
    w,
  );
  is_callable = λ o. true;
  new_dict = λ w. (some 5, w);
  set_item = λ d k v w. w;
  new_args = λ d w. (6, w);
  call = λ f args w. (some 7, w ++ f ∷ []);
  is_true = λ o. o == 7;
  get_item = λ d k w. some 10;
  as_text = λ o. some (codes "done");
  finalize = λ w. (pos 0, w);
}

abbrev before : Run (List ℕ)
before = record { world = []; context = put new_context (codes "params") (texts []); released = [] }

abbrev after : Run (List ℕ)
after = record {
  world = 2 ∷ 3 ∷ 4 ∷ [];
  context =
      put (put before.context (codes "message") (text (codes "Execution status : true")))
        (codes "response") (text (codes "done"));
  released = execute_result ∷ post_result ∷ pre_result ∷ module_reference ∷ [];
}

ran : execute snake (some (codes "/plugins")) (codes "hello") true before ≡ ok (pos 0, false, after)
unfolding execute prepared release decref release_result put_result call_execute call_post_execute
    after_pre_execute run_functions run_module import_and_run create_execution_context
    get_string_from_dict get put map_find map_set cast_texts
ran = refl

-- With a function `execute` that cannot be called the module is released twice.
abbrev stiff : Python ℕ (List ℕ)
stiff = record snake { is_callable = λ o. not (o == 3) }

abbrev after_stiff : Run (List ℕ)
after_stiff = record {
  world = 2 ∷ 4 ∷ [];
  context = before.context;
  released = execute_function ∷ module_reference ∷ post_result ∷ pre_result ∷ module_reference ∷ [];
}

ran_stiff :
    execute stiff (some (codes "/plugins")) (codes "hello") true before
    ≡ ok (pos 0, false, after_stiff)
unfolding execute prepared release decref release_result put_result call_execute call_post_execute
    after_pre_execute run_functions run_module import_and_run create_execution_context
    get_string_from_dict get put map_find map_set cast_texts
ran_stiff = refl

execute-Keeps_example : Keeps stiff (codes "params") 1 2 before after_stiff
unfolding str_eq prepared
execute-Keeps_example =
    execute-Keeps stiff (codes "params") (refl, refl) (codes "/plugins") (codes "hello") true before
      ran_stiff
