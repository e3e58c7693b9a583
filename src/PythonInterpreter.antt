-- ===== src/PythonInterpreter.antt =====
-- src/util/PythonInterpreter.h and src/util/PythonInterpreter.cpp: commands written in Python. The
-- Python C API is a parameter; objects of Python are opaque.
pub mod Keeps
pub mod Runs
pub mod Twice
mod Examples
use asabru_commons.Base.{
  ℕ, Bool, true, false, Option, none, some, List, [], ◌∷◌, ◌++◌, Bytes, codes, if◌then◌else◌,
  Outcome, ok, err, runtime_error, undefined_behaviour, require, ◌>>=◌, ◌>>◌,
}
use asabru_commons.Base.Int.{ℤ, pos, ltb_ℤ}
use asabru_commons.Commands.Context.{ComputationContext, text, get, put, cast_texts}

-- Failed calls give no object. `import_module` decodes the name and imports; `set_item` makes two
-- strings and puts them into a dictionary; `new_args` makes the tuple of one argument; `is_true` tests
-- for the object `True`; `get_item` is `none` on no dictionary; `as_text` is `none` if the object is
-- no string.
pub record Python (O W : Type 0) : Type 0 where
  pub run_string : Bytes → W → W
  pub import_module : Bytes → W → Option O × W
  pub get_attr : O → Bytes → W → Option O × W
  pub is_callable : O → Bool
  pub new_dict : W → Option O × W
  pub set_item : O → Bytes → Bytes → W → W
  pub new_args : Option O → W → O × W
  pub call : O → O → W → Option O × W
  pub is_true : O → Bool
  pub get_item : Option O → Bytes → W → Option O
  pub as_text : O → Option Bytes
  pub finalize : W → ℤ × W

-- The references that `Execute` releases.
pub data Reference : Type 0 where
  module_reference pre_result execute_function execute_result post_function post_result : Reference

-- Where a call of `Execute` stands: what Python did, the context, and the references released.
pub record Run (W : Type 0) : Type 0 where
  pub world : W
  pub context : ComputationContext
  pub released : List Reference

module _ {W : Type 0} where
  unfoldable pub release : Reference → Run W → Run W
  release r run = record run { released = run.released ++ r ∷ [] }

  -- `Py_DECREF`, which is undefined behaviour on a null pointer.
  unfoldable pub decref : {O : Type 0} → Option O → Reference → Run W → Outcome (Run W)
  unfolding release
  decref none r run = err undefined_behaviour
  decref (some o) r run = ok (release r run)

-- `GetStringFromDict`.
text_of : {O : Type 0} → (O → Option Bytes) → Option O → Bytes
text_of as_text none = []
text_of as_text (some value) = elim (as_text value) [ none ↦ [] | some s ↦ s ]

module _ {O W : Type 0} (python : Python O W) where
  open python use {
    run_string, import_module, get_attr, is_callable, new_dict, set_item, new_args, call, is_true,
    get_item, as_text, finalize,
  }

  unfoldable pub get_string_from_dict : Option O → Bytes → W → Bytes
  unfolding text_of
  get_string_from_dict dict key w = text_of as_text (get_item dict key w)

  set_items : O → List (Bytes × Bytes) → W → W
  set_items dict [] w = w
  set_items dict ((key, value) ∷ params) w = set_items dict params (set_item dict key value w)

  filled_dict : ComputationContext → Option O × W → Outcome (Option O × W)
  unfolding set_items
  filled_dict context (none, w) = ok (none, w)
  filled_dict context (some dict, w) = cast_texts (get context (codes "params")) >>= λ params.
      ok (some dict, set_items dict params w)

  unfoldable pub create_execution_context : ComputationContext → W → Outcome (Option O × W)
  unfolding filled_dict
  create_execution_context context w = filled_dict context (new_dict w)

  -- `if (f && PyCallable_Check(f))`.
  abbrev pub callable_or_null : Option O → Bool
  callable_or_null none = false
  callable_or_null (some f) = is_callable f

  abbrev pub called : Option O → O → W → Option O × W
  called none args w = (none, w)
  called (some f) args w = call f args w

  -- `Py_IsTrue` of what may be a null pointer.
  abbrev pub is_true_or_null : Option O → Bool
  is_true_or_null none = false
  is_true_or_null (some o) = is_true o

  unfoldable pub release_result : Option O → Reference → Run W → Run W
  unfolding release
  release_result none r run = run
  release_result (some o) r run = release r run

  -- The result of the function `execute`, put into the context.
  unfoldable pub put_result : Option O → Option O → Run W → Run W
  unfolding release_result
  put_result result dict run =
      let status = if is_true_or_null result then codes "true" else codes "false" in
      let c1 = put run.context (codes "message") (text (codes "Execution status : " ++ status)) in
      let c2 =
        put c1 (codes "response") (text (get_string_from_dict dict (codes "response") run.world)) in
      release_result result execute_result (record run { context = c2 })

  unfoldable pub call_execute : Option O → O → Option O → Run W → Outcome (Run W)
  call_execute function args dict run =
      if callable_or_null function
      then (let (result, w) = called function args run.world in
          ok (put_result result dict (record run { world = w })))
      else (decref function execute_function run >>= λ r. ok (release module_reference r))

  unfoldable pub call_post_execute : Option O → O → Run W → Outcome (Run W)
  call_post_execute function args run =
      if callable_or_null function
      then (let (result, w) = called function args run.world in
          decref result post_result (record run { world = w }))
      else (decref function post_function run >>= λ r. ok (release module_reference r))

  -- With the result of the function `preExecute`.
  unfoldable pub after_pre_execute :
      Option O → Option O → Option O → O → Option O → Run W → Outcome (Run W)
  after_pre_execute none execute post args dict run = ok run
  after_pre_execute (some result) execute post args dict run =
      let calls = call_execute execute args dict run >>= call_post_execute post args in
      (if is_true result then calls else ok run) >>= λ r. ok (release pre_result r)

  -- The calls of the functions of a module.
  unfoldable pub run_functions :
      Option O → Option O → Option O → O → Option O → Run W → Outcome (Run W)
  run_functions pre execute post args dict run =
      let (result, w) = called pre args run.world in
      if callable_or_null pre
      then after_pre_execute result execute post args dict (record run { world = w })
      else ok run

  -- What is done with a module that was imported.
  unfoldable pub run_module : O → Run W → Outcome (Run W)
  run_module m run =
      let pre = get_attr m (codes "preExecute") run.world in
      let execute = get_attr m (codes "execute") pre.1 in
      let post = get_attr m (codes "postExecute") execute.1 in
      create_execution_context run.context post.1 >>= λ d.
      let args = new_args d.0 d.1 in
      run_functions pre.0 execute.0 post.0 args.0 d.0 (record run { world = args.1 }) >>= λ done.
      ok (release module_reference done)

  unfoldable pub import_and_run : Option O × W → Run W → Outcome (Run W)
  import_and_run (none, w) run = ok (record run { world = w })
  import_and_run (some m, w) run = run_module m (record run { world = w })

  -- The folder of the plugins in the path of Python.
  unfoldable pub prepared : Bytes → W → W
  prepared folder w =
      let path = folder ++ codes "/python-handlers" in
      run_string (codes "sys.path.append(\"" ++ (path ++ codes "\")"))
        (run_string (codes "import sys") w)

  -- Whether Python is initialised is part of the state: `Execute` ends by `Py_FinalizeEx`, and calls
  -- of Python before `Py_Initialize` are undefined behaviour. The folder is an environment variable.
  unfoldable pub execute : Option Bytes → Bytes → Bool → Run W → Outcome (ℤ × Bool × Run W)
  execute none filename initialized run = err runtime_error
  execute (some folder) filename initialized run = do
    require initialized undefined_behaviour
    done ←
        import_and_run (import_module filename (prepared folder run.world))
          (record run { world = prepared folder run.world })
    let (status, w) = finalize done.world
    ok (if ltb_ℤ status (pos 0) then pos 1 else pos 0, false, record done { world = w })
