-- ===== src/PythonInterpreter/Twice.antt =====
-- A second call of `Execute`.
use asabru_commons.Base.{
  ◌≡◌, refl, Bool, false, some, Bytes, ok, err, undefined_behaviour, require, >>=-eq-ok,
}
use asabru_commons.Base.Int.{ℤ}
use asabru_commons.PythonInterpreter.{Python, Run, prepared, import_and_run, execute}

module _ {O W : Type 0} (python : Python O W) where
  -- After `Execute` has returned, a second call is undefined behaviour.
  pub execute_twice :
      (folder folder' filename filename' : Bytes) (initialized : Bool) (run other_run : Run W)
      {status : ℤ} {left : Bool} {run' : Run W}
      → execute python (some folder) filename initialized run ≡ ok (status, left, run')
      → execute python (some folder') filename' left other_run ≡ err undefined_behaviour
  unfolding execute
  execute_twice folder folder' filename filename' initialized run other_run {status} {left} {run'}
        e =
      let w = prepared python folder run.world in
      let (u, ready, e1) = >>=-eq-ok (require initialized undefined_behaviour) _ e in
      let (r, inner, e2) =
        >>=-eq-ok
          (import_and_run python (python.import_module filename w) (record run { world = w })) _
          e1 in
      let closed : false ≡ left = cc in rw (← closed) refl
