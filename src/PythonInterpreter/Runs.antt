-- ===== src/PythonInterpreter/Runs.antt =====
-- What a run of a Python command does to the context and to the references.
use asabru_commons.Base.{
  ◌+◌, ◌≡◌, subst, refl, Bool, Option, none, some, [], ◌∷◌, Bytes, if◌then◌else◌, ok,
  undefined_behaviour, require, ◌>>=◌, >>=-eq-ok, arith, Bool-cases, inl, inr,
}
use asabru_commons.Base.Int.{ℤ}
use asabru_commons.PythonInterpreter.{
  Python, Reference, module_reference, pre_result, execute_function, post_function, post_result,
  Run, release, decref, put_result, call_execute, call_post_execute, after_pre_execute,
  run_functions, run_module, prepared, import_and_run, execute, create_execution_context,
}
use asabru_commons.PythonInterpreter.Keeps.{
  releases, references, IsOther, Keeps, uncallable, uncallables, put_result-Keeps, Keeps-trans,
  Keeps-wider, release-Keeps,
}

module _ {O W : Type 0} (python : Python O W) where
  module _ (key : Bytes) (other : IsOther python key) where
    -- Without a function to call, `Execute` releases the attribute and the module.
    released_twice :
        (r : Reference) (run : Run W) {run' : Run W}
        → releases (r ∷ []) ≡ 0
        → ok (release module_reference (release r run)) ≡ ok run'
        → Keeps python key 0 1 run run'
    unfolding release
    released_twice r run {run'} none_yet e =
        let same : release module_reference (release r run) ≡ run' = cc in
        subst (Keeps python key 0 1 run) same (
          Keeps-trans python key 0 0 0 1 run (release r run)
            (release module_reference (release r run))
            (rw none_yet at (release-Keeps python key r run))
            (later (release-Keeps python key module_reference (release r run))))
      where
        later :
            Keeps python key 1 1 (release r run) (release module_reference (release r run))
            → Keeps python key 0 1 (release r run) (release module_reference (release r run))
        later (h, l, u) = (h, omega arith, u)

    call_execute-Keeps :
        (f : Option O) (args : O) (dict : Option O) (run : Run W) {run' : Run W}
        → call_execute python f args dict run ≡ ok run'
        → Keeps python key 0 (uncallable python f) run run'
    unfolding call_execute decref
    call_execute-Keeps none args dict run e = absurd (cc)
    call_execute-Keeps (some f) args dict run {run'} e = elim (Bool-cases (python.is_callable f)) [
      | inl callable ↦
          let (result, w) = python.call f args run.world in
          let same : put_result python (python.call f args run.world).0 dict
                (record run { world = (python.call f args run.world).1 })
              ≡ run' =
            ground (arith, callable) in
          rw callable (
            subst (Keeps python key 0 0 run) same (
              put_result-Keeps python key (python.call f args run.world).0 dict
                (record run { world = (python.call f args run.world).1 }) other))
      | inr stiff ↦ rw stiff (released_twice execute_function run refl (rw stiff at e))
    ]

    decref-Keeps :
        (o : Option O) (run : Run W) {run' : Run W}
        → decref o post_result run ≡ ok run'
        → Keeps python key 0 0 run run'
    unfolding decref release
    decref-Keeps none run e = absurd (cc)
    decref-Keeps (some o) run {run'} e =
        let same : release post_result run ≡ run' = cc in
        subst (Keeps python key 0 0 run) same (release-Keeps python key post_result run)

    call_post_execute-Keeps :
        (f : Option O) (args : O) (run : Run W) {run' : Run W}
        → call_post_execute python f args run ≡ ok run'
        → Keeps python key 0 (uncallable python f) run run'
    unfolding call_post_execute decref
    call_post_execute-Keeps none args run e = absurd (cc)
    call_post_execute-Keeps (some f) args run {run'} e = elim (Bool-cases (python.is_callable f)) [
      | inl callable ↦ rw callable (
          decref-Keeps (python.call f args run.world).0
            (record run { world = (python.call f args run.world).1 }) (rw callable at e))
      | inr stiff ↦ rw stiff (released_twice post_function run refl (rw stiff at e))
    ]

    calls-Keeps :
        (exec post : Option O) (args : O) (dict : Option O) (run : Run W) {run' : Run W}
        → (call_execute python exec args dict run >>= call_post_execute python post args) ≡ ok run'
        → Keeps python key 0 (uncallable python exec + uncallable python post) run run'
    calls-Keeps exec post args dict run {run'} e =
        let (r, first, second) = >>=-eq-ok (call_execute python exec args dict run) _ e in
        Keeps-trans python key 0 (uncallable python exec) 0 (uncallable python post) run r run'
          (call_execute-Keeps exec args dict run first) (call_post_execute-Keeps post args r second)

    after_pre_execute-Keeps :
        (result exec post : Option O) (args : O) (dict : Option O) (run : Run W) {run' : Run W}
        → after_pre_execute python result exec post args dict run ≡ ok run'
        → Keeps python key 0 (uncallable python exec + uncallable python post) run run'
    unfolding after_pre_execute
    after_pre_execute-Keeps none exec post args dict run {run'} e =
        let same : run ≡ run' = cc in
        subst (Keeps python key 0 _ run) same (refl, omega arith, omega arith)
    after_pre_execute-Keeps (some result) exec post args dict run {run'} e =
        let most = uncallable python exec + uncallable python post in
        let calls = call_execute python exec args dict run >>= call_post_execute python post args in
        let (r, inner, done) = >>=-eq-ok (if python.is_true result then calls else ok run) _ e in
        let same : release pre_result r ≡ run' = cc in
        let kept : Keeps python key 0 most run r = elim (Bool-cases (python.is_true result)) [
          | inl holds ↦ calls-Keeps exec post args dict run (rw holds at inner)
          | inr fails ↦
              let unchanged : run ≡ r = ground (arith, fails) in
              subst (Keeps python key 0 most run) unchanged (refl, omega arith, omega arith)
        ] in
        subst (Keeps python key 0 most run) same (
          Keeps-wider python key 0 (most + 0) most run (release pre_result r) (omega arith) (
            Keeps-trans python key 0 most 0 0 run r (release pre_result r) kept
              (release-Keeps python key pre_result r)))

    run_functions-Keeps :
        (pre exec post : Option O) (args : O) (dict : Option O) (run : Run W) {run' : Run W}
        → run_functions python pre exec post args dict run ≡ ok run'
        → Keeps python key 0 (uncallable python exec + uncallable python post) run run'
    unfolding run_functions
    run_functions-Keeps none exec post args dict run {run'} e =
        let same : run ≡ run' = cc in
        subst (Keeps python key 0 _ run) same (refl, omega arith, omega arith)
    run_functions-Keeps (some pre) exec post args dict run {run'} e =
        elim (Bool-cases (python.is_callable pre)) [
          | inl callable ↦
              after_pre_execute-Keeps (python.call pre args run.world).0 exec post args dict
                (record run { world = (python.call pre args run.world).1 }) (rw callable at e)
          | inr stiff ↦
              let same : run ≡ run' = ground (arith, stiff) in
              subst (Keeps python key 0 _ run) same (refl, omega arith, omega arith)
        ]

    run_module-Keeps :
        (m : O) (run : Run W) {run' : Run W}
        → run_module python m run ≡ ok run'
        → Keeps python key 1 (1 + uncallables python (some m, run.world)) run run'
    unfolding run_module
    run_module-Keeps m run {run'} e =
        let (d, made, e1) = >>=-eq-ok (create_execution_context python run.context _) _ e in
        let (r, inner, e2) = >>=-eq-ok (run_functions python _ _ _ _ _ _) _ e1 in
        let same : release module_reference r ≡ run' = cc in
        let most = uncallables python (some m, run.world) in
        subst (Keeps python key 1 (1 + most) run) same (
          Keeps-wider python key 1 (most + 1) (1 + most) run (release module_reference r)
            (omega arith)
            (Keeps-trans python key 0 most 1 1 run r (release module_reference r)
              (run_functions-Keeps _ _ _ _ _ _ inner)
              (release-Keeps python key module_reference r)))

    import_and_run-Keeps :
        (m : Option O) (w : W) (run : Run W) {run' : Run W}
        → import_and_run python (m, w) run ≡ ok run'
        → Keeps python key
            (references python m)
            (references python m + uncallables python (m, w))
            run
            run'
    unfolding import_and_run
    import_and_run-Keeps none w run {run'} e =
        let same : record run { world = w } ≡ run' = cc in
        subst (Keeps python key 0 0 run) same (refl, omega arith, omega arith)
    import_and_run-Keeps (some m) w run e = run_module-Keeps m (record run { world = w }) e

    -- When `Execute` returns, the context holds what it held under every key but `message` and
    -- `response`. If the module was imported, it was released at least once, and at most once more for
    -- each of its attributes `execute` and `postExecute` that cannot be called; else it was not released.
    pub execute-Keeps :
        (folder filename : Bytes) (initialized : Bool) (run : Run W) {status : ℤ} {left : Bool}
        {run' : Run W}
        → execute python (some folder) filename initialized run ≡ ok (status, left, run')
        → Keeps python key
            (references python (python.import_module filename (prepared python folder run.world)).0)
            (references python (python.import_module filename (prepared python folder run.world)).0
              + uncallables python
                  (python.import_module filename (prepared python folder run.world)))
            run
            run'
    unfolding execute
    execute-Keeps folder filename initialized run {status} {left} {run'} e =
        let w = prepared python folder run.world in
        let m = python.import_module filename w in
        let (u, ready, e1) = >>=-eq-ok (require initialized undefined_behaviour) _ e in
        let (r, inner, e2) = >>=-eq-ok (import_and_run python m (record run { world = w })) _ e1 in
        let same : record r { world = (python.finalize r.world).1 } ≡ run' = cc in
        subst
          (Keeps python key (references python m.0) (references python m.0 + uncallables python m)
            run)
          same (import_and_run-Keeps m.0 m.1 (record run { world = w }) inner)
