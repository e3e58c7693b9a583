-- ===== src/PythonInterpreter/Keeps.antt =====
-- What is kept of the context, and how often references are released, in a run of a Python command:
-- src/util/PythonInterpreter.cpp.
use asabru_commons.Base.{
  ℕ, suc, ◌+◌, ◌≤◌, ◌≡◌, refl, ◌∙◌, false, Option, none, some, List, [], ◌∷◌, ◌++◌, Bytes, codes,
  str_eq, if◌then◌else◌, arith,
}
use asabru_commons.Commands.Context.{get, get-put_ne}
use asabru_commons.PythonInterpreter.{
  Python, Reference, module_reference, pre_result, execute_function, execute_result, post_function,
  post_result, Run, release, put_result, release_result,
}

-- How often the module was released.
abbrev pub releases : List Reference → ℕ
releases [] = 0
releases (module_reference ∷ rs) = suc (releases rs)
releases (pre_result ∷ rs) = releases rs
releases (execute_function ∷ rs) = releases rs
releases (execute_result ∷ rs) = releases rs
releases (post_function ∷ rs) = releases rs
releases (post_result ∷ rs) = releases rs

releases-append :
    (rs : List Reference) (r : Reference)
    → releases (rs ++ r ∷ []) ≡ releases rs + releases (r ∷ [])
releases-append [] r = omega arith
releases-append (module_reference ∷ rs) r = omega (arith, releases-append rs r)
releases-append (pre_result ∷ rs) r = omega (arith, releases-append rs r)
releases-append (execute_function ∷ rs) r = omega (arith, releases-append rs r)
releases-append (execute_result ∷ rs) r = omega (arith, releases-append rs r)
releases-append (post_function ∷ rs) r = omega (arith, releases-append rs r)
releases-append (post_result ∷ rs) r = omega (arith, releases-append rs r)

module _ {O W : Type 0} (python : Python O W) where
  -- The references to a module that an import gives.
  abbrev pub references : Option O → ℕ
  references none = 0
  references (some m) = 1

  -- A key that a run does not put.
  abbrev pub IsOther : Bytes → Type 0
  IsOther key = (str_eq key (codes "message") ≡ false) × (str_eq key (codes "response") ≡ false)

  -- The run released the module so many times more, at least and at most, and left the other keys.
  abbrev pub Keeps : Bytes → ℕ → ℕ → Run W → Run W → Type 0
  Keeps key least most run run' =
      (get run'.context key ≡ get run.context key)
      × (releases run.released + least ≤ releases run'.released)
      × (releases run'.released ≤ releases run.released + most)

  -- Whether an attribute that was found cannot be called.
  abbrev pub uncallable : Option O → ℕ
  uncallable none = 0
  uncallable (some f) = if python.is_callable f then 0 else 1

  -- The functions `execute` and `postExecute` of a module that cannot be called.
  abbrev pub uncallables : Option O × W → ℕ
  uncallables (none, w) = 0
  uncallables (some m, w) =
      let pre = python.get_attr m (codes "preExecute") w in
      let execute = python.get_attr m (codes "execute") pre.1 in
      let post = python.get_attr m (codes "postExecute") execute.1 in
      uncallable execute.0 + uncallable post.0

  pub put_result-Keeps :
      (key : Bytes) (result dict : Option O) (run : Run W)
      → IsOther key
      → Keeps key 0 0 run (put_result python result dict run)
  unfolding put_result release_result release
  put_result-Keeps key none dict run h = (
    get-put_ne _ (codes "response") key _ h.1 ∙ get-put_ne run.context (codes "message") key _ h.0,
    omega arith,
    omega arith,
  )
  put_result-Keeps key (some o) dict run h = (
    get-put_ne _ (codes "response") key _ h.1 ∙ get-put_ne run.context (codes "message") key _ h.0,
    omega (arith, releases-append run.released execute_result),
    omega (arith, releases-append run.released execute_result),
  )

  pub Keeps-trans :
      (key : Bytes) (m m' n n' : ℕ) (r s t : Run W)
      → Keeps key m m' r s
      → Keeps key n n' s t
      → Keeps key (m + n) (m' + n') r t
  Keeps-trans key m m' n n' r s t (h, l, u) (k, l', u') = (k ∙ h, omega arith, omega arith)

  -- Wider bounds.
  pub Keeps-wider :
      (key : Bytes) (least most more : ℕ) (r s : Run W)
      → most ≤ more
      → Keeps key least most r s
      → Keeps key least more r s
  Keeps-wider key least most more r s le (h, l, u) = (h, l, omega arith)

  pub release-Keeps :
      (key : Bytes) (r : Reference) (run : Run W)
      → Keeps key (releases (r ∷ [])) (releases (r ∷ [])) run (release r run)
  unfolding release
  release-Keeps key r run =
      let e = releases-append run.released r in (refl, omega (arith, e), omega (arith, e))
