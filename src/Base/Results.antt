-- ===== src/Base/Results.antt =====
-- The ways a C++ call ends: a value, an exception that is thrown, or undefined behaviour.
use mathlib.Core.Path.{◌≡◌, refl}
use mathlib.Core.Logic.{◌⊎◌, inl, inr}
use mathlib.Core.Bool.{Bool, true, false}

-- The exceptions of the modelled code, by their class, the undefined behaviour it can reach, and
-- `exit(1)`.
pub data Failure : Type 0 where
  invalid_argument logic_error out_of_range runtime_error bad_any_cast : Failure
  json_error undefined_behaviour exit_failure : Failure

pub data Outcome {ℓ} (A : Type ℓ) : Type ℓ where
  ok : A → Outcome A
  err : Failure → Outcome A

-- `if (!b) fail`.
abbrev pub require : Bool → Failure → Outcome (Unit {0})
require false failure = err failure
require true failure = ok tt

module _ {ℓ κ} {A : Type ℓ} {B : Type κ} where
  infixl 5 ◌>>=◌
  -- What follows runs on a value only.
  abbrev pub ◌>>=◌ : Outcome A → (A → Outcome B) → Outcome B
  err failure >>= next = err failure
  ok value >>= next = next value

  pub >>=-eq-ok :
      (m : Outcome A) (next : A → Outcome B) {b : B}
      → (m >>= next) ≡ ok b
      → (a : A) × (m ≡ ok a) × (next a ≡ ok b)
  >>=-eq-ok (ok value) next h = (value, refl, h)
  >>=-eq-ok (err failure) next h = cc

pub Outcome-cases {ℓ} :
    {A : Type ℓ} (m : Outcome A) → ((e : Failure) × (m ≡ err e)) ⊎ ((a : A) × (m ≡ ok a))
Outcome-cases (ok a) = inr (a, refl)
Outcome-cases (err e) = inl (e, refl)

infixl 5 ◌>>◌
abbrev pub ◌>>◌ {ℓ} : {B : Type ℓ} → Outcome (Unit {0}) → Outcome B → Outcome B
check >> rest = check >>= λ _. rest

module _ {ℓ κ} {A : Type ℓ} {B : Type κ} where
  -- The same value or failure, followed by steps that agree.
  pub >>=-ext :
      (m : Outcome A) {f g : A → Outcome B} → ((a : A) → f a ≡ g a) → (m >>= f) ≡ (m >>= g)
  >>=-ext (ok a) h = h a
  >>=-ext (err e) h = refl

pub >>=-assoc {ℓ κ μ} :
    {A : Type ℓ} {B : Type κ} {C : Type μ} (m : Outcome A) (f : A → Outcome B) (g : B → Outcome C)
    → ((m >>= f) >>= g) ≡ (m >>= λ a. f a >>= g)
>>=-assoc (ok a) f g = refl
>>=-assoc (err e) f g = refl
