-- ===== src/Base/Text.antt =====
-- `std::string` as the list of its bytes.
use Prim.Native.Nat.{ℕ}
use Prim.Native.Char.{code}
use Prim.Native.String.{String}
use mathlib.Core.Path.{◌≡◌, refl}
use mathlib.Core.Logic.{◌↔◌, ◌≢◌}
use mathlib.Core.Bool.{Bool, true, false, ◌&&◌}
use mathlib.Core.List.{List, [], ◌∷◌}
use native.Mathlib.Omega.{arith}
use asabru_commons.Base.Tests.{◌==◌}

abbrev pub Bytes : Type 0
Bytes = List ℕ

-- The code points of a literal; these are its bytes when the text is ASCII.
abbrev pub codes : String → Bytes
codes String.[] = []
codes (String.◌∷◌ c s) = code c ∷ codes s

-- `operator==` of two strings.
unfoldable pub str_eq : Bytes → Bytes → Bool
str_eq [] [] = true
str_eq [] (d ∷ t) = false
str_eq (c ∷ s) [] = false
str_eq (c ∷ s) (d ∷ t) = c == d && str_eq s t

pub str_eq_iff : (s t : Bytes) → (str_eq s t ≡ true) ↔ (s ≡ t)
unfolding str_eq
str_eq_iff [] [] = ground arith
str_eq_iff [] (d ∷ t) = ground arith
str_eq_iff (c ∷ s) [] = ground arith
str_eq_iff (c ∷ s) (d ∷ t) = ground (arith, str_eq_iff s t)

pub str_eq_self : (s : Bytes) → str_eq s s ≡ true
str_eq_self s = (str_eq_iff s s).1 refl

-- No byte of the text is `b`.
abbrev pub Lacks : ℕ → Bytes → Type 0
Lacks b [] = Unit
Lacks b (c ∷ s) = (c ≢ b) × Lacks b s
