-- ===== src/Strings/Decimal.antt =====
-- `std::to_string` of a size, and the digits that `s >> number` reads.
pub mod Read
use asabru_commons.Base.{
  ℕ, zero, suc, ◌+◌, ◌-◌, ◌*◌, ◌/◌, ◌%◌, Bool, ◌&&◌, [], ◌∷◌, Bytes, leb, ltb, if◌then◌else◌,
}

-- `n` has at most `n + 1` digits, which is the fuel.
digits : ℕ → ℕ → Bytes → Bytes
digits zero n out = out
digits (suc fuel) n out =
    let rest = digits fuel (n / 10) ((b'0' + n % 10) ∷ out) in
    if ltb n 10 then (b'0' + n) ∷ out else rest

unfoldable pub decimal : ℕ → Bytes
unfolding digits
decimal n = digits (suc n) n []

unfoldable pub is_digit : ℕ → Bool
is_digit c = leb b'0' c && leb c b'9'

-- The digits at the head of a text, and what follows them.
unfoldable pub take_digits : Bytes → Bytes × Bytes
unfolding is_digit
take_digits [] = ([], [])
take_digits (c ∷ s) =
    let rest = take_digits s in if is_digit c then (c ∷ rest.0, rest.1) else ([], c ∷ s)

unfoldable pub value : ℕ → Bytes → ℕ
value n [] = n
value n (c ∷ s) = value (n * 10 + (c - b'0')) s
