-- ===== src/Strings/Decimal/Read.antt =====
-- The digits of `decimal` are read back.
use asabru_commons.Base.{
  ℕ, zero, suc, ◌+◌, ◌/◌, ◌%◌, ◌<◌, ◌≡◌, refl, ◌∙◌, ap, [], ◌∷◌, ◌++◌, Bytes, true, false, ltb, All,
  arith, Bool-cases, inl, inr, ltb→lt,
}
use asabru_commons.Strings.Decimal.{digits, decimal, is_digit, take_digits, value}

abbrev pub IsDigits : Bytes → Type 0
IsDigits = All (λ c. is_digit c ≡ true)

-- The end of a text, or a byte that is not a digit.
abbrev pub IsStop : Bytes → Type 0
IsStop [] = Unit
IsStop (c ∷ s) = is_digit c ≡ false

pub take_digits-append : (ds s : Bytes) → IsDigits ds → IsStop s → take_digits (ds ++ s) ≡ (ds, s)
unfolding take_digits
take_digits-append [] [] h k = refl
take_digits-append [] (c ∷ s) h k = rw k refl
take_digits-append (d ∷ ds) s h k = rw (take_digits-append ds s h.1 k, h.0) refl

digit-is_digit : (n : ℕ) → n < 10 → is_digit (b'0' + n) ≡ true
unfolding is_digit
digit-is_digit n h = ground arith

digits-IsDigits : (fuel n : ℕ) (out : Bytes) → IsDigits out → IsDigits (digits fuel n out)
unfolding digits
digits-IsDigits zero n out h = h
digits-IsDigits (suc fuel) n out h = elim (Bool-cases (ltb n 10)) [
  | inl small ↦ rw small (digit-is_digit n (ltb→lt n 10 small), h)
  | inr large ↦ rw large (
      digits-IsDigits fuel (n / 10) ((b'0' + n % 10) ∷ out)
        (digit-is_digit (n % 10) (omega arith), h))
]

digits-cons :
    (fuel n : ℕ) (out : Bytes) → n < fuel → (c : ℕ) × (ds : Bytes) × (digits fuel n out ≡ c ∷ ds)
unfolding digits
digits-cons zero n out h = absurd (omega arith)
digits-cons (suc fuel) n out h = elim (Bool-cases (ltb n 10)) [
  | inl small ↦ (b'0' + n, out, rw small refl)
  | inr large ↦
      let (c, ds, e) = digits-cons fuel (n / 10) ((b'0' + n % 10) ∷ out) (ground arith) in
      (c, ds, rw large e)
]

value-digits : (fuel n : ℕ) (out : Bytes) → n < fuel → value 0 (digits fuel n out) ≡ value n out
unfolding digits value
value-digits zero n out h = absurd (omega arith)
value-digits (suc fuel) n out h = elim (Bool-cases (ltb n 10)) [
  | inl small ↦ rw small (ap (λ (m : ℕ). value m out) (omega arith))
  | inr large ↦ rw large (
      value-digits fuel (n / 10) ((b'0' + n % 10) ∷ out) (ground arith)
      ∙ ap (λ (m : ℕ). value m out) (omega arith))
]

-- The decimal digits of a number: at least one, and they stand for the number.
pub record HasDigits (n : ℕ) : Type 0 where
  pub head : ℕ
  pub tail : Bytes
  pub shape : decimal n ≡ head ∷ tail
  pub all : IsDigits (head ∷ tail)
  pub worth : value 0 (head ∷ tail) ≡ n

pub decimal-HasDigits : (n : ℕ) → HasDigits n
unfolding decimal
decimal-HasDigits n =
    let (c, ds, e) = digits-cons (suc n) n [] (omega arith) in
    record {
      head = c;
      tail = ds;
      shape = e;
      all = rw e at (digits-IsDigits (suc n) n [] tt);
      worth = (rw e at (value-digits (suc n) n [] (omega arith))) ∙ unfold value in refl;
    }
