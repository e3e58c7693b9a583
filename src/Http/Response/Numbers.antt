-- ===== src/Http/Response/Numbers.antt =====
-- Numbers that were printed in decimal, read from a stream.
use asabru_commons.Base.Int.{pos}
use asabru_commons.Base.{ℕ, ◌<◌, ◌≤◌, ◌^◌, ◌≡◌, refl, ◌∷◌, ◌++◌, Bytes, true, false, lt→ltb, arith}
use asabru_commons.Strings.{is_good, is_empty}
use asabru_commons.Strings.Lines.{good_stream}
use asabru_commons.Strings.Decimal.{decimal, is_digit, take_digits, value}
use asabru_commons.Strings.Decimal.Read.{IsDigits, IsStop, take_digits-append, decimal-HasDigits}
use asabru_commons.Http.Response.{int_of, signed, skip_white, extract_int}

digit_bounds : (c : ℕ) → is_digit c ≡ true → (b'0' ≤ c) × (c ≤ b'9')
unfolding is_digit
digit_bounds c h = ground arith

int_of_digits :
    (c : ℕ) (ds s : Bytes) (n : ℕ)
    → value 0 (c ∷ ds) ≡ n
    → n < 2 ^ 31
    → int_of false (c ∷ ds, s) ≡ (pos n, record { rest = s; eof = is_empty s; fail = false })
unfolding int_of
int_of_digits c ds s n e lt = rw (e, lt→ltb n (2 ^ 31) lt) refl

signed_digits :
    (c : ℕ) (ds s : Bytes)
    → IsDigits (c ∷ ds)
    → IsStop s
    → signed ((c ∷ ds) ++ s) ≡ int_of false (c ∷ ds, s)
unfolding signed
signed_digits c ds s h k =
    let (low, high) = digit_bounds c h.0 in
    let e : take_digits (c ∷ (ds ++ s)) ≡ (c ∷ ds, s) = take_digits-append (c ∷ ds) s h k in
    rw e (ground arith)

skip_white_digit : (c : ℕ) (s : Bytes) → is_digit c ≡ true → skip_white (c ∷ s) ≡ c ∷ s
unfolding skip_white
skip_white_digit c s h = let (low, high) = digit_bounds c h in ground arith

-- A number that fits an `int`, at the head of what is left of a stream.
pub extract_int-decimal :
    (n : ℕ) (s : Bytes)
    → n < 2 ^ 31
    → IsStop s
    → extract_int (good_stream (decimal n ++ s))
      ≡ (pos n, record { rest = s; eof = is_empty s; fail = false })
unfolding extract_int is_good
extract_int-decimal n s lt k =
    let d = decimal-HasDigits n in
    rw
      (
        d.shape,
        skip_white_digit d.head (d.tail ++ s) d.all.0,
        signed_digits d.head d.tail s d.all k,
      )
      (int_of_digits d.head d.tail s n d.worth lt)

pub extract_int_space :
    (s : Bytes) → extract_int (good_stream (b' ' ∷ s)) ≡ extract_int (good_stream s)
unfolding extract_int is_good skip_white
extract_int_space s = refl
