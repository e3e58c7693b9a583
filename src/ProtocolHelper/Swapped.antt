-- ===== src/ProtocolHelper/Swapped.antt =====
-- The bytes of numbers, and what the two byte orders make of them.
use asabru_commons.Base.{
  ℕ, zero, suc, ◌+◌, ◌*◌, ◌/◌, ◌%◌, ◌^◌, ◌<◌, ◌≡◌, refl, ap, List, [], ◌∷◌, ◌++◌, Bytes, length,
  reverse, All, All-append, length-append, arith,
}
use mathlib.Core.List.{reverse-cons, reverse-reverse}
use native.Mathlib.Nat.{pow-suc}
use asabru_commons.ProtocolHelper.Endian.{
  ByteOrder, little_endian, big_endian, value, digits, load, bswap, letoh, betoh,
}

abbrev pub IsByte : ℕ → Type 0
IsByte b = b < 256

pub length-digits : (n x : ℕ) → length (digits n x) ≡ n
unfolding digits
length-digits zero x = refl
length-digits (suc n) x = ap suc (length-digits n (x / 256))

pub digits-IsByte : (n x : ℕ) → All IsByte (digits n x)
unfolding digits
digits-IsByte zero x = tt
digits-IsByte (suc n) x = (omega arith, digits-IsByte n (x / 256))

pub digits-value : (bs : Bytes) → All IsByte bs → digits (length bs) (value bs) ≡ bs
unfolding digits value
digits-value [] h = refl
digits-value (b ∷ bs) h = rw (low, high, digits-value bs h.1) refl
  where
    low : (b + 256 * value bs) % 256 ≡ b
    low = let k : b < 256 = h.0 in omega arith

    high : (b + 256 * value bs) / 256 ≡ value bs
    high = let k : b < 256 = h.0 in omega arith

pub length-reverse {ℓ} : {A : Type ℓ} (xs : List A) → length (reverse xs) ≡ length xs
length-reverse [] = refl
length-reverse (x ∷ xs) =
    rw (reverse-cons x xs, length-append (reverse xs) (x ∷ []), length-reverse xs) (omega arith)

pub reverse-All {ℓ κ} : {A : Type ℓ} (P : A → Type κ) (xs : List A) → All P xs → All P (reverse xs)
reverse-All P [] h = tt
reverse-All P (x ∷ xs) h =
    rw (reverse-cons x xs) (All-append P (reverse xs) (x ∷ []) (reverse-All P xs h.1) (h.0, tt))

bswap-value : (bs : Bytes) → All IsByte bs → bswap (length bs) (value bs) ≡ value (reverse bs)
unfolding bswap
bswap-value bs h = rw (digits-value bs h)

bswap-value-reverse :
    (bs : Bytes) → All IsByte bs → bswap (length bs) (value (reverse bs)) ≡ value bs
bswap-value-reverse bs h =
    rw (← length-reverse bs, bswap-value (reverse bs) (reverse-All IsByte bs h), reverse-reverse bs)

-- On either host the conversions give the number of the bytes, in the order of the wire.
pub letoh-load :
    (host : ByteOrder) (bs : Bytes)
    → All IsByte bs
    → letoh host (length bs) (load host bs) ≡ value bs
unfolding letoh load
letoh-load little_endian bs h = refl
letoh-load big_endian bs h = bswap-value-reverse bs h

pub betoh-load :
    (host : ByteOrder) (bs : Bytes)
    → All IsByte bs
    → betoh host (length bs) (load host bs) ≡ value (reverse bs)
unfolding betoh load
betoh-load little_endian bs h = bswap-value bs h
betoh-load big_endian bs h = refl

-- The bytes of a number that is sent with the highest first.
pub betoh-load-reverse :
    (host : ByteOrder) (bs : Bytes)
    → All IsByte bs
    → betoh host (length bs) (load host (reverse bs)) ≡ value bs
betoh-load-reverse host bs h = rw (
  ← length-reverse bs,
  betoh-load host (reverse bs) (reverse-All IsByte bs h),
  reverse-reverse bs,
)

pub value-lt : (bs : Bytes) → All IsByte bs → value bs < 256 ^ length bs
unfolding value
value-lt [] h = omega arith
value-lt (b ∷ bs) h =
    let k : b < 256 = h.0 in let ih = value-lt bs h.1 in omega (arith, pow-suc 256 (length bs))

-- The digits of a number stand for it, as far as they go.
pub value-digits2 : (x : ℕ) → value (digits 2 x) ≡ x % 2 ^ 16
unfolding value digits
value-digits2 x = omega arith

pub value-digits3 : (x : ℕ) → value (digits 3 x ++ 0 ∷ []) ≡ x % 2 ^ 24
unfolding value digits
value-digits3 x = omega arith

pub value-digits4 : (x : ℕ) → value (digits 4 x) ≡ x % 2 ^ 32
unfolding value digits
value-digits4 x = omega arith

pub value-digits8 : (x : ℕ) → value (digits 8 x) ≡ x % 2 ^ 64
unfolding value digits
value-digits8 x = omega arith
