-- ===== src/ProtocolHelper/Word.antt =====
-- The words that the readers load, and their sizes.
use asabru_commons.Base.{
  ℕ, zero, suc, ◌^◌, ◌<◌, ◌≤◌, ◌≡◌, refl, ap, subst, ◌∙◌, [], ◌∷◌, ◌++◌, Bytes, length, take, drop,
  replicate, reverse, length-append, length-take, length-drop, length-replicate, ok, >>=-eq-ok,
  arith, All, All-append, append-nil, List,
}
use asabru_commons.Base.Int.{ℤ, to_size}
use asabru_commons.Strings.{substr}
use asabru_commons.Strings.Memory.{c_str, memcpy}
use asabru_commons.ProtocolHelper.{fetch}
use asabru_commons.ProtocolHelper.Endian.{
  ByteOrder, little_endian, big_endian, value, digits, load, bswap, letoh, betoh,
}
use asabru_commons.ProtocolHelper.Swapped.{
  IsByte, value-lt, letoh-load, length-reverse, reverse-All, length-digits, digits-IsByte,
}

module _ {ℓ κ} {A : Type ℓ} (P : A → Type κ) where
  take-All : (n : ℕ) (xs : List A) → All P xs → All P (take n xs)
  take-All zero xs h = tt
  take-All (suc n) [] h = tt
  take-All (suc n) (x ∷ xs) h = (h.0, take-All n xs h.1)

  drop-All : (n : ℕ) (xs : List A) → All P xs → All P (drop n xs)
  drop-All zero xs h = h
  drop-All (suc n) [] h = tt
  drop-All (suc n) (x ∷ xs) h = drop-All n xs h.1

zeros-IsByte : (n : ℕ) → All IsByte (replicate n 0)
zeros-IsByte zero = tt
zeros-IsByte (suc n) = (omega arith, zeros-IsByte n)

-- The memory of a word of `n` bytes.
abbrev pub IsWord : ℕ → Bytes → Type 0
IsWord n bs = (length bs ≡ n) × All IsByte bs

pub memcpy-IsWord :
    (dst src : Bytes) (n : ℕ) {bs : Bytes}
    → All IsByte dst
    → All IsByte src
    → memcpy dst src n ≡ ok bs
    → IsWord (length dst) bs
unfolding memcpy
memcpy-IsWord dst src n {bs} hd hs e = subst (IsWord (length dst)) sameness (
  size,
  All-append IsByte (take n src) (drop n dst) (take-All IsByte n src hs) (drop-All IsByte n dst hd),
)
  where
    sameness : take n src ++ drop n dst ≡ bs
    sameness = ground arith

    size : length (take n src ++ drop n dst) ≡ length dst
    size =
        ground
          (arith, length-append (take n src) (drop n dst), length-take n src, length-drop n dst)

memcpy-eq :
    (dst src : Bytes) (n : ℕ) {bs : Bytes}
    → memcpy dst src n ≡ ok bs
    → bs ≡ take n src ++ drop n dst
unfolding memcpy
memcpy-eq dst src n e = ground arith

pub substr-eq : (s : Bytes) (i n : ℕ) {bs : Bytes} → substr s i n ≡ ok bs → take n (drop i s) ≡ bs
unfolding substr
substr-eq s i n e = ground arith

pub substr-IsByte :
    (s : Bytes) (i n : ℕ) {bs : Bytes} → All IsByte s → substr s i n ≡ ok bs → All IsByte bs
substr-IsByte s i n h e =
    subst (All IsByte) (substr-eq s i n e) (take-All IsByte n (drop i s) (drop-All IsByte i s h))

c_str-IsByte : (s : Bytes) → All IsByte s → All IsByte (c_str s)
c_str-IsByte s h = All-append IsByte s (0 ∷ []) h (omega arith, tt)

pub fetch-IsWord :
    (width : ℕ) (buffer : Bytes) (start n : ℤ) {bs : Bytes}
    → All IsByte buffer
    → fetch width buffer start n ≡ ok bs
    → IsWord width bs
unfolding fetch
fetch-IsWord width buffer start n {bs} h e =
    let (text, read, copied) = >>=-eq-ok (substr buffer (to_size start) (to_size n)) _ e in
    subst (λ k. IsWord k bs) (length-replicate {A = ℕ} width 0)
      (memcpy-IsWord (replicate width 0) (c_str text) (to_size n) (zeros-IsByte width)
        (c_str-IsByte text (substr-IsByte buffer (to_size start) (to_size n) h read)) copied)

pub load-lt : (host : ByteOrder) (bs : Bytes) → All IsByte bs → load host bs < 256 ^ length bs
unfolding load
load-lt little_endian bs h = value-lt bs h
load-lt big_endian bs h =
    subst (λ n. value (reverse bs) < 256 ^ n) (length-reverse bs)
      (value-lt (reverse bs) (reverse-All IsByte bs h))

bswap-lt : (width x : ℕ) → bswap width x < 256 ^ width
unfolding bswap
bswap-lt width x =
    subst (λ n. value (reverse (digits width x)) < 256 ^ n)
      (length-reverse (digits width x) ∙ length-digits width x)
      (value-lt (reverse (digits width x))
        (reverse-All IsByte (digits width x) (digits-IsByte width x)))

pub letoh-lt : (host : ByteOrder) (width x : ℕ) → x < 256 ^ width → letoh host width x < 256 ^ width
unfolding letoh
letoh-lt little_endian width x h = h
letoh-lt big_endian width x h = bswap-lt width x

pub betoh-lt : (host : ByteOrder) (width x : ℕ) → x < 256 ^ width → betoh host width x < 256 ^ width
unfolding betoh
betoh-lt little_endian width x h = bswap-lt width x
betoh-lt big_endian width x h = h

value-append_zero : (bs : Bytes) → value (bs ++ 0 ∷ []) ≡ value bs
unfolding value
value-append_zero [] = refl
value-append_zero (b ∷ bs) = omega (arith, value-append_zero bs)

value-take : (n : ℕ) (bs : Bytes) → value (take n bs) ≤ value bs
unfolding value
value-take zero bs = omega arith
value-take (suc n) [] = omega arith
value-take (suc n) (b ∷ bs) = omega (arith, value-take n bs)

value_of_three : (bs : Bytes) → length bs ≤ 3 → All IsByte bs → value bs < 2 ^ 24
value_of_three [] h k = omega (arith, value-lt [] k)
value_of_three (a ∷ []) h k = omega (arith, value-lt (a ∷ []) k)
value_of_three (a ∷ b ∷ []) h k = omega (arith, value-lt (a ∷ b ∷ []) k)
value_of_three (a ∷ b ∷ c ∷ []) h k = omega (arith, value-lt (a ∷ b ∷ c ∷ []) k)
value_of_three (a ∷ b ∷ c ∷ d ∷ bs) h k = absurd (omega arith)

-- Three bytes and the null bytes behind them, copied to a word.
pub padded-lt :
    (host : ByteOrder) (text : Bytes) {bs : Bytes}
    → length text ≤ 3
    → All IsByte text
    → memcpy (replicate 4 0) (c_str (text ++ 0 ∷ [])) 4 ≡ ok bs
    → letoh host 4 (load host bs) < 2 ^ 24
padded-lt host text {bs} short h e =
    subst (λ k. letoh host k (load host bs) < 2 ^ 24) word.0
      (rw (letoh-load host bs word.1) (
        omega (
          arith,
          ap value copied,
          value-take 4 padded,
          value-append_zero (text ++ 0 ∷ []),
          value-append_zero text,
          value_of_three text short h,
        )))
  where
    padded : Bytes
    padded = c_str (text ++ 0 ∷ [])

    bytes : All IsByte padded
    bytes = c_str-IsByte (text ++ 0 ∷ []) (c_str-IsByte text h)

    word : IsWord 4 bs
    word = memcpy-IsWord (replicate 4 0) padded 4 (zeros-IsByte 4) bytes e

    copied : bs ≡ take 4 padded
    copied = memcpy-eq (replicate 4 0) padded 4 e ∙ append-nil (take 4 padded)
