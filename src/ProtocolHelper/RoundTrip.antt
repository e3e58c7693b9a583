-- ===== src/ProtocolHelper/RoundTrip.antt =====
-- What the readers of integers and texts read back.
use asabru_commons.Base.{
  ℕ, suc, ◌+◌, ◌%◌, ◌^◌, ◌<◌, ◌≤◌, ◌≡◌, refl, ap, ◌∙◌, true, [], ◌∷◌, ◌++◌, ◌&&◌, Bytes, Lacks,
  length, drop, replicate, leb, lt→ltb, reverse, length-append, length-replicate,
  take-length-append, drop-length-append, ltb, ok, arith,
}
use asabru_commons.Base.Int.{pos, to_size-pos}
use asabru_commons.Strings.Find.{substr_at}
use asabru_commons.Strings.Memory.{c_str, memcpy}
use asabru_commons.ProtocolHelper.{
  fetch, read_int32, read_le_int24, read_le_int64, read_be_int16, read_be_int32, read_be_int64,
  name_from, read_c_string,
}
use asabru_commons.ProtocolHelper.Endian.{ByteOrder, digits}
use asabru_commons.ProtocolHelper.Swapped.{
  digits-IsByte, letoh-load, betoh-load-reverse, value-digits2, value-digits3, value-digits4,
  value-digits8,
}

-- Copying all of a text over a longer variable.
pub memcpy-c_str :
    (dst bs : Bytes)
    → length bs ≤ length dst
    → memcpy dst (c_str bs) (length bs) ≡ ok (bs ++ drop (length bs) dst)
unfolding memcpy
memcpy-c_str dst bs h = rw (take-length-append bs (0 ∷ []), fits) refl
  where
    fits : (leb (length bs) (length (bs ++ 0 ∷ [])) && leb (length bs) (length dst)) ≡ true
    fits = ground (arith, length-append bs (0 ∷ []))

module _ (a rest : Bytes) (small : length a < 2 ^ 31) where
  pub fetch-at :
      (width : ℕ) (bs : Bytes)
      → length bs ≤ width
      → length bs < 2 ^ 64
      → fetch width (a ++ (bs ++ rest)) (pos (length a)) (pos (length bs))
        ≡ ok (bs ++ drop (length bs) (replicate width 0))
  unfolding fetch
  fetch-at width bs h k =
      rw (to_size-pos (length a) (omega arith), to_size-pos (length bs) k, substr_at a bs rest)
        (memcpy-c_str (replicate width 0) bs (rw (length-replicate {A = ℕ} width 0) h))

  read_int32-digits :
      (host : ByteOrder) (x : ℕ)
      → read_int32 host (a ++ (digits 4 x ++ rest)) (pos (length a)) (pos 4) ≡ ok (x % 2 ^ 32)
  unfolding read_int32 digits
  read_int32-digits host x =
      rw (fetch-at 4 (digits 4 x) (omega arith) (omega arith))
        (ap ok (letoh-load host (digits 4 x) (digits-IsByte 4 x) ∙ value-digits4 x))

  read_le_int64-digits :
      (host : ByteOrder) (x : ℕ)
      → read_le_int64 host (a ++ (digits 8 x ++ rest)) (pos (length a)) ≡ ok (x % 2 ^ 64)
  unfolding read_le_int64 digits
  read_le_int64-digits host x =
      rw (fetch-at 8 (digits 8 x) (omega arith) (omega arith))
        (ap ok (letoh-load host (digits 8 x) (digits-IsByte 8 x) ∙ value-digits8 x))

  read_be_int16-digits :
      (host : ByteOrder) (x : ℕ)
      → read_be_int16 host (a ++ (reverse (digits 2 x) ++ rest)) (pos (length a)) ≡ ok (x % 2 ^ 16)
  unfolding read_be_int16 digits
  read_be_int16-digits host x =
      rw (fetch-at 2 (reverse (digits 2 x)) (omega arith) (omega arith))
        (ap ok (betoh-load-reverse host (digits 2 x) (digits-IsByte 2 x) ∙ value-digits2 x))

  read_be_int32-digits :
      (host : ByteOrder) (x : ℕ)
      → read_be_int32 host (a ++ (reverse (digits 4 x) ++ rest)) (pos (length a)) ≡ ok (x % 2 ^ 32)
  unfolding read_be_int32 digits
  read_be_int32-digits host x =
      rw (fetch-at 4 (reverse (digits 4 x)) (omega arith) (omega arith))
        (ap ok (betoh-load-reverse host (digits 4 x) (digits-IsByte 4 x) ∙ value-digits4 x))

  read_be_int64-digits :
      (host : ByteOrder) (x : ℕ)
      → read_be_int64 host (a ++ (reverse (digits 8 x) ++ rest)) (pos (length a)) ≡ ok (x % 2 ^ 64)
  unfolding read_be_int64 digits
  read_be_int64-digits host x =
      rw (fetch-at 8 (reverse (digits 8 x)) (omega arith) (omega arith))
        (ap ok (betoh-load-reverse host (digits 8 x) (digits-IsByte 8 x) ∙ value-digits8 x))

  read_le_int24-digits :
      (host : ByteOrder) (x : ℕ)
      → read_le_int24 host (a ++ (digits 3 x ++ rest)) (pos (length a)) ≡ ok (x % 2 ^ 24)
  unfolding read_le_int24 digits
  read_le_int24-digits host x =
      rw
        (
          to_size-pos (length a) (omega arith),
          substr_at a (digits 3 x) rest,
          memcpy-c_str (replicate 4 0) (digits 3 x ++ 0 ∷ []) (omega arith),
        )
        (ap ok (letoh-load host (digits 3 x ++ 0 ∷ []) (omega arith) ∙ value-digits3 x))

  -- For every host, the readers give back a number from its digits at their place in a packet, the
  -- lowest digit first or the highest first, as far as the digits go.
  pub read-digits :
      (host : ByteOrder) (x : ℕ)
      → (read_int32 host (a ++ (digits 4 x ++ rest)) (pos (length a)) (pos 4) ≡ ok (x % 2 ^ 32))
        × (read_le_int24 host (a ++ (digits 3 x ++ rest)) (pos (length a)) ≡ ok (x % 2 ^ 24))
        × (read_le_int64 host (a ++ (digits 8 x ++ rest)) (pos (length a)) ≡ ok (x % 2 ^ 64))
        × (read_be_int16 host (a ++ (reverse (digits 2 x) ++ rest)) (pos (length a))
            ≡ ok (x % 2 ^ 16))
        × (read_be_int32 host (a ++ (reverse (digits 4 x) ++ rest)) (pos (length a))
            ≡ ok (x % 2 ^ 32))
        × (read_be_int64 host (a ++ (reverse (digits 8 x) ++ rest)) (pos (length a))
            ≡ ok (x % 2 ^ 64))
  read-digits host x = (
    read_int32-digits host x,
    read_le_int24-digits host x,
    read_le_int64-digits host x,
    read_be_int16-digits host x,
    read_be_int32-digits host x,
    read_be_int64-digits host x,
  )

name_from-text :
    (i : ℕ) (s rest : Bytes)
    → Lacks 0 s
    → i + length s < 2 ^ 31
    → name_from i (s ++ 0 ∷ rest) ≡ ok s
unfolding name_from
name_from-text i [] rest h k = refl
name_from-text i (c ∷ s) rest h k =
    ground (
      arith,
      name_from-text (suc i) s rest h.1 (omega arith),
      lt→ltb (suc i) (2 ^ 31) (omega arith),
    )

-- `readCString` reads back a text from the null byte behind it, if the index of that byte is an `int`.
pub read_c_string-text :
    (a s rest : Bytes)
    → Lacks 0 s
    → length a + length s < 2 ^ 31
    → read_c_string (a ++ (s ++ 0 ∷ rest)) (pos (length a)) ≡ ok s
unfolding read_c_string
read_c_string-text a s rest h k =
    rw (to_size-pos (length a) (omega arith), within, drop-length-append a (s ++ 0 ∷ rest))
      (name_from-text (length a) s rest h k)
  where
    within : ltb (length a) (length (a ++ (s ++ 0 ∷ rest)) + 1) ≡ true
    within = lt→ltb _ _ (omega (arith, length-append a (s ++ 0 ∷ rest)))
