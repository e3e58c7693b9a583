-- ===== src/ProtocolHelper/Bounds.antt =====
-- The sizes of the numbers that the readers return.
use asabru_commons.Base.{
  ℕ, ◌^◌, ◌<◌, ◌≤◌, ◌≡◌, refl, ap, subst, [], ◌∷◌, ◌++◌, Bytes, length, inl, inr, Outcome-cases,
  drop, replicate, length-take, Outcome, ok, err, ◌>>=◌, arith, All,
}
use asabru_commons.Base.Int.{ℤ, pos, to_size}
use asabru_commons.Strings.{substr}
use asabru_commons.Strings.Memory.{c_str, memcpy}
use asabru_commons.ProtocolHelper.{
  fetch, read_int32, read_le_int16, read_le_int24, read_le_int64, read_be_int16, read_be_int32,
  read_be_int64,
}
use asabru_commons.ProtocolHelper.Endian.{ByteOrder, load, letoh, betoh}
use asabru_commons.ProtocolHelper.Swapped.{IsByte}
use asabru_commons.ProtocolHelper.Word.{
  substr-IsByte, fetch-IsWord, load-lt, letoh-lt, betoh-lt, padded-lt, substr-eq,
}

-- A number that is returned is below the bound.
abbrev pub IsBelow : ℕ → Outcome ℕ → Type 0
IsBelow bound (ok v) = v < bound
IsBelow bound (err e) = Unit

IsBelow-map {ℓ} :
    {A : Type ℓ} (bound : ℕ) (m : Outcome A) (f : A → ℕ)
    → ((a : A) → m ≡ ok a → f a < bound)
    → IsBelow bound (m >>= λ a. ok (f a))
IsBelow-map bound (ok a) f h = h a refl
IsBelow-map bound (err e) f h = tt

module _ (host : ByteOrder) (buffer : Bytes) (start : ℤ) (h : All IsByte buffer) where
  loaded-lt :
      (width : ℕ) (n : ℤ) (bs : Bytes)
      → fetch width buffer start n ≡ ok bs
      → load host bs < 256 ^ width
  loaded-lt width n bs e =
      let (size, bytes) = fetch-IsWord width buffer start n h e in
      subst (λ k. load host bs < 256 ^ k) size (load-lt host bs bytes)

  le-IsBelow :
      (width : ℕ) (n : ℤ)
      → IsBelow
          (256 ^ width)
          (fetch width buffer start n >>= λ bs. ok (letoh host width (load host bs)))
  le-IsBelow width n =
      IsBelow-map (256 ^ width) (fetch width buffer start n) _
        (λ bs e. letoh-lt host width (load host bs) (loaded-lt width n bs e))

  be-IsBelow :
      (width : ℕ) (n : ℤ)
      → IsBelow
          (256 ^ width)
          (fetch width buffer start n >>= λ bs. ok (betoh host width (load host bs)))
  be-IsBelow width n =
      IsBelow-map (256 ^ width) (fetch width buffer start n) _
        (λ bs e. betoh-lt host width (load host bs) (loaded-lt width n bs e))

  read_le_int24-IsBelow : IsBelow (2 ^ 24) (read_le_int24 host buffer start)
  unfolding read_le_int24
  read_le_int24-IsBelow = elim (Outcome-cases (substr buffer (to_size start) 3)) [
    | inl (e, failed) ↦ rw failed tt
    | inr (text, read) ↦ rw read (
        IsBelow-map (2 ^ 24) (memcpy (replicate 4 0) (c_str (text ++ 0 ∷ [])) 4) _ (λ bs e.
          padded-lt host text (short text read) (substr-IsByte buffer (to_size start) 3 h read) e))
  ]
    where
      short : (text : Bytes) → substr buffer (to_size start) 3 ≡ ok text → length text ≤ 3
      short text read = omega (
        arith,
        ap length (substr-eq buffer (to_size start) 3 read),
        length-take 3 (drop (to_size start) buffer),
      )

  -- What the readers return of a packet of bytes fits the type of the result.
  pub read-IsBelow :
      (length : ℤ)
      → IsBelow (2 ^ 32) (read_int32 host buffer start length)
        × IsBelow (2 ^ 16) (read_le_int16 host buffer start)
        × IsBelow (2 ^ 24) (read_le_int24 host buffer start)
        × IsBelow (2 ^ 64) (read_le_int64 host buffer start)
        × IsBelow (2 ^ 16) (read_be_int16 host buffer start)
        × IsBelow (2 ^ 32) (read_be_int32 host buffer start)
        × IsBelow (2 ^ 64) (read_be_int64 host buffer start)
  unfolding read_int32 read_le_int16 read_le_int64 read_be_int16 read_be_int32 read_be_int64
  read-IsBelow length = (
    le-IsBelow 4 length,
    IsBelow-map (2 ^ 16) (fetch 4 buffer start (pos 2)) _ (λ bs e. omega arith),
    read_le_int24-IsBelow,
    le-IsBelow 8 (pos 8),
    be-IsBelow 2 (pos 2),
    be-IsBelow 4 (pos 4),
    be-IsBelow 8 (pos 8),
  )
