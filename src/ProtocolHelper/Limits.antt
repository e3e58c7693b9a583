-- ===== src/ProtocolHelper/Limits.antt =====
-- What the readers of integers do at the ends of a packet, and the sizes of what they return.
use asabru_commons.Base.{
  ℕ, ◌+◌, ◌^◌, ◌<◌, ◌≤◌, ◌≡◌, refl, ◌∙◌, [], ◌∷◌, ◌++◌, Bytes, length, take, drop, leb, ltb,
  length-append, length-take, length-drop, length-replicate, Outcome, Failure, ok, err,
  out_of_range, ◌>>=◌, arith, if◌then◌else◌,
}
use asabru_commons.Base.Int.{pos, to_size-pos}
use asabru_commons.Strings.{substr}
use asabru_commons.Strings.Memory.{memcpy}
use asabru_commons.ProtocolHelper.{
  fetch, read_int32, read_le_int16, read_le_int24, read_le_int64, read_be_int16, read_be_int32,
  read_be_int64,
}
use asabru_commons.ProtocolHelper.Endian.{ByteOrder}

-- How a reader of `n` bytes at `start` ends.
pub data End : Type 0 where
  returns throws is_undefined : End

abbrev pub end_of_failure : Failure → End
end_of_failure out_of_range = throws
end_of_failure e = is_undefined

abbrev pub end_of {ℓ} : {A : Type ℓ} → Outcome A → End
end_of (ok a) = returns
end_of (err e) = end_of_failure e

-- A reader of `n` bytes: it throws behind the end of the buffer, and is undefined behaviour if more
-- than one byte is missing.
abbrev pub expected_end : ℕ → Bytes → ℕ → End
expected_end n buffer start =
    if ltb (length buffer) start
    then throws
    else if leb (start + n) (length buffer + 1)
    then returns
    else is_undefined

fetch-end :
    (width n : ℕ) (buffer : Bytes) (start : ℕ)
    → start < 2 ^ 31
    → n ≤ width
    → width ≤ 8
    → end_of (fetch width buffer (pos start) (pos n)) ≡ expected_end n buffer start
unfolding fetch substr memcpy
fetch-end width n buffer start h k w =
    rw (to_size-pos start (omega arith), to_size-pos n (omega arith))
      (ground (
        arith,
        length-drop start buffer,
        length-take n (drop start buffer),
        length-append (take n (drop start buffer)) (0 ∷ []),
        length-replicate {A = ℕ} width 0,
      ))

end_of-map {ℓ κ} :
    {A : Type ℓ} {B : Type κ} (m : Outcome A) (f : A → B) → end_of (m >>= λ a. ok (f a)) ≡ end_of m
end_of-map (ok a) f = refl
end_of-map (err e) f = refl

map-end :
    (width n : ℕ) (buffer : Bytes) (start : ℕ) (f : Bytes → ℕ)
    → start < 2 ^ 31
    → n ≤ width
    → width ≤ 8
    → end_of (fetch width buffer (pos start) (pos n) >>= λ bs. ok (f bs))
      ≡ expected_end n buffer start
map-end width n buffer start f h k w =
    end_of-map (fetch width buffer (pos start) (pos n)) f ∙ fetch-end width n buffer start h k w

module _ (host : ByteOrder) (buffer : Bytes) (start : ℕ) (small : start < 2 ^ 31) where
  read_le_int24-end : end_of (read_le_int24 host buffer (pos start)) ≡ expected_end 3 buffer start
  unfolding read_le_int24 substr memcpy
  read_le_int24-end = rw (to_size-pos start (omega arith)) (
      ground (
        arith,
        length-drop start buffer,
        length-take 3 (drop start buffer),
        length-append (take 3 (drop start buffer)) (0 ∷ []),
        length-append (take 3 (drop start buffer) ++ 0 ∷ []) (0 ∷ []),
      ))

  -- Every reader throws behind the end of the buffer, returns if at most one byte of its number is
  -- missing, and else is undefined behaviour.
  pub read-end :
      (end_of (read_int32 host buffer (pos start) (pos 4)) ≡ expected_end 4 buffer start)
      × (end_of (read_le_int16 host buffer (pos start)) ≡ expected_end 2 buffer start)
      × (end_of (read_le_int24 host buffer (pos start)) ≡ expected_end 3 buffer start)
      × (end_of (read_le_int64 host buffer (pos start)) ≡ expected_end 8 buffer start)
      × (end_of (read_be_int16 host buffer (pos start)) ≡ expected_end 2 buffer start)
      × (end_of (read_be_int32 host buffer (pos start)) ≡ expected_end 4 buffer start)
      × (end_of (read_be_int64 host buffer (pos start)) ≡ expected_end 8 buffer start)
  unfolding read_int32 read_le_int16 read_le_int64 read_be_int16 read_be_int32 read_be_int64
  read-end = (
    map-end 4 4 buffer start _ small (omega arith) (omega arith),
    map-end 4 2 buffer start _ small (omega arith) (omega arith),
    read_le_int24-end,
    map-end 8 8 buffer start _ small (omega arith) (omega arith),
    map-end 2 2 buffer start _ small (omega arith) (omega arith),
    map-end 4 4 buffer start _ small (omega arith) (omega arith),
    map-end 8 8 buffer start _ small (omega arith) (omega arith),
  )
