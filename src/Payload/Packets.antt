-- ===== src/Payload/Packets.antt =====
-- What the packets hold, and which arguments do not fit them.
use asabru_commons.Base.{
  ℕ, zero, suc, ◌+◌, ◌-◌, ◌^◌, ◌%◌, ◌<◌, ◌≤◌, ◌≡◌, ◌↔◌, refl, ap, true, some, [], ◌∷◌, ◌++◌, Bool,
  Bytes, Lacks, length, take, drop, leb, ltb, lt→ltb, ltb→lt, length-replicate, length-take,
  length-append, length-drop, if◌then◌else◌, Outcome, ok, err, undefined_behaviour, arith,
  Bool-cases, inl, inr,
}
use asabru_commons.Base.Int.{
  ℤ, pos, negsuc, ltb_ℤ, ltb_ℤ-pos, to_size, to_int, to_size-pos, to_int_of_lt,
}
use asabru_commons.Strings.Lines.{cut-append}
use asabru_commons.Strings.Memory.{c_str, memcpy, c_text, strcpy}
use asabru_commons.Payload.{
  FileMeta, FileChunk, chista_meta_data, chista_meta_fatal_error, FileFatalError, packet_type_value,
  zeros, too_long, actual_buffer_size, make_file_meta, make_buffer_pack, make_error_pack,
  compute_file_size,
}

c_text-append : (s rest : Bytes) → Lacks 0 s → c_text (s ++ 0 ∷ rest) ≡ ok s
unfolding c_text
c_text-append s rest h = rw (cut-append 0 s rest h)

strcpy-fits :
    (dst s : Bytes) → length s < length dst → strcpy dst s ≡ ok (s ++ 0 ∷ drop (suc (length s)) dst)
unfolding strcpy
strcpy-fits dst s h = rw (lt→ltb _ _ h)

length-strcpy :
    (dst s : Bytes)
    → length s < length dst
    → length (s ++ 0 ∷ drop (suc (length s)) dst) ≡ length dst
length-strcpy dst s h =
    omega (arith, length-append s (0 ∷ drop (suc (length s)) dst), length-drop (suc (length s)) dst)

strcpy_too_long : (dst s : Bytes) → length dst ≤ length s → strcpy dst s ≡ err undefined_behaviour
unfolding strcpy
strcpy_too_long dst s h = ground arith

-- A packet from which the name is read back, or a name that does not fit.
abbrev pub IsFileMeta : Bytes → ℤ → Outcome FileMeta → Type 0
IsFileMeta name size (ok meta) =
    (c_text meta.file_name ≡ ok name)
    × (length meta.file_name ≡ 255)
    × (meta.size ≡ size)
    × (meta.packet_type ≡ packet_type_value chista_meta_data)
IsFileMeta name size (err e) = (255 ≤ length name) × (e ≡ undefined_behaviour)

-- `MakeFileMeta` gives a packet of its type from which the name and the size are read back, or the
-- name has 255 bytes or more and copying it is undefined behaviour.
pub make_file_meta-IsFileMeta :
    (name : Bytes) (size : ℤ)
    → Lacks 0 name
    → IsFileMeta name size (make_file_meta (c_str name) size)
unfolding make_file_meta
make_file_meta-IsFileMeta name size h =
    rw (c_text-append name [] h) (elim (Bool-cases (ltb (length name) 255)) [
      | inl fits ↦ rw (strcpy-fits (zeros 255) name (ltb→lt _ _ fits)) (
        c_text-append name (drop (suc (length name)) (zeros 255)) h,
        length-strcpy (zeros 255) name (ltb→lt _ _ fits),
        refl,
        refl,
      )
      | inr long ↦
          let k : 255 ≤ length name = ground arith in
          rw (strcpy_too_long (zeros 255) name k) (k, refl)
    ])

-- What `MakeErrorPack` sends for a text whose length is given.
abbrev pub message_of : Bytes → Bytes
message_of s = if ltb (length s) 1020 then s else too_long

-- `MakeErrorPack`, given the length of its text, gives a packet of its type from which the text is
-- read back, or the words that say it is too long.
pub make_error_pack-c_text :
    (s : Bytes)
    → Lacks 0 s
    → (p : FileFatalError) × (make_error_pack (c_str s) (pos (length s)) ≡ ok p)
      × (c_text p.err_msg ≡ ok (message_of s))
      × (p.packet_type ≡ packet_type_value chista_meta_fatal_error)
unfolding make_error_pack
make_error_pack-c_text s h =
    rw (ltb_ℤ-pos (length s) 1020) (elim (Bool-cases (ltb (length s) 1020)) [
      | inl fits ↦
          rw (fits, c_text-append s [] h, strcpy-fits (zeros 1020) s (ltb→lt _ _ fits))
            (_, refl, c_text-append s (drop (suc (length s)) (zeros 1020)) h, refl)
      | inr long ↦
          rw (long, strcpy-fits (zeros 1020) too_long (omega arith))
            (_, refl, c_text-append too_long (drop 26 (zeros 1020)) (omega arith), refl)
    ])

-- A text of 1020 bytes or more, with a smaller length given, is undefined behaviour.
pub make_error_pack_misled :
    (s : Bytes) (len : ℤ)
    → Lacks 0 s
    → 1020 ≤ length s
    → ltb_ℤ len (pos 1020) ≡ true
    → make_error_pack (c_str s) len ≡ err undefined_behaviour
unfolding make_error_pack
make_error_pack_misled s len h k l =
    rw (l) (rw (c_text-append s [] h) (rw (strcpy_too_long (zeros 1020) s k) refl))

actual_buffer_size-pos : (n : ℕ) → n + 20 < 2 ^ 31 → actual_buffer_size (pos n) ≡ pos (n + 20)
unfolding actual_buffer_size
actual_buffer_size-pos n h =
    rw (to_size-pos n (omega arith), to_int_of_lt ((16 + n + 4) % 2 ^ 64) (omega arith))
      (ap pos (omega arith))

to_size-negsuc : (n : ℕ) → n < 2 ^ 31 → to_size (negsuc n) ≡ 2 ^ 64 - suc n
unfolding to_size
to_size-negsuc n h = omega arith

-- A copy of more bytes than there are.
memcpy_short :
    (dst src : Bytes) (n : ℕ) → length src < n → memcpy dst src n ≡ err undefined_behaviour
unfolding memcpy
memcpy_short dst src n h = ground arith

memcpy-fits :
    (dst src : Bytes) (n : ℕ)
    → n ≤ length src
    → n ≤ length dst
    → memcpy dst src n ≡ ok (take n src ++ drop n dst)
unfolding memcpy
memcpy-fits dst src n h k = ground arith

take-take-append : (n : ℕ) (xs ys : Bytes) → n ≤ length xs → take n (take n xs ++ ys) ≡ take n xs
take-take-append zero xs ys h = refl
take-take-append (suc n) [] ys h = absurd (omega arith)
take-take-append (suc n) (x ∷ xs) ys h = ap (◌∷◌ x) (take-take-append n xs ys (omega arith))

-- The chunk that `MakeBufferPack` makes of the first `n` bytes of the buffer.
module _ (allocates : ℕ → Bool) (buffer : Bytes) (n : ℕ) (seq_num : ℤ) where
  pub make_buffer_pack-take :
      n ≤ length buffer
      → n + 20 < 2 ^ 31
      → allocates (n + 20) ≡ true
      → (c : FileChunk) × (make_buffer_pack allocates buffer (pos n) seq_num ≡ ok c)
        × (take n c.buffer ≡ take n buffer)
        × (length c.buffer ≡ n + 8)
        × (c.buffer_size ≡ pos n)
        × (c.packet_seq_num ≡ seq_num)
  unfolding make_buffer_pack
  make_buffer_pack-take h k a =
      rw
        (
          actual_buffer_size-pos n k,
          to_size-pos (n + 20) (omega arith),
          to_size-pos n (omega arith),
          a,
          enough,
          memcpy-fits (zeros (n + 20 - 12)) buffer n h
              (omega (arith, length-replicate {A = ℕ} (n + 20 - 12) 0)),
        )
        (
          _,
          refl,
          take-take-append n buffer _ h,
          omega (
            arith,
            length-append (take n buffer) (drop n (zeros (n + 20 - 12))),
            length-take n buffer,
            length-drop n (zeros (n + 20 - 12)),
            length-replicate {A = ℕ} (n + 20 - 12) 0,
          ),
          refl,
          refl,
        )
    where
      enough : leb 12 (n + 20) ≡ true
      enough = ground arith

  pub make_buffer_pack-negsuc :
      n < 2 ^ 31
      → length buffer < 2 ^ 63
      → make_buffer_pack allocates buffer (negsuc n) seq_num ≡ err undefined_behaviour
  unfolding make_buffer_pack
  make_buffer_pack-negsuc h k =
      rw
        (
          to_size-negsuc n h,
          memcpy_short (zeros (to_size (actual_buffer_size (negsuc n)) - 12)) buffer
              (2 ^ 64 - suc n) (omega arith),
        )
        (ground arith)

-- `ComputeFileSize` is the size of the file exactly when it is below 2 ^ 31.
pub compute_file_size_iff : (n : ℕ) → (compute_file_size (some n) ≡ pos n) ↔ (n < 2 ^ 31)
unfolding compute_file_size to_int
compute_file_size_iff n = ground arith
