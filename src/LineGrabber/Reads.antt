-- ===== src/LineGrabber/Reads.antt =====
-- What the line grabber reads, against a plain description of lines.
use asabru_commons.Base.{
  ℕ, zero, suc, ◌+◌, ◌-◌, ◌^◌, ◌<◌, ◌≤◌, ◌≡◌, refl, ap, true, false, not, [], ◌∷◌, ◌++◌, Bytes,
  Lacks, length, drop, replicate, ltb, lt→ltb, ltb→lt, ◌==◌, if◌then◌else◌, Outcome, ok, err,
  undefined_behaviour, arith, append_assoc, append-nil, length-append, length-drop, Bool-cases, inl,
  inr,
}
use asabru_commons.Base.Int.{pos, ltb_ℤ-pos}
use asabru_commons.Strings.Memory.{c_text}
use asabru_commons.Strings.Lines.{cut-append, cut_of-Lacks}
use asabru_commons.LineGrabber.{
  LineGrabber, is_eof, buffer_size, returned, next_line_loop, get_next_line, content_loop,
  get_content_till_eof,
}

-- The bytes in front of the first line end, and the number of bytes that the line end takes: two if
-- it starts with a carriage return, whatever follows.
abbrev pub line_of : Bytes → Bytes × ℕ
line_of [] = ([], 0)
line_of (c ∷ s) =
    let rest = line_of s in
    if c == 13 then ([], 2) else if c == 10 then ([], 1) else (c ∷ rest.0, rest.1)

returned-Lacks :
    (index : ℕ) (line : Bytes)
    → Lacks 0 line
    → returned index line
      ≡ (if ltb (length line) buffer_size then ok (index, line) else err undefined_behaviour)
unfolding returned c_text
returned-Lacks index line h = elim (Bool-cases (ltb (length line) buffer_size)) [
  | inl fits ↦
      let e : buffer_size - length line ≡ suc (1_023 - length line) = ground arith in
      rw (fits, e, cut-append 0 line (replicate (1_023 - length line) 0) h) refl
  | inr long ↦
      let e : buffer_size - length line ≡ 0 = ground arith in
      rw (long, e, append-nil line, cut_of-Lacks 0 line h) refl
]

pub Lacks-append : (b : ℕ) (s t : Bytes) → Lacks b s → Lacks b t → Lacks b (s ++ t)
Lacks-append b [] t h k = k
Lacks-append b (c ∷ s) t h k = (h.0, Lacks-append b s t h.1 k)

-- What a read gives that has written `line` and goes on with a line and its end.
abbrev pub line_read : ℕ → Bytes → Bytes × ℕ → Outcome (ℕ × Bytes)
line_read index line (more, width) =
    if ltb (length (line ++ more)) buffer_size
    then ok (index + length more + width, line ++ more)
    else err undefined_behaviour

module _ (n : ℕ) (small : suc n < 2 ^ 31) where
  next_line_loop-line_read :
      (rest : Bytes) (index : ℕ) (line : Bytes)
      → Lacks 0 rest
      → Lacks 0 line
      → length line ≤ buffer_size
      → index + length rest ≡ n
      → next_line_loop (pos n) rest index line ≡ line_read index line (line_of rest)
  unfolding next_line_loop
  next_line_loop-line_read [] index line h k l e =
      rw (ltb_ℤ-pos index n, append-nil line, returned-Lacks index line k) (ground arith)
  next_line_loop-line_read (c ∷ rest) index line h k l e =
      let ih = λ (room : length line < buffer_size).
        next_line_loop-line_read rest (index + 1) (line ++ c ∷ []) h.1
          (Lacks-append 0 line (c ∷ []) k (h.0, tt)) (omega (arith, length-append line (c ∷ [])))
          (omega arith) in
      rw
        (
          ltb_ℤ-pos index n,
          returned-Lacks (index + 2) line k,
          returned-Lacks (index + 1) line k,
          inside,
          unfilled,
        )
        (elim (Bool-cases (c == 13)) [
          | inl cr ↦
              rw (cr, lt→ltb (index + 2) (2 ^ 31) (omega arith), append-nil line) (ground arith)
          | inr not_cr ↦ elim (Bool-cases (c == 10)) [
            | inl lf ↦ rw (not_cr, lf, append-nil line) (ground arith)
            | inr not_lf ↦ elim (Bool-cases (ltb (length line) buffer_size)) [
              | inl room ↦
                  rw
                    (
                      not_cr,
                      not_lf,
                      room,
                      ih (ltb→lt _ _ room),
                      append_assoc line (c ∷ []) (line_of rest).0,
                    )
                    (ground arith)
              | inr full ↦
                  rw (not_cr, not_lf, full)
                    (ground (arith, length-append line (c ∷ (line_of rest).0)))
            ]
          ]
        ])
    where
      inside : ltb index n ≡ true
      inside = lt→ltb _ _ (omega arith)

      unfilled : ltb buffer_size (length line) ≡ false
      unfilled = ground arith

-- A grabber over all of a buffer, at an index.
abbrev pub grabber_at : Bytes → ℕ → LineGrabber
grabber_at buffer i = record { m_buffer = buffer; m_index = i; m_size = pos (length buffer) }

pub is_eof-at :
    (buffer : Bytes) (i : ℕ) → is_eof (grabber_at buffer i) ≡ not (ltb i (length buffer))
unfolding is_eof
is_eof-at buffer i = ap not (ltb_ℤ-pos i (length buffer))

Lacks-drop : (b n : ℕ) (s : Bytes) → Lacks b s → Lacks b (drop n s)
Lacks-drop b zero s h = h
Lacks-drop b (suc n) [] h = tt
Lacks-drop b (suc n) (c ∷ s) h = Lacks-drop b n s h.1

-- What `getNextLine` gives for a line and the size of its end.
abbrev pub line_taken : Bytes → ℕ → Bytes × ℕ → Outcome (Bytes × LineGrabber)
line_taken buffer i (line, width) =
    if ltb (length line) buffer_size
    then ok (line, grabber_at buffer (i + length line + width))
    else err undefined_behaviour

-- In front of the end of a buffer without null bytes `getNextLine` gives the bytes in front of the
-- next line end and passes that end, if these bytes are fewer than 1024, and else is undefined
-- behaviour.
pub get_next_line-line_taken :
    (buffer : Bytes) (i : ℕ)
    → Lacks 0 buffer
    → suc (length buffer) < 2 ^ 31
    → i < length buffer
    → get_next_line (grabber_at buffer i) ≡ line_taken buffer i (line_of (drop i buffer))
unfolding get_next_line
get_next_line-line_taken buffer i h small inside =
    rw
      (
        is_eof-at buffer i,
        lt→ltb i (length buffer) inside,
        next_line_loop-line_read (length buffer) small (drop i buffer) i []
            (Lacks-drop 0 i buffer h) tt (omega arith) (omega (arith, length-drop i buffer)),
      )
      (ground arith)

-- The bytes that `getContentTillEof` gives.
abbrev pub content_read : ℕ → Bytes → Bytes → Outcome (ℕ × Bytes)
content_read n content rest =
    if ltb (length (content ++ rest)) buffer_size
    then ok (n, content ++ rest)
    else err undefined_behaviour

content_loop-content_read :
    (n : ℕ) (rest : Bytes) (index : ℕ) (content : Bytes)
    → Lacks 0 rest
    → Lacks 0 content
    → length content ≤ buffer_size
    → index + length rest ≡ n
    → content_loop (pos n) rest index content ≡ content_read n content rest
unfolding content_loop
content_loop-content_read n [] index content h k l e =
    rw (ltb_ℤ-pos index n, append-nil content, returned-Lacks index content k) (ground arith)
content_loop-content_read n (c ∷ rest) index content h k l e =
    let ih = λ (room : length content < buffer_size).
      content_loop-content_read n rest (index + 1) (content ++ c ∷ []) h.1
        (Lacks-append 0 content (c ∷ []) k (h.0, tt))
        (omega (arith, length-append content (c ∷ []))) (omega arith) in
    rw (ltb_ℤ-pos index n, lt→ltb index n (omega arith))
      (elim (Bool-cases (ltb (length content) buffer_size)) [
        | inl room ↦ rw (room, ih (ltb→lt _ _ room), append_assoc content (c ∷ []) rest) refl
        | inr full ↦ rw full (ground (arith, length-append content (c ∷ rest)))
      ])

-- In a buffer without null bytes `getContentTillEof` gives all that is left and goes to the end, if
-- that is fewer than 1024 bytes, and else is undefined behaviour.
pub get_content_till_eof-drop :
    (buffer : Bytes) (i : ℕ)
    → Lacks 0 buffer
    → i < length buffer
    → get_content_till_eof (grabber_at buffer i) ≡ (
        if ltb (length (drop i buffer)) buffer_size
        then ok (drop i buffer, grabber_at buffer (length buffer))
        else err undefined_behaviour)
unfolding get_content_till_eof
get_content_till_eof-drop buffer i h inside =
    rw
      (
        is_eof-at buffer i,
        lt→ltb i (length buffer) inside,
        content_loop-content_read (length buffer) (drop i buffer) i [] (Lacks-drop 0 i buffer h) tt
            (omega arith) (omega (arith, length-drop i buffer)),
      )
      (ground arith)
