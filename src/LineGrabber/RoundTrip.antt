-- ===== src/LineGrabber/RoundTrip.antt =====
-- Lines that are put together with their ends are read back one by one.
use asabru_commons.Base.{
  ℕ, zero, suc, ◌^◌, ◌<◌, ◌≡◌, refl, ap, sym, ◌∙◌, true, [], ◌∷◌, ◌++◌, Bytes, Lacks, length, drop,
  lt→ltb, Outcome, ok, ◌>>=◌, arith, append_assoc, append-nil, length-append, drop-length-append,
  List, map, All,
}
use asabru_commons.Base.Int.{pos}
use asabru_commons.LineGrabber.{LineGrabber, line_grabber, is_eof, get_next_line, buffer_size}
use asabru_commons.LineGrabber.Reads.{
  grabber_at, is_eof-at, line_of, get_next_line-line_taken, Lacks-append,
}

pub data LineEnd : Type 0 where
  crlf lf : LineEnd

abbrev pub end_bytes : LineEnd → Bytes
end_bytes crlf = 13 ∷ 10 ∷ []
end_bytes lf = 10 ∷ []

abbrev pub joined : List (Bytes × LineEnd) → Bytes
joined [] = []
joined ((l, e) ∷ ls) = l ++ (end_bytes e ++ joined ls)

-- Neither a null byte nor a line end is in the line, and it fits the buffer.
abbrev pub IsShortLine : Bytes × LineEnd → Type 0
IsShortLine (l, e) = Lacks 0 l × Lacks 13 l × Lacks 10 l × (length l < buffer_size)

-- That many calls of `getNextLine`.
unfoldable pub read_lines : ℕ → LineGrabber → Outcome (List Bytes × LineGrabber)
read_lines zero g = ok ([], g)
read_lines (suc n) g = do (l, g') ← get_next_line g; (ls, g'') ← read_lines n g'; ok (l ∷ ls, g'')

joined-Lacks : (ls : List (Bytes × LineEnd)) → All IsShortLine ls → Lacks 0 (joined ls)
joined-Lacks [] h = tt
joined-Lacks ((l, crlf) ∷ ls) h =
    Lacks-append 0 l (13 ∷ 10 ∷ joined ls) h.0.0 (omega arith, (omega arith, joined-Lacks ls h.1))
joined-Lacks ((l, lf) ∷ ls) h =
    Lacks-append 0 l (10 ∷ joined ls) h.0.0 (omega arith, joined-Lacks ls h.1)

line_of-append :
    (l : Bytes) (e : LineEnd) (s : Bytes)
    → Lacks 13 l
    → Lacks 10 l
    → line_of (l ++ (end_bytes e ++ s)) ≡ (l, length (end_bytes e))
line_of-append [] crlf s h k = refl
line_of-append [] lf s h k = refl
line_of-append (c ∷ l) e s h k = rw (line_of-append l e s h.1 k.1) (ground arith)

abbrev pub first_line : Bytes × LineEnd → Bytes
first_line (l, e) = l

end_bytes-pos : (e : LineEnd) → 0 < length (end_bytes e)
end_bytes-pos crlf = omega arith
end_bytes-pos lf = omega arith

module _ (buffer : Bytes) (lacks : Lacks 0 buffer) (small : suc (length buffer) < 2 ^ 31) where
  get_next_line-append :
      (a l : Bytes) (e : LineEnd) (s : Bytes)
      → IsShortLine (l, e)
      → buffer ≡ a ++ (l ++ (end_bytes e ++ s))
      → get_next_line (grabber_at buffer (length a))
        ≡ ok (l, grabber_at buffer (length (a ++ (l ++ end_bytes e))))
  get_next_line-append a l e s h eq =
      rw
        (
          get_next_line-line_taken buffer (length a) lacks small inside,
          there,
          line_of-append l e s h.1 h.2,
          lt→ltb _ _ h.3,
        )
        (ap (λ i. ok (l, grabber_at buffer i))
          (omega (arith, length-append a (l ++ end_bytes e), length-append l (end_bytes e))))
    where
      inside : length a < length buffer
      inside = omega (
        arith,
        ap length eq,
        length-append a (l ++ (end_bytes e ++ s)),
        length-append l (end_bytes e ++ s),
        length-append (end_bytes e) s,
        end_bytes-pos e,
      )

      there : drop (length a) buffer ≡ l ++ (end_bytes e ++ s)
      there = ap (drop (length a)) eq ∙ drop-length-append a (l ++ (end_bytes e ++ s))

  read_lines-from :
      (ls : List (Bytes × LineEnd)) (a : Bytes)
      → All IsShortLine ls
      → buffer ≡ a ++ joined ls
      → read_lines (length ls) (grabber_at buffer (length a))
        ≡ ok (map first_line ls, grabber_at buffer (length buffer))
  unfolding read_lines
  read_lines-from [] a h eq =
      ap (λ i. ok ([], grabber_at buffer i)) (ap length (sym (eq ∙ append-nil a)))
  read_lines-from ((l, e) ∷ ls) a h eq =
      rw
        (
          get_next_line-append a l e (joined ls) h.0 eq,
          read_lines-from ls (a ++ (l ++ end_bytes e)) h.1 (eq ∙ regroup),
        )
        refl
    where
      regroup : a ++ (l ++ (end_bytes e ++ joined ls)) ≡ (a ++ (l ++ end_bytes e)) ++ joined ls
      regroup = simp append_assoc

-- As many calls of `getNextLine` as there are lines, with their ends and each shorter than 1024 bytes
-- and without null bytes, read back the lines and come to the end.
pub read_lines-joined :
    (ls : List (Bytes × LineEnd))
    → All IsShortLine ls
    → suc (length (joined ls)) < 2 ^ 31
    → (g : LineGrabber) × (read_lines
          (length ls)
          (line_grabber (joined ls) (pos (length (joined ls))))
        ≡ ok (map first_line ls, g))
      × (is_eof g ≡ true)
unfolding line_grabber
read_lines-joined ls h small = (
  grabber_at (joined ls) (length (joined ls)),
  read_lines-from (joined ls) (joined-Lacks ls h) small ls [] h refl,
  rw (is_eof-at (joined ls) (length (joined ls))) (ground arith),
)
