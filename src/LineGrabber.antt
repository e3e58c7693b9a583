-- ===== src/LineGrabber.antt =====
-- src/LineGrabber.h: the reader of the lines of a buffer.
pub mod Reads
pub mod RoundTrip
mod Examples
use asabru_commons.Base.{
  ℕ, ◌+◌, ◌-◌, ◌^◌, Bool, not, ◌&&◌, [], ◌∷◌, ◌++◌, Bytes, length, drop, replicate, ltb, ◌==◌,
  if◌then◌else◌, Outcome, ok, err, undefined_behaviour, require, ◌>>=◌, ◌>>◌,
}
use asabru_commons.Base.Int.{ℤ, pos, ltb_ℤ}
use asabru_commons.Strings.Memory.{c_text}

-- `m_buffer` is the memory that the pointer points to. The index starts at 0 and only grows.
pub record LineGrabber : Type 0 where
  pub m_buffer : Bytes
  pub m_index : ℕ
  pub m_size : ℤ

unfoldable pub line_grabber : Bytes → ℤ → LineGrabber
line_grabber pbuffer size = record { m_buffer = pbuffer; m_index = 0; m_size = size }

unfoldable pub is_eof : LineGrabber → Bool
is_eof g = not (ltb_ℤ (pos g.m_index) g.m_size)

abbrev pub buffer_size : ℕ
buffer_size = 1_024

-- `return {buffer}` at an index: the bytes written, up to the first null byte, which may be one of
-- the null bytes that the buffer started with.
unfoldable pub returned : ℕ → Bytes → Outcome (ℕ × Bytes)
returned index line =
    c_text (line ++ replicate (buffer_size - length line) 0) >>= λ text. ok (index, text)

-- The loop of `getNextLine` on the memory from the index on, with the bytes written to the buffer so
-- far. Their number is `curr_buffer_size`. The index must stay an `int`; `m_index++` does, since the
-- index is below the size.
unfoldable pub next_line_loop : ℤ → Bytes → ℕ → Bytes → Outcome (ℕ × Bytes)
next_line_loop size [] index line =
    if ltb_ℤ (pos index) size
    then (if ltb buffer_size (length line) then ok (index, []) else err undefined_behaviour)
    else returned index line
next_line_loop size (c ∷ rest) index line =
    let next = next_line_loop size rest (index + 1) (line ++ c ∷ []) in
    if ltb_ℤ (pos index) size
    then (if ltb buffer_size (length line)
        then ok (index, [])
        else if not (c == 13) && not (c == 10)
        then (require (ltb (length line) buffer_size) undefined_behaviour >> next)
        else if c == 13
        then (require (ltb (index + 2) (2 ^ 31)) undefined_behaviour >> returned (index + 2) line)
        else returned (index + 1) line)
    else returned index line

unfoldable pub get_next_line : LineGrabber → Outcome (Bytes × LineGrabber)
get_next_line g =
    if is_eof g
    then ok ([], g)
    else (next_line_loop g.m_size (drop g.m_index g.m_buffer) g.m_index [] >>= λ r.
        ok (r.1, record g { m_index = r.0 }))

-- The loop of `getContentTillEof`, which does not look at the size of its buffer.
unfoldable pub content_loop : ℤ → Bytes → ℕ → Bytes → Outcome (ℕ × Bytes)
content_loop size [] index content =
    if ltb_ℤ (pos index) size then err undefined_behaviour else returned index content
content_loop size (c ∷ rest) index content =
    let next = content_loop size rest (index + 1) (content ++ c ∷ []) in
    if ltb_ℤ (pos index) size
    then (require (ltb (length content) buffer_size) undefined_behaviour >> next)
    else returned index content

unfoldable pub get_content_till_eof : LineGrabber → Outcome (Bytes × LineGrabber)
get_content_till_eof g =
    if is_eof g
    then ok ([], g)
    else (content_loop g.m_size (drop g.m_index g.m_buffer) g.m_index [] >>= λ r.
        ok (r.1, record g { m_index = r.0 }))
