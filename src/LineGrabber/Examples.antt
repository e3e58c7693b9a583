-- ===== src/LineGrabber/Examples.antt =====
-- Buffers read line by line.
use asabru_commons.Base.{◌≡◌, true, [], ◌∷◌, Bytes, codes, map, ok, arith, List}
use asabru_commons.Base.Int.{pos}
use asabru_commons.LineGrabber.{LineGrabber, line_grabber, is_eof, get_next_line}
use asabru_commons.LineGrabber.Reads.{grabber_at, line_taken, get_next_line-line_taken}
use asabru_commons.LineGrabber.RoundTrip.{
  LineEnd, crlf, lf, joined, first_line, read_lines, read_lines-joined,
}

abbrev two_lines : List (Bytes × LineEnd)
two_lines = (codes "GET /", crlf) ∷ (codes "a: b", lf) ∷ []

read_lines-joined_example :
    (g : LineGrabber) × (read_lines 2 (line_grabber (joined two_lines) (pos 12))
      ≡ ok (map first_line two_lines, g))
    × (is_eof g ≡ true)
read_lines-joined_example = read_lines-joined two_lines (omega arith) (omega arith)

-- The byte behind a carriage return is passed, whatever it is.
get_next_line-line_taken_example :
    get_next_line (grabber_at (codes "ab\rcd") 0) ≡ line_taken (codes "ab\rcd") 0 (codes "ab", 2)
get_next_line-line_taken_example =
    get_next_line-line_taken (codes "ab\rcd") 0 (omega arith) (omega arith) (omega arith)
