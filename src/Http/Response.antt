-- ===== src/Http/Response.antt =====
-- `HttpResponse`, its `to_string` and `string_to_response`.
pub mod Numbers
pub mod Fields
pub mod ReadBack
pub mod Blank
use asabru_commons.Base.Int.{ℤ, pos, negsuc, neg_part}
use asabru_commons.Base.{
  ℕ, ◌-◌, ◌^◌, ◌≡◌, ◌≢◌, refl, List, [], ◌∷◌, ◌++◌, Option, none, some, Bytes, codes, ltb, leb,
  ◌==◌, ◌&&◌, ◌||◌, Bool, true, false, if◌then◌else◌, str_eq, Outcome, ok, err, out_of_range, ◌>>=◌,
  arith, Lacks, append_assoc,
}
use asabru_commons.Strings.{
  Stream, open_stream, is_good, getline, lines, extract, cut, is_empty, strip_left,
}
use asabru_commons.Strings.Decimal.{decimal, take_digits, value}
use asabru_commons.Http.Status
use asabru_commons.Http.Status.{HttpStatusCode}
use asabru_commons.Http.Version
use asabru_commons.Http.Message.{Message, new_message, set_header, set_content, print_headers}
use asabru_commons.Strings.Lines.{cut-append}
use asabru_commons.Strings.Strip.{strip_left_head}
use asabru_commons.Http.Trim.{IsField}
use asabru_commons.Http.Fields.{field_text}

pub record HttpResponse : Type 0 where
  pub message : Message
  pub status_code : HttpStatusCode

-- `new HttpResponse()`: status 200.
abbrev pub new_response : HttpResponse
new_response = record { message = new_message; status_code = pos 200 }

-- An `int` in decimal.
print_int : ℤ → Bytes
print_int (pos n) = decimal n
print_int (negsuc n) = b'-' ∷ decimal (neg_part (negsuc n))

unfoldable pub to_string : HttpResponse → Bool → Bytes
unfolding print_int
to_string r send_content =
    Version.to_string r.message.version
    ++ (codes " "
        ++ (print_int r.status_code
            ++ (codes " "
                ++ (Status.to_string r.status_code
                    ++ (codes "\r\n"
                        ++ (print_headers r.message.headers
                            ++ (codes "\r\n"
                                ++ (if send_content then r.message.content else []))))))))

-- What `>> statusCode` makes of a sign and the digits behind it, in an `int` of 32 bits: without
-- digits it is 0, out of range the nearest bound, both with `failbit`.
int_of : Bool → Bytes × Bytes → ℤ × Stream
int_of negative ([], rest) = (pos 0, record { rest = rest; eof = is_empty rest; fail = true })
int_of negative (c ∷ ds, rest) =
    let n = value 0 (c ∷ ds) in
    let s : Stream = record { rest = rest; eof = is_empty rest; fail = false } in
    if negative
    then (if ltb (2 ^ 31) n
        then (negsuc (2 ^ 31 - 1), record s { fail = true })
        else if n == 0
        then (pos 0, s)
        else (negsuc (n - 1), s))
    else if ltb n (2 ^ 31)
    then (pos n, s)
    else (pos (2 ^ 31 - 1), record s { fail = true })

signed : Bytes → ℤ × Stream
unfolding int_of
signed [] = int_of false (take_digits [])
signed (c ∷ s) =
    if c == b'-'
    then int_of true (take_digits s)
    else if c == b'+'
    then int_of false (take_digits s)
    else int_of false (take_digits (c ∷ s))

-- White space in front of a number.
skip_white : Bytes → Bytes
skip_white [] = []
skip_white (c ∷ s) = if (leb 9 c && leb c 13) || c == b' ' then skip_white s else c ∷ s

-- `iss >> statusCode`; a stream that has failed leaves the variable undefined, here 0.
unfoldable pub extract_int : Stream → ℤ × Stream
unfolding signed skip_white
extract_int s = if is_good s then signed (skip_white s.rest) else (pos 0, record s { fail = true })

-- `s.substr(s.find_first_not_of(" \t"))`, which throws where there is no such byte.
unfoldable pub from_first_not_blank : Bytes → Outcome Bytes
from_first_not_blank [] = err out_of_range
from_first_not_blank (c ∷ s) =
    if c == b' ' || c == b'\t' then from_first_not_blank s else ok (c ∷ s)

-- A line with a colon is a header, any other is passed over.
header_of : Message → Bytes × Option Bytes → Outcome Message
header_of m (line, none) = ok m
header_of m (left, some right) = do
  key ← from_first_not_blank left
  value ← from_first_not_blank right
  ok (set_header m key value)

unfoldable pub read_response_header : Message → Bytes → Outcome Message
unfolding header_of
read_response_header m line = header_of m (cut b':' line)

-- The loop over the header lines: it ends at an empty line, at a lone carriage return, or at the
-- end, and leaves the lines behind.
unfoldable pub read_response_headers : Message → List Bytes → Outcome (Message × List Bytes)
read_response_headers m [] = ok (m, [])
read_response_headers m (line ∷ ls) =
    let rest = read_response_header m line >>= λ m'. read_response_headers m' ls in
    if is_empty line || str_eq line (codes "\r") then ok (m, ls) else rest

-- `responseBody << line << "\n"` for the lines that are left.
unfoldable pub body_of : List Bytes → Bytes
body_of [] = []
body_of (line ∷ ls) = line ++ b'\n' ∷ body_of ls

-- The lines that the loops read behind the status line.
rest_lines : Stream → List Bytes
rest_lines s = if is_good s then lines s.rest else []

unfoldable pub string_to_response : Bytes → Outcome HttpResponse
unfolding rest_lines
string_to_response response_string = do
  let (http_version, iss1) = extract (open_stream response_string) []
  let (status_code, iss2) = extract_int iss1
  let (reason_phrase, iss3) = getline b'\n' iss2 []
  (m, ls) ← read_response_headers new_message (rest_lines iss3)
  ok (record { message = set_content m (body_of ls); status_code = status_code })

from_first_not_blank_lem :
    (c : ℕ) (s : Bytes) → c ≢ b' ' → c ≢ b'\t' → from_first_not_blank (c ∷ s) ≡ ok (c ∷ s)
unfolding from_first_not_blank
from_first_not_blank_lem c s h k = ground arith

from_first_not_blank_space : (s : Bytes) → from_first_not_blank (b' ' ∷ s) ≡ from_first_not_blank s
unfolding from_first_not_blank
from_first_not_blank_space s = refl

-- A header line that `to_string` printed, read back by `string_to_response`, where no tab stands in
-- the header and its key is not empty: the line is split at `\n` only, so the value keeps the
-- carriage return of the line end.
pub read_response_header-cr :
    (m : Message) (k : ℕ) (key value : Bytes)
    → IsField (k ∷ key, value)
    → Lacks b'\t' (k ∷ key)
    → Lacks b'\t' value
    → read_response_header m (field_text (k ∷ key, value) ++ b'\r' ∷ [])
      ≡ ok (set_header m (k ∷ key) (value ++ b'\r' ∷ []))
unfolding read_response_header
read_response_header-cr m k key value i t u = rw (
  append_assoc (k ∷ key) (b':' ∷ b' ' ∷ value) (b'\r' ∷ []),
  cut-append b':' (k ∷ key) (b' ' ∷ (value ++ b'\r' ∷ [])) i.no_colon,
  from_first_not_blank_lem k key (strip_left_head b' ' k key i.key.left) t.0,
  from_first_not_blank_space,
  kept value i.value.left u,
)
  where
    kept :
        (v : Bytes)
        → strip_left b' ' v ≡ v
        → Lacks b'\t' v
        → from_first_not_blank (v ++ b'\r' ∷ []) ≡ ok (v ++ b'\r' ∷ [])
    kept [] l w = from_first_not_blank_lem b'\r' [] (omega arith) (omega arith)
    kept (c ∷ v) l w = from_first_not_blank_lem c (v ++ b'\r' ∷ []) (strip_left_head b' ' c v l) w.0
