-- ===== src/Http/Request.antt =====
-- `HttpRequest`, its `to_string` and `string_to_request`.
use asabru_commons.Base.{
  ℕ, ◌+◌, ◌-◌, List, [], ◌∷◌, ◌++◌, Option, none, some, Bytes, codes, length, ltb, ◌||◌,
  if◌then◌else◌, Outcome, ok, err, invalid_argument, logic_error, ◌>>=◌, ◌>>◌, require,
}
use asabru_commons.Strings.{
  find, find_from, substr, strip_left, strip_right, Stream, open_stream, is_good, getline, lines,
  extract,
}
use asabru_commons.Http.Uri.{Uri, uri}
use asabru_commons.Http.Method
use asabru_commons.Http.Method.{HttpMethod, get, string_to_method}
use asabru_commons.Http.Version
use asabru_commons.Http.Version.{HttpVersion, http_1_1, is_1_1, string_to_version}
use asabru_commons.Http.Message.{Message, new_message, set_header, set_content, print_headers}

pub record HttpRequest : Type 0 where
  pub message : Message
  pub method : HttpMethod
  pub request_uri : Uri

abbrev pub new_request : HttpRequest
new_request = record { message = new_message; method = get; request_uri = uri [] }

unfoldable pub to_string : HttpRequest → Bytes
to_string r =
    Method.to_string r.method
    ++ (codes " "
        ++ (r.request_uri.path
            ++ (codes " "
                ++ (Version.to_string r.message.version
                    ++ (codes "\r\n"
                        ++ (print_headers r.message.headers
                            ++ (codes "\r\n" ++ r.message.content)))))))

-- The last call of `trim` is `'\n'` again, where the comment beside it says carriage returns.
unfoldable pub trim : Bytes → Bytes
trim str = strip_left b'\n' (
    strip_left b'\n'
      (strip_left b' ' (strip_right b'\r' (strip_right b'\n' (strip_right b' ' str)))))

-- The variables of the loop over the header lines; `value` keeps its text from round to round.
pub record Fields : Type 0 where
  pub message : Message
  pub key : Bytes
  pub value : Bytes

-- One round of the loop over the header lines.
unfoldable pub read_header : Fields → Bytes → Fields
unfolding set_header
read_header f line =
    let (key, header_stream) = getline b':' (open_stream line) f.key in
    let (value, _) = getline b'\n' header_stream f.value in
    record {
      message = set_header f.message (trim key) (trim value);
      key = trim key;
      value = trim value;
    }

unfoldable pub read_headers : Fields → List Bytes → Fields
read_headers f [] = f
read_headers f (line ∷ ls) = read_headers (read_header f line) ls

-- The body from `lpos` on, if the text goes on there.
unfoldable pub body_at : Bytes → ℕ → Outcome Bytes
body_at s lpos = let rpos = length s in if ltb lpos rpos then substr s lpos (rpos - lpos) else ok []

-- The header lines and the body behind the start line, which ends at `lpos`.
unfoldable pub split_body : Bytes → ℕ → Option ℕ → Outcome (Bytes × Bytes)
split_body s lpos none = ok ([], [])
split_body s lpos (some rpos) = do
  header_lines ← substr s lpos (rpos - lpos)
  message_body ← body_at s (rpos + 4)
  ok (header_lines, message_body)

-- The three words of the start line, and what is left of the stream.
unfoldable pub read_start_line : Bytes → Bytes × Bytes × Bytes × Stream
read_start_line start_line =
    let (method, iss1) = extract (open_stream start_line) [] in
    let (path, iss2) = extract iss1 [] in
    let (version, iss3) = extract iss2 [] in (method, path, version, iss3)

-- The request line, checked: `string_to_method`, `Uri` and the version.
unfoldable pub start_request : Bytes → Outcome HttpRequest
unfolding is_1_1
start_request start_line = do
  let (method, path, version, iss) = read_start_line start_line
  require (is_good iss || iss.eof) invalid_argument
  m ← string_to_method method
  v ← string_to_version version
  require (is_1_1 v) logic_error
  ok (record new_request { method = m; request_uri = uri path })

-- The text from the first line end on, which is at `rpos`.
unfoldable pub parse_request : Bytes → Option ℕ → Outcome HttpRequest
parse_request s none = err invalid_argument
parse_request s (some rpos) = do
  start_line ← substr s 0 rpos
  (header_lines, message_body) ← split_body s (rpos + 2) (find_from (codes "\r\n\r\n") s (rpos + 2))
  request ← start_request start_line
  let fields =
      read_headers (record { message = request.message; key = []; value = [] }) (lines header_lines)
  ok (record request { message = set_content fields.message message_body })

unfoldable pub string_to_request : Bytes → Outcome HttpRequest
string_to_request s = parse_request s (find (codes "\r\n") s)
