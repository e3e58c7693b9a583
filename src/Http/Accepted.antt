-- ===== src/Http/Accepted.antt =====
-- What `string_to_request` promises of every request that it accepts.
use asabru_commons.Base.{
  ◌≡◌, refl, ◌∙◌, List, [], ◌∷◌, Option, none, some, Bytes, length, ℕ, ◌+◌, str_eq_self, Outcome,
  ok, err, >>=-eq-ok, require, invalid_argument, logic_error, codes, ◌||◌, subst, ap,
}
use asabru_commons.Strings.{find, find_from, lines, substr, is_good}
use asabru_commons.Strings.Decimal.{decimal}
use asabru_commons.Http.Version.{http_1_1, is_1_1, string_to_version}
use asabru_commons.Http.Method.{string_to_method}
use asabru_commons.Http.Message.{content_length_key, header, set_content}
use asabru_commons.Http.Headers.{header-set_content, set_content_rest}
use asabru_commons.Http.Request.{
  HttpRequest, Fields, read_header, read_headers, read_start_line, start_request, parse_request,
  string_to_request, split_body,
}

-- What holds of a request behind the parser.
pub record IsAccepted (r : HttpRequest) : Type 0 where
  pub version : r.message.version ≡ http_1_1
  pub sized : header r.message content_length_key ≡ decimal (length r.message.content)

read_headers-version :
    (f : Fields) (ls : List Bytes) → (read_headers f ls).message.version ≡ f.message.version
unfolding read_headers read_header
read_headers-version f [] = refl
read_headers-version f (l ∷ ls) = read_headers-version (read_header f l) ls

start_request-version :
    (s : Bytes) {r : HttpRequest} → start_request s ≡ ok r → r.message.version ≡ http_1_1
unfolding start_request
start_request-version s h =
    let (m, path, v, iss) = read_start_line s in
    let (_, _, h1) = >>=-eq-ok (require (is_good iss || iss.eof) invalid_argument) _ h in
    let (_, _, h2) = >>=-eq-ok (string_to_method m) _ h1 in
    let (version, _, h3) = >>=-eq-ok (string_to_version v) _ h2 in
    let (_, _, h4) = >>=-eq-ok (require (is_1_1 version) logic_error) _ h3 in cc

abbrev value_of : HttpRequest → Outcome HttpRequest → HttpRequest
value_of d (ok r) = r
value_of d (err e) = d

filled-IsAccepted :
    (r : HttpRequest) (ls : List Bytes) (body : Bytes)
    → r.message.version ≡ http_1_1
    → IsAccepted (record r {
      message =
          set_content
            (read_headers (record { message = r.message; key = []; value = [] }) ls).message
            body;
    })
filled-IsAccepted r ls body h =
    let fields = read_headers (record { message = r.message; key = []; value = [] }) ls in
    let (v, c) = set_content_rest fields.message body in
    record {
      version = v ∙ read_headers-version _ ls ∙ h;
      sized =
          header-set_content fields.message body content_length_key
          ∙ rw (str_eq_self content_length_key, c);
    }

parse_request-IsAccepted :
    (s : Bytes) (o : Option ℕ) {r : HttpRequest} → parse_request s o ≡ ok r → IsAccepted r
unfolding parse_request
parse_request-IsAccepted s none h = cc
parse_request-IsAccepted s (some rpos) h =
    let (start_line, _, h1) = >>=-eq-ok (substr s 0 rpos) _ h in
    let ((header_lines, body), _, h2) =
      >>=-eq-ok (split_body s (rpos + 2) (find_from (codes "\r\n\r\n") s (rpos + 2))) _ h1 in
    let (request, e, h3) = >>=-eq-ok (start_request start_line) _ h2 in
    subst IsAccepted (ap (value_of request) h3)
      (filled-IsAccepted request (lines header_lines) body (start_request-version start_line e))

-- Every request that `string_to_request` gives is of version 1.1 and its `Content-Length` is the
-- length of its content in decimal, whatever the text said of either.
pub string_to_request-IsAccepted :
    (s : Bytes) {r : HttpRequest} → string_to_request s ≡ ok r → IsAccepted r
unfolding string_to_request
string_to_request-IsAccepted s h = parse_request-IsAccepted s (find (codes "\r\n") s) h
