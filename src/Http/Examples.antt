-- ===== src/Http/Examples.antt =====
-- Messages parsed and printed.
use asabru_commons.Base.Int.{pos}
use asabru_commons.Base.{
  ◌⊎◌, err, out_of_range, invalid_argument, logic_error, Failure, str_eq, ◌≡◌, refl, [], ◌∷◌, codes,
  ok, arith, Bytes,
}
use asabru_commons.Strings.{
  find, find_from, substr, extract, getline, lines, map_set, strip_left, strip_right, open_stream,
  is_space, is_empty, cut,
}
use asabru_commons.Strings.Decimal.{decimal}
use asabru_commons.Http.Uri.{uri}
use asabru_commons.Http.Method.{get, post, string_to_method}
use asabru_commons.Http.Version.{http_1_0, http_1_1, string_to_version}
use asabru_commons.Http.Message.{new_message, set_content}
use asabru_commons.Http.Request.{
  HttpRequest, Fields, string_to_request, to_string, start_request, split_body, read_start_line,
  read_headers, read_header, trim, parse_request, body_at,
}
use asabru_commons.Http.Accepted.{IsAccepted, string_to_request-IsAccepted}
use asabru_commons.Http.Trim.{IsField}
use asabru_commons.Http.Response.{HttpResponse, string_to_response}
use asabru_commons.Http.Response
use asabru_commons.Http.Response.Blank.{string_to_response-FailsIf}
use asabru_commons.Http.Refused.{IsBadStart, string_to_request-err}
use asabru_commons.Http.RoundTrip.{IsPrintable, string_to_request-to_string}

abbrev no_colon_text : Bytes
no_colon_text = codes "GET /x HTTP/1.1\r\nHost: a\r\nnocolon\r\n\r\nhi"

abbrev stale_request : HttpRequest
stale_request = record {
  message = record {
    version = http_1_1;
    headers =
        (codes "Content-Length", codes "2")
        ∷ (codes "Host", codes "a")
        ∷ (codes "nocolon", codes "a")
        ∷ [];
    content = codes "hi";
  };
  method = get;
  request_uri = uri (codes "/x");
}

stale_value : string_to_request no_colon_text ≡ ok stale_request
unfolding string_to_request start_request split_body read_start_line find find_from substr extract
    getline lines map_set strip_left strip_right decimal open_stream string_to_method
    string_to_version read_headers read_header trim set_content parse_request body_at
stale_value = refl

string_to_request-IsAccepted_example : IsAccepted stale_request
string_to_request-IsAccepted_example = string_to_request-IsAccepted no_colon_text stale_value

abbrev host : Bytes × Bytes
host = (codes "Host", codes "a b")

host-IsField : IsField host
unfolding strip_left strip_right
host-IsField = record {
  no_colon = ground arith;
  key = record { no_cr = ground arith; no_lf = ground arith; left = refl; right = refl };
  value = record { no_cr = ground arith; no_lf = ground arith; left = refl; right = refl };
}

abbrev post_request : HttpRequest
post_request = record {
  message = record { version = http_1_1; headers = host ∷ []; content = codes "hi\r\n\r\n" };
  method = post;
  request_uri = uri (codes "/x");
}

post_request-IsPrintable : IsPrintable post_request
unfolding is_space
post_request-IsPrintable = record {
  first = b'/';
  others = codes "x";
  head = host;
  tail = [];
  path_is = refl;
  path_word = (refl, (refl, tt));
  version_is = refl;
  headers_are = refl;
  fields = (host-IsField, tt);
  sorted = (tt, tt);
}

string_to_request-to_string_example :
    string_to_request (to_string post_request)
    ≡ ok (record post_request { message = set_content post_request.message (codes "hi\r\n\r\n") })
string_to_request-to_string_example =
    string_to_request-to_string post_request post_request-IsPrintable

abbrev host_fields : Fields
host_fields = record { message = new_message; key = codes "Host"; value = codes "a" }

abbrev found_response : HttpResponse
found_response = record {
  message = record { version = http_1_0; headers = host ∷ []; content = codes "hi" };
  status_code = pos 302;
}

-- A header with no value, in a text whose lines end in a line feed only.
string_to_response-FailsIf_example :
    string_to_response (codes "HTTP/1.1 200 OK\nServer:\n\nhi") ≡ err out_of_range
unfolding lines is_empty cut str_eq decimal
string_to_response-FailsIf_example =
    string_to_response-FailsIf b'H' (codes "TTP/1.1") 200 (codes "OK") (codes "Server:\n\nhi")
      (unfold is_space in ground arith) (omega arith) (ground arith)

old_version : string_to_request (codes "GET / HTTP/1.0\r\n\r\n") ≡ err logic_error
unfolding string_to_request start_request split_body read_start_line find find_from substr extract
    lines open_stream string_to_method string_to_version parse_request body_at
old_version = refl

string_to_request-err_example :
    ((logic_error ≡ invalid_argument) ⊎ (◌≡◌ {A = Failure} logic_error logic_error))
    × IsBadStart (codes "GET / HTTP/1.0\r\n\r\n") logic_error
string_to_request-err_example = string_to_request-err (codes "GET / HTTP/1.0\r\n\r\n") old_version
