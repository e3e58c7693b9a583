-- ===== src/Http/Status.antt =====
-- `HttpStatusCode` of src/http/http_message.h. The enumeration holds any `int`, which
-- `string_to_response` casts to it; the named values are constants.
use asabru_commons.Base.Int.{ℤ, pos, negsuc}
use asabru_commons.Base.{ℕ, [], Bytes, codes, ◌==◌, if◌then◌else◌}

abbrev pub HttpStatusCode : Type 0
HttpStatusCode = ℤ

-- The `switch` of `to_string` on a value that is not negative.
reason : ℕ → Bytes
reason n =
    if n == 100
    then codes "Continue"
    else if n == 200
    then codes "OK"
    else if n == 202
    then codes "Accepted"
    else if n == 301
    then codes "Moved Permanently"
    else if n == 302
    then codes "Found"
    else if n == 400
    then codes "Bad Request"
    else if n == 403
    then codes "Forbidden"
    else if n == 404
    then codes "Not Found"
    else if n == 405
    then codes "Method Not Allowed"
    else if n == 418
    then codes "I'm a Teapot"
    else if n == 500
    then codes "Internal Server Error"
    else if n == 501
    then codes "Not Implemented"
    else if n == 502
    then codes "Bad Gateway"
    else []

unfoldable pub to_string : HttpStatusCode → Bytes
unfolding reason
to_string (pos n) = reason n
to_string (negsuc n) = []
