-- ===== src/Http/Method.antt =====
-- `HttpMethod`, `to_string` and `string_to_method` of src/http/http_message.h and .cpp.
use asabru_commons.Base.{
  ◌≡◌, refl, map, Bytes, codes, str_eq, str_eq_iff, if◌then◌else◌, Outcome, ok, err,
  invalid_argument, arith, ◌↔◌,
}
use asabru_commons.Strings.{to_upper}

pub data HttpMethod : Type 0 where
  get head post put delete connect options trace patch : HttpMethod

unfoldable pub to_string : HttpMethod → Bytes
to_string get = codes "GET"
to_string head = codes "HEAD"
to_string post = codes "POST"
to_string put = codes "PUT"
to_string delete = codes "DELETE"
to_string connect = codes "CONNECT"
to_string options = codes "OPTIONS"
to_string trace = codes "TRACE"
to_string patch = codes "PATCH"

-- The ladder of `string_to_method` on the upper-case text.
method_of_upper : Bytes → Outcome HttpMethod
method_of_upper s =
    if str_eq s (codes "GET")
    then ok get
    else if str_eq s (codes "HEAD")
    then ok head
    else if str_eq s (codes "POST")
    then ok post
    else if str_eq s (codes "PUT")
    then ok put
    else if str_eq s (codes "DELETE")
    then ok delete
    else if str_eq s (codes "CONNECT")
    then ok connect
    else if str_eq s (codes "OPTIONS")
    then ok options
    else if str_eq s (codes "TRACE")
    then ok trace
    else if str_eq s (codes "PATCH")
    then ok patch
    else err invalid_argument

unfoldable pub string_to_method : Bytes → Outcome HttpMethod
unfolding method_of_upper to_upper str_eq
string_to_method s = method_of_upper (map to_upper s)

method_of_upper-to_string : (m : HttpMethod) → method_of_upper (to_string m) ≡ ok m
unfolding method_of_upper to_string str_eq
method_of_upper-to_string get = refl
method_of_upper-to_string _ = refl

-- An upper-case text is read as a method only if it is that method's name.
method_of_upper-eq-ok : (s : Bytes) (m : HttpMethod) → method_of_upper s ≡ ok m → s ≡ to_string m
unfolding method_of_upper to_string
method_of_upper-eq-ok s get h = ground (
  arith,
  str_eq_iff s (codes "GET"),
  str_eq_iff s (codes "HEAD"),
  str_eq_iff s (codes "POST"),
  str_eq_iff s (codes "PUT"),
  str_eq_iff s (codes "DELETE"),
  str_eq_iff s (codes "CONNECT"),
  str_eq_iff s (codes "OPTIONS"),
  str_eq_iff s (codes "TRACE"),
  str_eq_iff s (codes "PATCH"),
)
method_of_upper-eq-ok s _ h = ground (
  arith,
  str_eq_iff s (codes "GET"),
  str_eq_iff s (codes "HEAD"),
  str_eq_iff s (codes "POST"),
  str_eq_iff s (codes "PUT"),
  str_eq_iff s (codes "DELETE"),
  str_eq_iff s (codes "CONNECT"),
  str_eq_iff s (codes "OPTIONS"),
  str_eq_iff s (codes "TRACE"),
  str_eq_iff s (codes "PATCH"),
)

-- `string_to_method` gives a method exactly on the texts that are its name in any case of letters.
pub string_to_method_iff :
    (s : Bytes) (m : HttpMethod) → (string_to_method s ≡ ok m) ↔ (map to_upper s ≡ to_string m)
unfolding string_to_method
string_to_method_iff s m =
    (method_of_upper-eq-ok (map to_upper s) m, λ e. rw e (method_of_upper-to_string m))

pub string_to_method-to_string : (m : HttpMethod) → string_to_method (to_string m) ≡ ok m
unfolding string_to_method to_string
string_to_method-to_string get = refl
string_to_method-to_string _ = refl
