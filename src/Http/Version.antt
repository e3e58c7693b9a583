-- ===== src/Http/Version.antt =====
-- `HttpVersion`, `to_string` and `string_to_version` of src/http/http_message.h and .cpp.
use asabru_commons.Base.{
  ◌≡◌, refl, ◌↔◌, ◌⊎◌, inl, inr, ◌||◌, map, Bytes, codes, str_eq, str_eq_iff, if◌then◌else◌,
  Outcome, ok, err, invalid_argument, arith, Bool, true, false,
}
use asabru_commons.Strings.{to_upper}

pub data HttpVersion : Type 0 where
  http_0_9 http_1_0 http_1_1 http_2_0 : HttpVersion

unfoldable pub to_string : HttpVersion → Bytes
to_string http_0_9 = codes "HTTP/0.9"
to_string http_1_0 = codes "HTTP/1.0"
to_string http_1_1 = codes "HTTP/1.1"
to_string http_2_0 = codes "HTTP/2.0"

version_of_upper : Bytes → Outcome HttpVersion
version_of_upper s =
    if str_eq s (codes "HTTP/0.9")
    then ok http_0_9
    else if str_eq s (codes "HTTP/1.0")
    then ok http_1_0
    else if str_eq s (codes "HTTP/1.1")
    then ok http_1_1
    else if str_eq s (codes "HTTP/2") || str_eq s (codes "HTTP/2.0")
    then ok http_2_0
    else err invalid_argument

unfoldable pub string_to_version : Bytes → Outcome HttpVersion
unfolding version_of_upper to_upper str_eq
string_to_version s = version_of_upper (map to_upper s)

-- `operator==` of two versions.
unfoldable pub is_1_1 : HttpVersion → Bool
is_1_1 http_1_1 = true
is_1_1 _ = false

version_of_upper-eq-ok :
    (s : Bytes) (v : HttpVersion)
    → version_of_upper s ≡ ok v
    → (s ≡ to_string v) ⊎ ((v ≡ http_2_0) × (s ≡ codes "HTTP/2"))
unfolding version_of_upper to_string
version_of_upper-eq-ok s v h = ground (
  arith,
  str_eq_iff s (codes "HTTP/0.9"),
  str_eq_iff s (codes "HTTP/1.0"),
  str_eq_iff s (codes "HTTP/1.1"),
  str_eq_iff s (codes "HTTP/2"),
  str_eq_iff s (codes "HTTP/2.0"),
)

version_of_upper-to_string : (v : HttpVersion) → version_of_upper (to_string v) ≡ ok v
unfolding version_of_upper to_string str_eq
version_of_upper-to_string http_0_9 = refl
version_of_upper-to_string _ = refl

-- A version is read from its own name in any case of letters, and 2.0 also from "HTTP/2"; nothing
-- else is read.
pub string_to_version_iff :
    (s : Bytes) (v : HttpVersion)
    → (string_to_version s ≡ ok v)
      ↔ ((map to_upper s ≡ to_string v) ⊎ ((v ≡ http_2_0) × (map to_upper s ≡ codes "HTTP/2")))
unfolding string_to_version
string_to_version_iff s v = (version_of_upper-eq-ok (map to_upper s) v, back)
  where
    back :
        (map to_upper s ≡ to_string v) ⊎ ((v ≡ http_2_0) × (map to_upper s ≡ codes "HTTP/2"))
        → version_of_upper (map to_upper s) ≡ ok v
    back (inl e) = rw e (version_of_upper-to_string v)
    back (inr (e, f)) = rw (e, f)

pub string_to_version-to_string : (v : HttpVersion) → string_to_version (to_string v) ≡ ok v
unfolding string_to_version to_string
string_to_version-to_string http_0_9 = refl
string_to_version-to_string _ = refl
