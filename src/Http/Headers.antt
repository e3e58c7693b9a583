-- ===== src/Http/Headers.antt =====
-- The headers of a message behind its operations, and what a parsed request says of its body.
use asabru_commons.Base.{
  ◌≡◌, refl, [], Option-cases, Bytes, length, str_eq, str_eq_iff, if◌then◌else◌, arith, inl, inr,
}
use asabru_commons.Strings.{map_find}
use asabru_commons.Strings.Decimal.{decimal}
use asabru_commons.Strings.Order.{map_find-set}
use asabru_commons.Http.Message.{
  Message, set_header, set_content, content_length_key, header, get_header,
}

pub header-set_header :
    (m : Message) (k v j : Bytes)
    → header (set_header m k v) j ≡ (if str_eq j k then v else header m j)
unfolding header set_header
header-set_header m k v j = rw (map_find-set k v j m.headers) (ground arith)

-- After `SetContent` the header `Content-Length` is the length of the new content in decimal, and
-- every other header is what it was.
pub header-set_content :
    (m : Message) (content j : Bytes)
    → header (set_content m content) j
      ≡ (if str_eq j content_length_key then decimal (length content) else header m j)
unfolding set_content header set_header
header-set_content m content j =
    header-set_header (record m { content = content }) content_length_key (decimal (length content))
      j

-- `GetHeader` gives what `header` gives, and leaves every header as `header` sees it, though it may
-- add an empty one.
pub get_header-header :
    (m : Message) (k j : Bytes)
    → ((get_header m k).0 ≡ header m k) × (header (get_header m k).1 j ≡ header m j)
unfolding get_header header
get_header-header m k j = elim (Option-cases (map_find k m.headers)) [
  | inl e ↦ rw e (refl, rw (map_find-set k [] j m.headers) (ground (arith, str_eq_iff j k)))
  | inr (v, e) ↦ rw e (refl, refl)
]

pub set_content_rest :
    (m : Message) (content : Bytes)
    → ((set_content m content).version ≡ m.version) × ((set_content m content).content ≡ content)
unfolding set_content
set_content_rest m content = (refl, refl)
