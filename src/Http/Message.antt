-- ===== src/Http/Message.antt =====
-- `HttpMessageInterface` of src/http/http_message.h: version, headers and content.
use asabru_commons.Base.{List, [], ◌∷◌, ◌++◌, Option, none, some, Bytes, codes, length, ℕ}
use asabru_commons.Strings.{map_set, map_find, map_erase}
use asabru_commons.Strings.Decimal.{decimal}
use asabru_commons.Http.Version.{HttpVersion, http_1_1}

-- A header's key and value.
abbrev pub Headers : Type 0
Headers = List (Bytes × Bytes)

pub record Message : Type 0 where
  pub version : HttpVersion
  pub headers : Headers
  pub content : Bytes

abbrev pub new_message : Message
new_message = record { version = http_1_1; headers = []; content = [] }

unfoldable pub set_header : Message → Bytes → Bytes → Message
set_header m key value = record m { headers = map_set key value m.headers }

abbrev pub content_length_key : Bytes
content_length_key = codes "Content-Length"

unfoldable pub set_content_length : Message → Message
unfolding set_header
set_content_length m = set_header m content_length_key (decimal (length m.content))

unfoldable pub set_content : Message → Bytes → Message
unfolding set_content_length
set_content m content = set_content_length (record m { content = content })

-- The argument of `ClearContent` is not used.
unfoldable pub clear_content : Message → Bytes → Message
unfolding set_content_length
clear_content m content = set_content_length (record m { content = [] })

unfoldable pub remove_header : Message → Bytes → Message
remove_header m key = record m { headers = map_erase key m.headers }

unfoldable pub clear_header : Message → Message
clear_header m = record m { headers = [] }

-- The value that a missing key stands for.
value_or_empty : Option Bytes → Bytes
value_or_empty none = []
value_or_empty (some v) = v

-- `header`, which leaves the message as it is.
unfoldable pub header : Message → Bytes → Bytes
unfolding value_or_empty
header m key = value_or_empty (map_find key m.headers)

-- `GetHeader` by `headers_[key]`, which adds an empty header under a missing key.
add_missing : Message → Bytes → Option Bytes → Bytes × Message
unfolding set_header
add_missing m key none = ([], set_header m key [])
add_missing m key (some v) = (v, m)

unfoldable pub get_header : Message → Bytes → Bytes × Message
unfolding add_missing
get_header m key = add_missing m key (map_find key m.headers)

abbrev pub content_length : Message → ℕ
content_length m = length m.content

abbrev crlf : Bytes
crlf = codes "\r\n"

unfoldable pub header_line : Bytes × Bytes → Bytes
header_line (key, value) = key ++ (codes ": " ++ (value ++ codes "\r\n"))

-- The loop over the headers in both functions `to_string`.
unfoldable pub print_headers : Headers → Bytes
unfolding header_line
print_headers [] = []
print_headers (h ∷ hs) = header_line h ++ print_headers hs
