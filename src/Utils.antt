-- ===== src/Utils.antt =====
-- src/Utils.h: the string utilities.
pub mod Split
pub mod Escapes
mod Examples
use asabru_commons.Base.{
  ℕ, zero, suc, ◌+◌, List, [], ◌∷◌, ◌++◌, Option, none, some, Bytes, codes, length, take, drop, ltb,
  ◌==◌, if◌then◌else◌, Outcome, ok, err, undefined_behaviour,
}
use asabru_commons.Strings.{find, cut}

-- `res.push_back(token)` in front of what follows.
abbrev pub with_token : Bytes → Option (List Bytes) → Option (List Bytes)
with_token token none = none
with_token token (some ts) = some (token ∷ ts)

-- A round of the loop of `split`, on the text from `pos_start` on, with the rounds behind it.
abbrev pub split_at : (Bytes → Option (List Bytes)) → Bytes → Bytes → Option ℕ → Option (List Bytes)
split_at next delimiter s none = some (s ∷ [])
split_at next delimiter s (some i) = with_token (take i s) (next (drop (i + length delimiter) s))

-- The loop; `none` if the fuel does not last.
unfoldable pub split_loop : ℕ → Bytes → Bytes → Option (List Bytes)
split_loop zero delimiter s = none
split_loop (suc n) delimiter s = split_at (split_loop n delimiter) delimiter s (find delimiter s)

-- With fuel for a token at each byte and one more.
unfoldable pub split : Bytes → Bytes → Option (List Bytes)
split s delimiter = split_loop (suc (length s)) delimiter s

-- The key and the value around the first colon of what `strcpy` copied.
chopped : Bytes × Option Bytes → Bytes × Bytes
chopped (line, none) = ([], [])
chopped (key, some value) = (key, value)

-- `ChopLine`: the copy ends at a null byte, and a copy that does not fit is undefined behaviour.
unfoldable pub chop_line : Bytes → Outcome (Bytes × Bytes)
unfolding chopped
chop_line str =
    let s = (cut 0 str).0 in
    if ltb (length s) 4096 then ok (chopped (cut b':' s)) else err undefined_behaviour

-- The `switch` on a character.
unfoldable pub escape : ℕ → Bytes
escape c =
    if c == b'\n'
    then codes "\\n"
    else if c == b'\r'
    then codes "\\r"
    else if c == b'\t'
    then codes "\\t"
    else if c == b'\\'
    then codes "\\\\"
    else c ∷ []

unfoldable pub get_string_with_escapes : Bytes → Bytes
unfolding escape
get_string_with_escapes [] = []
get_string_with_escapes (c ∷ s) = escape c ++ get_string_with_escapes s
