-- ===== src/Strings.antt =====
-- The operations of `std::string`, `std::map` and `std::istringstream` that the code calls.
pub mod Find
pub mod Decimal
pub mod Strip
pub mod Lines
pub mod Order
pub mod Memory
pub mod Copies
use mathlib.Core.Option
use asabru_commons.Base.{
  ℕ, zero, suc, ◌+◌, ◌-◌, Bool, true, false, ◌&&◌, ◌||◌, not, Option, none, some, List, [], ◌∷◌,
  ◌++◌, Bytes, length, take, drop, ltb, leb, ◌==◌, str_eq, if◌then◌else◌, Outcome, ok, err,
  out_of_range,
}

unfoldable pub is_prefix : Bytes → Bytes → Bool
is_prefix [] s = true
is_prefix (p ∷ pat) [] = false
is_prefix (p ∷ pat) (c ∷ s) = p == c && is_prefix pat s

-- `s.find(pat)`; `none` is `npos`.
unfoldable pub find : Bytes → Bytes → Option ℕ
unfolding is_prefix
find pat [] = if is_prefix pat [] then some 0 else none
find pat (c ∷ s) = if is_prefix pat (c ∷ s) then some 0 else Option.map suc (find pat s)

-- `s.find(pat, pos)`.
unfoldable pub find_from : Bytes → Bytes → ℕ → Option ℕ
find_from pat s pos =
    if ltb (length s) pos then none else Option.map (λ i. pos + i) (find pat (drop pos s))

-- `s.substr(pos, n)` and `s.substr(pos)`.
unfoldable pub substr : Bytes → ℕ → ℕ → Outcome Bytes
substr s pos n = if ltb (length s) pos then err out_of_range else ok (take n (drop pos s))

unfoldable pub substr_from : Bytes → ℕ → Outcome Bytes
substr_from s pos = if ltb (length s) pos then err out_of_range else ok (drop pos s)

-- `s.erase(0, s.find_first_not_of(c))`.
unfoldable pub strip_left : ℕ → Bytes → Bytes
strip_left c [] = []
strip_left c (d ∷ s) = if d == c then strip_left c s else d ∷ s

unfoldable pub is_empty : Bytes → Bool
is_empty [] = true
is_empty (c ∷ s) = false

-- `s.erase(s.find_last_not_of(c) + 1)`.
unfoldable pub strip_right : ℕ → Bytes → Bytes
unfolding is_empty
strip_right c [] = []
strip_right c (d ∷ s) =
    let rest = strip_right c s in if is_empty rest && d == c then [] else d ∷ rest

-- `operator<` of two strings, byte by byte.
unfoldable pub str_ltb : Bytes → Bytes → Bool
str_ltb s [] = false
str_ltb [] (d ∷ t) = true
str_ltb (c ∷ s) (d ∷ t) = ltb c d || (c == d && str_ltb s t)

-- `m[key] = value` and `m.find(key)` on a `std::map`, as its entries in the order of the keys.
module _ {ℓ} {V : Type ℓ} where
  unfoldable pub map_set : Bytes → V → List (Bytes × V) → List (Bytes × V)
  unfolding str_eq str_ltb
  map_set key value [] = (key, value) ∷ []
  map_set key value ((k, v) ∷ m) =
      if str_eq key k
      then (key, value) ∷ m
      else if str_ltb key k
      then (key, value) ∷ (k, v) ∷ m
      else (k, v) ∷ map_set key value m

  unfoldable pub map_find : Bytes → List (Bytes × V) → Option V
  unfolding str_eq
  map_find key [] = none
  map_find key ((k, v) ∷ m) = if str_eq key k then some v else map_find key m

  unfoldable pub map_erase : Bytes → List (Bytes × V) → List (Bytes × V)
  unfolding str_eq
  map_erase key [] = []
  map_erase key ((k, v) ∷ m) = if str_eq key k then m else (k, v) ∷ map_erase key m

-- `isspace`, `tolower` and `toupper` in the C locale.
unfoldable pub is_space : ℕ → Bool
is_space c = (leb 9 c && leb c 13) || c == 32

unfoldable pub to_lower : ℕ → ℕ
to_lower c = if leb b'A' c && leb c b'Z' then c + 32 else c

unfoldable pub to_upper : ℕ → ℕ
to_upper c = if leb b'a' c && leb c b'z' then c - 32 else c

-- An input stream: what is unread, and its `eofbit` and `failbit`.
pub record Stream : Type 0 where
  pub rest : Bytes
  pub eof : Bool
  pub fail : Bool

unfoldable pub open_stream : Bytes → Stream
open_stream s = record { rest = s; eof = false; fail = false }

unfoldable pub is_good : Stream → Bool
is_good s = not s.eof && not s.fail

-- The text before the first `delim`, and the text behind it if there is one.
unfoldable pub cut : ℕ → Bytes → Bytes × Option Bytes
cut delim [] = ([], none)
cut delim (c ∷ s) =
    let rest = cut delim s in if c == delim then ([], some s) else (c ∷ rest.0, rest.1)

read_line : Bytes × Option Bytes → Bytes × Stream
read_line (line, none) = (line, record { rest = []; eof = true; fail = is_empty line })
read_line (line, some rest) = (line, record { rest = rest; eof = false; fail = false })

-- `std::getline(s, line, delim)` on a line that held `old`.
unfoldable pub getline : ℕ → Stream → Bytes → Bytes × Stream
unfolding is_good cut read_line is_empty
getline delim s old =
    if is_good s then read_line (cut delim s.rest) else (old, record s { fail = true })

-- A byte in front of the first line.
join_first : ℕ → List Bytes → List Bytes
join_first c [] = (c ∷ []) ∷ []
join_first c (l ∷ ls) = (c ∷ l) ∷ ls

-- The lines that `while (std::getline(s, line))` reads from a fresh stream.
unfoldable pub lines : Bytes → List Bytes
unfolding join_first
lines [] = []
lines (c ∷ s) = let rest = lines s in if c == b'\n' then [] ∷ rest else join_first c rest

-- `s >> word` on a string that held `old`: white space is skipped, then the word is read up to
-- white space or the end.
skip_space : Bytes → Bytes
skip_space [] = []
skip_space (c ∷ s) = if is_space c then skip_space s else c ∷ s

word_of : Bytes → Bytes × Bytes
word_of [] = ([], [])
word_of (c ∷ s) = let rest = word_of s in if is_space c then ([], c ∷ s) else (c ∷ rest.0, rest.1)

read_word : Bytes × Bytes → Bytes × Stream
unfolding is_empty
read_word (word, rest) = (word, record { rest = rest; eof = is_empty rest; fail = is_empty word })

unfoldable pub extract : Stream → Bytes → Bytes × Stream
unfolding is_good skip_space word_of read_word is_empty is_space
extract s old =
    let body = skip_space s.rest in
    if is_good s && not (is_empty body)
    then read_word (word_of body)
    else (old, record { rest = []; eof = s.eof || is_good s; fail = true })
