-- ===== src/Authentication/CachedFileList.antt =====
-- src/authentication/CachedFileList.h: strings in a map, and in a file that is appended to and marked.
-- Each call holds the mutex from beginning to end. Whether the system opens a file is an argument.
pub mod Synced
pub mod Marked
pub mod Durable
pub mod Finds
use asabru_commons.Base.{
  ℕ, ◌+◌, List, [], ◌∷◌, ◌++◌, map, Bool, true, false, not, ◌&&◌, ◌||◌, ◌==◌, ltb, Option, none,
  some, Bytes, length, set, str_eq, if◌then◌else◌,
}
use asabru_commons.Strings.{lines, map_set, map_find, map_erase}

-- `file` is `none` where there is no such file.
pub record CachedFileList : Type 0 where
  pub cache : List (Bytes × Bool)
  pub file : Option Bytes

-- `'\v'`, the mark of a removed line.
abbrev pub vertical_tab : ℕ
vertical_tab = 11

abbrev pub content : Option Bytes → Bytes
content none = []
content (some s) = s

abbrev pub is_some : Option Bool → Bool
is_some none = false
is_some (some v) = true

-- `!line.empty() && line[0] != '\v'`.
abbrev pub is_live : Bytes → Bool
is_live [] = false
is_live (c ∷ s) = not (c == vertical_tab)

-- The loop of `populateCacheFromFile`.
unfoldable pub populate : List Bytes → List (Bytes × Bool) → List (Bytes × Bool)
populate [] cache = cache
populate (line ∷ ls) cache = populate ls (if is_live line then map_set line true cache else cache)

-- The constructor.
unfoldable pub cached_file_list : Option Bytes → CachedFileList
cached_file_list file = record { cache = populate (lines (content file)) []; file = file }

unfoldable pub find : CachedFileList → Bytes → Bool
find c str = is_some (map_find str c.cache)

-- `outFile << str << std::endl` at the end of the file, which is made if there is none.
append_line : CachedFileList → Bytes → CachedFileList
append_line c str = record {
  cache = map_set str true c.cache;
  file = some (content c.file ++ (str ++ b'\n' ∷ []));
}

unfoldable pub add : Bool → CachedFileList → Bytes → CachedFileList
unfolding append_line find
add opens c str = if find c str then c else if opens then append_line c str else c

-- The position of the first line that is `str`.
unfoldable pub position : Bytes → List Bytes → ℕ → Option ℕ
position str [] pos = none
position str (line ∷ ls) pos =
    if str_eq line str then some pos else position str ls (pos + (length line + 1))

-- `seekp(pos)` and `put('\v')`, which does nothing if the last `getline` met the end of the file.
put_mark : Bytes → Bytes → Option ℕ → Bytes
put_mark s str none = s
put_mark s str (some pos) = if ltb (pos + length str) (length s) then set s pos vertical_tab else s

unfoldable pub mark : Bytes → Bytes → Bytes
unfolding put_mark
mark s str = put_mark s str (position str (lines s) 0)

-- A file that is not there cannot be opened for reading and writing.
mark_file : CachedFileList → Bytes → Option Bytes → CachedFileList
mark_file c str none = c
mark_file c str (some s) = record c { cache = map_erase str c.cache; file = some (mark s str) }

unfoldable pub remove : Bool → CachedFileList → Bytes → CachedFileList
unfolding mark_file find
remove opens c str = if find c str then (if opens then mark_file c str c.file else c) else c

unfoldable pub get_all : CachedFileList → List Bytes
get_all c = map (λ entry. entry.0) c.cache

-- `line[0] != '\v'`; the first character of an empty line is the null character.
abbrev pub is_kept : Bytes → Bool
is_kept [] = true
is_kept (c ∷ s) = not (c == vertical_tab)

-- The loop of `compactFile`, as what it writes.
unfoldable pub compacted : List Bytes → Bytes
compacted [] = []
compacted (line ∷ ls) =
    let rest = compacted ls in if is_kept line then line ++ b'\n' ∷ rest else rest

compact_content : CachedFileList → Option Bytes → CachedFileList
compact_content c none = c
compact_content c (some s) = record c { file = some (compacted (lines s)) }

-- `opens` says whether both files open; the temporary file takes the place of the old one.
unfoldable pub compact_file : Bool → CachedFileList → CachedFileList
unfolding compact_content
compact_file opens c = if opens then compact_content c c.file else c
