-- ===== src/Authentication/CachedFileList/Finds.antt =====
-- What `find` sees of the other calls.
use asabru_commons.Base.{
  ◌≡◌, refl, inl, inr, Bool, true, false, ◌&&◌, ◌||◌, Bool-cases, Option, none, some, Bytes, str_eq,
  str_eq_iff, arith,
}
use asabru_commons.Strings.{map_find}
use asabru_commons.Strings.Order.{map_find-set, map_find-erase_ne}
use asabru_commons.Authentication.CachedFileList.{
  CachedFileList, is_some, find, add, remove, compact_file, append_line, mark_file, compact_content,
}

-- What a call changes of what `find` sees.
pub find-add :
    (opens : Bool) (c : CachedFileList) (str key : Bytes)
    → find (add opens c str) key ≡ ((opens && str_eq key str) || find c key)
unfolding add find append_line
find-add opens c str key = elim (Bool-cases (is_some (map_find str c.cache))) [
  | inl known ↦ rw known (ground (arith, str_eq_iff key str))
  | inr new ↦ elim (Bool-cases opens) [
    | inl opened ↦ rw (new, opened, map_find-set str true key c.cache) (ground arith)
    | inr shut ↦ rw (new, shut) refl
  ]
]

find-mark_file_ne :
    (c : CachedFileList) (str key : Bytes) (file : Option Bytes)
    → str_eq key str ≡ false
    → find (mark_file c str file) key ≡ find c key
unfolding mark_file find
find-mark_file_ne c str key none h = refl
find-mark_file_ne c str key (some s) h = rw (map_find-erase_ne str key c.cache h)

pub find-remove_ne :
    (opens : Bool) (c : CachedFileList) (str key : Bytes)
    → str_eq key str ≡ false
    → find (remove opens c str) key ≡ find c key
unfolding remove find
find-remove_ne opens c str key h = elim (Bool-cases (is_some (map_find str c.cache))) [
  | inr missing ↦ rw missing refl
  | inl known ↦ elim (Bool-cases opens) [
    | inl opened ↦ rw (known, opened) (find-mark_file_ne c str key c.file h)
    | inr shut ↦ rw (known, shut) refl
  ]
]

find-compact_content :
    (c : CachedFileList) (file : Option Bytes) (key : Bytes)
    → find (compact_content c file) key ≡ find c key
unfolding compact_content find
find-compact_content c none key = refl
find-compact_content c (some s) key = refl

pub find-compact_file :
    (opens : Bool) (c : CachedFileList) (key : Bytes) → find (compact_file opens c) key ≡ find c key
unfolding compact_file
find-compact_file true c key = find-compact_content c c.file key
find-compact_file false c key = refl
