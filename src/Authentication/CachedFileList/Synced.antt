-- ===== src/Authentication/CachedFileList/Synced.antt =====
-- The file and the cache of a `CachedFileList` in step, and `add`.
use asabru_commons.Base.{
  ◌≡◌, refl, sym, ◌∙◌, List, [], ◌∷◌, ◌++◌, append_assoc, Bool, true, false, ◌&&◌, ◌||◌, Option,
  Bytes, str_eq, str_eq_iff, arith, Lacks, All, All-append, Bool-cases, inl, inr,
}
use asabru_commons.Strings.{lines, map_set, map_find}
use asabru_commons.Strings.Lines.{lines-append}
use asabru_commons.Strings.Order.{IsSorted, map_set-IsSorted, map_find-set}
use asabru_commons.Authentication.CachedFileList.{
  CachedFileList, content, is_some, is_live, populate, cached_file_list, find, add, append_line,
}

-- The text of a file with these lines.
abbrev pub unlines : List Bytes → Bytes
unlines [] = []
unlines (l ∷ ls) = l ++ b'\n' ∷ unlines ls

-- A live line is `str`.
abbrev pub holds : List Bytes → Bytes → Bool
holds [] str = false
holds (l ∷ ls) str = (is_live l && str_eq str l) || holds ls str

-- No live line stands in the file twice.
abbrev pub IsUnique : List Bytes → Type 0
IsUnique [] = Unit
IsUnique (l ∷ ls) = (is_live l ≡ true → holds ls l ≡ false) × IsUnique ls

pub record IsSynced (c : CachedFileList) (ls : List Bytes) : Type 0 where
  pub text : content c.file ≡ unlines ls
  pub whole : All (Lacks b'\n') ls
  pub unique : IsUnique ls
  pub sorted : IsSorted c.cache
  pub agrees : (str : Bytes) → find c str ≡ holds ls str

pub lines-unlines : (ls : List Bytes) → All (Lacks b'\n') ls → lines (unlines ls) ≡ ls
lines-unlines [] w = unfold lines in refl
lines-unlines (l ∷ ls) w = rw (lines-append l (unlines ls) w.0, lines-unlines ls w.1)

unlines-append : (ls ms : List Bytes) → unlines (ls ++ ms) ≡ unlines ls ++ unlines ms
unlines-append [] ms = refl
unlines-append (l ∷ ls) ms = rw (unlines-append ls ms) (simp append_assoc)

holds-append :
    (ls : List Bytes) (l str : Bytes)
    → holds (ls ++ l ∷ []) str ≡ ((is_live l && str_eq str l) || holds ls str)
holds-append [] l str = refl
holds-append (m ∷ ls) l str = rw (holds-append ls l str) (ground arith)

IsUnique-append :
    (ls : List Bytes) (str : Bytes) → holds ls str ≡ false → IsUnique ls → IsUnique (ls ++ str ∷ [])
IsUnique-append [] str h u = (λ live. refl, tt)
IsUnique-append (l ∷ ls) str h u = (
  λ live. rw (holds-append ls str l) (ground (arith, u.0 live, str_eq_iff l str, str_eq_iff str l)),
  IsUnique-append ls str (ground arith) u.1,
)

is_some-populate :
    (ls : List Bytes) (m : List (Bytes × Bool)) (str : Bytes)
    → is_some (map_find str (populate ls m)) ≡ (holds ls str || is_some (map_find str m))
unfolding populate
is_some-populate [] m str = refl
is_some-populate (l ∷ ls) m str = elim (Bool-cases (is_live l)) [
  | inl e ↦
      rw (e, is_some-populate ls (map_set l true m) str, map_find-set l true str m) (ground arith)
  | inr e ↦ rw (e, is_some-populate ls m str) (ground arith)
]

-- What a restart finds is what stands in live lines.
pub find-cached_file_list :
    (file : Option Bytes) (ls : List Bytes) (str : Bytes)
    → content file ≡ unlines ls
    → All (Lacks b'\n') ls
    → find (cached_file_list file) str ≡ holds ls str
unfolding find cached_file_list
find-cached_file_list file ls str e w =
    rw (e, lines-unlines ls w, is_some-populate ls [] str) (unfold map_find in ground arith)

append_line-IsSynced :
    (c : CachedFileList) (ls : List Bytes) (str : Bytes)
    → IsSynced c ls
    → Lacks b'\n' str
    → is_live str ≡ true
    → find c str ≡ false
    → IsSynced (append_line c str) (ls ++ str ∷ [])
unfolding append_line find
append_line-IsSynced c ls str s w live new = record {
  text = rw s.text (sym (unlines-append ls (str ∷ [])));
  whole = All-append (Lacks b'\n') ls (str ∷ []) s.whole (w, tt);
  unique = IsUnique-append ls str (sym (s.agrees str) ∙ new) s.unique;
  sorted = map_set-IsSorted str true c.cache s.sorted;
  agrees = λ key.
      rw (map_find-set str true key c.cache, holds-append ls str key, live, ← s.agrees key)
        (ground arith);
}

-- `add` keeps the file and the cache in step, whether or not the file opens.
pub add-IsSynced :
    (opens : Bool) (c : CachedFileList) (ls : List Bytes) (str : Bytes)
    → IsSynced c ls
    → Lacks b'\n' str
    → is_live str ≡ true
    → (ms : List Bytes) × IsSynced (add opens c str) ms
unfolding add
add-IsSynced opens c ls str s w live = elim (Bool-cases (find c str)) [
  | inl known ↦ rw known (ls, s)
  | inr new ↦ elim (Bool-cases opens) [
    | inl opened ↦ rw (new, opened) (ls ++ str ∷ [], append_line-IsSynced c ls str s w live new)
    | inr shut ↦ rw (new, shut) (ls, s)
  ]
]
