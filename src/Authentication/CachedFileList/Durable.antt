-- ===== src/Authentication/CachedFileList/Durable.antt =====
-- Calls on a `CachedFileList`, and restarts on its file.
use asabru_commons.Base.{
  ◌≡◌, refl, sym, ◌∙◌, List, [], ◌∷◌, Bool, true, false, Option, none, some, Bytes, arith, Lacks,
  All, Bool-cases, inl, inr,
}
use asabru_commons.Strings.Order.{map_erase-IsSorted, map_find-erase}
use asabru_commons.Authentication.CachedFileList.{
  CachedFileList, is_live, cached_file_list, find, add, remove, compact_file, mark_file,
  compact_content,
}
use asabru_commons.Authentication.CachedFileList.Synced.{
  unlines, IsSynced, lines-unlines, find-cached_file_list, add-IsSynced,
}
use asabru_commons.Authentication.CachedFileList.Marked.{
  marked, holds-is_live, holds-marked, IsUnique-marked, Lacks-marked, mark-unlines, kept,
  compacted-kept, holds-kept, IsUnique-kept, Lacks-kept,
}

mark_file-IsSynced :
    (c : CachedFileList) (ls : List Bytes) (str : Bytes) (file : Option Bytes)
    → c.file ≡ file
    → IsSynced c ls
    → is_live str ≡ true
    → (ms : List Bytes) × IsSynced (mark_file c str file) ms
unfolding mark_file find
mark_file-IsSynced c ls str none e s live = (ls, s)
mark_file-IsSynced c ls [] (some f) e s live = absurd (cc)
mark_file-IsSynced c ls (d ∷ str) (some f) e s live =
    let text_is : f ≡ unlines ls = rw e at s.text in
    (
      marked (d ∷ str) ls,
      record {
        text = rw text_is (mark-unlines d str ls s.whole);
        whole = Lacks-marked d str ls s.whole;
        unique = IsUnique-marked d str ls live s.unique;
        sorted = map_erase-IsSorted (d ∷ str) c.cache s.sorted;
        agrees = λ key.
            rw
              (
                map_find-erase (d ∷ str) key c.cache s.sorted,
                holds-marked d str ls key live s.unique,
                ← s.agrees key,
              )
              (ground arith);
      },
    )

-- `remove` keeps the file and the cache in step, whether or not the file opens.
pub remove-IsSynced :
    (opens : Bool) (c : CachedFileList) (ls : List Bytes) (str : Bytes)
    → IsSynced c ls
    → (ms : List Bytes) × IsSynced (remove opens c str) ms
unfolding remove
remove-IsSynced opens c ls str s = elim (Bool-cases (find c str)) [
  | inr missing ↦ rw missing (ls, s)
  | inl known ↦ elim (Bool-cases opens) [
    | inr shut ↦ rw (known, shut) (ls, s)
    | inl opened ↦
        rw (known, opened)
          (mark_file-IsSynced c ls str c.file refl s
            (holds-is_live ls str (sym (s.agrees str) ∙ known)))
  ]
]

compact_content-IsSynced :
    (c : CachedFileList) (ls : List Bytes) (file : Option Bytes)
    → c.file ≡ file
    → IsSynced c ls
    → (ms : List Bytes) × IsSynced (compact_content c file) ms
unfolding compact_content find
compact_content-IsSynced c ls none e s = (ls, s)
compact_content-IsSynced c ls (some f) e s =
    let text_is : f ≡ unlines ls = rw e at s.text in
    (
      kept ls,
      record {
        text = rw (text_is, lines-unlines ls s.whole) (compacted-kept ls);
        whole = Lacks-kept ls s.whole;
        unique = IsUnique-kept ls s.unique;
        sorted = s.sorted;
        agrees = λ key. s.agrees key ∙ sym (holds-kept ls key);
      },
    )

-- `compactFile` keeps the file and the cache in step.
pub compact_file-IsSynced :
    (opens : Bool) (c : CachedFileList) (ls : List Bytes)
    → IsSynced c ls
    → (ms : List Bytes) × IsSynced (compact_file opens c) ms
unfolding compact_file
compact_file-IsSynced true c ls s = compact_content-IsSynced c ls c.file refl s
compact_file-IsSynced false c ls s = (ls, s)

-- A call of one of the functions that change the list, and whether its files open.
pub data Call : Type 0 where
  add_call : Bool → Bytes → Call
  remove_call : Bool → Bytes → Call
  compact_call : Bool → Call

abbrev pub call : Call → CachedFileList → CachedFileList
call (add_call opens str) c = add opens c str
call (remove_call opens str) c = remove opens c str
call (compact_call opens) c = compact_file opens c

abbrev pub calls : List Call → CachedFileList → CachedFileList
calls [] c = c
calls (x ∷ xs) c = calls xs (call x c)

-- A string that is added is one line, not empty, and does not look removed.
abbrev pub IsProper : Call → Type 0
IsProper (add_call opens str) = Lacks b'\n' str × (is_live str ≡ true)
IsProper _ = Unit

call-IsSynced :
    (x : Call) (c : CachedFileList) (ls : List Bytes)
    → IsProper x
    → IsSynced c ls
    → (ms : List Bytes) × IsSynced (call x c) ms
call-IsSynced (add_call opens str) c ls p s = add-IsSynced opens c ls str s p.0 p.1
call-IsSynced (remove_call opens str) c ls p s = remove-IsSynced opens c ls str s
call-IsSynced (compact_call opens) c ls p s = compact_file-IsSynced opens c ls s

calls-IsSynced :
    (xs : List Call) (c : CachedFileList) (ls : List Bytes)
    → All IsProper xs
    → IsSynced c ls
    → (ms : List Bytes) × IsSynced (calls xs c) ms
calls-IsSynced [] c ls p s = (ls, s)
calls-IsSynced (x ∷ xs) c ls p s =
    let (ms, t) = call-IsSynced x c ls p.0 s in calls-IsSynced xs (call x c) ms p.1 t

-- After any calls on a list whose file and cache are in step, a restart on the file finds what the
-- list itself finds, if every string added was one line, not empty, and had no mark.
pub restart-find :
    (xs : List Call) (c : CachedFileList) (ls : List Bytes) (str : Bytes)
    → All IsProper xs
    → IsSynced c ls
    → find (cached_file_list (calls xs c).file) str ≡ find (calls xs c) str
restart-find xs c ls str p s =
    let (ms, t) = calls-IsSynced xs c ls p s in
    find-cached_file_list (calls xs c).file ms str t.text t.whole ∙ sym (t.agrees str)
