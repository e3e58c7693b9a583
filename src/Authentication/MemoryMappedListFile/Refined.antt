-- ===== src/Authentication/MemoryMappedListFile/Refined.antt =====
-- A `MemoryMappedListFile` behind any changes, as a set of strings.
use mathlib.Core.Path.{fun_ext, subst}
use asabru_commons.Base.{
  ◌≡◌, refl, ap, ◌∙◌, sym, List, [], ◌∷◌, Bool, true, ◌||◌, ◌&&◌, not, Bytes, str_eq, Outcome, ok,
  ◌>>=◌, All,
}
use asabru_commons.Authentication.MemoryMappedListFile.{
  MemoryMappedListFile, contains, add, remove, remove_list, is_present, memory_mapped_list_file,
}
use asabru_commons.Authentication.MemoryMappedListFile.Stored.{IsLine, IsStored, restarted}
use asabru_commons.Authentication.MemoryMappedListFile.Changes.{
  IsChanged, add-IsChanged, remove-IsChanged, remove_list-IsChanged,
}

pub data Change : Type 0 where
  add_change remove_change : Bytes → Change
  remove_list_change : List Bytes → Change

abbrev pub change : Change → MemoryMappedListFile → Outcome MemoryMappedListFile
change (add_change value) m = add true m value
change (remove_change value) m = remove true m value
change (remove_list_change values) m = remove_list true m values

abbrev pub changes : List Change → MemoryMappedListFile → Outcome MemoryMappedListFile
changes [] m = ok m
changes (x ∷ xs) m = change x m >>= changes xs

-- A set of strings, and what a change does to it.
abbrev pub change_set : Change → (Bytes → Bool) → Bytes → Bool
change_set (add_change value) set token = str_eq value token || set token
change_set (remove_change value) set token = set token && not (str_eq value token)
change_set (remove_list_change values) set token = set token && not (contains token values)

abbrev pub change_sets : List Change → (Bytes → Bool) → Bytes → Bool
change_sets [] set token = set token
change_sets (x ∷ xs) set token = change_sets xs (change_set x set) token

-- What is added is one line.
abbrev pub IsProper : Change → Type 0
IsProper (add_change value) = IsLine value
IsProper (remove_change value) = Unit
IsProper (remove_list_change values) = Unit

change-IsChanged :
    (x : Change) (m : MemoryMappedListFile)
    → IsProper x
    → IsStored m
    → IsChanged (change x m) (change_set x (is_present m))
change-IsChanged (add_change value) m p s = add-IsChanged m value s p
change-IsChanged (remove_change value) m p s = remove-IsChanged m value s
change-IsChanged (remove_list_change values) m p s = remove_list-IsChanged m values s

stored-IsChanged : (m : MemoryMappedListFile) → IsStored m → IsChanged (ok m) (is_present m)
stored-IsChanged m s = record {
  after = m;
  succeeds = refl;
  stored = s;
  sees = λ token. refl;
  restarts =
      ap (memory_mapped_list_file true) s.text
      ∙ restarted m.list s.whole s.ascending
      ∙ ap (λ file. ok (record { list = m.list; file = file })) (sym s.text);
}

-- After any calls of `add`, `remove` and `removeList` on a stored list, whose file can be mapped and
-- where each added string is one line and not empty, the calls have succeeded, the list is stored
-- again, the strings present are those of the set that the calls make of the strings present before, and a restart on
-- the file gives the same list.
pub changes-IsChanged :
    (xs : List Change) (m : MemoryMappedListFile)
    → All IsProper xs
    → IsStored m
    → IsChanged (changes xs m) (change_sets xs (is_present m))
changes-IsChanged [] m p s = stored-IsChanged m s
changes-IsChanged (x ∷ xs) m p s =
    let first = change-IsChanged x m p.0 s in
    let rest = changes-IsChanged xs first.after p.1 first.stored in
    let same : is_present first.after ≡ change_set x (is_present m) = fun_ext first.sees in
    rw first.succeeds
      (subst (λ set. IsChanged (changes xs first.after) (change_sets xs set)) same rest)
