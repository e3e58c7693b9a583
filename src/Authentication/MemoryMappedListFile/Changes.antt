-- ===== src/Authentication/MemoryMappedListFile/Changes.antt =====
-- What the changes of a `MemoryMappedListFile` do to what `isPresent` sees, and to its file.
use asabru_commons.Base.{
  ◌≡◌, refl, List, Bool, true, ◌||◌, ◌&&◌, not, Bytes, str_eq, Outcome, ok, All, ◌∙◌,
}
use asabru_commons.Authentication.MemoryMappedListFile.{
  MemoryMappedListFile, contains, printed, insert, erase, remove_if, add, remove, remove_list,
  is_present, memory_mapped_list_file,
}
use asabru_commons.Authentication.MemoryMappedListFile.Stored.{
  IsLine, IsAscending, IsStored, saved, restarted, insert-IsAscending, insert-IsLine,
  contains-insert, erase-IsAscending, erase-IsLine, contains-erase, remove_if-IsAscending,
  remove_if-IsLine, contains-remove_if,
}

-- The outcome is a stored list that sees `present`, and a restart on its file gives it again.
pub record IsChanged (o : Outcome MemoryMappedListFile) (present : Bytes → Bool) : Type 0 where
  pub after : MemoryMappedListFile
  pub succeeds : o ≡ ok after
  pub stored : IsStored after
  pub sees : (token : Bytes) → is_present after token ≡ present token
  pub restarts : memory_mapped_list_file true after.file ≡ ok after

changed :
    (o : Outcome MemoryMappedListFile) (xs : List Bytes)
    → o ≡ ok (record { list = xs; file = printed xs })
    → All IsLine xs
    → IsAscending xs
    → IsChanged o (λ token. contains token xs)
unfolding is_present
changed o xs e h a = record {
  after = record { list = xs; file = printed xs };
  succeeds = e;
  stored = record { text = refl; whole = h; ascending = a };
  sees = λ token. refl;
  restarts = restarted xs h a;
}

seen :
    (o : Outcome MemoryMappedListFile) (present other : Bytes → Bool)
    → ((token : Bytes) → present token ≡ other token)
    → IsChanged o present
    → IsChanged o other
seen o present other e c = record {
  after = c.after;
  succeeds = c.succeeds;
  stored = c.stored;
  sees = λ token. c.sees token ∙ e token;
  restarts = c.restarts;
}

-- After `add` of one line to a stored list the value is present beside the others, and a restart on
-- the file gives the same list.
pub add-IsChanged :
    (m : MemoryMappedListFile) (value : Bytes)
    → IsStored m
    → IsLine value
    → IsChanged (add true m value) (λ token. str_eq value token || is_present m token)
unfolding add is_present
add-IsChanged m value s v =
    seen (add true m value) _ _ (λ token. contains-insert token value m.list)
      (changed (add true m value) (insert value m.list)
        (saved m _ (insert-IsLine value m.list v s.whole)
          (insert-IsAscending value m.list s.ascending))
        (insert-IsLine value m.list v s.whole) (insert-IsAscending value m.list s.ascending))

-- After `remove` from a stored list the value is not present, the others are as they were, and a
-- restart on the file gives the same list.
pub remove-IsChanged :
    (m : MemoryMappedListFile) (value : Bytes)
    → IsStored m
    → IsChanged (remove true m value) (λ token. is_present m token && not (str_eq value token))
unfolding remove is_present
remove-IsChanged m value s =
    seen (remove true m value) _ _ (λ token. contains-erase token value m.list s.ascending)
      (changed (remove true m value) (erase value m.list)
        (saved m _ (erase-IsLine value m.list s.whole) (erase-IsAscending value m.list s.ascending))
        (erase-IsLine value m.list s.whole) (erase-IsAscending value m.list s.ascending))

-- After `removeList` from a stored list none of the values is present, the others are as they were,
-- and a restart on the file gives the same list.
pub remove_list-IsChanged :
    (m : MemoryMappedListFile) (values : List Bytes)
    → IsStored m
    → IsChanged
        (remove_list true m values)
        (λ token. is_present m token && not (contains token values))
unfolding remove_list is_present
remove_list-IsChanged m values s =
    seen (remove_list true m values) _ _ (λ token. contains-remove_if token values m.list)
      (changed (remove_list true m values) (remove_if values m.list)
        (saved m _ (remove_if-IsLine values m.list s.whole)
          (remove_if-IsAscending values m.list s.ascending))
        (remove_if-IsLine values m.list s.whole) (remove_if-IsAscending values m.list s.ascending))
