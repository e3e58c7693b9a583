-- ===== src/Authentication/MemoryMappedListFile/Stored.antt =====
-- The list of a `MemoryMappedListFile` beside its file.
use asabru_commons.Base.{
  ◌≡◌, refl, ap, inl, inr, List, [], ◌∷◌, true, false, ◌||◌, not, ◌&&◌, Bool-cases, Bytes, str_eq,
  str_eq_iff, ok, arith, All, Lacks,
}
use asabru_commons.Strings.{lines, str_ltb, is_empty}
use asabru_commons.Strings.Lines.{lines-append}
use asabru_commons.Strings.Order.{str_ltb_trans, str_ltb_asymm, str_ltb_total}
use asabru_commons.Authentication.MemoryMappedListFile.{
  MemoryMappedListFile, contains, sort, sort_in, filled, load_content, load_from_file, printed,
  write_to_file, insert, erase, remove_if, memory_mapped_list_file,
}

-- A string that is one line and not empty.
abbrev pub IsLine : Bytes → Type 0
IsLine s = Lacks b'\n' s × (is_empty s ≡ false)

-- Strictly ascending, so without duplicates.
abbrev pub IsLess : Bytes → List Bytes → Type 0
IsLess s [] = Unit
IsLess s (x ∷ xs) = (str_ltb s x ≡ true) × IsLess s xs

abbrev pub IsAscending : List Bytes → Type 0
IsAscending [] = Unit
IsAscending (x ∷ xs) = IsLess x xs × IsAscending xs

lines-printed : (xs : List Bytes) → All IsLine xs → lines (printed xs) ≡ xs
unfolding printed
lines-printed [] h = unfold lines in refl
lines-printed (x ∷ xs) h = rw (lines-append x (printed xs) h.0.0, lines-printed xs h.1)

filled-IsLine : (xs : List Bytes) → All IsLine xs → filled xs ≡ xs
unfolding filled
filled-IsLine [] h = refl
filled-IsLine (x ∷ xs) h = rw (h.0.1, filled-IsLine xs h.1)

sort_in-IsLess : (s : Bytes) (xs : List Bytes) → IsLess s xs → sort_in s xs ≡ s ∷ xs
unfolding sort_in
sort_in-IsLess s [] h = refl
sort_in-IsLess s (x ∷ xs) h = rw ((str_ltb_asymm s x h.0).0) refl

sort-IsAscending : (xs : List Bytes) → IsAscending xs → sort xs ≡ xs
unfolding sort
sort-IsAscending [] a = refl
sort-IsAscending (x ∷ xs) a = rw (sort-IsAscending xs a.1) (sort_in-IsLess x xs a.0)

load_content-printed :
    (xs : List Bytes) (file : Bytes)
    → file ≡ printed xs
    → All IsLine xs
    → IsAscending xs
    → load_content (record { list = xs; file = printed xs }) file
      ≡ record { list = xs; file = printed xs }
unfolding load_content
load_content-printed xs [] e h a = refl
load_content-printed xs (c ∷ s) e h a =
    rw (e, lines-printed xs h, filled-IsLine xs h) (rw (sort-IsAscending xs a))

pub record IsStored (m : MemoryMappedListFile) : Type 0 where
  pub text : m.file ≡ printed m.list
  pub whole : All IsLine m.list
  pub ascending : IsAscending m.list

pub saved :
    (m : MemoryMappedListFile) (xs : List Bytes)
    → All IsLine xs
    → IsAscending xs
    → load_from_file true (write_to_file (record m { list = xs }))
      ≡ ok (record { list = xs; file = printed xs })
unfolding load_from_file write_to_file
saved m xs h a = ap ok (load_content-printed xs (printed xs) refl h a)

restart_content :
    (xs : List Bytes) (file : Bytes)
    → file ≡ printed xs
    → All IsLine xs
    → IsAscending xs
    → load_content (record { list = []; file = printed xs }) file
      ≡ record { list = xs; file = printed xs }
unfolding load_content printed is_empty
restart_content [] [] e h a = refl
restart_content ([] ∷ xs) [] e h a = absurd (cc)
restart_content ((c ∷ x) ∷ xs) [] e h a = absurd (cc)
restart_content xs (c ∷ s) e h a =
    rw (e, lines-printed xs h, filled-IsLine xs h) (rw (sort-IsAscending xs a))

pub restarted :
    (xs : List Bytes)
    → All IsLine xs
    → IsAscending xs
    → memory_mapped_list_file true (printed xs) ≡ ok (record { list = xs; file = printed xs })
unfolding memory_mapped_list_file load_from_file
restarted xs h a = ap ok (restart_content xs (printed xs) refl h a)

IsLess-contains : (s : Bytes) (xs : List Bytes) → IsLess s xs → contains s xs ≡ false
unfolding contains
IsLess-contains s [] h = refl
IsLess-contains s (x ∷ xs) h = rw ((str_ltb_asymm s x h.0).1, IsLess-contains s xs h.1) refl

IsLess-trans : (s t : Bytes) (xs : List Bytes) → str_ltb s t ≡ true → IsLess t xs → IsLess s xs
IsLess-trans s t [] h b = tt
IsLess-trans s t (x ∷ xs) h b = (str_ltb_trans s t x h b.0, IsLess-trans s t xs h b.1)

insert-IsLess :
    (s value : Bytes) (xs : List Bytes)
    → str_ltb s value ≡ true
    → IsLess s xs
    → IsLess s (insert value xs)
unfolding insert
insert-IsLess s value [] h b = (h, tt)
insert-IsLess s value (x ∷ xs) h b = let ih = insert-IsLess s value xs h b.1 in ground arith

pub insert-IsAscending :
    (value : Bytes) (xs : List Bytes) → IsAscending xs → IsAscending (insert value xs)
unfolding insert
insert-IsAscending value [] a = (tt, tt)
insert-IsAscending value (x ∷ xs) a = elim (Bool-cases (str_ltb x value)) [
  | inl less ↦ rw less (insert-IsLess x value xs less a.0, insert-IsAscending value xs a.1)
  | inr more ↦ elim (Bool-cases (str_eq x value)) [
    | inl same ↦ rw (more, same) a
    | inr other ↦
        let above = str_ltb_total x value other more in
        rw (more, other) ((above, IsLess-trans value x xs above a.0), a)
  ]
]

pub insert-IsLine :
    (value : Bytes) (xs : List Bytes) → IsLine value → All IsLine xs → All IsLine (insert value xs)
unfolding insert
insert-IsLine value [] v h = (v, tt)
insert-IsLine value (x ∷ xs) v h = let ih = insert-IsLine value xs v h.1 in ground arith

pub contains-insert :
    (k value : Bytes) (xs : List Bytes)
    → contains k (insert value xs) ≡ (str_eq value k || contains k xs)
unfolding insert contains
contains-insert k value [] = refl
contains-insert k value (x ∷ xs) =
    let ih = contains-insert k value xs in ground (arith, str_eq_iff x value)

erase-IsLess : (s value : Bytes) (xs : List Bytes) → IsLess s xs → IsLess s (erase value xs)
unfolding erase
erase-IsLess s value [] b = tt
erase-IsLess s value (x ∷ xs) b = let ih = erase-IsLess s value xs b.1 in ground arith

pub erase-IsAscending :
    (value : Bytes) (xs : List Bytes) → IsAscending xs → IsAscending (erase value xs)
unfolding erase
erase-IsAscending value [] a = tt
erase-IsAscending value (x ∷ xs) a = elim (Bool-cases (str_eq x value)) [
  | inl same ↦ rw same a.1
  | inr other ↦ rw other (erase-IsLess x value xs a.0, erase-IsAscending value xs a.1)
]

pub erase-IsLine : (value : Bytes) (xs : List Bytes) → All IsLine xs → All IsLine (erase value xs)
unfolding erase
erase-IsLine value [] h = tt
erase-IsLine value (x ∷ xs) h = let ih = erase-IsLine value xs h.1 in ground arith

pub contains-erase :
    (k value : Bytes) (xs : List Bytes)
    → IsAscending xs
    → contains k (erase value xs) ≡ (contains k xs && not (str_eq value k))
unfolding erase contains
contains-erase k value [] a = refl
contains-erase k value (x ∷ xs) a =
    let ih = contains-erase k value xs a.1 in
    let once = IsLess-contains x xs a.0 in
    ground (arith, str_eq_iff x value, str_eq_iff value k, str_eq_iff x k)

remove_if-IsLess :
    (s : Bytes) (values xs : List Bytes) → IsLess s xs → IsLess s (remove_if values xs)
unfolding remove_if
remove_if-IsLess s values [] b = tt
remove_if-IsLess s values (x ∷ xs) b = let ih = remove_if-IsLess s values xs b.1 in ground arith

pub remove_if-IsAscending :
    (values xs : List Bytes) → IsAscending xs → IsAscending (remove_if values xs)
unfolding remove_if
remove_if-IsAscending values [] a = tt
remove_if-IsAscending values (x ∷ xs) a = elim (Bool-cases (contains x values)) [
  | inl gone ↦ rw gone (remove_if-IsAscending values xs a.1)
  | inr stays ↦ rw stays (remove_if-IsLess x values xs a.0, remove_if-IsAscending values xs a.1)
]

pub remove_if-IsLine : (values xs : List Bytes) → All IsLine xs → All IsLine (remove_if values xs)
unfolding remove_if
remove_if-IsLine values [] h = tt
remove_if-IsLine values (x ∷ xs) h = let ih = remove_if-IsLine values xs h.1 in ground arith

pub contains-remove_if :
    (k : Bytes) (values xs : List Bytes)
    → contains k (remove_if values xs) ≡ (contains k xs && not (contains k values))
unfolding remove_if contains
contains-remove_if k values [] = refl
contains-remove_if k values (x ∷ xs) =
    let ih = contains-remove_if k values xs in ground (arith, str_eq_iff x k)
