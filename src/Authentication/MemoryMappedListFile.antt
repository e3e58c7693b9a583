-- ===== src/Authentication/MemoryMappedListFile.antt =====
-- src/authentication/MemoryMappedListFile.h: a sorted list, written to its file and read back at
-- every change. The mapping is only read while it is made. Whether the file can be opened, measured
-- and mapped is an argument; writing it succeeds.
pub mod Stored
pub mod Changes
pub mod Refined
use asabru_commons.Base.{
  List, [], ◌∷◌, ◌++◌, Bool, true, false, not, ◌||◌, Bytes, str_eq, if◌then◌else◌, Outcome, ok, err,
  runtime_error,
}
use asabru_commons.Strings.{lines, str_ltb, is_empty}

pub record MemoryMappedListFile : Type 0 where
  pub list : List Bytes
  pub file : Bytes

-- `std::find` and the comparison with the end.
unfoldable pub contains : Bytes → List Bytes → Bool
contains s [] = false
contains s (x ∷ xs) = str_eq x s || contains s xs

-- `std::sort`.
unfoldable pub sort_in : Bytes → List Bytes → List Bytes
sort_in s [] = s ∷ []
sort_in s (x ∷ xs) = let rest = sort_in s xs in if str_ltb x s then x ∷ rest else s ∷ x ∷ xs

unfoldable pub sort : List Bytes → List Bytes
unfolding sort_in
sort [] = []
sort (x ∷ xs) = sort_in x (sort xs)

-- The loop that collects the lines which are not empty.
unfoldable pub filled : List Bytes → List Bytes
unfolding is_empty
filled [] = []
filled (x ∷ xs) = let rest = filled xs in if is_empty x then rest else x ∷ rest

-- `loadFromFile`; an empty file leaves the list as it is.
load_content : MemoryMappedListFile → Bytes → MemoryMappedListFile
load_content m [] = m
load_content m (c ∷ s) = record m { list = sort (filled (lines (c ∷ s))) }

unfoldable pub load_from_file : Bool → MemoryMappedListFile → Outcome MemoryMappedListFile
unfolding load_content
load_from_file opens m = if opens then ok (load_content m m.file) else err runtime_error

-- `ofs << line << "\n"` for each line.
unfoldable pub printed : List Bytes → Bytes
printed [] = []
printed (x ∷ xs) = x ++ b'\n' ∷ printed xs

unfoldable pub write_to_file : MemoryMappedListFile → MemoryMappedListFile
write_to_file m = record m { file = printed m.list }

-- The constructor, on the bytes of the file.
unfoldable pub memory_mapped_list_file : Bool → Bytes → Outcome MemoryMappedListFile
memory_mapped_list_file opens file = load_from_file opens (record { list = []; file = file })

-- `std::lower_bound` on a sorted list, and the insertion unless the value is there.
unfoldable pub insert : Bytes → List Bytes → List Bytes
insert value [] = value ∷ []
insert value (x ∷ xs) =
    let rest = insert value xs in
    if str_ltb x value then x ∷ rest else if str_eq x value then x ∷ xs else value ∷ x ∷ xs

unfoldable pub add : Bool → MemoryMappedListFile → Bytes → Outcome MemoryMappedListFile
add opens m value = load_from_file opens (write_to_file (record m { list = insert value m.list }))

-- `list.erase` of the first element that is the value.
unfoldable pub erase : Bytes → List Bytes → List Bytes
erase value [] = []
erase value (x ∷ xs) = let rest = erase value xs in if str_eq x value then xs else x ∷ rest

unfoldable pub remove : Bool → MemoryMappedListFile → Bytes → Outcome MemoryMappedListFile
remove opens m value = load_from_file opens (write_to_file (record m { list = erase value m.list }))

-- `std::remove_if` and the `erase` of the rest.
unfoldable pub remove_if : List Bytes → List Bytes → List Bytes
unfolding contains
remove_if values [] = []
remove_if values (x ∷ xs) =
    let rest = remove_if values xs in if contains x values then rest else x ∷ rest

unfoldable pub remove_list : Bool → MemoryMappedListFile → List Bytes → Outcome MemoryMappedListFile
remove_list opens m values =
    load_from_file opens (write_to_file (record m { list = remove_if values m.list }))

unfoldable pub is_present : MemoryMappedListFile → Bytes → Bool
is_present m token = contains token m.list
