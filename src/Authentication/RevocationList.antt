-- ===== src/Authentication/RevocationList.antt =====
-- What src/authentication/BasicAuthenticationStrategy.h asks of the list of its revoked tokens: the
-- calls of `CachedFileList`, and what `find` sees of them.
use asabru_commons.Base.{◌≡◌, List, Bool, false, ◌&&◌, ◌||◌, Bytes, str_eq}
use asabru_commons.Authentication.CachedFileList.{
  CachedFileList, find, add, remove, get_all, compact_file,
}
use asabru_commons.Authentication.CachedFileList.Finds.{find-add, find-remove_ne, find-compact_file}

-- The Boolean argument of a call says whether its file opens.
pub record RevocationList : Type 1 where
  pub Tokens : Type 0
  pub find : Tokens → Bytes → Bool
  pub get_all : Tokens → List Bytes
  pub add : Bool → Tokens → Bytes → Tokens
  pub remove : Bool → Tokens → Bytes → Tokens
  pub compact_file : Bool → Tokens → Tokens
  pub find-add :
      (opens : Bool) (l : Tokens) (str key : Bytes)
      → find (add opens l str) key ≡ ((opens && str_eq key str) || find l key)
  pub find-remove_ne :
      (opens : Bool) (l : Tokens) (str key : Bytes)
      → str_eq key str ≡ false
      → find (remove opens l str) key ≡ find l key
  pub find-compact_file :
      (opens : Bool) (l : Tokens) (key : Bytes) → find (compact_file opens l) key ≡ find l key

abbrev pub cached : RevocationList
cached = record {
  Tokens = CachedFileList;
  find = find;
  get_all = get_all;
  add = add;
  remove = remove;
  compact_file = compact_file;
  find-add = find-add;
  find-remove_ne = find-remove_ne;
  find-compact_file = find-compact_file;
}
