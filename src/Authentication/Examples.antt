-- ===== src/Authentication/Examples.antt =====
-- Tokens on a list, revoked and compacted.
use asabru_commons.Base.Int.{pos}
use asabru_commons.Base.{◌≡◌, refl, List, [], ◌∷◌, true, some, codes, ltb, length, arith, str_eq}
use asabru_commons.Strings.{map_find, map_set, map_erase, lines, str_ltb, is_empty}
use asabru_commons.Commands.Context.{ComputationContext, text}
use asabru_commons.Authentication.CachedFileList.{
  CachedFileList, cached_file_list, find, add, remove, compact_file, position, mark,
}
use asabru_commons.Authentication.CachedFileList.Synced.{IsSynced}
use asabru_commons.Authentication.CachedFileList.Durable.{
  Call, add_call, remove_call, compact_call, calls, restart-find,
}
use asabru_commons.Authentication.MemoryMappedListFile
use asabru_commons.Authentication.MemoryMappedListFile.{remove_list, is_present, contains, printed}
use asabru_commons.Authentication.MemoryMappedListFile.Stored.{IsStored}
use asabru_commons.Authentication.MemoryMappedListFile.Refined.{
  add_change, remove_change, remove_list_change, Change, changes, change_sets, changes-IsChanged,
}
use asabru_commons.Authentication.MemoryMappedListFile.Changes.{IsChanged}
use asabru_commons.Authentication.Basic.{Jwt, BasicAuthenticationStrategy}
use asabru_commons.Authentication.Basic.Revoked.{Event, wait, compact}

abbrev one_token : CachedFileList
one_token = record { cache = (codes "a", true) ∷ []; file = some (codes "a\n") }

one_token-IsSynced : IsSynced one_token (codes "a" ∷ [])
unfolding find map_find
one_token-IsSynced = record {
  text = refl;
  whole = ((omega arith, tt), tt);
  unique = (λ live. refl, tt);
  sorted = (tt, tt);
  agrees = λ str. ground arith;
}

abbrev some_calls : List Call
some_calls = add_call true (codes "b") ∷ remove_call true (codes "a") ∷ compact_call true ∷ []

restart-find_example :
    find (cached_file_list (calls some_calls one_token).file) (codes "b")
    ≡ find (calls some_calls one_token) (codes "b")
restart-find_example =
    restart-find some_calls one_token (codes "a" ∷ []) (codes "b")
      (((ground arith), refl), (tt, (tt, tt))) one_token-IsSynced

calls_run : find (calls some_calls one_token) (codes "b") ≡ true
unfolding find map_find map_set map_erase add remove compact_file mark position
calls_run = refl

-- The empty string cannot be removed from the file without damage to the line behind it.
empty_removed : mark (codes "\na\n") [] ≡ 11 ∷ codes "a\n"
unfolding mark position lines str_eq
empty_removed = refl

-- A library whose tokens verify as long as the clock is less than their length.
abbrev by_length : Jwt
by_length = record {
  sign = λ secret username now expiration. codes "tok";
  verifies = λ secret token now. ltb now (length token);
  username_claim = λ token. some (codes "bob");
}

abbrev strategy : BasicAuthenticationStrategy
strategy = record {
  secret = codes "s";
  username = codes "bob";
  password = codes "pw";
  blacklisted_tokens = one_token;
  expiration = pos 3;
}

abbrev with_token : ComputationContext
with_token = record { symbols = (codes "token", text (codes "a")) ∷ [] }

abbrev some_events : List Event
some_events = compact (λ token. true) true ∷ wait 1 ∷ compact (λ token. true) true ∷ []

abbrev login : ComputationContext
login = record {
  symbols = (codes "password", text (codes "pw")) ∷ (codes "username", text (codes "bob")) ∷ [];
}

abbrev two_lines : MemoryMappedListFile.MemoryMappedListFile
two_lines = record { list = codes "a" ∷ codes "c" ∷ []; file = codes "a\nc\n" }

two_lines-IsStored : IsStored two_lines
unfolding printed str_ltb is_empty
two_lines-IsStored = record {
  text = refl;
  whole = ((ground arith, refl), ((ground arith, refl), tt));
  ascending = ((refl, tt), (tt, tt));
}

abbrev some_changes : List Change
some_changes =
    add_change (codes "b")
    ∷ remove_change (codes "a")
    ∷ remove_list_change (codes "c" ∷ codes "d" ∷ [])
    ∷ []

changes-IsChanged_example :
    IsChanged (changes some_changes two_lines) (change_sets some_changes (is_present two_lines))
unfolding is_empty
changes-IsChanged_example =
    changes-IsChanged some_changes two_lines ((ground arith, refl), (tt, (tt, tt)))
      two_lines-IsStored
