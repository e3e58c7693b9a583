-- ===== src/Authentication/Compactor/Examples.antt =====
-- A token is revoked, the thread sleeps, checks and compacts, and the program restarts.
use asabru_commons.Base.{
  ◌≤◌, ◌≡◌, refl, [], ◌∷◌, true, false, some, none, Option, Bytes, codes, leb, ◌&&◌, ltb, ok, ◌>>=◌,
  arith, if◌then◌else◌, str_eq,
}
use asabru_commons.Base.Int.{pos}
use asabru_commons.Strings.{map_find, map_set, lines}
use asabru_commons.Commands.Context.{ComputationContext, text, flag, put, get, cast_text}
use asabru_commons.Authentication.CachedFileList.{
  CachedFileList, find, add, get_all, compact_file, compacted,
}
use asabru_commons.Authentication.CachedFileList.Synced.{IsSynced}
use asabru_commons.Authentication.Basic.{
  Jwt, BasicAuthenticationStrategy, authenticate, remove_authentication, is_authenticated,
  authenticated_key, create_authentication_strategy,
}
use asabru_commons.Authentication.Basic.Environment.{
  Environment, secret_name, username_name, password_name, path_name, basic_authentication_strategy,
}
use asabru_commons.Authentication.RevocationList.{cached}
use asabru_commons.Authentication.Compactor.{
  Service, sleep_turn, leave_turn, wake_turn, pass_turn, compact_turn, turn_step, time_step,
  revoke_step, destroy_step, join_step, Reach, here, next, at_head, asleep, checking, ended,
}
use asabru_commons.Authentication.Compactor.Refused.{refused_while_compacting}
use asabru_commons.Authentication.Compactor.Stopping.{
  start, turn, Stands, turns_left, stopping_ends,
}
use asabru_commons.Authentication.Compactor.Sleeping.{joined_late}
use asabru_commons.Authentication.Compactor.Session.{logged_out, session}
use asabru_commons.Authentication.Compactor.Restarted.{refused_after_restart}

-- Tokens verify for 10,000 seconds.
abbrev short_lived : Jwt
short_lived = record {
  sign = λ secret username now expiration. codes "tok";
  verifies = λ secret token now. ltb now 10_000;
  username_claim = λ token. some (codes "bob");
}

abbrev fresh : Service cached
fresh = record {
  tokens = record { cache = []; file = none };
  clock = 0;
  worker = at_head;
  stop_thread = false;
  joined = false;
}

abbrev listed : CachedFileList
listed = record { cache = (codes "a", true) ∷ []; file = some (codes "a\n") }

abbrev revoked : Service cached
revoked = record fresh { tokens = listed }

-- One round later, with the destructor called.
abbrev stopped : Service cached
stopped = record fresh { tokens = listed; clock = 3_600; stop_thread = true }

Reach-revoked : Reach short_lived (codes "s") cached fresh revoked
unfolding add find map_find map_set
Reach-revoked = next here (revoke_step true (codes "a") refl)

Reach-stopped : Reach short_lived (codes "s") cached revoked stopped
unfolding get_all compact_file compacted lines
Reach-stopped =
    next
      (next
        (next
          (next (next (next here (turn_step (sleep_turn refl refl))) (time_step 3_600))
            (turn_step (wake_turn 3_600 refl (omega arith))))
          (turn_step (pass_turn (codes "a") [] refl refl)))
        (destroy_step refl))
      (turn_step (compact_turn true refl))

abbrev with_a : ComputationContext
with_a = record { symbols = (codes "token", text (codes "a")) ∷ [] }

abbrev strategy : BasicAuthenticationStrategy
strategy = record {
  secret = codes "s";
  username = codes "bob";
  password = codes "pw";
  blacklisted_tokens = listed;
  expiration = pos 3_600;
}

refused_while_compacting_example :
    is_authenticated short_lived 3_600 (record strategy { blacklisted_tokens = listed }) with_a
    ≡ ok (put with_a authenticated_key (flag false))
unfolding find map_find get cast_text
refused_while_compacting_example =
    refused_while_compacting short_lived strategy fresh revoked stopped (codes "a") with_a
      (λ t u a b h. ground arith) (λ d. d) Reach-revoked refl Reach-stopped refl

fresh-IsSynced : IsSynced fresh.tokens []
unfolding find map_find
fresh-IsSynced = record { text = refl; whole = tt; unique = tt; sorted = tt; agrees = λ str. refl }

abbrev variables : Bytes → Option Bytes
variables name =
    if str_eq name secret_name
    then some (codes "s")
    else if str_eq name username_name
    then some (codes "bob")
    else if str_eq name password_name
    then some (codes "pw")
    else if str_eq name path_name
    then some (codes "/tokens")
    else none

abbrev environment : Environment
environment = record { getenv = variables; file_at = λ path. some (codes "a\n") }

refused_after_restart_example :
    (create_authentication_strategy (basic_authentication_strategy environment) (codes "basic")
      >>= λ s. is_authenticated short_lived 3_600 s with_a)
    ≡ ok (put with_a authenticated_key (flag false))
unfolding find map_find get cast_text Reach-stopped Reach-revoked str_eq
refused_after_restart_example =
    refused_after_restart short_lived (codes "s") (codes "a") (codes "bob") (codes "pw")
      (codes "/tokens") environment with_a [] Reach-revoked Reach-stopped
      (λ t u a b h. ground arith) (λ d. d) fresh-IsSynced (tt, ((ground arith, tt), refl))
      ((((((((tt, tt), tt), tt), tt), tt), tt))) refl refl refl refl refl refl refl refl

abbrev stopping : Service cached
stopping = record revoked { worker = checking (codes "a" ∷ []); stop_thread = true }

stopping_ends_example :
    (3 ≤ turns_left short_lived (codes "s") cached stopping)
    × Stands short_lived (codes "s") cached (record stopping { worker = ended })
unfolding compact_file compacted lines
stopping_ends_example = stopping_ends short_lived (codes "s") cached refl (
    turn (turn (turn start (pass_turn (codes "a") [] refl refl)) (compact_turn true refl))
      (leave_turn refl refl))

abbrev sleeping : Service cached
sleeping = record revoked { worker = asleep 5 }

Reach-joined :
    Reach short_lived
      (codes "s")
      cached
      sleeping
      (record sleeping { clock = 7; worker = ended; stop_thread = true; joined = true })
unfolding get_all compact_file compacted lines
Reach-joined =
    next
      (next
        (next
          (next
            (next (next (next here (destroy_step refl)) (time_step 7))
              (turn_step (wake_turn 5 refl (omega arith))))
            (turn_step (pass_turn (codes "a") [] refl refl)))
          (turn_step (compact_turn true refl)))
        (turn_step (leave_turn refl refl)))
      (join_step refl refl)

joined_late_example : ◌≤◌ 5 7
joined_late_example = joined_late short_lived (codes "s") cached 5 refl refl Reach-joined refl

abbrev new_strategy : BasicAuthenticationStrategy
new_strategy = record strategy { blacklisted_tokens = fresh.tokens }

abbrev login : ComputationContext
login = record {
  symbols = (codes "password", text (codes "pw")) ∷ (codes "username", text (codes "bob")) ∷ [];
}

-- Tokens verify from 100 on, when they are made.
abbrev timed : Jwt
timed = record short_lived { verifies = λ secret token now. leb 100 now && ltb now 10_000 }

-- The thread sleeps at the login.
abbrev at_login : Service cached
at_login = record fresh { clock = 100; worker = asleep 3_600 }

abbrev after_logout : Service cached
after_logout = record at_login { tokens = (logged_out timed new_strategy 100).blacklisted_tokens }

session_example :
    (c : ComputationContext) × ((authenticate timed 100 new_strategy login
        >>= is_authenticated timed 100 new_strategy)
      ≡ ok c)
    × (get c authenticated_key ≡ flag true)
    × (remove_authentication true new_strategy c ≡ ok (logged_out timed new_strategy 100))
    × (is_authenticated timed 105
          (record new_strategy { blacklisted_tokens = after_logout.tokens })
          c
        ≡ ok (put c authenticated_key (flag false)))
unfolding find map_find get cast_text
session_example =
    session timed 100 new_strategy login at_login at_login (record after_logout { clock = 105 })
      refl (λ d. d) (λ t u a b h. ground arith) here refl refl refl refl refl refl refl
      (next here (time_step 5))
