-- ===== src/Authentication/Compactor/Restarted.antt =====
-- Revoked tokens behind a restart of the program.
use asabru_commons.Base.Int.{pos}
use asabru_commons.Base.{
  ◌≡◌, refl, sym, ◌∙◌, inl, inr, List, true, false, none, some, Bytes, codes, str_eq_self, ok,
  ◌>>=◌, Lacks,
}
use asabru_commons.Commands.Context.{flag, ComputationContext, put, get, cast_text}
use asabru_commons.Authentication.CachedFileList.{CachedFileList, cached_file_list, is_live}
use asabru_commons.Authentication.CachedFileList.Synced.{
  IsSynced, add-IsSynced, find-cached_file_list,
}
use asabru_commons.Authentication.CachedFileList.Durable.{remove-IsSynced, compact_file-IsSynced}
use asabru_commons.Authentication.Basic.{
  Jwt, token_key, authenticated_key, is_authenticated, create_authentication_strategy,
}
use asabru_commons.Authentication.Basic.Environment.{
  Environment, secret_name, username_name, password_name, path_name, expiration_name,
  basic_authentication_strategy,
}
use asabru_commons.Authentication.Basic.Revoked.{IsFading, out-rejected}
use asabru_commons.Authentication.RevocationList.{cached}
use asabru_commons.Authentication.Compactor.{
  Service, Turn, sleep_turn, leave_turn, wake_turn, pass_turn, throw_turn, drop_turn, compact_turn,
  Step, turn_step, time_step, revoke_step, destroy_step, join_step, Reach, here, next,
}
use asabru_commons.Authentication.Compactor.Dropping.{IsDropping, calm-IsSound}
use asabru_commons.Authentication.Compactor.Refused.{Reach-Refuses}

module _ (jwt : Jwt) (secret : Bytes) where
  -- Every token that is revoked on the way is one line, not empty, and does not look removed.
  abbrev pub IsProperStep : {v w : Service cached} → Step jwt secret cached v w → Type 0
  IsProperStep (turn_step t) = Unit
  IsProperStep (time_step n) = Unit
  IsProperStep (revoke_step opens token e) = Lacks b'\n' token × (is_live token ≡ true)
  IsProperStep (destroy_step e) = Unit
  IsProperStep (join_step e f) = Unit

  abbrev pub IsProper : {v w : Service cached} → Reach jwt secret cached v w → Type 0
  IsProper here = Unit
  IsProper (next r s) = IsProper r × IsProperStep s

  abbrev Synced : CachedFileList → Type 0
  Synced c = (ls : List Bytes) × IsSynced c ls

  Turn-Synced :
      {v w : Service cached} → Turn jwt secret cached v w → Synced v.tokens → Synced w.tokens
  Turn-Synced (sleep_turn e s) h = h
  Turn-Synced (leave_turn e s) h = h
  Turn-Synced (wake_turn until e le) h = h
  Turn-Synced (pass_turn token rest e good) h = h
  Turn-Synced (throw_turn token rest e bad) h = h
  Turn-Synced {v} (drop_turn token rest opens e) (ls, h) = remove-IsSynced opens v.tokens ls token h
  Turn-Synced {v} (compact_turn opens e) (ls, h) = compact_file-IsSynced opens v.tokens ls h

  Step-Synced :
      {v w : Service cached} (s : Step jwt secret cached v w)
      → IsProperStep s
      → Synced v.tokens
      → Synced w.tokens
  Step-Synced (turn_step t) p h = Turn-Synced t h
  Step-Synced (time_step n) p h = h
  Step-Synced {v} (revoke_step opens token e) p (ls, h) =
      add-IsSynced opens v.tokens ls token h p.0 p.1
  Step-Synced (destroy_step e) p h = h
  Step-Synced (join_step e f) p h = h

  Reach-Synced :
      {v w : Service cached} (r : Reach jwt secret cached v w)
      → IsProper r
      → Synced v.tokens
      → Synced w.tokens
  Reach-Synced here p h = h
  Reach-Synced (next r s) p h = Step-Synced s p.1 (Reach-Synced r p.0 h)

-- The factory, with the variables set, makes a strategy with the lines of the file.
created :
    (env : Environment) (secret username password path : Bytes)
    → env.getenv secret_name ≡ some secret
    → env.getenv username_name ≡ some username
    → env.getenv password_name ≡ some password
    → env.getenv path_name ≡ some path
    → env.getenv expiration_name ≡ none
    → create_authentication_strategy (basic_authentication_strategy env) (codes "basic")
      ≡ ok (record {
        secret = secret;
        username = username;
        password = password;
        blacklisted_tokens = cached_file_list (env.file_at path);
        expiration = pos 3_600;
      })
unfolding create_authentication_strategy basic_authentication_strategy
created env secret username password path s u p f x =
    rw (str_eq_self (codes "basic"), s, u, p, f, x) refl

-- From a state on with file and cache in step, in which the thread is not in the `catch` for the token,
-- the token does not verify again once it does not verify, and every token that is revoked is one
-- line, not empty and without the mark. When the token is once on the list, then after any further
-- steps of the thread, the calls and the destructor the factory can make a new strategy from an
-- environment with the same secret, a user name, a password, no expiration and the file as it is then,
-- and that strategy refuses the token.
pub refused_after_restart :
    (jwt : Jwt) (secret token username password path : Bytes) (env : Environment)
    {start v w : Service cached} (ctx : ComputationContext) (ls : List Bytes)
    (r : Reach jwt secret cached start v) (q : Reach jwt secret cached v w)
    → IsFading jwt secret token start.clock
    → ¬ IsDropping token start.worker
    → IsSynced start.tokens ls
    → IsProper jwt secret r
    → IsProper jwt secret q
    → cached.find v.tokens token ≡ true
    → cast_text (get ctx token_key) ≡ ok token
    → env.getenv secret_name ≡ some secret
    → env.getenv username_name ≡ some username
    → env.getenv password_name ≡ some password
    → env.getenv path_name ≡ some path
    → env.getenv expiration_name ≡ none
    → env.file_at path ≡ w.tokens.file
    → (create_authentication_strategy (basic_authentication_strategy env) (codes "basic") >>= λ s.
        is_authenticated jwt w.clock s ctx)
      ≡ ok (put ctx authenticated_key (flag false))
refused_after_restart jwt secret token username password path env {start} {v} {w} ctx ls r q fade e
      sync pr pq on c es eu ep ef ex file =
    rw (created env secret username password path es eu ep ef ex) (
      out-rejected jwt
        (record {
          secret = secret;
          username = username;
          password = password;
          blacklisted_tokens = cached_file_list (env.file_at path);
          expiration = pos 3_600;
        })
        w.clock ctx token c
        (elim (Reach-Refuses jwt secret cached token start.clock fade
          (calm-IsSound jwt secret cached token start.clock fade refl e r) on q) [
            | inl found ↦ inl (rw file (kept ∙ found))
            | inr dead ↦ inr dead
          ]))
  where
    kept : cached.find (cached_file_list w.tokens.file) token ≡ cached.find w.tokens token
    kept =
        let (ms, t) = Reach-Synced jwt secret q pq (Reach-Synced jwt secret r pr (ls, sync)) in
        find-cached_file_list w.tokens.file ms token t.text t.whole ∙ sym (t.agrees token)
