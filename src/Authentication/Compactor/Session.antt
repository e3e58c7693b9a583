-- ===== src/Authentication/Compactor/Session.antt =====
-- A login, requests with its token, and the logout.
use asabru_commons.Base.{ℕ, ◌≡◌, refl, true, false, some, Bytes, ok, ◌>>=◌, str_eq_self}
use asabru_commons.Commands.Context.{ComputationContext, text, flag, put, get, cast_text}
use asabru_commons.Authentication.CachedFileList.{find, add}
use asabru_commons.Authentication.CachedFileList.Finds.{find-add}
use asabru_commons.Authentication.Basic.{
  Jwt, BasicAuthenticationStrategy, username_key, password_key, token_key, authenticated_key,
  authenticate, is_authenticated, remove_authentication,
}
use asabru_commons.Authentication.Basic.Login.{login-held}
use asabru_commons.Authentication.Basic.Revoked.{IsFading, out-rejected}
use asabru_commons.Authentication.RevocationList.{cached}
use asabru_commons.Authentication.Compactor.{Service, Reach, next, revoke_step}
use asabru_commons.Authentication.Compactor.Dropping.{IsDropping, calm-IsSound}
use asabru_commons.Authentication.Compactor.Refused.{Reach-Refuses}

-- The token that a login gives.
abbrev pub token_of : Jwt → BasicAuthenticationStrategy → ℕ → Bytes
token_of jwt s now = jwt.sign s.secret s.username now s.expiration

-- The strategy behind the logout, with the list as it is later.
abbrev pub logged_out : Jwt → BasicAuthenticationStrategy → ℕ → BasicAuthenticationStrategy
logged_out jwt s now = record s {
  blacklisted_tokens = add true s.blacklisted_tokens (token_of jwt s now);
}

-- At a login the thread, wherever it stands, is not in the `catch` for the token that the login gives,
-- and from then on the token does not verify again once it does not verify. The login with the right
-- name and password gives a context with which `isAuthenticated` succeeds while the token verifies and
-- has its claim, if it is not revoked. `removeAuthentication` with this context, if the file opens and
-- the destructor has not begun, gives a strategy that refuses the context in every state it comes to
-- from there.
pub session :
    (jwt : Jwt) (now : ℕ) (s : BasicAuthenticationStrategy) (ctx : ComputationContext)
    (start v w : Service cached)
    → start.clock ≡ now
    → ¬ IsDropping (token_of jwt s now) start.worker
    → IsFading jwt s.secret (token_of jwt s now) now
    → Reach jwt s.secret cached start v
    → v.stop_thread ≡ false
    → s.blacklisted_tokens ≡ v.tokens
    → get ctx username_key ≡ text s.username
    → get ctx password_key ≡ text s.password
    → jwt.verifies s.secret (token_of jwt s now) v.clock ≡ true
    → jwt.username_claim (token_of jwt s now) ≡ some s.username
    → find s.blacklisted_tokens (token_of jwt s now) ≡ false
    → Reach jwt s.secret cached (record v { tokens = (logged_out jwt s now).blacklisted_tokens }) w
    → (c : ComputationContext) × ((authenticate jwt now s ctx >>= is_authenticated jwt v.clock s)
        ≡ ok c)
      × (get c authenticated_key ≡ flag true)
      × (remove_authentication true s c ≡ ok (logged_out jwt s now))
      × (is_authenticated jwt w.clock (record s { blacklisted_tokens = w.tokens }) c
          ≡ ok (put c authenticated_key (flag false)))
unfolding remove_authentication
session jwt now s ctx start v w at_login calm fade r open_still same u p good claim new q =
    let token = token_of jwt s now in
    let (c, e, flagged, named, held) = login-held jwt now s ctx v.clock u p good claim new in
    let cast : cast_text (get c token_key) ≡ ok token = rw held (unfold cast_text in refl) in
    let found : find (add true s.blacklisted_tokens token) token ≡ true =
      rw (find-add true s.blacklisted_tokens token token, str_eq_self token) refl in
    let revoked = next r (revoke_step true token open_still) in
    let sound =
      calm-IsSound jwt s.secret cached token now fade at_login calm (rw (← same) at revoked) in
    (
      c,
      e,
      flagged,
      rw cast refl,
      out-rejected jwt (record s { blacklisted_tokens = w.tokens }) w.clock c token cast
          (Reach-Refuses jwt s.secret cached token now fade sound found q),
    )
