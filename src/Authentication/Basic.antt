-- ===== src/Authentication/Basic.antt =====
-- src/authentication/BasicAuthenticationStrategy.h: logins by name and password, answered by tokens
-- that can be revoked. The JWT library is the record `Jwt`.
pub mod Revoked
pub mod Login
pub mod Environment
use asabru_commons.Base.Int.{ℤ}
use asabru_commons.Base.{
  ℕ, ◌+◌, List, [], ◌∷◌, Bool, true, false, ◌&&◌, Option, none, some, Bytes, codes, str_eq,
  if◌then◌else◌, Outcome, ok, err, ◌>>=◌, runtime_error,
}
use asabru_commons.Commands.Context.{Any, text, flag, ComputationContext, put, get, cast_text}
use asabru_commons.Authentication.CachedFileList.{
  CachedFileList, find, add, remove, get_all, compact_file,
}

-- Times are seconds of the system clock. `sign` makes a token for a name with an expiry, `verifies`
-- says that neither `decode` nor `verify` throws, `username_claim` is the claim if it is a text.
pub record Jwt : Type 0 where
  pub sign : Bytes → Bytes → ℕ → ℤ → Bytes
  pub verifies : Bytes → Bytes → ℕ → Bool
  pub username_claim : Bytes → Option Bytes

pub record BasicAuthenticationStrategy : Type 0 where
  pub secret : Bytes
  pub username : Bytes
  pub password : Bytes
  pub blacklisted_tokens : CachedFileList
  pub expiration : ℤ

abbrev pub username_key : Bytes
username_key = codes "username"

abbrev pub password_key : Bytes
password_key = codes "password"

abbrev pub token_key : Bytes
token_key = codes "token"

abbrev pub authenticated_key : Bytes
authenticated_key = codes "authenticated"

abbrev pub authenticated_info : Bytes
authenticated_info = codes "authenticated_info"

module _ (jwt : Jwt) where
  unfoldable pub authenticate :
      ℕ → BasicAuthenticationStrategy → ComputationContext → Outcome ComputationContext
  authenticate now s ctx = do
    username ← cast_text (get ctx username_key)
    password ← cast_text (get ctx password_key)
    ok (
        if str_eq username s.username && str_eq password s.password
        then put (put ctx token_key (text (jwt.sign s.secret username now s.expiration)))
            authenticated_key (flag true)
        else put ctx authenticated_key (flag false))

  -- The `try` of `isAuthenticated`. A claim that is missing or no text throws, and the `catch` puts
  -- `false` over what was put before.
  accept : ComputationContext → Bool → Option Bytes → ComputationContext
  accept ctx true (some username) =
      put (put ctx authenticated_key (flag true)) authenticated_info (text username)
  accept ctx _ _ = put ctx authenticated_key (flag false)

  unfoldable pub is_authenticated :
      ℕ → BasicAuthenticationStrategy → ComputationContext → Outcome ComputationContext
  unfolding accept
  is_authenticated now s ctx = do
    token ← cast_text (get ctx token_key)
    ok (
        if find s.blacklisted_tokens token
        then put ctx authenticated_key (flag false)
        else accept ctx (jwt.verifies s.secret token now) (jwt.username_claim token))

  -- The loop of `compactThreadFunction` over the tokens, with a time and a file for each.
  unfoldable pub drop_unverified :
      (Bytes → Bool) → ℕ → Bytes → List Bytes → CachedFileList → CachedFileList
  drop_unverified opens now secret [] c = c
  drop_unverified opens now secret (token ∷ tokens) c =
      drop_unverified opens now secret tokens
        (if jwt.verifies secret token now then c else remove (opens token) c token)

  -- One round of `compactThreadFunction` behind its sleep.
  unfoldable pub compact_round :
      (Bytes → Bool) → Bool → ℕ → BasicAuthenticationStrategy → BasicAuthenticationStrategy
  compact_round opens compacts now s =
      let c = s.blacklisted_tokens in
      record s {
        blacklisted_tokens =
            compact_file compacts (drop_unverified opens now s.secret (get_all c) c);
      }

unfoldable pub remove_authentication :
    Bool → BasicAuthenticationStrategy → ComputationContext → Outcome BasicAuthenticationStrategy
remove_authentication opens s ctx = do
  token ← cast_text (get ctx token_key)
  ok (record s { blacklisted_tokens = add opens s.blacklisted_tokens token })

-- `AuthenticationFactory::createAuthenticationStrategy`, over the strategy that `basic` makes.
unfoldable pub create_authentication_strategy :
    Outcome BasicAuthenticationStrategy → Bytes → Outcome BasicAuthenticationStrategy
create_authentication_strategy basic type =
    if str_eq type (codes "basic") then basic else err runtime_error
