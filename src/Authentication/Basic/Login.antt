-- ===== src/Authentication/Basic/Login.antt =====
-- A login, and the token that it gives.
use asabru_commons.Base.{
  ℕ, ◌≡◌, refl, true, false, ◌&&◌, Bool-cases, inl, inr, some, Bytes, str_eq, str_eq_self, ok,
  ◌>>=◌,
}
use asabru_commons.Commands.Context.{
  text, flag, ComputationContext, put, get, cast_text, get-put_self, get-put_ne,
}
use asabru_commons.Authentication.CachedFileList.{find}
use asabru_commons.Authentication.Basic.{
  Jwt, BasicAuthenticationStrategy, username_key, password_key, token_key, authenticated_key,
  authenticated_info, authenticate, is_authenticated, accept,
}

module _ (jwt : Jwt) (now : ℕ) (s : BasicAuthenticationStrategy) (ctx : ComputationContext) where
  abbrev logged_in : Bytes → ComputationContext
  logged_in username =
      put (put ctx token_key (text (jwt.sign s.secret username now s.expiration))) authenticated_key
        (flag true)

  -- `authenticate` on a context with a name and a password answers whether both are the strategy's.
  pub authenticate-get :
      (username password : Bytes)
      → get ctx username_key ≡ text username
      → get ctx password_key ≡ text password
      → (c : ComputationContext) × (authenticate jwt now s ctx ≡ ok c)
        × (get c authenticated_key
            ≡ flag (str_eq username s.username && str_eq password s.password))
  unfolding authenticate cast_text
  authenticate-get username password u p =
      elim (Bool-cases (str_eq username s.username && str_eq password s.password)) [
        | inl right ↦ (
          logged_in username,
          rw (u, p, right) refl,
          rw right (get-put_self _ authenticated_key (flag true)),
        )
        | inr wrong ↦ (
          put ctx authenticated_key (flag false),
          rw (u, p, wrong) refl,
          rw wrong (get-put_self ctx authenticated_key (flag false)),
        )
      ]

  -- The same, and the context still holds the token.
  pub login-held :
      (later : ℕ)
      → get ctx username_key ≡ text s.username
      → get ctx password_key ≡ text s.password
      → jwt.verifies s.secret (jwt.sign s.secret s.username now s.expiration) later ≡ true
      → jwt.username_claim (jwt.sign s.secret s.username now s.expiration) ≡ some s.username
      → find s.blacklisted_tokens (jwt.sign s.secret s.username now s.expiration) ≡ false
      → (c : ComputationContext) × ((authenticate jwt now s ctx >>= is_authenticated jwt later s)
          ≡ ok c)
        × (get c authenticated_key ≡ flag true)
        × (get c authenticated_info ≡ text s.username)
        × (get c token_key ≡ text (jwt.sign s.secret s.username now s.expiration))
  unfolding authenticate cast_text is_authenticated accept
  login-held later u p v n f =
      let token = jwt.sign s.secret s.username now s.expiration in
      let c1 = put (put ctx token_key (text token)) authenticated_key (flag true) in
      let held : get c1 token_key ≡ text token =
        rw
          (get-put_ne (put ctx token_key (text token)) authenticated_key token_key (flag true)
            (unfold str_eq in refl))
          (get-put_self ctx token_key (text token)) in
      let c2 = put c1 authenticated_key (flag true) in
      let c3 = put c2 authenticated_info (text s.username) in
      (
        c3,
        rw (u, p, str_eq_self s.username, str_eq_self s.password, held, f, v, n) refl,
        rw
            (get-put_ne c2 authenticated_info authenticated_key (text s.username)
              (unfold str_eq in refl))
            (get-put_self c1 authenticated_key (flag true)),
        get-put_self c2 authenticated_info (text s.username),
        rw (get-put_ne c2 authenticated_info token_key (text s.username) (unfold str_eq in refl)) (
            rw (get-put_ne c1 authenticated_key token_key (flag true) (unfold str_eq in refl))
              held),
      )

  -- The token that a login with the right name and password puts into the context is accepted by
  -- `isAuthenticated` while it verifies, has its claim, and is not revoked; the context then tells the
  -- name.
  pub authenticate-is_authenticated :
      (later : ℕ)
      → get ctx username_key ≡ text s.username
      → get ctx password_key ≡ text s.password
      → jwt.verifies s.secret (jwt.sign s.secret s.username now s.expiration) later ≡ true
      → jwt.username_claim (jwt.sign s.secret s.username now s.expiration) ≡ some s.username
      → find s.blacklisted_tokens (jwt.sign s.secret s.username now s.expiration) ≡ false
      → (c : ComputationContext) × ((authenticate jwt now s ctx >>= is_authenticated jwt later s)
          ≡ ok c)
        × (get c authenticated_key ≡ flag true)
        × (get c authenticated_info ≡ text s.username)
  authenticate-is_authenticated later u p v n f =
      let (c, e, flagged, named, held) = login-held later u p v n f in (c, e, flagged, named)
