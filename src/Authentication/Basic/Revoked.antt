-- ===== src/Authentication/Basic/Revoked.antt =====
-- Revoked tokens behind later events.
use asabru_commons.Base.{
  ℕ, ◌+◌, ◌≤◌, ◌≡◌, refl, ◌∙◌, ◌⊎◌, inl, inr, List, [], ◌∷◌, Bool, true, false, Bool-cases, Bytes,
  str_eq, str_eq_iff, Outcome, ok, err, ◌>>=◌, arith,
}
use asabru_commons.Commands.Context.{flag, ComputationContext, put, get, cast_text}
use asabru_commons.Authentication.CachedFileList.{CachedFileList, find, add, remove, get_all}
use asabru_commons.Authentication.Basic.{
  Jwt, BasicAuthenticationStrategy, token_key, authenticated_key, is_authenticated, drop_unverified,
  compact_round, remove_authentication,
}
use asabru_commons.Authentication.CachedFileList.Finds.{find-add, find-remove_ne, find-compact_file}

-- A strategy with the clock of the system.
pub record Server : Type 0 where
  pub strategy : BasicAuthenticationStrategy
  pub clock : ℕ

-- Time that passes, a call of `removeAuthentication`, and a round of the compacting thread.
pub data Event : Type 0 where
  wait : ℕ → Event
  revoke : Bool → ComputationContext → Event
  compact : (Bytes → Bool) → Bool → Event

-- An exception leaves the strategy as it was.
abbrev pub kept_or_new :
    BasicAuthenticationStrategy → Outcome BasicAuthenticationStrategy → BasicAuthenticationStrategy
kept_or_new s (ok s') = s'
kept_or_new s (err e) = s

module _ (jwt : Jwt) where
  unfoldable pub event : Event → Server → Server
  event (wait n) v = record v { clock = v.clock + n }
  event (revoke opens ctx) v = record v {
    strategy = kept_or_new v.strategy (remove_authentication opens v.strategy ctx);
  }
  event (compact opens compacts) v = record v {
    strategy = compact_round jwt opens compacts v.clock v.strategy;
  }

  unfoldable pub events : List Event → Server → Server
  unfolding event
  events [] v = v
  events (x ∷ xs) v = events xs (event x v)

  -- From `now` on a token that does not verify never verifies again, as a token whose time has begun.
  abbrev pub IsFading : Bytes → Bytes → ℕ → Type 0
  IsFading secret token now =
      (t u : ℕ)
      → now ≤ t
      → t ≤ u
      → jwt.verifies secret token t ≡ false
      → jwt.verifies secret token u ≡ false

  -- The token is on the list, or will not verify any more.
  abbrev pub IsOut : BasicAuthenticationStrategy → Bytes → ℕ → Type 0
  IsOut s token now =
      (find s.blacklisted_tokens token ≡ true)
      ⊎ ((u : ℕ) → now ≤ u → jwt.verifies s.secret token u ≡ false)

  other_token :
      (secret token x : Bytes) (now : ℕ)
      → jwt.verifies secret token now ≡ true
      → jwt.verifies secret x now ≡ false
      → str_eq token x ≡ false
  other_token secret token x now h bad = elim (Bool-cases (str_eq token x)) [
    | inr other ↦ other
    | inl same ↦ let e = (str_eq_iff token x).0 same in absurd (cc)
  ]

  find-drop_unverified :
      (opens : Bytes → Bool) (now : ℕ) (secret token : Bytes) (tokens : List Bytes)
      (c : CachedFileList)
      → jwt.verifies secret token now ≡ true
      → find (drop_unverified jwt opens now secret tokens c) token ≡ find c token
  unfolding drop_unverified
  find-drop_unverified opens now secret token [] c h = refl
  find-drop_unverified opens now secret token (x ∷ xs) c h =
      elim (Bool-cases (jwt.verifies secret x now)) [
        | inl good ↦ rw good (find-drop_unverified opens now secret token xs c h)
        | inr bad ↦
            let other : str_eq token x ≡ false = other_token secret token x now h bad in
            rw bad (
              find-drop_unverified opens now secret token xs (remove (opens x) c x) h
              ∙ find-remove_ne (opens x) c x token other)
      ]

  revoke-IsOut :
      (s : BasicAuthenticationStrategy) (opens : Bool) (token : Bytes) (now : ℕ) (o : Outcome Bytes)
      → IsOut s token now
      → IsOut
          (kept_or_new s (
            o >>= λ str. ok (record s { blacklisted_tokens = add opens s.blacklisted_tokens str })))
          token
          now
  revoke-IsOut s opens token now (err e) h = h
  revoke-IsOut s opens token now (ok str) (inl f) =
      inl (rw (find-add opens s.blacklisted_tokens str token, f) (ground arith))
  revoke-IsOut s opens token now (ok str) (inr g) = inr g

  compact-IsOut :
      (s : BasicAuthenticationStrategy) (opens : Bytes → Bool) (compacts : Bool) (token : Bytes)
      (now : ℕ)
      → IsFading s.secret token now
      → IsOut s token now
      → IsOut (compact_round jwt opens compacts now s) token now
  unfolding compact_round
  compact-IsOut s opens compacts token now fade h =
      elim (Bool-cases (jwt.verifies s.secret token now)) [
        | inr bad ↦ inr (λ u le. fade now u (omega arith) le bad)
        | inl good ↦ elim h [
          | inr g ↦ inr g
          | inl f ↦
              let c = s.blacklisted_tokens in
              inl (
                find-compact_file compacts (drop_unverified jwt opens now s.secret (get_all c) c)
                  token
                ∙ find-drop_unverified opens now s.secret token (get_all c) c good
                ∙ f)
        ]
      ]

  kept_secret :
      (s : BasicAuthenticationStrategy) (opens : Bool) (o : Outcome Bytes)
      → (kept_or_new s (
          o >>= λ str.
          ok (record s { blacklisted_tokens = add opens s.blacklisted_tokens str }))).secret
        ≡ s.secret
  kept_secret s opens (ok str) = refl
  kept_secret s opens (err e) = refl

  events-IsOut :
      (xs : List Event) (v : Server) (token : Bytes)
      → IsFading v.strategy.secret token v.clock
      → IsOut v.strategy token v.clock
      → IsOut (events xs v).strategy token (events xs v).clock
  unfolding events event compact_round remove_authentication
  events-IsOut [] v token fade h = h
  events-IsOut (wait n ∷ xs) v token fade h =
      events-IsOut xs (event (wait n) v) token (λ t u. λ a b. fade t u (omega arith) b) (later h)
    where
      later : IsOut v.strategy token v.clock → IsOut v.strategy token (v.clock + n)
      later (inl f) = inl f
      later (inr g) = inr (λ u le. g u (omega arith))
  events-IsOut (revoke opens ctx ∷ xs) v token fade h =
      events-IsOut xs (event (revoke opens ctx) v) token
        (rw (kept_secret v.strategy opens (cast_text (get ctx token_key))) fade)
        (revoke-IsOut v.strategy opens token v.clock (cast_text (get ctx token_key)) h)
  events-IsOut (compact opens compacts ∷ xs) v token fade h =
      events-IsOut xs (event (compact opens compacts) v) token fade
        (compact-IsOut v.strategy opens compacts token v.clock fade h)

  pub out-rejected :
      (s : BasicAuthenticationStrategy) (now : ℕ) (ctx : ComputationContext) (token : Bytes)
      → cast_text (get ctx token_key) ≡ ok token
      → IsOut s token now
      → is_authenticated jwt now s ctx ≡ ok (put ctx authenticated_key (flag false))
  unfolding is_authenticated
  out-rejected s now ctx token e (inl f) = rw (e, f)
  out-rejected s now ctx token e (inr g) = rw (e, g now (omega arith)) (ground arith)

  -- A token that is on the list of revoked tokens is refused after any events: time that passes, other
  -- tokens that are revoked, and rounds of the compacting thread, whether or not their files open. The
  -- token must be one that, once it does not verify, never verifies again.
  pub revoked-is_authenticated :
      (xs : List Event) (v : Server) (ctx : ComputationContext) (token : Bytes)
      → IsFading v.strategy.secret token v.clock
      → find v.strategy.blacklisted_tokens token ≡ true
      → cast_text (get ctx token_key) ≡ ok token
      → is_authenticated jwt (events xs v).clock (events xs v).strategy ctx
        ≡ ok (put ctx authenticated_key (flag false))
  revoked-is_authenticated xs v ctx token fade f e =
      out-rejected (events xs v).strategy (events xs v).clock ctx token e
        (events-IsOut xs v token fade (inl f))
