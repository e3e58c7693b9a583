-- ===== src/Authentication/Compactor/Rounds.antt =====
-- A round of the compacting thread as one function is a run of its steps with no other between them.
use asabru_commons.Base.{ℕ, ◌≤◌, ◌≡◌, refl, List, [], ◌∷◌, Bool, Bool-cases, inl, inr, Bytes}
use asabru_commons.Authentication.CachedFileList.{CachedFileList, remove, get_all}
use asabru_commons.Authentication.Basic.{
  Jwt, BasicAuthenticationStrategy, drop_unverified, compact_round,
}
use asabru_commons.Authentication.RevocationList.{cached}
use asabru_commons.Authentication.Compactor.{
  Service, asleep, checking, at_head, wake_turn, pass_turn, throw_turn, drop_turn, compact_turn,
  turn_step, Reach, here, next,
}

module _ (jwt : Jwt) (secret : Bytes) (opens : Bytes → Bool) (v : Service cached) where
  -- The service with the thread in its loop over the tokens that are left.
  abbrev at_tokens : CachedFileList → List Bytes → Service cached
  at_tokens c tokens = record v { tokens = c; worker = checking tokens }

  drop_unverified-Reach :
      (tokens : List Bytes) (c : CachedFileList)
      → Reach jwt secret cached v (at_tokens c tokens)
      → Reach jwt secret cached v (at_tokens (drop_unverified jwt opens v.clock secret tokens c) [])
  unfolding drop_unverified
  drop_unverified-Reach [] c r = r
  drop_unverified-Reach (token ∷ tokens) c r =
      elim (Bool-cases (jwt.verifies secret token v.clock)) [
        | inl good ↦
            rw good (
              drop_unverified-Reach tokens c
                (next r (turn_step (pass_turn token tokens refl good))))
        | inr bad ↦ rw bad (
            drop_unverified-Reach tokens (remove (opens token) c token) (
              next (next r (turn_step (throw_turn token tokens refl bad)))
                (turn_step (drop_turn token tokens (opens token) refl))))
      ]

  -- The round that begins when the thread wakes up ends with the list of `compact_round`.
  pub compact_round-Reach :
      (compacts : Bool) (until : ℕ) (s : BasicAuthenticationStrategy)
      → v.worker ≡ asleep until
      → until ≤ v.clock
      → s.secret ≡ secret
      → s.blacklisted_tokens ≡ v.tokens
      → Reach jwt secret cached v (record v {
        tokens = (compact_round jwt opens compacts v.clock s).blacklisted_tokens;
        worker = at_head;
      })
  unfolding compact_round
  compact_round-Reach compacts until s e le same_secret same =
      rw (same_secret, same)
        (next
          (drop_unverified-Reach (get_all v.tokens) v.tokens
            (next here (turn_step (wake_turn until e le))))
          (turn_step (compact_turn compacts refl)))
