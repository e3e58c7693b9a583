-- ===== src/Authentication/Compactor/Refused.antt =====
-- Revoked tokens while the compacting thread works.
use asabru_commons.Base.{
  ℕ, ◌+◌, ◌≤◌, ◌≡◌, refl, ◌∙◌, ◌⊎◌, inl, inr, List, Bool, true, false, Bool-cases, Bytes, str_eq,
  str_eq_iff, ok, arith, sym,
}
use asabru_commons.Commands.Context.{flag, ComputationContext, put, get, cast_text}
use asabru_commons.Authentication.Basic.{
  Jwt, BasicAuthenticationStrategy, token_key, authenticated_key, is_authenticated,
}
use asabru_commons.Authentication.Basic.Revoked.{IsFading, out-rejected}
use asabru_commons.Authentication.RevocationList.{RevocationList, cached}
use asabru_commons.Authentication.Compactor.Dropping.{
  IsDropping, IsDropping-cases, IsDead, IsSound, thrown-IsDead, calm-IsSound,
}
use asabru_commons.Authentication.Compactor.{
  checking, dropping, Service, Turn, sleep_turn, leave_turn, wake_turn, pass_turn, throw_turn,
  drop_turn, compact_turn, Step, turn_step, time_step, revoke_step, destroy_step, join_step, Reach,
  here, next,
}

module _ (jwt : Jwt) (secret : Bytes) (lists : RevocationList) (token : Bytes) (now : ℕ)
    (fade : IsFading jwt secret token now) where
  -- The token is dead, or on the list and not about to be dropped.
  record IsRefused (v : Service lists) : Type 0 where
    later : now ≤ v.clock
    out :
        IsDead jwt secret token v.clock
        ⊎ ((lists.find v.tokens token ≡ true) × ¬ IsDropping token v.worker)

  -- A step that leaves the clock and drops another token, if any.
  moved :
      (v w : Service lists)
      → v.clock ≡ w.clock
      → lists.find w.tokens token ≡ lists.find v.tokens token
      → ¬ IsDropping token w.worker
      → IsRefused v
      → IsRefused w
  moved v w c f d h = record {
    later = rw (← c) h.later;
    out = elim h.out [ inl dead ↦ inl (rw (← c) dead) | inr (on, still) ↦ inr (f ∙ on, d) ];
  }

  throw-IsRefused :
      (v : Service lists) (x : Bytes) (rest : List Bytes)
      → jwt.verifies secret x v.clock ≡ false
      → IsRefused v
      → IsRefused (record v { worker = dropping x rest })
  throw-IsRefused v x rest bad h = elim (Bool-cases (str_eq x token)) [
    | inl same ↦ record {
      later = h.later;
      out = inl (
          thrown-IsDead jwt secret lists token now fade x v.clock h.later bad
            ((str_eq_iff x token).0 same));
    }
    | inr other ↦
        moved v (record v { worker = dropping x rest }) refl refl
          (λ e. ground (arith, str_eq_iff x token)) h
  ]

  drop-IsRefused :
      (v : Service lists) (x : Bytes) (rest : List Bytes) (opens : Bool)
      → v.worker ≡ dropping x rest
      → IsRefused v
      → IsRefused (record v { tokens = lists.remove opens v.tokens x; worker = checking rest })
  drop-IsRefused v x rest opens e h = record {
    later = h.later;
    out = elim h.out [
      | inl dead ↦ inl dead
      | inr (on, still) ↦ elim (Bool-cases (str_eq token x)) [
        | inl same ↦ absurd ((rw e at still) (sym ((str_eq_iff token x).0 same)))
        | inr other ↦ inr (lists.find-remove_ne opens v.tokens x token other ∙ on, λ d. d)
      ]
    ];
  }

  Turn-IsRefused : {v w : Service lists} → Turn jwt secret lists v w → IsRefused v → IsRefused w
  Turn-IsRefused {v} (sleep_turn e s) h = moved v _ refl refl (λ d. d) h
  Turn-IsRefused {v} (leave_turn e s) h = moved v _ refl refl (λ d. d) h
  Turn-IsRefused {v} (wake_turn until e le) h = moved v _ refl refl (λ d. d) h
  Turn-IsRefused {v} (pass_turn x rest e good) h = moved v _ refl refl (λ d. d) h
  Turn-IsRefused {v} (throw_turn x rest e bad) h = throw-IsRefused v x rest bad h
  Turn-IsRefused {v} (drop_turn x rest opens e) h = drop-IsRefused v x rest opens e h
  Turn-IsRefused {v} (compact_turn opens e) h =
      moved v _ refl (lists.find-compact_file opens v.tokens token) (λ d. d) h

  time-IsRefused :
      (v : Service lists) (n : ℕ) → IsRefused v → IsRefused (record v { clock = v.clock + n })
  time-IsRefused v n h = record {
    later = let k = h.later in omega arith;
    out = elim h.out [ inl dead ↦ inl (λ u le. dead u (omega arith)) | inr on ↦ inr on ];
  }

  revoke-IsRefused :
      (v : Service lists) (opens : Bool) (x : Bytes)
      → IsRefused v
      → IsRefused (record v { tokens = lists.add opens v.tokens x })
  revoke-IsRefused v opens x h = record {
    later = h.later;
    out = elim h.out [
      | inl dead ↦ inl dead
      | inr (on, still) ↦ inr (rw (lists.find-add opens v.tokens x token, on) (ground arith), still)
    ];
  }

  Step-IsRefused : {v w : Service lists} → Step jwt secret lists v w → IsRefused v → IsRefused w
  Step-IsRefused (turn_step t) h = Turn-IsRefused t h
  Step-IsRefused {v} (time_step n) h = time-IsRefused v n h
  Step-IsRefused {v} (revoke_step opens x e) h = revoke-IsRefused v opens x h
  Step-IsRefused (destroy_step e) h = record { later = h.later; out = h.out }
  Step-IsRefused (join_step e f) h = record { later = h.later; out = h.out }

  Reach-IsRefused : {v w : Service lists} → Reach jwt secret lists v w → IsRefused v → IsRefused w
  Reach-IsRefused here h = h
  Reach-IsRefused (next r s) h = Step-IsRefused s (Reach-IsRefused r h)

  start-IsRefused :
      (v : Service lists)
      → IsSound jwt secret lists token now fade v
      → lists.find v.tokens token ≡ true
      → IsRefused v
  start-IsRefused v h on = elim (IsDropping-cases token v.worker) [
    | inl d ↦ record { later = h.later; out = inl (h.dead d) }
    | inr still ↦ record { later = h.later; out = inr (on, still) }
  ]

  pub Reach-Refuses :
      {v w : Service lists}
      → IsSound jwt secret lists token now fade v
      → lists.find v.tokens token ≡ true
      → Reach jwt secret lists v w
      → (lists.find w.tokens token ≡ true)
        ⊎ ((u : ℕ) → w.clock ≤ u → jwt.verifies secret token u ≡ false)
  Reach-Refuses {v} h on r = elim (Reach-IsRefused r (start-IsRefused v h on)).out [
    | inl dead ↦ inr dead
    | inr (found, _) ↦ inl found
  ]

-- From a state on in which the thread, wherever it stands, is not in the `catch` for the token, as when
-- the token is made, the token does not verify again once it does not verify. A service comes from
-- there to a state with the token on its list. In every state that it comes to after that, while the
-- thread checks, drops and compacts, other threads revoke and time passes, `isAuthenticated` refuses
-- the token.
pub refused_while_compacting :
    (jwt : Jwt) (s : BasicAuthenticationStrategy) (start v w : Service cached) (token : Bytes)
    (ctx : ComputationContext)
    → IsFading jwt s.secret token start.clock
    → ¬ IsDropping token start.worker
    → Reach jwt s.secret cached start v
    → cached.find v.tokens token ≡ true
    → Reach jwt s.secret cached v w
    → cast_text (get ctx token_key) ≡ ok token
    → is_authenticated jwt w.clock (record s { blacklisted_tokens = w.tokens }) ctx
      ≡ ok (put ctx authenticated_key (flag false))
refused_while_compacting jwt s start v w token ctx fade e r on q c =
    out-rejected jwt (record s { blacklisted_tokens = w.tokens }) w.clock ctx token c
      (Reach-Refuses jwt s.secret cached token start.clock fade
        (calm-IsSound jwt s.secret cached token start.clock fade refl e r) on q)
