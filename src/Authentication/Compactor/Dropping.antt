-- ===== src/Authentication/Compactor/Dropping.antt =====
-- What the compacting thread is about to drop.
use asabru_commons.Base.{
  ℕ, ◌≤◌, ◌≡◌, ◌⊎◌, inl, inr, false, Bool-cases, Bytes, str_eq, str_eq_iff, arith,
}
use asabru_commons.Authentication.Basic.{Jwt}
use asabru_commons.Authentication.Basic.Revoked.{IsFading}
use asabru_commons.Authentication.RevocationList.{RevocationList}
use asabru_commons.Authentication.Compactor.{
  Worker, at_head, asleep, checking, dropping, ended, Service, Turn, sleep_turn, leave_turn,
  wake_turn, pass_turn, throw_turn, drop_turn, compact_turn, Step, turn_step, time_step,
  revoke_step, destroy_step, join_step, Reach, here, next,
}

-- The thread is in the `catch` for a token.
abbrev pub IsDropping : Bytes → Worker → Type 0
IsDropping token (dropping x rest) = x ≡ token
IsDropping token at_head = ⊥
IsDropping token (asleep until) = ⊥
IsDropping token (checking tokens) = ⊥
IsDropping token ended = ⊥

pub IsDropping-cases : (token : Bytes) (w : Worker) → IsDropping token w ⊎ ¬ IsDropping token w
IsDropping-cases token (dropping x rest) = elim (Bool-cases (str_eq x token)) [
  | inl same ↦ inl ((str_eq_iff x token).0 same)
  | inr other ↦ inr (λ e. ground (arith, str_eq_iff x token))
]
IsDropping-cases token at_head = inr (λ d. d)
IsDropping-cases token (asleep until) = inr (λ d. d)
IsDropping-cases token (checking tokens) = inr (λ d. d)
IsDropping-cases token ended = inr (λ d. d)

-- The token does not verify any more from a time on.
abbrev pub IsDead : Jwt → Bytes → Bytes → ℕ → Type 0
IsDead jwt secret token t = (u : ℕ) → t ≤ u → jwt.verifies secret token u ≡ false

module _ (jwt : Jwt) (secret : Bytes) (lists : RevocationList) (token : Bytes) (now : ℕ)
    (fade : IsFading jwt secret token now) where
  -- What the thread drops is dead.
  pub record IsSound (v : Service lists) : Type 0 where
    pub later : now ≤ v.clock
    pub dead : IsDropping token v.worker → IsDead jwt secret token v.clock

  pub thrown-IsDead :
      (x : Bytes) (t : ℕ)
      → now ≤ t
      → jwt.verifies secret x t ≡ false
      → x ≡ token
      → IsDead jwt secret token t
  thrown-IsDead x t le bad e u le2 = fade t u le le2 (rw e at bad)

  Turn-IsSound : {v w : Service lists} → Turn jwt secret lists v w → IsSound v → IsSound w
  Turn-IsSound (sleep_turn e s) h = record { later = h.later; dead = λ d. absurd d }
  Turn-IsSound (leave_turn e s) h = record { later = h.later; dead = λ d. absurd d }
  Turn-IsSound (wake_turn until e le) h = record { later = h.later; dead = λ d. absurd d }
  Turn-IsSound (pass_turn x rest e good) h = record { later = h.later; dead = λ d. absurd d }
  Turn-IsSound {v} (throw_turn x rest e bad) h = record {
    later = h.later;
    dead = thrown-IsDead x v.clock h.later bad;
  }
  Turn-IsSound (drop_turn x rest opens e) h = record { later = h.later; dead = λ d. absurd d }
  Turn-IsSound (compact_turn opens e) h = record { later = h.later; dead = λ d. absurd d }

  Step-IsSound : {v w : Service lists} → Step jwt secret lists v w → IsSound v → IsSound w
  Step-IsSound (turn_step t) h = Turn-IsSound t h
  Step-IsSound (time_step n) h = record {
    later = let k = h.later in omega arith;
    dead = λ d u le. h.dead d u (omega arith);
  }
  Step-IsSound (revoke_step opens x e) h = record { later = h.later; dead = h.dead }
  Step-IsSound (destroy_step e) h = record { later = h.later; dead = h.dead }
  Step-IsSound (join_step e f) h = record { later = h.later; dead = h.dead }

  Reach-IsSound : {v w : Service lists} → Reach jwt secret lists v w → IsSound v → IsSound w
  Reach-IsSound here h = h
  Reach-IsSound (next r s) h = Step-IsSound s (Reach-IsSound r h)

  -- From a state on in which the thread is not in the `catch` for the token.
  pub calm-IsSound :
      {v w : Service lists}
      → v.clock ≡ now
      → ¬ IsDropping token v.worker
      → Reach jwt secret lists v w
      → IsSound w
  calm-IsSound c calm r =
      Reach-IsSound r (record { later = omega arith; dead = λ d. absurd (calm d) })
