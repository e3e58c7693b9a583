-- ===== src/Authentication/Compactor/Sleeping.antt =====
-- The destructor of the strategy while its thread is in `sleep_for`.
use asabru_commons.Base.{ℕ, ◌≤◌, ◌≡◌, ◌⊎◌, inl, inr, true, false, Bytes, arith}
use asabru_commons.Authentication.Basic.{Jwt}
use asabru_commons.Authentication.RevocationList.{RevocationList}
use asabru_commons.Authentication.Compactor.{
  asleep, Service, Turn, sleep_turn, leave_turn, wake_turn, pass_turn, throw_turn, drop_turn,
  compact_turn, Step, turn_step, time_step, revoke_step, destroy_step, join_step, Reach, here, next,
}

module _ (jwt : Jwt) (secret : Bytes) (lists : RevocationList) (until : ℕ) where
  -- The thread sleeps on and has not been joined, or its time has come.
  abbrev IsHeld : Service lists → Type 0
  IsHeld v = ((v.worker ≡ asleep until) × (v.joined ≡ false)) ⊎ (until ≤ v.clock)

  Turn-IsHeld : {v w : Service lists} → Turn jwt secret lists v w → IsHeld v → IsHeld w
  Turn-IsHeld (sleep_turn e s) (inl h) = let h0 = h.0 in cc
  Turn-IsHeld (leave_turn e s) (inl h) = let h0 = h.0 in cc
  Turn-IsHeld (wake_turn until' e le) (inl h) = let h0 = h.0 in inr (ground arith)
  Turn-IsHeld (pass_turn token rest e good) (inl h) = let h0 = h.0 in cc
  Turn-IsHeld (throw_turn token rest e bad) (inl h) = let h0 = h.0 in cc
  Turn-IsHeld (drop_turn token rest opens e) (inl h) = let h0 = h.0 in cc
  Turn-IsHeld (compact_turn opens e) (inl h) = let h0 = h.0 in cc
  Turn-IsHeld (sleep_turn e s) (inr h) = inr h
  Turn-IsHeld (leave_turn e s) (inr h) = inr h
  Turn-IsHeld (wake_turn until' e le) (inr h) = inr h
  Turn-IsHeld (pass_turn token rest e good) (inr h) = inr h
  Turn-IsHeld (throw_turn token rest e bad) (inr h) = inr h
  Turn-IsHeld (drop_turn token rest opens e) (inr h) = inr h
  Turn-IsHeld (compact_turn opens e) (inr h) = inr h

  Step-IsHeld : {v w : Service lists} → Step jwt secret lists v w → IsHeld v → IsHeld w
  Step-IsHeld (turn_step t) h = Turn-IsHeld t h
  Step-IsHeld (time_step n) (inl h) = inl h
  Step-IsHeld (time_step n) (inr h) = inr (omega arith)
  Step-IsHeld (revoke_step opens token e) h = h
  Step-IsHeld (destroy_step e) h = h
  Step-IsHeld (join_step e f) (inl h) = let h0 = h.0 in cc
  Step-IsHeld (join_step e f) (inr h) = inr h

  Reach-IsHeld : {v w : Service lists} → Reach jwt secret lists v w → IsHeld v → IsHeld w
  Reach-IsHeld here h = h
  Reach-IsHeld (next r s) h = Step-IsHeld s (Reach-IsHeld r h)

  -- A destructor that runs while the thread sleeps until a time has not returned before that time.
  pub joined_late :
      {v w : Service lists}
      → v.worker ≡ asleep until
      → v.joined ≡ false
      → Reach jwt secret lists v w
      → w.joined ≡ true
      → until ≤ w.clock
  joined_late {v} {w} e f r j = elim (Reach-IsHeld r (inl (e, f))) [
    | inl (still, no_join) ↦ cc
    | inr come ↦ come
  ]
