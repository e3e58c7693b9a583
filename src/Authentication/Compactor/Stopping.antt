-- ===== src/Authentication/Compactor/Stopping.antt =====
-- The destructor of the strategy sets the flag of the thread and joins it.
use asabru_commons.Base.{
  ℕ, suc, ◌+◌, ◌*◌, ◌≤◌, ◌<◌, ◌≡◌, refl, inl, inr, [], ◌∷◌, true, Bool-cases, Bytes, dec_le, length,
  arith,
}
use asabru_commons.Authentication.Basic.{Jwt}
use asabru_commons.Authentication.RevocationList.{RevocationList}
use asabru_commons.Authentication.Compactor.{
  Worker, at_head, asleep, checking, dropping, ended, Service, Turn, sleep_turn, leave_turn,
  wake_turn, pass_turn, throw_turn, drop_turn, compact_turn,
}

-- The turns that a thread which is to stop has left at most, with `n` tokens on the list.
unfoldable pub remaining : ℕ → Worker → ℕ
remaining n ended = 0
remaining n at_head = 1
remaining n (asleep until) = 2 * n + 3
remaining n (checking tokens) = 2 * length tokens + 2
remaining n (dropping token rest) = 2 * length rest + 3

module _ (jwt : Jwt) (secret : Bytes) (lists : RevocationList) where
  -- Turns of the thread, with time that passes between them.
  pub data Turns (v : Service lists) : ℕ → Service lists → Type 0 where
    start : Turns v 0 v
    turn :
        {k : ℕ} {w x : Service lists} → Turns v k w → Turn jwt secret lists w x → Turns v (suc k) x
    pass :
        {k : ℕ} {w : Service lists} (n : ℕ)
        → Turns v k w
        → Turns v k (record w { clock = w.clock + n })

  abbrev pub turns_left : Service lists → ℕ
  turns_left v = remaining (length (lists.get_all v.tokens)) v.worker

  -- The thread has returned, sleeps on, or has a turn.
  pub data Stands (v : Service lists) : Type 0 where
    returned : v.worker ≡ ended → Stands v
    sleeping : (until : ℕ) → v.worker ≡ asleep until → v.clock < until → Stands v
    able : {w : Service lists} → Turn jwt secret lists v w → Stands v

  Turn-remaining :
      {v w : Service lists}
      → v.stop_thread ≡ true
      → Turn jwt secret lists v w
      → (w.stop_thread ≡ true) × (turns_left w < turns_left v)
  unfolding remaining
  Turn-remaining s (sleep_turn e f) = cc
  Turn-remaining {v} s (leave_turn e f) = (s, rw e (omega arith))
  Turn-remaining {v} s (wake_turn until e le) = (s, rw e (omega arith))
  Turn-remaining {v} s (pass_turn token rest e good) = (s, rw e (omega arith))
  Turn-remaining {v} s (throw_turn token rest e bad) = (s, rw e (omega arith))
  Turn-remaining {v} s (drop_turn token rest opens e) = (s, rw e (omega arith))
  Turn-remaining {v} s (compact_turn opens e) = (s, rw e (omega arith))

  Turns-remaining :
      {v w : Service lists} {k : ℕ}
      → v.stop_thread ≡ true
      → Turns v k w
      → (w.stop_thread ≡ true) × (k + turns_left w ≤ turns_left v)
  Turns-remaining s start = (s, omega arith)
  Turns-remaining s (turn ts t) =
      let (s2, le) = Turns-remaining s ts in let (s3, lt) = Turn-remaining s2 t in (s3, omega arith)
  Turns-remaining s (pass n ts) = Turns-remaining s ts

  worker-Stands :
      (v : Service lists) (worker : Worker) → v.worker ≡ worker → v.stop_thread ≡ true → Stands v
  worker-Stands v ended e s = returned e
  worker-Stands v at_head e s = able (leave_turn e s)
  worker-Stands v (asleep until) e s = elim (dec_le until v.clock) [
    | yes le ↦ able (wake_turn until e le)
    | no lt ↦ sleeping until e (omega arith)
  ]
  worker-Stands v (checking []) e s = able (compact_turn true e)
  worker-Stands v (checking (token ∷ rest)) e s =
      elim (Bool-cases (jwt.verifies secret token v.clock)) [
        | inl good ↦ able (pass_turn token rest e good)
        | inr bad ↦ able (throw_turn token rest e bad)
      ]
  worker-Stands v (dropping token rest) e s = able (drop_turn token rest true e)

  -- Once the destructor has set its flag, the thread takes no more turns than were left to it: two
  -- for each token and three, whatever it finds. After any of them it has returned, sleeps on until a time
  -- that has not come, or can take a turn.
  pub stopping_ends :
      {v w : Service lists} {k : ℕ}
      → v.stop_thread ≡ true
      → Turns v k w
      → (k ≤ turns_left v) × Stands w
  stopping_ends {v} {w} s ts =
      let (s2, le) = Turns-remaining s ts in (omega arith, worker-Stands w w.worker refl s2)
