-- ===== src/Authentication/Compactor.antt =====
-- src/authentication/BasicAuthenticationStrategy.h: the thread that compacts the list of revoked
-- tokens, with the calls of other threads and the destructor between its steps.
pub mod Dropping
pub mod Refused
pub mod Stopping
pub mod Sleeping
pub mod Restarted
pub mod Session
pub mod Rounds
mod Examples
use asabru_commons.Base.{ℕ, ◌+◌, ◌≤◌, ◌≡◌, List, [], ◌∷◌, Bool, true, false, Bytes}
use asabru_commons.Authentication.Basic.{Jwt}
use asabru_commons.Authentication.RevocationList.{RevocationList}

-- Where `compactThreadFunction` stands: at the head of its loop, in `sleep_for` until a time, in the
-- `try` for the first of the tokens, in the `catch` for a token, or returned.
pub data Worker : Type 0 where
  at_head : Worker
  asleep : ℕ → Worker
  checking : List Bytes → Worker
  dropping : Bytes → List Bytes → Worker
  ended : Worker

-- `std::chrono::hours(1)`, in seconds.
abbrev pub one_hour : ℕ
one_hour = 3_600

-- The strategy as far as its thread and the calls that revoke share it. `joined` says that the
-- destructor has returned.
pub record Service (lists : RevocationList) : Type 0 where
  pub tokens : lists.Tokens
  pub clock : ℕ
  pub worker : Worker
  pub stop_thread : Bool
  pub joined : Bool

module _ (jwt : Jwt) (secret : Bytes) (lists : RevocationList) where
  -- Each step of the thread takes the mutex of the list at most once.
  pub data Turn (v : Service lists) : Service lists → Type 0 where
    sleep_turn :
        v.worker ≡ at_head
        → v.stop_thread ≡ false
        → Turn v (record v { worker = asleep (v.clock + one_hour) })
    leave_turn : v.worker ≡ at_head → v.stop_thread ≡ true → Turn v (record v { worker = ended })
    wake_turn :
        (until : ℕ)
        → v.worker ≡ asleep until
        → until ≤ v.clock
        → Turn v (record v { worker = checking (lists.get_all v.tokens) })
    pass_turn :
        (token : Bytes) (rest : List Bytes)
        → v.worker ≡ checking (token ∷ rest)
        → jwt.verifies secret token v.clock ≡ true
        → Turn v (record v { worker = checking rest })
    throw_turn :
        (token : Bytes) (rest : List Bytes)
        → v.worker ≡ checking (token ∷ rest)
        → jwt.verifies secret token v.clock ≡ false
        → Turn v (record v { worker = dropping token rest })
    drop_turn :
        (token : Bytes) (rest : List Bytes) (opens : Bool)
        → v.worker ≡ dropping token rest
        → Turn v (record v { tokens = lists.remove opens v.tokens token; worker = checking rest })
    compact_turn :
        (opens : Bool)
        → v.worker ≡ checking []
        → Turn v (record v { tokens = lists.compact_file opens v.tokens; worker = at_head })

  -- Time passes, another thread is in `removeAuthentication`, or the destructor runs.
  pub data Step (v : Service lists) : Service lists → Type 0 where
    turn_step : {w : Service lists} → Turn v w → Step v w
    time_step : (n : ℕ) → Step v (record v { clock = v.clock + n })
    revoke_step :
        (opens : Bool) (token : Bytes)
        → v.stop_thread ≡ false
        → Step v (record v { tokens = lists.add opens v.tokens token })
    destroy_step : v.stop_thread ≡ false → Step v (record v { stop_thread = true })
    join_step : v.stop_thread ≡ true → v.worker ≡ ended → Step v (record v { joined = true })

  pub data Reach (v : Service lists) : Service lists → Type 0 where
    here : Reach v v
    next : {w x : Service lists} → Reach v w → Step w x → Reach v x
