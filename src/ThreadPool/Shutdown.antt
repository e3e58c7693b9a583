-- ===== src/ThreadPool/Shutdown.antt =====
-- The destructor: what holds when it is done, and whether it gets there.
pub mod Count
pub mod Counted
use asabru_commons.Base.{
  ℕ, zero, suc, ◌+◌, ◌<◌, ◌≤◌, ◌≡◌, refl, none, ◌++◌, length, replicate, Option,
}
use asabru_commons.ThreadSafeQueue.{ThreadSafeQueue, pop}
use asabru_commons.ThreadPool.{Phase, alive, stopping, joining, destroyed, Pool, begun}
use Count.{stops, returns, IsStops, IsShaped, IsJoined}

-- The stop tasks that the destructor has pushed.
abbrev pub issued : ℕ → Phase → ℕ
issued n alive = 0
issued n (stopping i) = i
issued n (joining i) = suc i
issued n destroyed = n

-- The threads that it has joined.
abbrev pub joined : ℕ → Phase → ℕ
joined n alive = 0
joined n (stopping i) = i
joined n (joining i) = i
joined n destroyed = n

pub record Inv {A : Type 0} (n : ℕ) (p : Pool A) : Type 0 where
  pub size : length p.threads ≡ n
  pub balance : stops p.queue.queue + returns p.threads ≡ issued n p.phase
  pub shape : IsShaped p.queue.queue
  pub late : 0 < returns p.threads → IsStops p.queue.queue
  pub within : issued n p.phase ≤ n
  pub done : IsJoined (joined n p.phase) p.threads
