-- ===== src/ThreadSafeQueue.antt =====
-- src/thread_safe_queue/thread_safe_queue.h: the blocking queue of the thread pool. A call holds
-- the mutex from beginning to end, so each is one step on the list of the queue, oldest first.
use asabru_commons.Base.{Option, none, some, ◌≡◌, arith, List, [], ◌∷◌, ◌++◌}

pub record ThreadSafeQueue {ℓ} (T : Type ℓ) : Type ℓ where
  pub queue : List T

module _ {ℓ} {T : Type ℓ} where
  unfoldable pub push : T → ThreadSafeQueue T → ThreadSafeQueue T
  push val q = record q { queue = q.queue ++ val ∷ [] }

  -- `none` while the wait for `!_queue.empty()` blocks the caller.
  take_front : List T → Option (T × ThreadSafeQueue T)
  take_front [] = none
  take_front (ret ∷ rest) = some (ret, record { queue = rest })

  unfoldable pub pop : ThreadSafeQueue T → Option (T × ThreadSafeQueue T)
  unfolding take_front
  pop q = take_front q.queue

  take_front-cons :
      (xs : List T) {ret : T} {rest : ThreadSafeQueue T}
      → take_front xs ≡ some (ret, rest)
      → xs ≡ ret ∷ rest.queue
  unfolding take_front
  take_front-cons [] e = absurd (cc)
  take_front-cons (x ∷ xs) e = ground arith

  -- A call that returns took the oldest entry, and left the others in their order.
  pub pop-cons :
      (q : ThreadSafeQueue T) {ret : T} {rest : ThreadSafeQueue T}
      → pop q ≡ some (ret, rest)
      → q.queue ≡ ret ∷ rest.queue
  unfolding pop
  pop-cons q e = take_front-cons q.queue e

  -- A call returns whenever the queue is not empty.
  pub pop_of-cons :
      (q : ThreadSafeQueue T) {ret : T} {xs : List T}
      → q.queue ≡ ret ∷ xs
      → pop q ≡ some (ret, record { queue = xs })
  unfolding pop
  pop_of-cons q e = rw e
