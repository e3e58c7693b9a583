-- ===== src/Logger/Queue.antt =====
-- src/logger/util/ThreadSafeQueue.h: the queue of log entries. Each call holds the mutex throughout.
use asabru_commons.Base.{
  ℕ, ◌≡◌, refl, Bool, true, false, List, [], ◌∷◌, ◌++◌, Bytes, length, Outcome, ok, err,
  undefined_behaviour,
}

pub record LogQueue : Type 0 where
  pub queue : List Bytes

abbrev pub new_queue : LogQueue
new_queue = record { queue = [] }

unfoldable pub push : Bytes → LogQueue → LogQueue
push value q = record { queue = q.queue ++ value ∷ [] }

-- Of an empty queue a string is made from a null pointer.
popped : List Bytes → Outcome (Bytes × LogQueue)
popped [] = err undefined_behaviour
popped (value ∷ rest) = ok (value, record { queue = rest })

unfoldable pub pop : LogQueue → Outcome (Bytes × LogQueue)
unfolding popped
pop q = popped q.queue

unfoldable pub size : LogQueue → ℕ
size q = length q.queue

no_entry : List Bytes → Bool
no_entry [] = true
no_entry (value ∷ rest) = false

unfoldable pub empty : LogQueue → Bool
unfolding no_entry
empty q = no_entry q.queue

pub empty-nil : (q : LogQueue) → empty q ≡ true → q.queue ≡ []
unfolding empty
empty-nil q e = no_entry-nil q.queue e
  where
    no_entry-nil : (xs : List Bytes) → no_entry xs ≡ true → xs ≡ []
    no_entry-nil [] h = refl
    no_entry-nil (x ∷ xs) h = absurd (cc)

pub nil-empty : (q : LogQueue) → q.queue ≡ [] → empty q ≡ true
unfolding empty no_entry
nil-empty q e = rw e refl
