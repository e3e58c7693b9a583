-- ===== src/ThreadPool.antt =====
-- src/thread_pool: the worker threads, `push` and the destructor, as steps that interleave freely.
pub mod Order
pub mod Work
pub mod Shutdown
pub mod Progress
pub mod Singleton
mod Examples
use asabru_commons.Base.{
  ℕ, zero, suc, ◌+◌, ◌<◌, ◌≡◌, Option, none, some, List, [], ◌∷◌, ◌++◌, length, get_elem?, set,
  replicate,
}
use asabru_commons.ThreadSafeQueue.{ThreadSafeQueue, push, pop}

-- A `Task`: its function with the arguments, which the pool only calls, or the order to stop.
pub data Task (A : Type 0) : Type 0 where
  execute : A → Task A
  stop : Task A

-- Where a thread of `make_thread_handler` stands: in `queue.pop()`, in its task, or returned.
pub data Thread (A : Type 0) : Type 0 where
  waiting : Thread A
  running : A → Thread A
  returned : Thread A

-- The `switch` on the type of a task.
pub dispatch : {A : Type 0} → Task A → Thread A
dispatch (execute a) = running a
dispatch stop = returned

-- Where the destructor stands: not called, at the head of round `i`, in `join` of thread `i`, done.
pub data Phase : Type 0 where
  alive : Phase
  stopping : ℕ → Phase
  joining : ℕ → Phase
  destroyed : Phase

-- `pushed` and `started` only record the history: the tasks to execute that were given to `push`, and
-- those begun.
pub record Pool (A : Type 0) : Type 0 where
  pub queue : ThreadSafeQueue (Task A)
  pub threads : List (Thread A)
  pub phase : Phase
  pub pushed : List A
  pub started : List A

module _ {A : Type 0} where
  -- The constructor.
  unfoldable pub thread_pool : ℕ → Pool A
  thread_pool n_threads = record {
    queue = record { queue = [] };
    threads = replicate n_threads waiting;
    phase = alive;
    pushed = [];
    started = [];
  }

  unfoldable pub begun : Task A → List A → List A
  begun (execute a) started = started ++ a ∷ []
  begun stop started = started

  -- Thread `i` takes `task` off the queue.
  unfoldable pub take_task : Pool A → ℕ → Task A → ThreadSafeQueue (Task A) → Pool A
  unfolding dispatch begun
  take_task p i task rest = record p {
    queue = rest;
    threads = set p.threads i (dispatch task);
    started = begun task p.started;
  }

  -- `push` of any task.
  unfoldable pub push_task : Pool A → Task A → Pool A
  unfolding push begun
  push_task p task = record p { queue = push task p.queue; pushed = begun task p.pushed }

  unfoldable pub push_stop : Pool A → ℕ → Pool A
  unfolding push
  push_stop p i = record p { queue = push stop p.queue; phase = joining i }

pub data Step {A : Type 0} (p : Pool A) : Pool A → Type 0 where
  push_step : (task : Task A) → p.phase ≡ alive → Step p (push_task p task)
  pop_step :
      (i : ℕ) (task : Task A) (rest : ThreadSafeQueue (Task A))
      → get_elem? p.threads i ≡ some waiting
      → pop p.queue ≡ some (task, rest)
      → Step p (take_task p i task rest)
  finish_step :
      (i : ℕ) (a : A)
      → get_elem? p.threads i ≡ some (running a)
      → Step p (record p { threads = set p.threads i waiting })
  destroy_step : p.phase ≡ alive → Step p (record p { phase = stopping 0 })
  stop_step : (i : ℕ) → p.phase ≡ stopping i → i < length p.threads → Step p (push_stop p i)
  join_step :
      (i : ℕ)
      → p.phase ≡ joining i
      → get_elem? p.threads i ≡ some returned
      → Step p (record p { phase = stopping (suc i) })
  end_step : p.phase ≡ stopping (length p.threads) → Step p (record p { phase = destroyed })

pub data Reach {A : Type 0} (n_threads : ℕ) : Pool A → Type 0 where
  here : Reach n_threads (thread_pool n_threads)
  next : {p q : Pool A} → Reach n_threads p → Step p q → Reach n_threads q
