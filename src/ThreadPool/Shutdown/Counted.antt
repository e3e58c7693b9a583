-- ===== src/ThreadPool/Shutdown/Counted.antt =====
-- The stop tasks of the destructor, whoever else pushed stop tasks: each is in the queue, or a thread
-- has returned.
use asabru_commons.Base.{
  ℕ, ◌+◌, ◌<◌, ◌≤◌, ◌≡◌, some, [], ◌∷◌, length, length-set, length-replicate, get_elem?, ap, ◌∙◌,
  arith,
}
use asabru_commons.ThreadSafeQueue.{ThreadSafeQueue, push, pop-cons}
use asabru_commons.ThreadPool.{
  Task, stop, waiting, running, dispatch, stopping, Pool, thread_pool, take_task, push_task,
  push_stop, Step, push_step, pop_step, finish_step, destroy_step, stop_step, join_step, end_step,
  Reach, here, next,
}
use asabru_commons.ThreadPool.Shutdown.Count.{
  stops, returns, returns-set_waiting, returns-set-dispatch, stops-append,
}
use asabru_commons.ThreadPool.Shutdown.{issued}

pub record IsCounted {A : Type 0} (n : ℕ) (p : Pool A) : Type 0 where
  pub size : length p.threads ≡ n
  pub balance : issued n p.phase ≤ stops p.queue.queue + returns p.threads
  pub within : issued n p.phase ≤ n

module _ {A : Type 0} where
  push_task-IsCounted :
      (n : ℕ) (p : Pool A) (task : Task A) → IsCounted n p → IsCounted n (push_task p task)
  unfolding push_task push
  push_task-IsCounted n p task v = record {
    size = v.size;
    balance = omega (arith, stops-append p.queue.queue (task ∷ []), v.balance);
    within = v.within;
  }

  push_stop-IsCounted :
      (n : ℕ) (p : Pool A) (i : ℕ)
      → p.phase ≡ stopping i
      → i < length p.threads
      → IsCounted n p
      → IsCounted n (push_stop p i)
  unfolding push_stop push
  push_stop-IsCounted n p i e lt v =
      let b : i ≤ stops p.queue.queue + returns p.threads = rw e at v.balance in
      record {
        size = v.size;
        balance = omega (arith, stops-append p.queue.queue (stop ∷ []));
        within = omega (arith, v.size);
      }

  take_task-IsCounted :
      (n : ℕ) (p : Pool A) (i : ℕ) (task : Task A) (rest : ThreadSafeQueue (Task A))
      → get_elem? p.threads i ≡ some waiting
      → p.queue.queue ≡ task ∷ rest.queue
      → IsCounted n p
      → IsCounted n (take_task p i task rest)
  unfolding take_task
  take_task-IsCounted n p i task rest w e v =
      let count = returns-set-dispatch p.threads i task w in
      record {
        size = length-set p.threads i (dispatch task) ∙ v.size;
        balance = omega (arith, ap stops e, stops-append (task ∷ []) rest.queue, v.balance);
        within = v.within;
      }

  Step-IsCounted : (n : ℕ) {p q : Pool A} → Step p q → IsCounted n p → IsCounted n q
  Step-IsCounted n {p} (push_step task e) v = push_task-IsCounted n p task v
  Step-IsCounted n {p} (pop_step i task rest w e) v =
      take_task-IsCounted n p i task rest w (pop-cons p.queue e) v
  Step-IsCounted n {p} (finish_step i a e) v =
      let count = returns-set_waiting p.threads i (running a) (λ f. cc) e in
      record {
        size = length-set p.threads i waiting ∙ v.size;
        balance = omega (arith, count, v.balance);
        within = v.within;
      }
  Step-IsCounted n {p} (destroy_step e) v = record {
    size = v.size;
    balance = omega arith;
    within = omega arith;
  }
  Step-IsCounted n {p} (stop_step i e lt) v = push_stop-IsCounted n p i e lt v
  Step-IsCounted n {p} (join_step i e r) v = record {
    size = v.size;
    balance = rw e at v.balance;
    within = rw e at v.within;
  }
  Step-IsCounted n {p} (end_step e) v = record {
    size = v.size;
    balance = rw (← v.size) (rw e at v.balance);
    within = omega arith;
  }

  pub Reach-IsCounted : (n : ℕ) {p : Pool A} → Reach n p → IsCounted n p
  unfolding thread_pool
  Reach-IsCounted n here = record {
    size = length-replicate n waiting;
    balance = omega arith;
    within = omega arith;
  }
  Reach-IsCounted n (next r s) = Step-IsCounted n s (Reach-IsCounted n r)
