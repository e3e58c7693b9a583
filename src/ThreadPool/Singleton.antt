-- ===== src/ThreadPool/Singleton.antt =====
-- src/util/ThreadPoolSingleton.h: the one pool of the program, with a thread less than the machine
-- has cores. `std::thread::hardware_concurrency()` is an argument; 0 means that it is not known.
use asabru_commons.Base.{
  ℕ, suc, ◌+◌, ◌-◌, ◌%◌, ◌^◌, ◌<◌, ◌≡◌, refl, [], none, some, get_elem?, arith,
}
use asabru_commons.ThreadPool.{
  Thread, waiting, running, Pool, thread_pool, take_task, push_task, push_stop, Step, push_step,
  pop_step, finish_step, destroy_step, stop_step, join_step, end_step, Reach, here, next, joining,
}
use asabru_commons.ThreadPool.Order.{tasks, Reach-IsOrdered}
use asabru_commons.ThreadPool.Progress.{CanStep, destructor_can_block}

-- `hardware_concurrency() - 1` on `unsigned int`.
unfoldable pub pool_size : ℕ → ℕ
pool_size cores = (cores + 2 ^ 32 - 1) % 2 ^ 32

-- `ThreadPoolSingleton::pool` in the states that it can come to.
abbrev pub ReachSingleton : {A : Type 0} → ℕ → Pool A → Type 0
ReachSingleton cores p = Reach (pool_size cores) p

module _ {A : Type 0} where
  record IsIdle (p : Pool A) : Type 0 where
    none_there : p.threads ≡ []
    none_begun : p.started ≡ []

  no_thread :
      (p : Pool A) (i : ℕ) (t : Thread A) → p.threads ≡ [] → ¬ (get_elem? p.threads i ≡ some t)
  no_thread p i t e h = let k : none ≡ some t = rw e at h in cc

  Step-IsIdle : {p q : Pool A} → Step p q → IsIdle p → IsIdle q
  unfolding push_task push_stop take_task
  Step-IsIdle (push_step task e) v = record { none_there = v.none_there; none_begun = v.none_begun }
  Step-IsIdle {p} (pop_step i task rest w e) v = absurd (no_thread p i waiting v.none_there w)
  Step-IsIdle {p} (finish_step i a w) v = absurd (no_thread p i (running a) v.none_there w)
  Step-IsIdle (destroy_step e) v = record { none_there = v.none_there; none_begun = v.none_begun }
  Step-IsIdle (stop_step i e lt) v = record { none_there = v.none_there; none_begun = v.none_begun }
  Step-IsIdle (join_step i e r) v = record { none_there = v.none_there; none_begun = v.none_begun }
  Step-IsIdle (end_step e) v = record { none_there = v.none_there; none_begun = v.none_begun }

  Reach-IsIdle : {n : ℕ} {p : Pool A} → n ≡ 0 → Reach n p → IsIdle p
  unfolding thread_pool
  Reach-IsIdle e here = record { none_there = rw e refl; none_begun = refl }
  Reach-IsIdle e (next r s) = Step-IsIdle s (Reach-IsIdle e r)

  -- On a machine with one core no task of the pool of the singleton is ever begun: in every state
  -- that it comes to, the queue holds all the tasks that were pushed, also when it is destroyed.
  pub one_core-started :
      {p : Pool A} → ReachSingleton 1 p → (p.started ≡ []) × (tasks p.queue.queue ≡ p.pushed)
  unfolding pool_size
  one_core-started {p} r =
      let idle = Reach-IsIdle refl r in (idle.none_begun, rw idle.none_begun at (Reach-IsOrdered r))

  -- On a machine with three cores or more, fewer than 2^32, the destructor of the pool of the
  -- singleton can come to a state where it joins a thread and nothing can go on.
  pub many_cores_can_block :
      (cores : ℕ)
      → 3 + cores < 2 ^ 32
      → (p : Pool A) × ReachSingleton (3 + cores) p × (p.phase ≡ joining 0) × ¬ CanStep p
  unfolding pool_size
  many_cores_can_block cores h =
      let e : (3 + cores + 2 ^ 32 - 1) % 2 ^ 32 ≡ suc (suc cores) = omega arith in
      rw e (destructor_can_block cores)
