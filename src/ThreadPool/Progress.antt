-- ===== src/ThreadPool/Progress.antt =====
-- Whether the destructor can go on, with one thread and with more.
use asabru_commons.Base.{
  ℕ, zero, suc, ◌+◌, ◌<◌, ◌≤◌, ◌≡◌, ◌≢◌, refl, ◌⊎◌, inl, inr, some, List, [], ◌∷◌, length,
  get_elem?, replicate, arith,
}
use asabru_commons.ThreadSafeQueue.{push, pop, pop_of-cons}
use asabru_commons.ThreadPool.{
  Task, stop, Thread, waiting, running, returned, Phase, alive, stopping, joining, destroyed, Pool,
  thread_pool, take_task, push_stop, Step, push_step, pop_step, finish_step, destroy_step,
  stop_step, join_step, end_step, Reach, here, next,
}
use asabru_commons.ThreadPool.Shutdown.Count.{stops, returns}
use asabru_commons.ThreadPool.Shutdown.Counted.{IsCounted, Reach-IsCounted}

abbrev pub CanStep : {A : Type 0} → Pool A → Type 0
CanStep {A} p = (q : Pool A) × Step p q

module _ {A : Type 0} where
  -- The destructor waits for thread 0 while thread 1 took the only stop task.
  abbrev pub stuck : ℕ → Pool A
  stuck m = record {
    queue = record { queue = [] };
    threads = waiting ∷ returned ∷ replicate m waiting;
    phase = joining 0;
    pushed = [];
    started = [];
  }

  not-running : (m i : ℕ) (a : A) → get_elem? (replicate m waiting) i ≢ some (running a)
  not-running zero i a e = cc
  not-running (suc m) zero a e = cc
  not-running (suc m) (suc i) a e = not-running m i a e

  stuck-not-CanStep : (m : ℕ) → ¬ CanStep (stuck m)
  unfolding pop
  stuck-not-CanStep m (q, push_step a e) = cc
  stuck-not-CanStep m (q, pop_step i task rest w e) = cc
  stuck-not-CanStep m (q, finish_step zero a e) = cc
  stuck-not-CanStep m (q, finish_step (suc zero) a e) = cc
  stuck-not-CanStep m (q, finish_step (suc (suc i)) a e) = not-running m i a e
  stuck-not-CanStep m (q, destroy_step e) = cc
  stuck-not-CanStep m (q, stop_step i e lt) = cc
  stuck-not-CanStep m (q, join_step zero e r) = cc
  stuck-not-CanStep m (q, join_step (suc i) e r) = cc
  stuck-not-CanStep m (q, end_step e) = cc

  Reach-stuck : (m : ℕ) → Reach (suc (suc m)) (stuck m)
  unfolding thread_pool push_stop take_task push pop
  Reach-stuck m =
      next (next (next here (destroy_step refl)) (stop_step 0 refl (omega arith)))
        (pop_step 1 stop (record { queue = [] }) refl refl)

  -- With two threads or more the destructor can block for ever: a state is reachable in which it
  -- joins a thread that waits for a task, and no step is possible.
  pub destructor_can_block :
      (m : ℕ) → (p : Pool A) × Reach (suc (suc m)) p × (p.phase ≡ joining 0) × ¬ CanStep p
  destructor_can_block m = (stuck m, Reach-stuck m, refl, stuck-not-CanStep m)

  waiting-CanStep :
      (p : Pool A) (i : ℕ) (q : List (Task A))
      → get_elem? p.threads i ≡ some waiting
      → p.queue.queue ≡ q
      → 0 < stops q
      → CanStep p
  waiting-CanStep p i [] w e h = elim h [ ]
  waiting-CanStep p i (task ∷ q) w e h =
      (_, pop_step i task (record { queue = q }) w (pop_of-cons p.queue e))

  joining-CanStep :
      (p : Pool A) (t : Thread A)
      → p.threads ≡ t ∷ []
      → p.phase ≡ joining 0
      → 1 ≤ stops p.queue.queue + returns (t ∷ [])
      → CanStep p
  joining-CanStep p waiting e f b = waiting-CanStep p 0 p.queue.queue (rw e) refl (omega arith)
  joining-CanStep p (running a) e f b = (_, finish_step 0 a (rw e))
  joining-CanStep p returned e f b = (_, join_step 0 f (rw e))

  one_thread : (ts : List (Thread A)) → length ts ≡ 1 → (t : Thread A) × (ts ≡ t ∷ [])
  one_thread [] e = absurd (omega arith)
  one_thread (t ∷ []) e = (t, refl)
  one_thread (t ∷ u ∷ ts) e = absurd (omega arith)

  phase-CanStep :
      (p : Pool A) (f : Phase) → p.phase ≡ f → IsCounted 1 p → (f ≡ destroyed) ⊎ CanStep p
  phase-CanStep p alive e v = inr (_, destroy_step e)
  phase-CanStep p destroyed e v = inl refl
  phase-CanStep p (stopping zero) e v = inr (_, stop_step 0 e (omega (arith, v.size)))
  phase-CanStep p (stopping (suc zero)) e v = inr (_, end_step (rw v.size e))
  phase-CanStep p (stopping (suc (suc i))) e v =
      let high : suc (suc i) ≤ 1 = rw e at v.within in absurd (omega arith)
  phase-CanStep p (joining zero) e v =
      let (t, one) = one_thread p.threads v.size in
      inr (joining-CanStep p t one e (rw (e, one) at v.balance))
  phase-CanStep p (joining (suc i)) e v =
      let high : suc (suc i) ≤ 1 = rw e at v.within in absurd (omega arith)

  -- With one thread it never blocks: every reachable state can step on until the pool is destroyed.
  pub one_thread_progress : {p : Pool A} → Reach 1 p → (p.phase ≡ destroyed) ⊎ CanStep p
  one_thread_progress {p} r = phase-CanStep p p.phase refl (Reach-IsCounted 1 r)
