-- ===== src/ThreadPool/Examples.antt =====
-- A pool of one thread that runs a task and is destroyed.
use asabru_commons.Base.{ℕ, ◌≡◌, refl, [], ◌∷◌, arith, ◌⊎◌}
use asabru_commons.ThreadSafeQueue.{push, pop}
use asabru_commons.ThreadPool.{
  Pool, thread_pool, begun, push_task, push_stop, take_task, Reach, here, next, push_step, pop_step,
  finish_step, destroy_step, stop_step, end_step, execute, stop, waiting, returned, joining,
  destroyed,
}
use asabru_commons.ThreadPool.Order.{IsOrdered, Reach-IsOrdered}
use asabru_commons.ThreadPool.Order.{tasks}
use asabru_commons.ThreadPool.Progress.{CanStep, destructor_can_block, one_thread_progress}
use asabru_commons.ThreadPool.Singleton.{
  pool_size, ReachSingleton, one_core-started, many_cores_can_block,
}

abbrev half_way : Pool ℕ
half_way = record {
  queue = record { queue = stop ∷ [] };
  threads = waiting ∷ [];
  phase = joining 0;
  pushed = 7 ∷ [];
  started = 7 ∷ [];
}

abbrev ended : Pool ℕ
ended = record {
  queue = record { queue = [] };
  threads = returned ∷ [];
  phase = destroyed;
  pushed = 7 ∷ [];
  started = 7 ∷ [];
}

Reach-half_way : Reach 1 half_way
unfolding thread_pool push_task push_stop take_task push pop begun
Reach-half_way =
    next
      (next
        (next (next (next here (push_step (execute 7) refl)) (destroy_step refl))
          (pop_step 0 (execute 7) (record { queue = [] }) refl refl))
        (finish_step 0 7 refl))
      (stop_step 0 refl (omega arith))

Reach-IsOrdered_example : IsOrdered half_way
Reach-IsOrdered_example = Reach-IsOrdered Reach-half_way

destructor_can_block_example : (p : Pool ℕ) × Reach 2 p × (p.phase ≡ joining 0) × ¬ CanStep p
destructor_can_block_example = destructor_can_block 0

one_thread_progress_example : (half_way.phase ≡ destroyed) ⊎ CanStep half_way
one_thread_progress_example = one_thread_progress Reach-half_way

-- On one core a task is pushed and the pool destroyed.
abbrev lost : Pool ℕ
lost = record {
  queue = record { queue = execute 7 ∷ [] };
  threads = [];
  phase = destroyed;
  pushed = 7 ∷ [];
  started = [];
}

Reach-lost : ReachSingleton 1 lost
unfolding pool_size thread_pool push_task push begun
Reach-lost =
    next (next (next here (push_step (execute 7) refl)) (destroy_step refl)) (end_step refl)

one_core-started_example : (lost.started ≡ []) × (tasks lost.queue.queue ≡ 7 ∷ [])
one_core-started_example = one_core-started Reach-lost

many_cores_can_block_example :
    (p : Pool ℕ) × ReachSingleton 8 p × (p.phase ≡ joining 0) × ¬ CanStep p
many_cores_can_block_example = many_cores_can_block 5 (omega arith)

unknown_cores : pool_size 0 ≡ 4294967295
unfolding pool_size
unknown_cores = refl
