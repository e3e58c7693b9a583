-- ===== src/ThreadPool/Work.antt =====
-- Pools of src/thread_pool whose callers push no stop tasks of their own.
use asabru_commons.Base.{ℕ}
use asabru_commons.ThreadPool.{
  Task, execute, stop, Pool, Step, push_step, pop_step, finish_step, destroy_step, stop_step,
  join_step, end_step, Reach, here, next,
}

-- A task that is not an order to stop.
abbrev pub IsWork : {A : Type 0} → Task A → Type 0
IsWork (execute a) = Unit
IsWork stop = ⊥

-- Only tasks to execute are pushed by the callers of the pool.
abbrev pub PushesWork : {A : Type 0} {p q : Pool A} → Step p q → Type 0
PushesWork (push_step task e) = IsWork task
PushesWork (pop_step i task rest w e) = Unit
PushesWork (finish_step i a e) = Unit
PushesWork (destroy_step e) = Unit
PushesWork (stop_step i e lt) = Unit
PushesWork (join_step i e r) = Unit
PushesWork (end_step e) = Unit

abbrev pub AllWork : {A : Type 0} {n : ℕ} {p : Pool A} → Reach n p → Type 0
AllWork here = Unit
AllWork (next r s) = AllWork r × PushesWork s
