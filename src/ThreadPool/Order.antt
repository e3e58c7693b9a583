-- ===== src/ThreadPool/Order.antt =====
-- What the queue holds in every reachable state.
use asabru_commons.Base.{ℕ, ◌≡◌, refl, List, [], ◌∷◌, ◌++◌, arith, append_assoc, append-nil, ◌∙◌}
use asabru_commons.ThreadSafeQueue.{push, pop-cons}
use asabru_commons.ThreadPool.{
  Task, execute, stop, Pool, thread_pool, begun, take_task, push_task, push_stop, Step, push_step,
  pop_step, finish_step, destroy_step, stop_step, join_step, end_step, Reach, here, next,
}

module _ {A : Type 0} where
  -- The tasks of a queue that are to be executed.
  abbrev pub tasks : List (Task A) → List A
  tasks [] = []
  tasks (execute a ∷ q) = a ∷ tasks q
  tasks (stop ∷ q) = tasks q

  tasks-append : (q r : List (Task A)) → tasks (q ++ r) ≡ tasks q ++ tasks r
  tasks-append [] r = refl
  tasks-append (execute a ∷ q) r = ground (arith, tasks-append q r)
  tasks-append (stop ∷ q) r = tasks-append q r

  abbrev pub IsOrdered : Pool A → Type 0
  IsOrdered p = p.started ++ tasks p.queue.queue ≡ p.pushed

  begun-tasks :
      (task : Task A) (started : List A) (q : List (Task A))
      → begun task started ++ tasks q ≡ started ++ tasks (task ∷ q)
  unfolding begun
  begun-tasks (execute a) started q = append_assoc started (a ∷ []) (tasks q)
  begun-tasks stop started q = refl

  Step-IsOrdered : {p q : Pool A} → Step p q → IsOrdered p → IsOrdered q
  unfolding push_task push_stop take_task push begun
  Step-IsOrdered {p} (push_step (execute a) e) h =
      rw (tasks-append p.queue.queue (execute a ∷ []), ← append_assoc, h)
  Step-IsOrdered {p} (push_step stop e) h =
      rw (tasks-append p.queue.queue (stop ∷ []), append-nil) h
  Step-IsOrdered {p} (pop_step i task rest w e) h =
      begun-tasks task p.started rest.queue ∙ (rw (pop-cons p.queue e) at h)
  Step-IsOrdered (finish_step i a e) h = h
  Step-IsOrdered (destroy_step e) h = h
  Step-IsOrdered {p} (stop_step i e lt) h =
      rw (tasks-append p.queue.queue (stop ∷ []), append-nil) h
  Step-IsOrdered (join_step i e r) h = h
  Step-IsOrdered (end_step e) h = h

  -- The tasks begun so far and those still queued are the tasks pushed to be executed, each once and in the order
  -- of the pushes, in every reachable state.
  pub Reach-IsOrdered : {n : ℕ} {p : Pool A} → Reach n p → IsOrdered p
  unfolding thread_pool
  Reach-IsOrdered here = refl
  Reach-IsOrdered (next r s) = Step-IsOrdered s (Reach-IsOrdered r)
