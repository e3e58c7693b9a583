-- ===== src/Scheduler/Once.antt =====
-- Calls and rounds of a scheduler, and what becomes of its tasks.
use asabru_commons.Base.{
  ℕ, ◌+◌, ◌≡◌, refl, List, [], ◌∷◌, ◌++◌, Bool, true, false, Bool-cases, inl, inr, leb,
  if◌then◌else◌, arith, All,
}
use asabru_commons.Scheduler.{
  ITask, SimpleScheduler, simple_scheduler, add_task, stop, check_tasks, round,
}

pub data Event (A : Type 0) : Type 0 where
  add_event : ITask A → Event A
  stop_event : Event A
  round_event : ℕ → Event A

-- The scheduler, with the tasks added and executed so far.
pub record Run (A : Type 0) : Type 0 where
  pub scheduler : SimpleScheduler A
  pub added : List (ITask A)
  pub executed : List (ITask A)

module _ {A : Type 0} where
  abbrev pub new_run : Run A
  new_run = record { scheduler = simple_scheduler; added = []; executed = [] }

  unfoldable pub event : Event A → Run A → Run A
  event (add_event task) r = record r {
    scheduler = add_task r.scheduler task;
    added = r.added ++ task ∷ [];
  }
  event stop_event r = record r { scheduler = stop r.scheduler }
  event (round_event now) r = record r {
    scheduler = (round now r.scheduler).1;
    executed = r.executed ++ (round now r.scheduler).0;
  }

  unfoldable pub events : List (Event A) → Run A → Run A
  events [] r = r
  events (x ∷ xs) r = events xs (event x r)

  -- How many tasks of a list pass a test.
  abbrev pub count : (ITask A → Bool) → List (ITask A) → ℕ
  count p [] = 0
  count p (t ∷ ts) = (if p t then 1 else 0) + count p ts

  count-append :
      (p : ITask A → Bool) (xs ys : List (ITask A)) → count p (xs ++ ys) ≡ count p xs + count p ys
  count-append p [] ys = omega arith
  count-append p (x ∷ xs) ys = omega (arith, count-append p xs ys)

  count-check_tasks :
      (p : ITask A → Bool) (now : ℕ) (ts : List (ITask A))
      → count p (check_tasks now ts).0 + count p (check_tasks now ts).1 ≡ count p ts
  unfolding check_tasks
  count-check_tasks p now [] = refl
  count-check_tasks p now (t ∷ ts) = let ih = count-check_tasks p now ts in ground arith

  count-round :
      (p : ITask A → Bool) (now : ℕ) (s : SimpleScheduler A)
      → count p (round now s).0 + count p (round now s).1.tasks ≡ count p s.tasks
  unfolding round
  count-round p now s = elim (Bool-cases s.running) [
    | inl on ↦ rw on (count-check_tasks p now s.tasks)
    | inr off ↦ rw off (omega arith)
  ]

  abbrev pub IsBalanced : (ITask A → Bool) → Run A → Type 0
  IsBalanced p r = count p r.executed + count p r.scheduler.tasks ≡ count p r.added

  event-IsBalanced :
      (p : ITask A → Bool) (x : Event A) (r : Run A) → IsBalanced p r → IsBalanced p (event x r)
  unfolding event add_task stop
  event-IsBalanced p (add_event task) r h =
      omega
        (arith, count-append p r.scheduler.tasks (task ∷ []), count-append p r.added (task ∷ []))
  event-IsBalanced p stop_event r h = h
  event-IsBalanced p (round_event now) r h =
      omega
        (arith, count-append p r.executed (round now r.scheduler).0, count-round p now r.scheduler)

  IsBalanced-events :
      (p : ITask A → Bool) (xs : List (Event A)) (r : Run A)
      → IsBalanced p r
      → IsBalanced p (events xs r)
  unfolding events
  IsBalanced-events p [] r h = h
  IsBalanced-events p (x ∷ xs) r h = IsBalanced-events p xs (event x r) (event-IsBalanced p x r h)

  check_tasks-due :
      (now : ℕ) (ts : List (ITask A))
      → All (λ t. leb t.time now ≡ true) (check_tasks now ts).0
        × All (λ t. leb t.time now ≡ false) (check_tasks now ts).1
  unfolding check_tasks
  check_tasks-due now [] = (tt, tt)
  check_tasks-due now (t ∷ ts) = let (ih, jh) = check_tasks-due now ts in ground arith

  -- Whatever tasks are added, rounds made, and calls of `stop` come: by every test of tasks, as many
  -- were executed or are left as were added, so that none is executed twice and none is lost.
  pub events-IsBalanced :
      (p : ITask A → Bool) (xs : List (Event A)) → IsBalanced p (events xs new_run)
  events-IsBalanced p xs = IsBalanced-events p xs new_run refl

  -- A round of a scheduler that runs executes only tasks that are due, and leaves none that is due.
  pub round-due :
      (now : ℕ) (s : SimpleScheduler A)
      → s.running ≡ true
      → All (λ t. leb t.time now ≡ true) (round now s).0
        × All (λ t. leb t.time now ≡ false) (round now s).1.tasks
  unfolding round
  round-due now s on = rw on (check_tasks-due now s.tasks)
