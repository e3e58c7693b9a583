-- ===== src/Scheduler.antt =====
-- src/scheduler: `SimpleScheduler`. Times are those of the system clock, and a task's function is an
-- opaque value that does not touch the scheduler. Between two rounds other calls may come.
pub mod Once
mod Examples
use asabru_commons.Base.{ℕ, List, [], ◌∷◌, ◌++◌, Bool, true, false, leb, Bytes, if◌then◌else◌}

pub record ITask (A : Type 0) : Type 0 where
  pub name : Bytes
  pub time : ℕ
  pub function : A

pub record SimpleScheduler (A : Type 0) : Type 0 where
  pub tasks : List (ITask A)
  pub running : Bool

module _ {A : Type 0} where
  abbrev pub simple_scheduler : SimpleScheduler A
  simple_scheduler = record { tasks = []; running = true }

  unfoldable pub add_task : SimpleScheduler A → ITask A → SimpleScheduler A
  add_task s task = record s { tasks = s.tasks ++ task ∷ [] }

  unfoldable pub stop : SimpleScheduler A → SimpleScheduler A
  stop s = record s { running = false }

  -- The loop over the tasks: those that it executes, and those that it leaves in the list.
  unfoldable pub check_tasks : ℕ → List (ITask A) → List (ITask A) × List (ITask A)
  check_tasks now [] = ([], [])
  check_tasks now (t ∷ ts) =
      let rest = check_tasks now ts in
      if leb t.time now then (t ∷ rest.0, rest.1) else (rest.0, t ∷ rest.1)

  -- A round of the loop of `start`, if the scheduler still runs.
  unfoldable pub round : ℕ → SimpleScheduler A → List (ITask A) × SimpleScheduler A
  round now s =
      let checked = check_tasks now s.tasks in
      if s.running then (checked.0, record s { tasks = checked.1 }) else ([], s)
