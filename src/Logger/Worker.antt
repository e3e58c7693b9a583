-- ===== src/Logger/Worker.antt =====
-- src/logger/Logger.h: the logger and its thread as steps that interleave. The destructor is private
-- and the instance is never deleted, so no step is the destructor's.
use asabru_commons.Base.{
  ◌≡◌, ◌≢◌, Bool, false, not, List, [], ◌∷◌, ◌++◌, Bytes, if◌then◌else◌, Outcome, ok, ◌>>=◌,
}
use asabru_commons.Strings.{is_empty}
use asabru_commons.Logger.Writer.{System}
use asabru_commons.Logger.Strategy.{
  LogStrategy, Call, create_logger, log, strategy_flush, strategy_empty,
}

-- Where the thread is: there is none, it is about to lock the mutex, it has found nothing to do and
-- holds the mutex until it waits, it waits without the mutex, or its function has returned.
pub data LogThread : Type 0 where
  no_thread ready about_to_wait waiting returned : LogThread

pub record Logger : Type 0 where
  pub log_thread : LogThread
  pub stop_thread : Bool
  pub lf : LogStrategy

-- A logger, what the system did, and the calls of `Log` that returned.
pub record State (W : Type 0) : Type 0 where
  pub logger : Logger
  pub world : W
  pub logged : List Call

unfoldable pub new_logger : Bytes → Bytes → Logger
new_logger today logger_type = record {
  log_thread = if not (is_empty logger_type) then ready else no_thread;
  stop_thread = false;
  lf = create_logger today logger_type;
}

-- `notify_one`.
unfoldable pub notified : LogThread → LogThread
notified waiting = ready
notified no_thread = no_thread
notified ready = ready
notified about_to_wait = about_to_wait
notified returned = returned

module _ {W : Type 0} (system : System W) (today : Bytes) where
  -- `Log`: the entry is logged under the mutex, then the thread is notified.
  unfoldable pub log_call : Call → State W → Outcome (State W)
  log_call call s = log system today call s.logger.lf s.world >>= λ r. ok (record s {
    logger = record s.logger { lf = r.0; log_thread = notified s.logger.log_thread };
    world = r.1;
    logged = s.logged ++ call ∷ [];
  })

  -- What the thread does with the mutex, up to its release or to the wait.
  unfoldable pub round : State W → Outcome (State W)
  round s =
      if strategy_empty s.logger.lf
      then (let next = if s.logger.stop_thread then returned else about_to_wait in
          ok (record s { logger = record s.logger { log_thread = next } }))
      else (strategy_flush system s.logger.lf s.world >>= λ r.
          ok (record s { logger = record s.logger { lf = r.0 }; world = r.1 }))

  -- A step of the thread or of a caller of `Log`. A wait ends by a notification only.
  pub data Step : State W → State W → Type 0 where
    log_step :
        {s t : State W} (call : Call)
        → s.logger.log_thread ≢ about_to_wait
        → log_call call s ≡ ok t
        → Step s t
    round_step : {s t : State W} → s.logger.log_thread ≡ ready → round s ≡ ok t → Step s t
    wait_step :
        (s : State W)
        → s.logger.log_thread ≡ about_to_wait
        → Step s (record s { logger = record s.logger { log_thread = waiting } })

  pub data Reach (s : State W) : State W → Type 0 where
    here : Reach s s
    next : {t u : State W} → Reach s t → Step t u → Reach s u
