-- ===== src/Logger/Drained.antt =====
-- What a logger writes: the entries logged, in their order, and all of them before its thread waits.
use asabru_commons.Base.{
  ◌≡◌, refl, ap, sym, ◌∙◌, Bool, true, false, List, [], ◌++◌, Bytes, append-nil, if◌then◌else◌, ok,
  codes, str_eq,
}
use asabru_commons.Logger.Writer.{System, ContentWriter}
use asabru_commons.Logger.Strategy.{StrategyClass, LogStrategy, create_logger}
use asabru_commons.Logger.Written.{waiting_entries, items_of, write_all, IsKept}
use asabru_commons.Logger.Worker.{State, waiting, new_logger, Reach}
use asabru_commons.Logger.Invariant.{IsLogged, Reach-IsLogged}

-- What holds of both branches.
if-elim {ℓ κ} :
    {A : Type ℓ} (P : A → Type κ) (b : Bool) {x y : A} → P x → P y → P (if b then x else y)
if-elim P true hx hy = hx
if-elim P false hx hy = hy

module _ {W : Type 0} (system : System W) (today logger_type : Bytes) (w0 : W) where
  -- A new logger, before any call.
  abbrev pub started : State W
  started = record { logger = new_logger today logger_type; world = w0; logged = [] }

  -- Its strategy and its writer.
  abbrev pub class_started : StrategyClass
  class_started = (create_logger today logger_type).class_of

  abbrev pub writer_started : ContentWriter
  writer_started = (create_logger today logger_type).wt.content_writer

  -- Nothing waits at first, and a file is that of the day.
  abbrev pub IsNew : LogStrategy → Type 0
  IsNew s = IsKept system today s.class_of s × (waiting_entries s ≡ [])

  pub created : IsNew (create_logger today logger_type)
  unfolding create_logger
  created =
      if-elim IsNew (str_eq logger_type (codes "DB")) (tt, refl)
        (if-elim IsNew (str_eq logger_type (codes "FILE")) (refl, refl)
          (if-elim IsNew (str_eq logger_type (codes "NET")) (tt, refl) (refl, refl)))

  started-IsLogged : IsLogged system today class_started writer_started w0 started
  unfolding new_logger
  started-IsLogged = record {
    holds = (refl, refl, created.0, ([], ap ok (sym created.1), refl));
    idle = λ i. created.1;
  }

  -- In every state that a logger comes to while the date stays the same, its medium got the first
  -- entries of the calls of `Log`, in their order, and the others wait in the queue.
  pub Reach-Holds :
      {s : State W}
      → Reach system today started s
      → (written : List Bytes) × (items_of class_started s.logged
          ≡ ok (written ++ waiting_entries s.logger.lf))
        × (write_all system writer_started written w0 ≡ ok s.world)
  Reach-Holds r =
      (Reach-IsLogged system today class_started writer_started w0 started-IsLogged r).holds.3

  -- Whenever the thread waits and the date stayed the same, the entries of all calls of `Log` are
  -- written, in their order.
  pub waiting_has_written :
      {s : State W}
      → Reach system today started s
      → s.logger.log_thread ≡ waiting
      → (items : List Bytes) × (items_of class_started s.logged ≡ ok items)
        × (write_all system writer_started items w0 ≡ ok s.world)
  waiting_has_written {s} r w =
      let h = Reach-IsLogged system today class_started writer_started w0 started-IsLogged r in
      let (written, read, wrote) = h.holds.3 in
      let emptied : waiting_entries s.logger.lf ≡ [] = h.idle (rw w tt) in
      (written, read ∙ ap ok (ap (◌++◌ written) emptied ∙ append-nil written), wrote)
