-- ===== src/Logger/Invariant.antt =====
-- What holds of a logger at any time.
use asabru_commons.Base.{
  ◌≡◌, ◌≢◌, refl, ap, sym, ◌∙◌, subst, true, false, List, [], ◌∷◌, ◌++◌, Bytes, append_assoc,
  append-nil, if◌then◌else◌, ok, >>=-eq-ok, arith, Bool-cases, inl, inr,
}
use asabru_commons.Logger.Queue.{empty-nil}
use asabru_commons.Logger.Writer.{System, ContentWriter, writer_empty}
use asabru_commons.Logger.Strategy.{
  StrategyClass, LogStrategy, Call, item_of, log, strategy_flush, strategy_empty,
}
use asabru_commons.Logger.Written.{
  waiting_entries, items_of, items_of-append, write_all, write_all-append, IsKept, HasMoved,
  log-HasMoved, strategy_flush-HasMoved,
}
use asabru_commons.Logger.Worker.{
  LogThread, no_thread, ready, about_to_wait, waiting, returned, State, notified, log_call, round,
  Step, log_step, round_step, wait_step, Reach, here, next,
}

-- The thread has found nothing to do.
abbrev pub IsIdle : LogThread → Type 0
IsIdle about_to_wait = Unit
IsIdle waiting = Unit
IsIdle no_thread = ⊥
IsIdle ready = ⊥
IsIdle returned = ⊥

notified-not-IsIdle : (t : LogThread) → t ≢ about_to_wait → ¬ IsIdle (notified t)
unfolding notified
notified-not-IsIdle waiting n i = i
notified-not-IsIdle no_thread n i = i
notified-not-IsIdle ready n i = i
notified-not-IsIdle about_to_wait n i = n refl
notified-not-IsIdle returned n i = i

strategy_empty-nil : (s : LogStrategy) → strategy_empty s ≡ true → waiting_entries s ≡ []
unfolding strategy_empty writer_empty
strategy_empty-nil s e = empty-nil s.wt.log_queue e

module _ {W : Type 0} (system : System W) (today : Bytes) (k : StrategyClass) (cw : ContentWriter)
    (w0 : W) where
  -- The medium got the first entries of the calls in their order, and the rest waits.
  abbrev pub Holds : LogStrategy → W → List Call → Type 0
  Holds lf w calls =
      (lf.class_of ≡ k)
      × (lf.wt.content_writer ≡ cw)
      × IsKept system today k lf
      × ((taken : List Bytes) × (items_of k calls ≡ ok (taken ++ waiting_entries lf))
          × (write_all system cw taken w0 ≡ ok w))

  Holds-HasMoved :
      (lf lf' : LogStrategy) (w w' : W) (calls calls' : List Call) (items : List Bytes)
      → Holds lf w calls
      → ((xs : List Bytes) → items_of k calls ≡ ok xs → items_of k calls' ≡ ok (xs ++ items))
      → HasMoved system today k items lf w lf' w'
      → Holds lf' w' calls'
  Holds-HasMoved lf lf' w w' calls calls' items (c, v, kept, (taken, read, written)) more
        (c', v', kept', (now, moved, wrote)) =
      (c' ∙ c, v' ∙ v, kept', (taken ++ now, reads, writes))
    where
      reads : items_of k calls' ≡ ok ((taken ++ now) ++ waiting_entries lf')
      reads = more (taken ++ waiting_entries lf) read ∙ ap ok regroup
        where
          regroup : (taken ++ waiting_entries lf) ++ items ≡ (taken ++ now) ++ waiting_entries lf'
          regroup =
              append_assoc taken (waiting_entries lf) items
              ∙ ap (◌++◌ taken) moved
              ∙ sym (append_assoc taken now (waiting_entries lf'))

      writes : write_all system cw (taken ++ now) w0 ≡ ok w'
      writes = rw (write_all-append system cw taken now w0, written, ← v) wrote

  -- What holds of a logger at any time.
  pub record IsLogged (s : State W) : Type 0 where
    pub holds : Holds s.logger.lf s.world s.logged
    pub idle : IsIdle s.logger.log_thread → waiting_entries s.logger.lf ≡ []

  log_call-IsLogged :
      {s t : State W} (call : Call)
      → s.logger.log_thread ≢ about_to_wait
      → IsLogged s
      → log_call system today call s ≡ ok t
      → IsLogged t
  unfolding log_call
  log_call-IsLogged {s} {t} call free h e =
      let (r, done, built) = >>=-eq-ok (log system today call s.logger.lf s.world) _ e in
      let (item, read, moved) =
        log-HasMoved system today call s.logger.lf s.world
          (subst (λ c. IsKept system today c s.logger.lf) (sym h.holds.0) h.holds.2) done in
      let same : record s {
        logger = record s.logger { lf = r.0; log_thread = notified s.logger.log_thread };
        world = r.1;
        logged = s.logged ++ call ∷ [];
      }
          ≡ t =
        cc in
      subst IsLogged same (record {
        holds =
            Holds-HasMoved s.logger.lf r.0 s.world r.1 s.logged (s.logged ++ call ∷ []) (item ∷ [])
              h.holds
              (λ xs q.
                items_of-append k s.logged call q
                  (subst (λ c. item_of c call ≡ ok item) h.holds.0 read))
              (subst (λ c. HasMoved system today c (item ∷ []) s.logger.lf s.world r.0 r.1)
                h.holds.0 moved);
        idle = λ i. absurd (notified-not-IsIdle s.logger.log_thread free i);
      })

  idle_round :
      (s t : State W)
      → IsLogged s
      → strategy_empty s.logger.lf ≡ true
      → s.logger.log_thread ≡ ready
      → round system today s ≡ ok t
      → IsLogged t
  unfolding round
  idle_round s t h idle locked e =
      let next : LogThread = if s.logger.stop_thread then returned else about_to_wait in
      let same : record s { logger = record s.logger { log_thread = next } } ≡ t = ground arith in
      subst IsLogged same
        (record { holds = h.holds; idle = λ i. strategy_empty-nil s.logger.lf idle })

  busy_round :
      (s t : State W)
      → IsLogged s
      → strategy_empty s.logger.lf ≡ false
      → s.logger.log_thread ≡ ready
      → round system today s ≡ ok t
      → IsLogged t
  unfolding round
  busy_round s t h busy locked e =
      let (r, flushed, built) =
        >>=-eq-ok (strategy_flush system s.logger.lf s.world) _ (rw busy at e) in
      let (moved, emptied) =
        strategy_flush-HasMoved system today k s.logger.lf s.world h.holds.2 flushed in
      let same : record s { logger = record s.logger { lf = r.0 }; world = r.1 } ≡ t = cc in
      subst IsLogged same (record {
        holds =
            Holds-HasMoved s.logger.lf r.0 s.world r.1 s.logged s.logged [] h.holds
              (λ xs q. q ∙ ap ok (sym (append-nil xs))) moved;
        idle = λ i. absurd (rw locked at i);
      })

  round-IsLogged :
      {s t : State W}
      → s.logger.log_thread ≡ ready
      → IsLogged s
      → round system today s ≡ ok t
      → IsLogged t
  unfolding round
  round-IsLogged {s} {t} locked h e = elim (Bool-cases (strategy_empty s.logger.lf)) [
    | inl idle ↦ idle_round s t h idle locked e
    | inr busy ↦ busy_round s t h busy locked e
  ]

  Step-IsLogged : {s t : State W} → Step system today s t → IsLogged s → IsLogged t
  Step-IsLogged (log_step call free e) h = log_call-IsLogged call free h e
  Step-IsLogged (round_step locked e) h = round-IsLogged locked h e
  Step-IsLogged (wait_step s idle) h = record { holds = h.holds; idle = λ i. h.idle (rw idle tt) }

  pub Reach-IsLogged : {s t : State W} → IsLogged s → Reach system today s t → IsLogged t
  Reach-IsLogged h here = h
  Reach-IsLogged h (next r step) = Step-IsLogged step (Reach-IsLogged h r)
