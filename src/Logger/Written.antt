-- ===== src/Logger/Written.antt =====
-- What `DoLog` and `Flush` pass to the medium, and what they leave in the queue.
use asabru_commons.Base.{
  ◌≡◌, refl, ap, sym, ◌∙◌, subst, List, [], ◌∷◌, ◌++◌, Bytes, length, str_eq_self, Outcome, ok,
  ◌>>=◌, >>=-eq-ok, >>=-ext, >>=-assoc, arith,
}
use asabru_commons.Logger.Queue.{new_queue, push, pop, size, empty}
use asabru_commons.Logger.Writer.{
  System, ContentWriter, Writer, write_to_media, flush_loop, flush, write,
}
use asabru_commons.Logger.Strategy.{
  StrategyClass, db_log_strategy, file_log_strategy, net_log_strategy, null_log_strategy,
  LogStrategy, Call, item_of, do_log_of, do_log, log, strategy_flush, turn_of_day, write_entry,
}

abbrev pub waiting_entries : LogStrategy → List Bytes
waiting_entries s = s.wt.log_queue.queue

-- The entries of calls.
abbrev pub items_of : StrategyClass → List Call → Outcome (List Bytes)
items_of k [] = ok []
items_of k (c ∷ cs) = item_of k c >>= λ item. items_of k cs >>= λ items. ok (item ∷ items)

pub items_of-append :
    (k : StrategyClass) (cs : List Call) (c : Call) {items : List Bytes} {item : Bytes}
    → items_of k cs ≡ ok items
    → item_of k c ≡ ok item
    → items_of k (cs ++ c ∷ []) ≡ ok (items ++ item ∷ [])
items_of-append k [] c {items} {item} h e = rw e (ground arith)
items_of-append k (d ∷ cs) c {items} {item} h e =
    let (i, read, more) = >>=-eq-ok (item_of k d) _ h in
    let (js, read', done) = >>=-eq-ok (items_of k cs) _ more in
    rw (read, items_of-append k cs c read' e) (ground arith)

module _ {W : Type 0} (system : System W) where
  -- The entries written to the medium in their order.
  abbrev pub write_all : ContentWriter → List Bytes → W → Outcome W
  write_all cw [] w = ok w
  write_all cw (c ∷ cs) w = write_to_media system cw c w >>= λ r. write_all cw cs r.1

  pub write_all-append :
      (cw : ContentWriter) (xs ys : List Bytes) (w : W)
      → write_all cw (xs ++ ys) w ≡ (write_all cw xs w >>= write_all cw ys)
  write_all-append cw [] ys w = refl
  write_all-append cw (x ∷ xs) ys w =
      >>=-ext (write_to_media system cw x w) (λ r. write_all-append cw xs ys r.1)
      ∙ sym (>>=-assoc (write_to_media system cw x w) _ _)

  flush_loop-write_all :
      (cw : ContentWriter) (cs : List Bytes) (w : W)
      → flush_loop system cw (length cs) (record { queue = cs }) w
        ≡ (write_all cw cs w >>= λ w'. ok (new_queue, w'))
  unfolding flush_loop pop empty
  flush_loop-write_all cw [] w = refl
  flush_loop-write_all cw (c ∷ cs) w =
      >>=-ext (write_to_media system cw c w) (λ r. flush_loop-write_all cw cs r.1)
      ∙ sym (>>=-assoc (write_to_media system cw c w) _ _)

  module _ (today : Bytes) where
    -- What has to hold of a strategy for the entries to keep their order: the file is that of the day,
    -- and nothing waits for the console.
    abbrev pub IsKept : StrategyClass → LogStrategy → Type 0
    IsKept db_log_strategy s = Unit
    IsKept file_log_strategy s = s.file_name ≡ today
    IsKept net_log_strategy s = Unit
    IsKept null_log_strategy s = waiting_entries s ≡ []

    -- From `s` to `s'` the entries `items` came in, and the first of all went to the medium.
    abbrev pub HasMoved : StrategyClass → List Bytes → LogStrategy → W → LogStrategy → W → Type 0
    HasMoved k items s w s' w' =
        (s'.class_of ≡ s.class_of)
        × (s'.wt.content_writer ≡ s.wt.content_writer)
        × IsKept k s'
        × ((now : List Bytes) × (waiting_entries s ++ items ≡ now ++ waiting_entries s')
            × (write_all s.wt.content_writer now w ≡ ok w'))

    turn_of_day_same : (s : LogStrategy) → s.file_name ≡ today → turn_of_day today s ≡ s
    unfolding turn_of_day
    turn_of_day_same s h = ground (arith, str_eq_self today)

    pub do_log_of-HasMoved :
        (k : StrategyClass) (item : Bytes) (s : LogStrategy) (w : W) {s' : LogStrategy} {w' : W}
        → IsKept k s
        → do_log_of system k today item s w ≡ ok (s', w')
        → HasMoved k (item ∷ []) s w s' w'
    unfolding do_log_of write push write_entry
    do_log_of-HasMoved db_log_strategy item s w {s'} {w'} h e =
        (ground arith, ground arith, tt, ([], ground arith, ground arith))
    do_log_of-HasMoved net_log_strategy item s w {s'} {w'} h e =
        (ground arith, ground arith, tt, ([], ground arith, ground arith))
    do_log_of-HasMoved file_log_strategy item s w {s'} {w'} h e =
        let same = turn_of_day_same s h in
        (
          ground (arith, same),
          ground (arith, same),
          ground (arith, same),
          ([], ground (arith, same), ground arith),
        )
    do_log_of-HasMoved null_log_strategy item s w {s'} {w'} h e =
        let (r, written, done) = >>=-eq-ok (write_to_media system s.wt.content_writer item w) _ e in
        (ground arith, ground arith, ground arith, (item ∷ [], ground arith, ground arith))

    pub log-HasMoved :
        (call : Call) (s : LogStrategy) (w : W) {s' : LogStrategy} {w' : W}
        → IsKept s.class_of s
        → log system today call s w ≡ ok (s', w')
        → (item : Bytes) × (item_of s.class_of call ≡ ok item)
          × HasMoved s.class_of (item ∷ []) s w s' w'
    unfolding log do_log
    log-HasMoved call s w h e =
        let (item, read, done) = >>=-eq-ok (item_of s.class_of call) _ e in
        (item, read, do_log_of-HasMoved s.class_of item s w h done)

    IsKept-wt :
        (k : StrategyClass) (s : LogStrategy) (wt : Writer)
        → IsKept k s
        → wt.log_queue.queue ≡ []
        → IsKept k (record s { wt = wt })
    IsKept-wt db_log_strategy s wt h e = tt
    IsKept-wt file_log_strategy s wt h e = h
    IsKept-wt net_log_strategy s wt h e = tt
    IsKept-wt null_log_strategy s wt h e = e

    -- After a flush nothing waits.
    pub strategy_flush-HasMoved :
        (k : StrategyClass) (s : LogStrategy) (w : W) {s' : LogStrategy} {w' : W}
        → IsKept k s
        → strategy_flush system s w ≡ ok (s', w')
        → HasMoved k [] s w s' w' × (waiting_entries s' ≡ [])
    unfolding strategy_flush flush size
    strategy_flush-HasMoved k s w {s'} {w'} h e =
        let (r, flushed, e1) = >>=-eq-ok (flush system s.wt w) _ e in
        let (q, looped, e2) =
          >>=-eq-ok
            (flush_loop system s.wt.content_writer (length (waiting_entries s)) s.wt.log_queue w) _
            flushed in
        let (v, written, e3) =
          >>=-eq-ok (write_all s.wt.content_writer (waiting_entries s) w) _
            (sym (flush_loop-write_all s.wt.content_writer (waiting_entries s) w) ∙ looped) in
        let wt : Writer = record s.wt { log_queue = new_queue } in
        let same : record s { wt = wt } ≡ s' = ground arith in
        (
          subst (λ t. HasMoved k [] s w t w') same
              (refl, refl, IsKept-wt k s wt h refl, (waiting_entries s, refl, ground arith)),
          ap waiting_entries (sym same),
        )
