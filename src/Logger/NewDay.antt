-- ===== src/Logger/NewDay.antt =====
-- The file strategy of src/logger/strategy/FileLogStrategy.h on another day.
use asabru_commons.Base.{
  ◌≡◌, ◌≢◌, refl, sym, subst, false, [], ◌∷◌, ◌++◌, Bytes, codes, str_eq, str_eq_iff, ok, ◌>>=◌,
  arith,
}
use asabru_commons.Logger.Queue.{new_queue, push, pop, size, empty}
use asabru_commons.Logger.Writer.{
  System, file_content_writer, write, write_to_media, file_write_to_media, flush_loop, flush,
}
use asabru_commons.Logger.Strategy.{
  LogStrategy, file_log_strategy, Call, item_of, do_log, do_log_of, turn_of_day,
  init_file_content_writer, write_entry, log, log_file_name, strategy_flush,
}
use asabru_commons.Logger.Written.{waiting_entries}

-- The file of a day.
abbrev pub file_of_day : Bytes → Bytes
file_of_day today = codes "asabru-log-" ++ (today ++ codes ".txt")

-- On the first call of another day the file strategy goes to the file of that day, with the new entry
-- alone in its queue. The next flush writes a line with this entry to the new file and leaves nothing:
-- what waited for the old file is never written.
pub log_new_day :
    {W : Type 0} (system : System W) (today : Bytes) (call : Call) (s : LogStrategy) (w : W)
    → s.class_of ≡ file_log_strategy
    → s.file_name ≢ today
    → (s' : LogStrategy) × (item : Bytes) × (item_of file_log_strategy call ≡ ok item)
      × (log system today call s w ≡ ok (s', w))
      × (s'.file_name ≡ today)
      × (s'.wt.content_writer ≡ file_content_writer (file_of_day today))
      × (waiting_entries s' ≡ item ∷ [])
      × ((s'' : LogStrategy) × (strategy_flush system s' w
            ≡ ok (s'', (system.append_file (file_of_day today) (item ++ codes "\r\n") w).1))
          × (waiting_entries s'' ≡ []))
unfolding strategy_flush flush flush_loop size pop empty write_to_media file_write_to_media
    log_file_name log item_of do_log do_log_of turn_of_day init_file_content_writer write_entry
    write push
log_new_day system today call s w c d = (
  next,
  item,
  refl,
  subst (λ k. (item_of k call >>= λ i. do_log_of system k today i s w) ≡ ok (next, w)) (sym c)
      logged,
  refl,
  refl,
  refl,
  (record next { wt = record next.wt { log_queue = new_queue } }, refl, refl),
)
  where
    item : Bytes
    item = call.app ++ (codes " " ++ (call.key ++ (codes " " ++ call.cause)))

    next : LogStrategy
    next = write_entry item (init_file_content_writer today s)

    other_day : str_eq s.file_name today ≡ false
    other_day = ground (arith, str_eq_iff s.file_name today)

    logged :
        (item_of file_log_strategy call >>= λ i. do_log_of system file_log_strategy today i s w)
        ≡ ok (next, w)
    logged = rw other_day refl
