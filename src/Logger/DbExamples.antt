-- ===== src/Logger/DbExamples.antt =====
-- A database logger over an SQLite that keeps the statements.
use asabru_commons.Base.{◌≡◌, refl, true, some, none, List, [], ◌∷◌, map, Bytes, codes, str_eq, ok}
use asabru_commons.Strings.{is_empty, cut}
use asabru_commons.Strings.Memory.{c_part}
use asabru_commons.Logger.Queue.{push, pop, size, empty}
use asabru_commons.Logger.Writer.{
  write_to_media, db_write_to_media, insert_query, flush_loop, flush, write, writer_empty,
}
use asabru_commons.Logger.Strategy.{
  db_log_strategy, Call, item_of, create_logger, new_db_log_strategy, do_log, do_log_of, log,
  write_entry, strategy_flush, strategy_empty,
}
use asabru_commons.Logger.Worker.{
  State, about_to_wait, waiting, new_logger, notified, log_call, round, log_step, round_step,
  wait_step, Reach, here, next,
}
use asabru_commons.Logger.Written.{items_of}
use asabru_commons.Logger.Drained.{started}
use asabru_commons.Logger.Database.{Sqlite, SqlAccess, is_open, execute_query}
use asabru_commons.Logger.OverSqlite.{traced, over_sqlite, statement, waiting_passed}

abbrev recording : Sqlite (Unit {0}) (Unit {0})
recording = record {
  sqlite_open = λ name w. ((true, some tt), w);
  sqlite_exec = λ h query w. (true, w);
  sqlite_rows = λ h query w. (none, w);
}

abbrev access : SqlAccess (Unit {0})
access = record { database_name = codes "./Logstorage.db"; database = some tt }

abbrev on_day : Bytes
on_day = codes "2024-05-01"

abbrev hello : Call
hello = record { app = codes "main"; key = codes "INFO"; cause = codes "hello" }

abbrev at_first : State (Unit {0} × List Bytes)
at_first = started (over_sqlite (traced recording) access) on_day (codes "DB") (tt, [])

abbrev logged : State (Unit {0} × List Bytes)
logged = record at_first {
  logger = record at_first.logger {
    lf = write_entry (codes "main INFO hello") (create_logger on_day (codes "DB"));
  };
  logged = hello ∷ [];
}

hello_logged : log_call (over_sqlite (traced recording) access) on_day hello at_first ≡ ok logged
unfolding log_call log item_of do_log do_log_of write_entry write push new_logger is_empty
    create_logger new_db_log_strategy str_eq notified
hello_logged = refl

abbrev flushed : State (Unit {0} × List Bytes)
flushed = record logged {
  logger = record logged.logger { lf = create_logger on_day (codes "DB") };
  world = (tt, codes "INSERT INTO logs VALUES('main INFO hello');" ∷ []);
}

hello_flushed : round (over_sqlite (traced recording) access) on_day logged ≡ ok flushed
unfolding round strategy_flush strategy_empty flush flush_loop write_to_media db_write_to_media
    insert_query is_open execute_query c_part cut pop size empty writer_empty write_entry write push
    new_logger is_empty create_logger new_db_log_strategy str_eq
hello_flushed = refl

abbrev over : State (Unit {0} × List Bytes)
over = record flushed { logger = record flushed.logger { log_thread = about_to_wait } }

idle_round : round (over_sqlite (traced recording) access) on_day flushed ≡ ok over
unfolding round strategy_empty empty writer_empty new_logger is_empty create_logger
    new_db_log_strategy str_eq notified
idle_round = refl

abbrev idle : State (Unit {0} × List Bytes)
idle = record over { logger = record over.logger { log_thread = waiting } }

Reach-idle : Reach (over_sqlite (traced recording) access) on_day at_first idle
unfolding new_logger is_empty
Reach-idle =
    next
      (next
        (next (next here (log_step hello (λ e. cc) hello_logged)) (round_step refl hello_flushed))
        (round_step refl idle_round))
      (wait_step over refl)

waiting_passed_example :
    (items : List Bytes) × (items_of db_log_strategy (hello ∷ []) ≡ ok items)
    × (codes "INSERT INTO logs VALUES('main INFO hello');" ∷ [] ≡ map statement items)
waiting_passed_example = waiting_passed recording on_day access tt tt refl Reach-idle refl
