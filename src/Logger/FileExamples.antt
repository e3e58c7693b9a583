-- ===== src/Logger/FileExamples.antt =====
-- A file logger over files that hold what was appended to them.
use asabru_commons.Base.{
  ◌≡◌, refl, true, false, some, none, List, [], ◌∷◌, Bytes, codes, str_eq, ok,
}
use asabru_commons.Base.Int.{pos}
use asabru_commons.Strings.{is_empty}
use asabru_commons.Logger.Queue.{push, pop, size, empty}
use asabru_commons.Logger.Writer.{
  System, write_to_media, file_write_to_media, flush_loop, flush, write, writer_empty,
}
use asabru_commons.Logger.Strategy.{
  file_log_strategy, Call, item_of, create_logger, init_file_content_writer, do_log, do_log_of, log,
  turn_of_day, write_entry, strategy_flush, strategy_empty, log_file_name,
}
use asabru_commons.Logger.Worker.{
  State, about_to_wait, waiting, new_logger, notified, log_call, round, log_step, round_step,
  wait_step, Reach, here, next,
}
use asabru_commons.Logger.Written.{items_of}
use asabru_commons.Logger.Drained.{started}
use asabru_commons.Logger.Database.{Sqlite, sql_access, execute_select, result_rows, result_row}
use asabru_commons.Logger.LogFile.{appended, lines_of, waiting_file}

abbrev Files : Type 0
Files = Bytes → Bytes

abbrev disk : System Files
disk = record {
  console = λ text w. w;
  append_file = λ file_name text w. (true, λ name. appended (str_eq name file_name) (w name) text);
  is_open = false;
  execute_query = λ q w. (false, w);
  send = λ text w. (pos 0, w);
  reconnect = λ w. ok w;
}

abbrev may_day : Bytes
may_day = codes "2024-05-01"

abbrev may_file : Bytes
may_file = codes "asabru-log-2024-05-01.txt"

abbrev no_files : Files
no_files = λ name. []

abbrev greeting : Call
greeting = record { app = codes "main"; key = codes "INFO"; cause = codes "hello" }

abbrev at_first : State Files
at_first = started disk may_day (codes "FILE") no_files

abbrev greeted : State Files
greeted = record at_first {
  logger = record at_first.logger {
    lf = write_entry (codes "main INFO hello") (create_logger may_day (codes "FILE"));
  };
  logged = greeting ∷ [];
}

abbrev flushed : State Files
flushed = record greeted {
  logger = record greeted.logger { lf = create_logger may_day (codes "FILE") };
  world = λ name. appended (str_eq name may_file) [] (codes "main INFO hello\r\n");
}

greeting_logged : log_call disk may_day greeting at_first ≡ ok greeted
unfolding log_call log item_of do_log do_log_of turn_of_day init_file_content_writer write_entry
    write push new_logger is_empty create_logger str_eq notified
greeting_logged = refl

greeting_flushed : round disk may_day greeted ≡ ok flushed
unfolding round strategy_flush strategy_empty flush flush_loop write_to_media file_write_to_media
    pop size empty writer_empty write_entry write push new_logger is_empty create_logger
    init_file_content_writer log_file_name str_eq
greeting_flushed = refl

abbrev over : State Files
over = record flushed { logger = record flushed.logger { log_thread = about_to_wait } }

idle_round : round disk may_day flushed ≡ ok over
unfolding round strategy_empty empty writer_empty new_logger is_empty create_logger
    init_file_content_writer str_eq notified
idle_round = refl

abbrev idle : State Files
idle = record over { logger = record over.logger { log_thread = waiting } }

Reach-idle : Reach disk may_day at_first idle
unfolding new_logger is_empty
Reach-idle =
    next
      (next
        (next (next here (log_step greeting (λ e. cc) greeting_logged))
          (round_step refl greeting_flushed))
        (round_step refl idle_round))
      (wait_step over refl)

waiting_file_example :
    (items : List Bytes) × (items_of file_log_strategy (greeting ∷ []) ≡ ok items)
    × (idle.world may_file ≡ appended (str_eq may_file (log_file_name may_day)) [] (lines_of items))
waiting_file_example =
    waiting_file disk (λ name w. w name) (λ file_name text name w. refl) may_day may_file no_files
      Reach-idle refl

-- A database of two rows, one with a null value.
abbrev two_rows : Sqlite (Unit {0}) (Unit {0})
two_rows = record {
  sqlite_open = λ name w. ((true, some tt), w);
  sqlite_exec = λ h query w. (true, w);
  sqlite_rows = λ h query w. (some ((some (codes "a") ∷ []) ∷ (none ∷ []) ∷ []), w);
}

selected :
    (execute_select two_rows (sql_access two_rows (codes "x.db") tt).0 (codes "SELECT 1") tt).0
    ≡ (codes "a" ∷ []) ∷ ([] ∷ []) ∷ []
unfolding execute_select sql_access result_rows result_row
selected = refl
