-- ===== src/Logger/Examples.antt =====
-- Loggers over a system that records what it is given.
use asabru_commons.Base.{
  ◌≡◌, ◌≢◌, refl, true, false, List, [], ◌∷◌, ◌++◌, Bytes, codes, length, some, none, str_eq,
  str_eq_iff, ok, arith,
}
use asabru_commons.Base.Int.{pos}
use asabru_commons.Strings.{is_empty}
use asabru_commons.Logger.Queue.{push, pop, size, empty}
use asabru_commons.Logger.Writer.{
  insert_query, System, file_content_writer, write_to_media, flush_loop, flush, write, writer_empty,
}
use asabru_commons.Logger.Strategy.{
  LogStrategy, file_log_strategy, Call, item_of, net_item, create_logger, do_log, do_log_of, log,
  write_entry, strategy_flush, strategy_empty, log_file_name,
}
use asabru_commons.Logger.Worker.{
  State, new_logger, notified, log_call, round, log_step, round_step, Reach, here, next,
}
use asabru_commons.Logger.Written.{waiting_entries, items_of, write_all}
use asabru_commons.Logger.Drained.{started, class_started, writer_started, Reach-Holds}
use asabru_commons.Logger.Query.{read_literal, insert_query-read_literal}
use asabru_commons.Logger.Items.{read_string, net_item-read_string}
use asabru_commons.Logger.NewDay.{file_of_day, log_new_day}

abbrev recording : System (List Bytes)
recording = record {
  console = λ c w. w ++ c ∷ [];
  append_file = λ name c w. (true, w ++ name ∷ c ∷ []);
  is_open = true;
  execute_query = λ q w. (true, w ++ q ∷ []);
  send = λ c w. (pos (length c), w ++ c ∷ []);
  reconnect = λ w. ok w;
}

abbrev today : Bytes
today = codes "2024-05-01"

abbrev db : Bytes
db = codes "DB"

abbrev hello : Call
hello = record { app = codes "main"; key = codes "INFO"; cause = codes "hello" }

abbrev initial : State (List Bytes)
initial = started recording today db []

abbrev hello_logged : State (List Bytes)
hello_logged = record initial {
  logger = record initial.logger {
    lf = write_entry (codes "main INFO hello") (create_logger today db);
  };
  logged = hello ∷ [];
}

abbrev hello_written : State (List Bytes)
hello_written = record hello_logged {
  logger = record hello_logged.logger { lf = create_logger today db };
  world = codes "INSERT INTO logs VALUES('main INFO hello');" ∷ [];
}

logging : log_call recording today hello initial ≡ ok hello_logged
unfolding log_call log item_of do_log do_log_of write_entry write push new_logger is_empty
    create_logger str_eq notified
logging = refl

flushing : round recording today hello_logged ≡ ok hello_written
unfolding round strategy_flush strategy_empty flush flush_loop write_to_media pop size empty
    writer_empty write_entry write push new_logger is_empty create_logger str_eq
flushing = refl

Reach-written : Reach recording today initial hello_written
unfolding new_logger is_empty
Reach-written = next (next here (log_step hello (λ e. cc) logging)) (round_step refl flushing)

Reach-Holds_example :
    (written : List Bytes) × (items_of (class_started recording today db []) (hello ∷ [])
      ≡ ok (written ++ waiting_entries (create_logger today db)))
    × (write_all recording (writer_started recording today db []) written []
        ≡ ok (codes "INSERT INTO logs VALUES('main INFO hello');" ∷ []))
Reach-Holds_example = Reach-Holds recording today db [] Reach-written

net_item-read_string_example :
    ((text : Bytes) × (net_item (codes "7") (codes "QUERY") (codes "select \"a\"")
        ≡ ok (codes "{\"type\": \"query\",\"query\":\"" ++ text))
      × (read_string text
          ≡ some (
            codes "select \"a\"",
            codes ",\"correlation_id\":\"" ++ (codes "7" ++ codes "\"}\n"),
          )))
    × ((text : Bytes) × (net_item (codes "7") (codes "QUERY") (codes "select \"a\"\nfrom b")
          ≡ ok (codes "{\"type\": \"query\",\"query\":\"" ++ text))
        × (read_string text ≡ none))
net_item-read_string_example =
    net_item-read_string (codes "7") (codes "select \"a\"") (codes "from b") b'\n' (ground arith)
      refl

-- An entry that waits for the file of the day before.
abbrev late : LogStrategy
late = write_entry (codes "late") (record {
  class_of = file_log_strategy;
  file_name = codes "2024-04-30";
  wt = record {
    content_writer = file_content_writer (log_file_name (codes "2024-04-30"));
    log_queue = record { queue = [] };
  };
})

yesterday : codes "2024-04-30" ≢ today
unfolding str_eq
yesterday e = let h : false ≡ true = (str_eq_iff (codes "2024-04-30") today).1 e in cc

log_new_day_example :
    (s' : LogStrategy) × (item : Bytes) × (item_of file_log_strategy hello ≡ ok item)
    × (log recording today hello late [] ≡ ok (s', []))
    × (s'.file_name ≡ today)
    × (s'.wt.content_writer ≡ file_content_writer (file_of_day today))
    × (waiting_entries s' ≡ item ∷ [])
    × ((s'' : LogStrategy) × (strategy_flush recording s' []
          ≡ ok (s'', (recording.append_file (file_of_day today) (item ++ codes "\r\n") []).1))
        × (waiting_entries s'' ≡ []))
unfolding write_entry
log_new_day_example = log_new_day recording today hello late [] refl yesterday

insert_query-read_literal_example :
    ((text : Bytes) × (insert_query (codes "it") ≡ codes "INSERT INTO logs VALUES('" ++ text)
      × (read_literal text ≡ some (codes "it", codes ");")))
    × ((text : Bytes) × (insert_query (codes "it's on") ≡ codes "INSERT INTO logs VALUES('" ++ text)
        × (read_literal text ≡ some (codes "it", codes "s on');")))
insert_query-read_literal_example =
    insert_query-read_literal (codes "it") (codes " on") b's' (omega arith) (λ e. omega arith)
