-- ===== src/Logger/Strategy.antt =====
-- src/logger/strategy and src/logger/LoggerFactory.h: what is logged, and to which writer.
use asabru_commons.Base.{
  ℕ, Bool, not, Option, none, some, List, [], ◌∷◌, ◌++◌, Bytes, codes, str_eq, get_elem?, ◌==◌,
  if◌then◌else◌, Outcome, ok, err, undefined_behaviour, ◌>>=◌,
}
use asabru_commons.Utils.{split}
use asabru_commons.Logger.Queue.{new_queue}
use asabru_commons.Logger.Writer.{
  System, ContentWriter, console_content_writer, db_content_writer, network_content_writer,
  file_content_writer, Writer, write_to_media, flush, write, writer_empty,
}

-- The classes of strategies.
pub data StrategyClass : Type 0 where
  db_log_strategy file_log_strategy net_log_strategy null_log_strategy : StrategyClass

-- `file_name` is a field of the file strategy only.
pub record LogStrategy : Type 0 where
  pub class_of : StrategyClass
  pub file_name : Bytes
  pub wt : Writer

pub data LogCode : Type 0 where
  info error query latency : LogCode

unfoldable pub get_log_code : Bytes → LogCode
get_log_code key =
    if str_eq key (codes "QUERY")
    then query
    else if str_eq key (codes "LATENCY")
    then latency
    else if str_eq key (codes "INFO")
    then info
    else error

-- `std::regex_replace(cause, std::regex("\""), "\\\"")`.
unfoldable pub escape_quotes : Bytes → Bytes
escape_quotes [] = []
escape_quotes (c ∷ s) =
    let rest = escape_quotes s in if c == b'"' then b'\\' ∷ c ∷ rest else c ∷ rest

-- `params[i]`; `split` has enough fuel.
abbrev pub param_at : Option (List Bytes) → ℕ → Outcome Bytes
param_at none i = err undefined_behaviour
param_at (some params) i = elim (get_elem? params i) [
  | none ↦ err undefined_behaviour
  | some s ↦ ok s
]

unfoldable pub query_item : Bytes → Bytes → Bytes
query_item app cause =
    codes "{\"type\": \"query\",\"query\":\""
    ++ (cause ++ (codes "\",\"correlation_id\":\"" ++ (app ++ codes "\"}\n")))

unfoldable pub latency_item : Bytes → Bytes → Outcome Bytes
latency_item app cause = do
  let params = split cause (codes ",")
  value ← param_at params 0
  host ← param_at params 1
  ok (
      codes "{\"type\": \"latency\",\"latency\": \""
      ++ (value
          ++ (codes "\",\"correlation_id\":\""
              ++ (app ++ (codes "\",\"host\": \"" ++ (host ++ codes "\"}\n"))))))

unfoldable pub application_item : Bytes → Bytes → Bytes → Bytes
application_item app key cause =
    codes "{\"type\": \"application_log\",\"application_log\": \""
    ++ (app ++ (codes " " ++ (key ++ (codes " " ++ (cause ++ codes "\"}\n")))))

-- The `switch` of the network strategy, on the escaped cause.
unfoldable pub coded_item : LogCode → Bytes → Bytes → Bytes → Outcome Bytes
coded_item query app key cause = ok (query_item app cause)
coded_item latency app key cause = latency_item app cause
coded_item info app key cause = ok (application_item app key cause)
coded_item error app key cause = ok (application_item app key cause)

unfoldable pub net_item : Bytes → Bytes → Bytes → Outcome Bytes
net_item app key cause = coded_item (get_log_code key) app key (escape_quotes cause)

-- The arguments of `Log`.
pub record Call : Type 0 where
  pub app : Bytes
  pub key : Bytes
  pub cause : Bytes

-- What `Log` of the base class passes to `DoLog`.
unfoldable pub plain_item : Bytes → Bytes → Bytes → Bytes
plain_item app key cause = app ++ (codes " " ++ (key ++ (codes " " ++ cause)))

-- The network strategy has a `Log` of its own.
unfoldable pub item_of : StrategyClass → Call → Outcome Bytes
unfolding plain_item
item_of net_log_strategy c = net_item c.app c.key c.cause
item_of db_log_strategy c = ok (plain_item c.app c.key c.cause)
item_of file_log_strategy c = ok (plain_item c.app c.key c.cause)
item_of null_log_strategy c = ok (plain_item c.app c.key c.cause)

new_writer : ContentWriter → Writer
new_writer cw = record { content_writer = cw; log_queue = new_queue }

unfoldable pub log_file_name : Bytes → Bytes
log_file_name date = codes "asabru-log-" ++ (date ++ codes ".txt")

-- A new writer for the file of the day. What waits in the queue of the old one is left behind.
unfoldable pub init_file_content_writer : Bytes → LogStrategy → LogStrategy
unfolding new_writer log_file_name
init_file_content_writer today s = record s {
  file_name = today;
  wt = new_writer (file_content_writer (log_file_name today));
}

-- The constructors of the classes.
unfoldable pub new_db_log_strategy : LogStrategy
unfolding new_writer
new_db_log_strategy = record {
  class_of = db_log_strategy;
  file_name = [];
  wt = new_writer db_content_writer;
}

unfoldable pub new_file_log_strategy : Bytes → LogStrategy
unfolding init_file_content_writer new_writer
new_file_log_strategy today = init_file_content_writer today (record {
  class_of = file_log_strategy;
  file_name = [];
  wt = new_writer (file_content_writer []);
})

unfoldable pub new_net_log_strategy : LogStrategy
unfolding new_writer
new_net_log_strategy = record {
  class_of = net_log_strategy;
  file_name = [];
  wt = new_writer network_content_writer;
}

unfoldable pub new_null_log_strategy : LogStrategy
unfolding new_writer
new_null_log_strategy = record {
  class_of = null_log_strategy;
  file_name = [];
  wt = new_writer console_content_writer;
}

-- The strategy for a type of logger, on a day.
unfoldable pub create_logger : Bytes → Bytes → LogStrategy
unfolding new_db_log_strategy new_file_log_strategy new_net_log_strategy new_null_log_strategy
create_logger today loggertype =
    if str_eq loggertype (codes "DB")
    then new_db_log_strategy
    else if str_eq loggertype (codes "FILE")
    then new_file_log_strategy today
    else if str_eq loggertype (codes "NET")
    then new_net_log_strategy
    else new_null_log_strategy

-- `fileName != getCurrentDate()` of the file strategy.
unfoldable pub turn_of_day : Bytes → LogStrategy → LogStrategy
unfolding init_file_content_writer
turn_of_day today s = if not (str_eq s.file_name today) then init_file_content_writer today s else s

unfoldable pub write_entry : Bytes → LogStrategy → LogStrategy
write_entry item s = record s { wt = write item s.wt }

module _ {W : Type 0} (system : System W) where
  -- `DoLog` of each class.
  unfoldable pub db_do_log : Bytes → LogStrategy → W → Outcome (LogStrategy × W)
  db_do_log item s w = ok (write_entry item s, w)

  unfoldable pub file_do_log : Bytes → Bytes → LogStrategy → W → Outcome (LogStrategy × W)
  file_do_log today item s w = ok (write_entry item (turn_of_day today s), w)

  unfoldable pub net_do_log : Bytes → LogStrategy → W → Outcome (LogStrategy × W)
  net_do_log item s w = ok (write_entry item s, w)

  unfoldable pub null_do_log : Bytes → LogStrategy → W → Outcome (LogStrategy × W)
  null_do_log item s w = write_to_media system s.wt.content_writer item w >>= λ r. ok (s, r.1)

  unfoldable pub do_log_of :
      StrategyClass → Bytes → Bytes → LogStrategy → W → Outcome (LogStrategy × W)
  unfolding db_do_log file_do_log net_do_log null_do_log
  do_log_of db_log_strategy today item s w = db_do_log item s w
  do_log_of file_log_strategy today item s w = file_do_log today item s w
  do_log_of net_log_strategy today item s w = net_do_log item s w
  do_log_of null_log_strategy today item s w = null_do_log item s w

  unfoldable pub do_log : Bytes → Bytes → LogStrategy → W → Outcome (LogStrategy × W)
  do_log today item s w = do_log_of s.class_of today item s w

  unfoldable pub log : Bytes → Call → LogStrategy → W → Outcome (LogStrategy × W)
  log today call s w = item_of s.class_of call >>= λ item. do_log today item s w

  -- `Flush` and `Empty` of a strategy.
  unfoldable pub strategy_flush : LogStrategy → W → Outcome (LogStrategy × W)
  strategy_flush s w = flush system s.wt w >>= λ r. ok (record s { wt = r.0 }, r.1)

unfoldable pub strategy_empty : LogStrategy → Bool
strategy_empty s = writer_empty s.wt
