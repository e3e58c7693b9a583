-- ===== src/Logger/NetExamples.antt =====
-- A network logger whose connection takes ten bytes of each message.
use asabru_commons.Base.{
  ◌≡◌, refl, true, some, none, List, [], ◌∷◌, ◌++◌, Bytes, codes, str_eq, ok, take, inr,
}
use asabru_commons.Base.Int.{pos}
use asabru_commons.Strings.{is_empty, cut}
use asabru_commons.Strings.Memory.{c_text}
use asabru_commons.ProtocolHelper.Endian.{little_endian}
use asabru_commons.Network.TcpClient.{NetSystem, TcpClient, is_alpha}
use asabru_commons.Logger.Queue.{push, pop, size, empty}
use asabru_commons.Logger.Writer.{
  write_to_media, network_write_to_media, flush_loop, flush, write, writer_empty,
}
use asabru_commons.Logger.Writer
use asabru_commons.Logger.Strategy.{
  net_log_strategy, Call, item_of, net_item, coded_item, get_log_code, application_item,
  escape_quotes, create_logger, new_net_log_strategy, do_log, do_log_of, log, write_entry,
  strategy_flush, strategy_empty,
}
use asabru_commons.Logger.Worker.{
  State, about_to_wait, waiting, new_logger, notified, log_call, round, log_step, round_step,
  wait_step, Reach, here, next,
}
use asabru_commons.Logger.Written.{items_of}
use asabru_commons.Logger.Drained.{started}
use asabru_commons.Logger.OverTcp.{over_tcp, waiting_sent}
use asabru_commons.Network.Connected.{IsConnected, send_all}

abbrev ten_bytes : NetSystem Bytes
ten_bytes = record {
  host_order = little_endian;
  allocates = true;
  inet_pton = λ text. some (127 ∷ 0 ∷ 0 ∷ 1 ∷ []);
  gethostbyname = λ name w. (none, w);
  socket = λ w. (pos 5, w);
  connect = λ s addr port w. (pos 0, w);
  close = λ s w. w;
  send = λ s content w. (pos 10, w ++ take 10 content);
}

abbrev client : TcpClient
client = record {
  server_name = codes "127.0.0.1" ++ 0 ∷ [];
  server_port = pos 80;
  host_pointer = some (record { h_name = none; h_addr = 127 ∷ 0 ∷ 0 ∷ 1 ∷ [] });
  s = pos 5;
}

abbrev today : Bytes
today = codes "2024-05-01"

abbrev hello : Call
hello = record { app = codes "main"; key = codes "INFO"; cause = codes "hello" }

abbrev at_first : State (TcpClient × Bytes)
at_first = started (over_tcp ten_bytes) today (codes "NET") (client, [])

abbrev logged : State (TcpClient × Bytes)
logged = record at_first {
  logger = record at_first.logger {
    lf =
        write_entry (application_item (codes "main") (codes "INFO") (codes "hello"))
          (create_logger today (codes "NET"));
  };
  logged = hello ∷ [];
}

hello_logged : log_call (over_tcp ten_bytes) today hello at_first ≡ ok logged
unfolding log_call log item_of net_item coded_item get_log_code escape_quotes application_item
    do_log do_log_of write_entry write push new_logger is_empty create_logger new_net_log_strategy
    str_eq notified
hello_logged = refl

abbrev flushed : State (TcpClient × Bytes)
flushed = record logged {
  logger = record logged.logger { lf = create_logger today (codes "NET") };
  world = (client, codes "{\"type\": \"");
}

hello_flushed : round (over_tcp ten_bytes) today logged ≡ ok flushed
unfolding round strategy_flush strategy_empty flush flush_loop write_to_media network_write_to_media
    Writer.send_tcp_message pop size empty writer_empty write_entry write push new_logger is_empty
    create_logger new_net_log_strategy application_item str_eq
hello_flushed = refl

abbrev over : State (TcpClient × Bytes)
over = record flushed { logger = record flushed.logger { log_thread = about_to_wait } }

idle_round : round (over_tcp ten_bytes) today flushed ≡ ok over
unfolding round strategy_empty empty writer_empty new_logger is_empty create_logger
    new_net_log_strategy str_eq notified
idle_round = refl

abbrev idle : State (TcpClient × Bytes)
idle = record over { logger = record over.logger { log_thread = waiting } }

Reach-idle : Reach (over_tcp ten_bytes) today at_first idle
unfolding new_logger is_empty
Reach-idle =
    next
      (next
        (next (next here (log_step hello (λ e. cc) hello_logged)) (round_step refl hello_flushed))
        (round_step refl idle_round))
      (wait_step over refl)

client-IsConnected : IsConnected ten_bytes (codes "127.0.0.1") (pos 80) client
unfolding c_text cut is_alpha
client-IsConnected = ((refl, refl), refl, (_, [], [], refl, inr (refl, refl), refl))

waiting_sent_example :
    (items : List Bytes) × (items_of net_log_strategy (hello ∷ []) ≡ ok items)
    × (send_all ten_bytes items client [] ≡ ok (client, codes "{\"type\": \""))
    × IsConnected ten_bytes (codes "127.0.0.1") (pos 80) client
waiting_sent_example =
    waiting_sent ten_bytes today (codes "127.0.0.1") (pos 80) client [] client-IsConnected
      Reach-idle refl
