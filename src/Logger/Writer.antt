-- ===== src/Logger/Writer.antt =====
-- src/logger/content-writer and src/logger/util/TcpClient.h: the writers over their queues. What the
-- system does is a parameter.
use asabru_commons.Base.{
  ℕ, zero, suc, Bool, true, false, ◌++◌, Bytes, codes, if◌then◌else◌, Outcome, ok, ◌>>=◌,
}
use asabru_commons.Base.Int.{ℤ, is_minus_one}
use asabru_commons.Logger.Queue.{LogQueue, push, pop, size, empty}

-- `std::cout`, a file opened to append and whether it opens, the database and whether it is open,
-- and a socket: `send` gives its result, and `reconnect` may throw.
pub record System (W : Type 0) : Type 0 where
  pub console : Bytes → W → W
  pub append_file : Bytes → Bytes → W → Bool × W
  pub is_open : Bool
  pub execute_query : Bytes → W → Bool × W
  pub send : Bytes → W → ℤ × W
  pub reconnect : W → Outcome W

pub data ContentWriter : Type 0 where
  console_content_writer db_content_writer network_content_writer : ContentWriter
  file_content_writer : Bytes → ContentWriter

-- `BaseContentWriter`: its class and its queue.
pub record Writer : Type 0 where
  pub content_writer : ContentWriter
  pub log_queue : LogQueue

-- The query of the database writer.
unfoldable pub insert_query : Bytes → Bytes
insert_query logcontent = codes "INSERT INTO logs VALUES('" ++ (logcontent ++ codes "');")

module _ {W : Type 0} (system : System W) where
  open system use {console, append_file, is_open, execute_query, send, reconnect}

  -- After a failed `send` the client connects again; the message is not sent again.
  after_send : ℤ × W → Outcome (Bool × W)
  after_send (bytes_sent, w) =
      if is_minus_one bytes_sent then (reconnect w >>= λ w'. ok (true, w')) else ok (true, w)

  unfoldable pub send_tcp_message : Bytes → W → Outcome (Bool × W)
  unfolding after_send
  send_tcp_message content w = after_send (send content w)

  -- `WriteToMedia` of each class.
  unfoldable pub console_write_to_media : Bytes → W → Outcome (Bool × W)
  console_write_to_media content w = ok (true, console (content ++ codes "\n") w)

  unfoldable pub db_write_to_media : Bytes → W → Outcome (Bool × W)
  unfolding insert_query
  db_write_to_media content w =
      if is_open then ok (execute_query (insert_query content) w) else ok (false, w)

  unfoldable pub network_write_to_media : Bytes → W → Outcome (Bool × W)
  network_write_to_media content w = send_tcp_message content w >>= λ r. ok (true, r.1)

  unfoldable pub file_write_to_media : Bytes → Bytes → W → Outcome (Bool × W)
  file_write_to_media file_name content w = ok (append_file file_name (content ++ codes "\r\n") w)

  unfoldable pub write_to_media : ContentWriter → Bytes → W → Outcome (Bool × W)
  unfolding console_write_to_media db_write_to_media network_write_to_media file_write_to_media
  write_to_media console_content_writer content w = console_write_to_media content w
  write_to_media db_content_writer content w = db_write_to_media content w
  write_to_media network_content_writer content w = network_write_to_media content w
  write_to_media (file_content_writer file_name) content w = file_write_to_media file_name content w

  -- The loop of `Flush`, for so many rounds at most.
  unfoldable pub flush_loop : ContentWriter → ℕ → LogQueue → W → Outcome (LogQueue × W)
  flush_loop cw zero q w = ok (q, w)
  flush_loop cw (suc n) q w =
      let round =
        pop q >>= λ (content, q'). write_to_media cw content w >>= λ r. flush_loop cw n q' r.1 in
      if empty q then ok (q, w) else round

  unfoldable pub flush : Writer → W → Outcome (Writer × W)
  flush writer w =
      flush_loop writer.content_writer (size writer.log_queue) writer.log_queue w >>= λ r.
      ok (record writer { log_queue = r.0 }, r.1)

-- `Write` only puts the entry in the queue.
unfoldable pub write : Bytes → Writer → Writer
write content writer = record writer { log_queue = push content writer.log_queue }

-- `Empty`.
unfoldable pub writer_empty : Writer → Bool
writer_empty writer = empty writer.log_queue
