-- ===== src/Logger/OverTcp.antt =====
-- The network logger on its TCP client: src/logger/content-writer/NetworkContentWriter.h over
-- src/logger/util/TcpClient.h.
use asabru_commons.Base.{
  ◌≡◌, refl, sym, ◌∙◌, true, false, List, [], ◌∷◌, Bytes, codes, str_eq, ok, ◌>>=◌, >>=-assoc,
  >>=-ext, Bool-cases, inl, inr,
}
use asabru_commons.Base.Int.{ℤ, is_minus_one}
use asabru_commons.Network.TcpClient
use asabru_commons.Network.TcpClient.{NetSystem, TcpClient}
use asabru_commons.Network.Connected.{IsConnected, send_all, send_all-IsConnected}
use asabru_commons.Logger.Writer.{
  System, network_content_writer, write_to_media, network_write_to_media, send_tcp_message,
}
use asabru_commons.Logger.Strategy.{net_log_strategy, create_logger, new_net_log_strategy}
use asabru_commons.Logger.Written.{items_of, write_all}
use asabru_commons.Logger.Worker.{State, waiting, Reach}
use asabru_commons.Logger.Drained.{started, waiting_has_written}

module _ {W : Type 0} (net : NetSystem W) where
  -- The system that the network writer uses: `_client` is a part of its world. The other media are
  -- not written to.
  abbrev pub over_tcp : System (TcpClient × W)
  over_tcp = record {
    console = λ text v. v;
    append_file = λ name text v. (false, v);
    is_open = false;
    execute_query = λ query v. (false, v);
    send = λ content v. let r = net.send v.0.s content v.1 in (r.0, (v.0, r.1));
    reconnect = λ v. TcpClient.reconnect net v.0 v.1;
  }

  -- `WriteToMedia` is `sendTcpMessage` of the client.
  pub write-send_tcp_message :
      (content : Bytes) (c : TcpClient) (w : W)
      → write_to_media over_tcp network_content_writer content (c, w)
        ≡ (TcpClient.send_tcp_message net content c w >>= λ v. ok (true, v))
  unfolding write_to_media network_write_to_media send_tcp_message TcpClient.send_tcp_message
  write-send_tcp_message content c w = elim (Bool-cases (is_minus_one (net.send c.s content w).0)) [
    | inl failed ↦ rw failed (>>=-assoc (TcpClient.reconnect net c (net.send c.s content w).1) _ _)
    | inr sent ↦ rw sent refl
  ]

  write_all-send_all :
      (items : List Bytes) (c : TcpClient) (w : W)
      → write_all over_tcp network_content_writer items (c, w) ≡ send_all net items c w
  unfolding send_all
  write_all-send_all [] c w = refl
  write_all-send_all (item ∷ items) c w = rw (write-send_tcp_message item c w) (
      >>=-assoc (TcpClient.send_tcp_message net item c w) _ _
      ∙ >>=-ext (TcpClient.send_tcp_message net item c w) (λ v. write_all-send_all items v.0 v.1))

  -- Whenever the thread of a network logger waits, and the date stayed the same, its client has sent each
  -- entry that was logged, one call of `sendTcpMessage` for each, in their order and with no other
  -- between them, and the client is connected, if it was at first, to the same host and port.
  pub waiting_sent :
      (today host : Bytes) (port : ℤ) (c : TcpClient) (w : W) {s : State (TcpClient × W)}
      → IsConnected net host port c
      → Reach over_tcp today (started over_tcp today (codes "NET") (c, w)) s
      → s.logger.log_thread ≡ waiting
      → (items : List Bytes) × (items_of net_log_strategy s.logged ≡ ok items)
        × (send_all net items c w ≡ ok s.world)
        × IsConnected net host port s.world.0
  unfolding create_logger new_net_log_strategy str_eq
  waiting_sent today host port c w {s} h r idle =
      let (items, read, wrote) = waiting_has_written over_tcp today (codes "NET") (c, w) r idle in
      let sent : send_all net items c w ≡ ok s.world = sym (write_all-send_all items c w) ∙ wrote in
      (items, read, sent, send_all-IsConnected net host port items c w h sent)
