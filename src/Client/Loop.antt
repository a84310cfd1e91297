-- ===== src/Client/Loop.antt =====
-- tcp_client.cpp, TcpClient::__RunReadWrite and TcpClient::__Run. A turn of the loop meets the clocks,
-- what the other threads do during the select, what the select reports, and what the writes throw. The
-- peer's bytes are the stream; a turn whose read throws ends the loop, and with it the stream.
mod Alarms
pub mod Caught
pub mod Lifecycle
use go_socket_client.Prelude.{
  [], ℕ, ◌+◌, ◌-◌, ◌%◌, ◌^◌, Bool, false, not, ◌&&◌, ◌||◌, Option, List, ◌∷◌, ltb, leb, ◌==◌,
  if◌then◌else◌, length,
}
use go_socket_client.Packet.Error.{TcpException, Outcome, ok, throw, undefined, ◌>>=◌}
use go_socket_client.Packet.Reader.{Stream}
use go_socket_client.Packet.Gzip.{Gzip}
use go_socket_client.Packet.Message.{
  Message, connect, conn_ack, ping_req, ping_resp, disconnect, send_req, send_resp, new_header,
  ping_req_type,
}
use go_socket_client.Packet.Message.Decode.{decode_message}
use go_socket_client.Timer.Alarm.{is_waiting, is_alarm, start_alarm}
use go_socket_client.Client.{
  Client, ConnectStatus, connected, connect_failed, connect_kickout, disconnected, is_dis_none,
  ping_timeout, reconnect,
}
use go_socket_client.Client.Calls.{
  clear_breaker, set_connect_status, handle_send_req, handle_send_resp, handle_disconnect,
}
use go_socket_client.Client.Connecting.{
  Meeting, RetConn, conn_failed, conn_success, conn_timeout, conn_kickout, run_connect,
  write_message,
}
unfoldable pub use Alarms.{
  send_req_seconds, ping_seconds, from_pool, back_to_pool, start_ping, cancel_ping,
  cancel_ping_late, start_ping_late, start_timeout, note_request, written,
}

pub record Turn {ℓ} (C : Type ℓ) : Type ℓ where
  pub tick : ℕ
  pub now : ℕ
  pub others : Client C → Client C
  pub select_failed : Bool
  pub breaker_exception : Bool
  pub socket_exception : Bool
  pub writable : Bool
  pub readable : Bool
  pub write_error : Option TcpException
  pub ping_error : Option TcpException
  pub breaker_writes : Bool
  pub conn_breaker_writes : Bool

-- Where a turn leaves the loop: it goes on, or `__RunReadWrite` returns.
pub data Turned {ℓ} (C : Type ℓ) : Type ℓ where
  stay leave : Client C → Stream → Turned C

-- The status that the result of the connection makes.
unfoldable pub status_of : RetConn → ConnectStatus
status_of conn_success = connected
status_of conn_kickout = connect_kickout
status_of conn_failed = connect_failed
status_of conn_timeout = connect_failed

module _ {ℓ} {C : Type ℓ} where
  -- A connection that is stable for five seconds takes the count of reconnects back.
  unfoldable pub settle : ℕ → ℕ → Client C → Client C
  settle start_tick tick c =
      if not (c.reconnect_count == 0) && ltb 5000 ((tick + 2 ^ 64 - start_tick) % 2 ^ 64)
      then record c { reconnect_count = 0 }
      else c

  -- The start of a turn, up to the select.
  unfoldable pub prepare : ℕ → Turn C → Client C → Client C
  prepare start_tick t c =
      let c' = settle start_tick t.tick c in
      if is_waiting c'.ping_alarm then c' else start_ping t.now c'

  unfoldable pub after_write :
      ℕ → Message → List Message → Client C → Stream → Outcome (Unit {0}) → Outcome (Turned C)
  after_write now m rest c s (ok u) = ok (stay (written now m rest c) s)
  after_write now m rest c s (throw e) = ok (leave c s)
  after_write now m rest c s undefined = undefined

  -- One message of the queue is written.
  unfoldable pub write_front : Gzip → Turn C → List Message → Client C → Stream → Outcome (Turned C)
  write_front gzip t [] c s = ok (stay c s)
  write_front gzip t (m ∷ rest) c s =
      after_write t.now m rest c s (write_message gzip m t.write_error)

  -- The switch on the message that came. The header that was read holds the type.
  unfoldable pub dispatch : Turn C → Message → Client C → Client C
  dispatch t (ping_resp m) c = cancel_ping_late c
  dispatch t (send_req m) c = handle_send_req m c
  dispatch t (send_resp m) c = handle_send_resp m c
  dispatch t (disconnect m) c = handle_disconnect t.breaker_writes t.conn_breaker_writes m c
  dispatch t (connect m) c = c
  dispatch t (conn_ack m) c = c
  dispatch t (ping_req m) c = c

  unfoldable pub after_read : Turn C → Client C → Outcome (Message × Stream) → Outcome (Turned C)
  after_read t c (ok (m, s)) = ok (stay (dispatch t m c) s)
  after_read t c (throw e) = ok (leave c (record { bytes = []; ending = e }))
  after_read t c undefined = undefined

  unfoldable pub after_ping : Turn C → Client C → Stream → Outcome (Unit {0}) → Outcome (Turned C)
  after_ping t c s (ok u) = ok (stay (start_ping_late t.now (cancel_ping_late c)) s)
  after_ping t c s (throw e) = ok (leave c s)
  after_ping t c s undefined = undefined

  -- The heartbeat, when its alarm has fired.
  unfoldable pub send_ping : Gzip → Turn C → Client C → Stream → Outcome (Turned C)
  send_ping gzip t c s =
      if is_alarm c.ping_alarm
      then after_ping t c s (
          write_message gzip (ping_req (record { header = new_header ping_req_type })) t.ping_error)
      else ok (stay c s)

  unfoldable pub read_one : Gzip → Turn C → Client C → Stream → Outcome (Turned C)
  read_one gzip t c s = if t.readable then after_read t c (decode_message gzip s) else ok (stay c s)

  -- The next part of a turn, unless the part before left the loop.
  unfoldable pub and_then :
      Outcome (Turned C) → (Client C → Stream → Outcome (Turned C)) → Outcome (Turned C)
  and_then (ok (stay c s)) f = f c s
  and_then (ok (leave c s)) f = ok (leave c s)
  and_then (throw e) f = throw e
  and_then undefined f = undefined

  -- `WriteFdIsSet(socketFd) && hasMessage`; the socket is watched for it if there was a message before
  -- the select.
  unfoldable pub may_write : Turn C → Client C → Client C → Stream → Gzip → Outcome (Turned C)
  may_write t before c s gzip =
      if t.writable && leb 1 (length before.message_queue)
      then write_front gzip t c.message_queue c s
      else ok (stay c s)

  -- A turn after the select.
  unfoldable pub react : Gzip → Turn C → Client C → Client C → Stream → Outcome (Turned C)
  react gzip t before c s =
      if not (is_dis_none c.dis_code)
        || t.select_failed
        || t.breaker_exception
        || t.socket_exception
      then ok (leave c s)
      else (if is_alarm c.ping_timeout_alarm
          then ok (leave (record c { dis_code = ping_timeout }) s)
          else and_then (and_then (may_write t before c s gzip) (read_one gzip t))
              (send_ping gzip t))

  -- One turn of the loop; the poll is followed by the Clear of the breaker, and `others` is what the other
  -- threads do before it.
  unfoldable pub turn : Gzip → ℕ → Turn C → Client C → Stream → Outcome (Turned C)
  turn gzip start_tick t c s =
      let before = prepare start_tick t c in react gzip t before (clear_breaker (t.others before)) s

  -- TcpClient::__RunReadWrite, as far as the given turns
  unfoldable pub run_read_write : Gzip → ℕ → List (Turn C) → Client C → Stream → Outcome (Turned C)
  run_read_write gzip start_tick [] c s = ok (stay c s)
  run_read_write gzip start_tick (t ∷ ts) c s =
      and_then (turn gzip start_tick t c s) (run_read_write gzip start_tick ts)

  -- The scope guard of __RunReadWrite
  unfoldable pub stop_pings : Client C → Client C
  stop_pings c = cancel_ping_late (cancel_ping c)

  -- The end of TcpClient::__Run, with the reconnect alarm started for this very moment.
  unfoldable pub finish : ℕ → Client C → Client C
  finish now c =
      let c' = set_connect_status disconnected (record c { has_socket = false }) in
      let r = start_alarm now 0 reconnect (c'.reconnect_alarm, c'.timers) in
      record c' { reconnect_alarm = r.1; timers = r.2 }

  unfoldable pub after_loop : ℕ → Outcome (Turned C) → Outcome (Turned C)
  after_loop now (ok (stay c s)) = ok (stay c s)
  after_loop now (ok (leave c s)) = ok (leave (finish now (stop_pings c)) s)
  after_loop now (throw e) = throw e
  after_loop now undefined = undefined

  -- TcpClient::__Run after __RunConnect
  unfoldable pub enter :
      Gzip → Meeting → ℕ → List (Turn C) → RetConn → Client C → Stream → Outcome (Turned C)
  enter gzip w now ts conn_success c s = after_loop now (run_read_write gzip w.tick ts c s)
  enter gzip w now ts conn_kickout c s = ok (leave (finish now c) s)
  enter gzip w now ts conn_failed c s = ok (leave (finish now c) s)
  enter gzip w now ts conn_timeout c s = ok (leave (finish now c) s)

  -- TcpClient::__Run, as far as the given turns: `stay` while the loop still runs at the last of them.
  unfoldable pub run_client :
      Gzip → Meeting → ℕ → List (Turn C) → Client C → Stream → Outcome (Turned C)
  run_client gzip w now ts c s = run_connect gzip w c s >>= λ r.
      enter gzip w now ts r.0 (set_connect_status (status_of r.0) r.1) r.2
