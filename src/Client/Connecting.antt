-- ===== src/Client/Connecting.antt =====
-- tcp_client.cpp, TcpClient::__RunConnect. What it meets is a record: the clock, the lookup, whether the
-- attempts of ComplexConnect gave a valid socket and took the timeouts, the user's connect info, what
-- the write of the connect packet throws, and the peer's bytes. The waits, TCP options and log lines
-- change nothing of the client.
pub mod Count
use go_socket_client.Prelude.{
  [], ℕ, ◌+◌, ◌-◌, ◌%◌, ◌^◌, Bool, true, false, ◌||◌, Option, none, some, List, ◌∷◌, ltb, ◌==◌,
  if◌then◌else◌,
}
use go_socket_client.Packet.Error.{TcpException, Outcome, ok, throw, undefined, ◌>>=◌}
use go_socket_client.Packet.Reader.{Stream}
use go_socket_client.Packet.Gzip.{Bytes, Gzip}
use go_socket_client.Packet.Message.{
  Message, ReturnCode, accepted, not_authorized, connect, conn_ack, ping_req, ping_resp, disconnect,
  send_req, send_resp, new_header, connect_type, protocol_name, protocol_version, enable_gzip,
}
use go_socket_client.Packet.Message.Encode.{encode_message}
use go_socket_client.Packet.Message.Decode.{decode_message}
use go_socket_client.Connect.Dns.{AddrInfo, Lookup, get_host_by_name, make_addrs}
use go_socket_client.Client.{Client, connecting, no_net, NetType}
use go_socket_client.Client.Calls.{clear_connect_breaker, set_connect_status}

-- kRetConnFailed, kRetConnSuccess, kRetConnTimeout, kRetConnKickout
pub data RetConn : Type 0 where
  conn_failed conn_success conn_timeout conn_kickout : RetConn

pub record Meeting : Type 0 where
  pub tick : ℕ
  pub lookup : Lookup
  pub cache_ips : List Bytes
  pub port : ℕ
  pub is_tls : Bool
  pub valid_socket : List AddrInfo → Bool
  pub takes_timeouts : Bool
  pub connect_info : Option Bytes
  pub write_error : Option TcpException
  pub eagain : ℕ

-- kPingInterval
abbrev pub ping_interval : ℕ
ping_interval = 60

-- `_msgManager.EncodeMessage(&_writer, message)` on a writer that throws `error`, if there is one.
unfoldable pub write_message : Gzip → Message → Option TcpException → Outcome (Unit {0})
write_message gzip m error =
    encode_message gzip m >>= λ bs. elim error [ none ↦ ok tt | some e ↦ throw e ]

-- `((ConnAck *)message)->GetReturnCode()`, which is undefined on another class. The source reads it after
-- the unique_ptr that owned the message is gone; the model takes it that the memory still holds it.
unfoldable pub as_conn_ack : Message → Outcome ReturnCode
as_conn_ack (conn_ack m) = ok m.return_code
as_conn_ack (connect m) = undefined
as_conn_ack (ping_req m) = undefined
as_conn_ack (ping_resp m) = undefined
as_conn_ack (disconnect m) = undefined
as_conn_ack (send_req m) = undefined
as_conn_ack (send_resp m) = undefined

unfoldable pub is_no_net : NetType → Bool
is_no_net n = elim n [ no_net ↦ true | _ ↦ false ]

unfoldable pub is_empty : Bytes → Bool
is_empty [] = true
is_empty (b ∷ bs) = false

-- What the connect packet carries.
unfoldable pub connect_message : Bytes → Message
connect_message info = connect (record {
  header = new_header connect_type;
  name = protocol_name;
  version = protocol_version;
  keep_alive = ping_interval;
  payload = info;
  gzip_enabled = enable_gzip;
})

module _ {ℓ} {C : Type ℓ} where
  -- The first lines: five minutes after the last connection the count starts again.
  unfoldable pub refresh_count : ℕ → Client C → Client C
  refresh_count tick c =
      if ltb ((tick + 2 ^ 64 - c.last_conn_tick) % 2 ^ 64) 300000 || (c.last_conn_tick == 0)
      then c
      else record c { reconnect_count = 0 }

  -- The return code of the answer.
  unfoldable pub on_return_code : ReturnCode → Client C → RetConn × Client C
  on_return_code code c = elim code [
    | accepted ↦ (conn_success, c)
    | not_authorized ↦ (conn_kickout, record c { should_reconnect = false })
    | _ ↦ (conn_failed, c)
  ]

  -- What DecodeMessage gave or threw.
  unfoldable pub on_answer :
      ℕ → Client C → Outcome (Message × Stream) → Outcome (RetConn × Client C × Stream)
  on_answer eagain c (ok (m, s)) =
      as_conn_ack m >>= λ code. ok ((on_return_code code c).0, (on_return_code code c).1, s)
  on_answer eagain c (throw e) =
      if e.error_no == eagain
      then ok (conn_timeout, c, record { bytes = []; ending = e })
      else ok (conn_failed, c, record { bytes = []; ending = e })
  on_answer eagain c undefined = undefined

  -- From the connect packet on.
  unfoldable pub on_sent :
      Gzip → ℕ → Client C → Stream → Outcome (Unit {0}) → Outcome (RetConn × Client C × Stream)
  on_sent gzip eagain c s (ok u) = on_answer eagain c (decode_message gzip s)
  on_sent gzip eagain c s (throw e) = ok (conn_failed, c, s)
  on_sent gzip eagain c s undefined = undefined

  -- From the user's connect info on.
  unfoldable pub say_hello :
      Gzip → Meeting → Client C → Stream → Outcome (RetConn × Client C × Stream)
  say_hello gzip w c s = elim w.connect_info [
    | none ↦ ok (conn_failed, c, s)
    | some info ↦
        on_sent gzip w.eagain c s (write_message gzip (connect_message info) w.write_error)
  ]

  -- From the lookup on.
  unfoldable pub reach : Gzip → Meeting → Client C → Stream → Outcome (RetConn × Client C × Stream)
  reach gzip w c s = elim (get_host_by_name w.lookup c.host c.backup_ip w.cache_ips).0 [
    | none ↦ ok (conn_failed, c, s)
    | some ips ↦ make_addrs 3 0 ips w.port w.is_tls >>= λ addrs.
        if w.valid_socket addrs
        then (if w.takes_timeouts
            then say_hello gzip w (record c { has_socket = true }) s
            else ok (conn_failed, record c { has_socket = true }, s))
        else ok (conn_failed, c, s)
  ]

  -- TcpClient::__RunConnect. A lookup without an answer, and every call of ConnectImpatient, comes to a
  -- select on the connect breaker, whose Clear nothing else in `reach` depends on.
  unfoldable pub run_connect :
      Gzip → Meeting → Client C → Stream → Outcome (RetConn × Client C × Stream)
  run_connect gzip w c s =
      let c' = refresh_count w.tick (set_connect_status connecting c) in
      if is_no_net c'.net_type
      then ok (conn_failed, record c' { should_reconnect = false }, s)
      else (if is_empty c'.host || is_empty c'.backup_ip
          then ok (conn_failed, c', s)
          else reach gzip w (clear_connect_breaker c') s)
