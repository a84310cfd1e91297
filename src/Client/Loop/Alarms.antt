-- ===== src/Client/Loop/Alarms.antt =====
-- tcp_client.cpp, TcpClient::__RunReadWrite: what the loop does to the alarms of the pings and of the
-- requests.
use go_socket_client.Prelude.{[], ℕ, Option, none, some, List, ◌∷◌}
use go_socket_client.Prelude.StdMap.{put, find}
use go_socket_client.Packet.Message.{
  Message, connect, conn_ack, ping_req, ping_resp, disconnect, send_req, send_resp,
}
use go_socket_client.Timer.Alarm.{Alarm, new_alarm, set_callback, start_alarm, cancel_alarm}
use go_socket_client.Client.{Client, ping, ping_late, send_late}
use go_socket_client.Client.Connecting.{ping_interval}

-- kSendReqTimeout and kPingTimeout
abbrev pub send_req_seconds : ℕ
send_req_seconds = 10

abbrev pub ping_seconds : ℕ
ping_seconds = 5

-- `_objectPool.Get()`
unfoldable pub from_pool : List Alarm → Alarm × List Alarm
from_pool [] = (new_alarm, [])
from_pool (a ∷ pool) = (a, pool)

-- The alarm that an entry of `_timeoutAlarmMap` held, if any, goes back to the pool.
unfoldable pub back_to_pool : Option Alarm → List Alarm → List Alarm
back_to_pool none pool = pool
back_to_pool (some a) pool = a ∷ pool

module _ {ℓ} {C : Type ℓ} where
  unfoldable pub start_ping : ℕ → Client C → Client C
  start_ping now c =
      let r = start_alarm now ping_interval ping (c.ping_alarm, c.timers) in
      record c { ping_alarm = r.1; timers = r.2 }

  unfoldable pub cancel_ping : Client C → Client C
  cancel_ping c =
      let r = cancel_alarm (c.ping_alarm, c.timers) in record c { ping_alarm = r.1; timers = r.2 }

  -- `_pingTimeoutAlarm.Cancel()`
  unfoldable pub cancel_ping_late : Client C → Client C
  cancel_ping_late c =
      let r = cancel_alarm (c.ping_timeout_alarm, c.timers) in
      record c { ping_timeout_alarm = r.1; timers = r.2 }

  -- `_pingTimeoutAlarm.Start(kPingTimeout)`
  unfoldable pub start_ping_late : ℕ → Client C → Client C
  start_ping_late now c =
      let r = start_alarm now ping_seconds ping_late (c.ping_timeout_alarm, c.timers) in
      record c { ping_timeout_alarm = r.1; timers = r.2 }

  -- The alarm of a request that was written, in the place of one that the same id may have had, which
  -- goes back to the pool.
  unfoldable pub start_timeout : ℕ → ℕ → Client C → Client C
  start_timeout now i c =
      let p = from_pool c.alarm_pool in
      let r =
        start_alarm now send_req_seconds (send_late i)
          (record (set_callback p.0) { user_data = i }, c.timers) in
      record c {
        alarm_pool = back_to_pool (find i c.timeout_alarms) p.1;
        timers = r.2;
        timeout_alarms = put i r.1 c.timeout_alarms;
      }

  -- `dynamic_cast<SendReq*>(message) != nullptr`
  unfoldable pub note_request : ℕ → Message → Client C → Client C
  note_request now (send_req m) c = start_timeout now m.message_id c
  note_request now (connect m) c = c
  note_request now (conn_ack m) c = c
  note_request now (ping_req m) c = c
  note_request now (ping_resp m) c = c
  note_request now (disconnect m) c = c
  note_request now (send_resp m) c = c

  -- What follows a write that returned.
  unfoldable pub written : ℕ → Message → List Message → Client C → Client C
  written now m rest c =
      start_ping now (cancel_ping (record (note_request now m c) { message_queue = rest }))
