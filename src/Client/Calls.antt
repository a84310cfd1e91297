-- ===== src/Client/Calls.antt =====
-- tcp_client.cpp: connecting and disconnecting on request, and the callbacks of the requests.
pub mod Found
pub mod Answered
use go_socket_client.Prelude.{
  [], ℕ, ◌+◌, Bool, true, false, not, ◌&&◌, Option, none, some, List, ◌∷◌, ◌==◌, if◌then◌else◌,
}
use go_socket_client.Prelude.StdMap.{find, erase, keys}
use go_socket_client.Packet.Gzip.{Bytes}
use go_socket_client.Packet.Message.{SendReq, SendResp, Disconnect}
use go_socket_client.Socket.Breaker.{break, clear, close, re_create}
use go_socket_client.Timer.Queue.{Queue}
use go_socket_client.Timer.Alarm.{fire, Alarm, cancel_alarm}
use go_socket_client.Client.{
  DisconnectCode, ConnectStatus, ErrorCode, TimerCall, Client, dis_none, kickout, send_req_timeout,
  idle, no_error, timeout, lose_connect, status_change, push, server_disconnect, is_connected,
  status_number, emit, respond_to,
}

-- `alarmPtr->Cancel()` on each alarm of `_timeoutAlarmMap`,
-- which goes back to the pool.
unfoldable pub cancel_all :
    List (ℕ × Alarm) → List Alarm × Queue TimerCall → List Alarm × Queue TimerCall
cancel_all [] (pool, q) = (pool, q)
cancel_all ((i, a) ∷ alarms) (pool, q) =
    let r = cancel_alarm (a, q) in cancel_all alarms (r.1 ∷ pool, r.2)

module _ {ℓ} {C : Type ℓ} where
  -- TcpClient::__SetConnectStatus
  unfoldable pub set_connect_status : ConnectStatus → Client C → Client C
  set_connect_status status c =
      let c' = record c { status = status } in
      if status_number status == status_number c.status
      then c
      else (if c.listeners.on_status_change then emit (status_change status) c' else c')

  -- TcpClient::MakeSureConnected; the thread it makes is `Client.Loop.run_client`.
  unfoldable pub make_sure_connected : Client C → Client C
  make_sure_connected c =
      if is_connected c.status
      then c
      else (if c.has_thread then c else record c {
        status = idle;
        dis_code = dis_none;
        should_reconnect = true;
        should_new_breaker = false;
        should_new_conn_breaker = false;
        timeout_disconnect = false;
        read_write_breaker = (clear c.read_write_breaker).1;
        connect_breaker = (clear c.connect_breaker).1;
        message_queue = [];
        has_thread = true;
      })

  -- The Clear after the poll of the read loop
  unfoldable pub clear_breaker : Client C → Client C
  clear_breaker c = record c { read_write_breaker = (clear c.read_write_breaker).1 }

  -- The Clear after the polls of the lookup and of ConnectImpatient
  unfoldable pub clear_connect_breaker : Client C → Client C
  clear_connect_breaker c = record c { connect_breaker = (clear c.connect_breaker).1 }

  -- A signal to the read loop; a breaker that fails is closed and will be made again.
  unfoldable pub break_read_write : Bool → Client C → Client C
  break_read_write writes c =
      let r = break writes c.read_write_breaker in
      if r.0
      then record c { read_write_breaker = r.1 }
      else record c { read_write_breaker = close r.1; should_new_breaker = true }

  unfoldable pub break_connect : Bool → Client C → Client C
  break_connect writes c =
      let r = break writes c.connect_breaker in
      if r.0
      then record c { connect_breaker = r.1 }
      else record c { connect_breaker = close r.1; should_new_conn_breaker = true }

  -- TcpClient::DisconnectAsync; the first two arguments say whether the two pipes take a byte.
  unfoldable pub disconnect_async : Bool → Bool → DisconnectCode → Bool → Client C → Client C
  disconnect_async writes conn_writes code should_reconnect c =
      if c.has_thread
      then break_connect conn_writes (
          break_read_write writes
            (record c { dis_code = code; should_reconnect = should_reconnect }))
      else (if should_reconnect then make_sure_connected c else c)

  -- TcpClient::__GetCallback: the null function and a missing key are both `none`.
  unfoldable pub get_callback : ℕ → Client C → Option C × Client C
  get_callback i c = elim (find i c.callback_map) [
    | none ↦ (none, c)
    | some callback ↦ (callback, record c { callback_map = erase i c.callback_map })
  ]

  -- `_timeoutAlarmMap` without the message's alarm, which is cancelled and goes back to the pool.
  unfoldable pub stop_timeout : ℕ → Client C → Client C
  stop_timeout i c = elim (find i c.timeout_alarms) [
    | none ↦ c
    | some a ↦ record c {
      timers = (cancel_alarm (a, c.timers)).2;
      alarm_pool = (cancel_alarm (a, c.timers)).1 ∷ c.alarm_pool;
      timeout_alarms = erase i c.timeout_alarms;
    }
  ]

  -- `__GetCallback`, and the call if there is one to call
  unfoldable pub answer : ℕ → ErrorCode → Bytes → Client C → Client C
  answer i code payload c = respond_to (get_callback i c).0 code payload (get_callback i c).1

  -- TcpClient::__handleSendResp
  unfoldable pub handle_send_resp : SendResp → Client C → Client C
  handle_send_resp m c = answer m.message_id no_error m.payload (stop_timeout m.message_id c)

  -- TcpClient::__handleSendReq
  unfoldable pub handle_send_req : SendReq → Client C → Client C
  handle_send_req m c = if c.listeners.on_send_req then emit (push m.kind m.payload) c else c

  -- TcpClient::__handleDisconnect; SvrDisKickout is 1.
  unfoldable pub handle_disconnect : Bool → Bool → Disconnect → Client C → Client C
  handle_disconnect writes conn_writes m c =
      let c' =
        if m.disconnect_type == 1 then disconnect_async writes conn_writes kickout false c else c in
      if c'.listeners.on_server_disconnect
      then emit (server_disconnect m.disconnect_type) c'
      else c'

  -- `_timeoutAlarmMap.erase(messageId)` in the alarm's callback: the alarm, which has fired, goes back to the
  -- pool.
  unfoldable pub drop_timeout : ℕ → Client C → Client C
  drop_timeout i c = elim (find i c.timeout_alarms) [
    | none ↦ c
    | some a ↦ record c {
      alarm_pool = (fire a).1 ∷ c.alarm_pool;
      timeout_alarms = erase i c.timeout_alarms;
    }
  ]

  -- The callback of a request's alarm, whose user data is the id.
  unfoldable pub on_send_late : Bool → Bool → ℕ → Client C → Client C
  on_send_late writes conn_writes i c =
      let c1 = drop_timeout i c in
      let c2 = answer i timeout [] c1 in
      elim (get_callback i c1).0 [
        | none ↦ c2
        | some f ↦
            if is_connected c2.status && not c2.timeout_disconnect
            then disconnect_async writes conn_writes send_req_timeout true
                (record c2 { timeout_disconnect = true })
            else c2
      ]

  -- The loop of __WaitDisconnect over the ids of the alarms, which starts a detached thread for each call. It
  -- returns from the function, with
  -- `false`, at the first id that has no callback.
  unfoldable pub lose_all : List ℕ → Client C → Bool × Client C
  lose_all [] c = (true, c)
  lose_all (i ∷ is) c =
      let rest = lose_all is (answer i lose_connect [] c) in
      elim (get_callback i c).0 [ none ↦ (false, (get_callback i c).1) | some f ↦ rest ]

  -- The end of __WaitDisconnect; the arguments say whether the two pipes can be made.
  unfoldable pub renew_breakers : Bool → Bool → Client C → Client C
  renew_breakers made conn_made c =
      let c' =
        if c.should_new_breaker
        then record c { read_write_breaker = re_create made c.read_write_breaker }
        else c in
      if c'.should_new_conn_breaker
      then record c' { connect_breaker = re_create conn_made c'.connect_breaker }
      else c'

  -- Its start: the thread is gone, and all alarms are cancelled and forgotten.
  unfoldable pub stop_all : Client C → Client C
  stop_all c =
      let t = cancel_all c.timeout_alarms (c.alarm_pool, c.timers) in
      record c { has_thread = false; alarm_pool = t.0; timers = t.1; timeout_alarms = [] }

  -- TcpClient::__WaitDisconnect, after the thread has ended.
  unfoldable pub wait_disconnect : Bool → Bool → Client C → Client C
  wait_disconnect made conn_made c =
      let r = lose_all (keys c.timeout_alarms) (stop_all c) in
      if c.has_thread then (if r.0 then renew_breakers made conn_made r.1 else r.1) else c

  -- TcpClient::Disconnect; `ended` is what the thread makes of the client until it ends.
  unfoldable pub disconnect_now :
      Bool
      → Bool
      → Bool
      → Bool
      → (Client C → Client C)
      → DisconnectCode
      → Bool
      → Client C
      → Client C
  disconnect_now writes conn_writes made conn_made ended code should_reconnect c =
      wait_disconnect made conn_made
        (ended (disconnect_async writes conn_writes code should_reconnect c))

  -- The callback of `_reconnectAlarm`
  unfoldable pub on_reconnect : Bool → Bool → Client C → Client C
  on_reconnect made conn_made c =
      let c' = wait_disconnect made conn_made c in
      if c'.should_reconnect
      then make_sure_connected (record c' { reconnect_count = c'.reconnect_count + 1 })
      else c'
