-- ===== src/Client/Machine.antt =====
-- tcp_client.cpp as a machine: every call of the user, every step of the client's thread and every
-- timer callback as an event. Each of them is taken as one step, so that a run of the program, with
-- all its threads, is a list of events in the order in which they happen.
pub mod Keeps
pub mod Sound
pub mod Account
pub mod Thread
use go_socket_client.Prelude.{
  [], ℕ, ◌≡◌, refl, Bool, true, false, Option, List, ◌∷◌, ◌++◌, if◌then◌else◌,
}
use go_socket_client.Packet.Gzip.{Bytes}
use go_socket_client.Packet.Message.{Message, SendReq, SendResp, Disconnect}
use go_socket_client.Client.{Client, ConnectStatus, DisconnectCode, ping_timeout}
use go_socket_client.Client.Calls.{
  clear_breaker, clear_connect_breaker, set_connect_status, make_sure_connected, disconnect_async,
  handle_send_resp, handle_send_req, handle_disconnect, on_send_late, wait_disconnect, on_reconnect,
}
use go_socket_client.Client.Requests.{send, send_no_reply, send_disconnect, notify}
use go_socket_client.Timer.Alarm.{fire}
use go_socket_client.Client.Wakeup.Parts.{fire_ping, fire_ping_late}
use go_socket_client.Client.Connecting.{refresh_count}
use go_socket_client.Client.Loop.{
  settle, start_ping, cancel_ping, start_ping_late, cancel_ping_late, written, finish,
}

-- The first arguments of type Bool say whether the breakers' pipes take a byte, those of `wait_call` and
-- `reconnect_fires` whether new pipes can be made.
pub data Event {ℓ} (C : Type ℓ) : Type ℓ where
  -- the user's calls
  connect_call : Event C
  disconnect_call : Bool → Bool → DisconnectCode → Bool → Event C
  send_call : Bool → Bytes → Bytes → Option Bytes → Option C → Event C
  send_no_reply_call : Bool → Bytes → Bytes → Event C
  send_disconnect_call : Bool → Event C
  wait_call : Bool → Bool → Event C
  -- the timers' callbacks
  reconnect_fires : Bool → Bool → Event C
  ping_fires : Bool → Event C
  ping_late_fires : Bool → Event C
  timeout_fires : Bool → Bool → ℕ → Event C
  -- the thread while it connects
  status_changes : ConnectStatus → Event C
  count_refreshed : ℕ → Event C
  reconnect_refused : Event C
  socket_opened : Event C
  connect_select_clears : Event C
  -- the thread in its loop
  count_settled : ℕ → ℕ → Event C
  ping_started : ℕ → Event C
  select_clears : Event C
  ping_late : Event C
  message_written : ℕ → Event C
  response_came : SendResp → Event C
  request_came : SendReq → Event C
  disconnect_came : Bool → Bool → Disconnect → Event C
  ping_resp_came : Event C
  ping_sent : ℕ → Event C
  pings_stopped : Event C
  thread_ends : ℕ → Event C

module _ {ℓ} {C : Type ℓ} where
  -- The front message leaves the queue when it is written.
  unfoldable pub write_one : ℕ → List Message → Client C → Client C
  write_one now [] c = c
  write_one now (m ∷ rest) c = written now m rest c

  unfoldable pub step : Event C → Client C → Client C
  step connect_call c = make_sure_connected c
  step (disconnect_call w cw code again) c = disconnect_async w cw code again c
  step (send_call w kind payload content func) c = (send w kind payload content func c).1
  step (send_no_reply_call w kind payload) c = (send_no_reply w kind payload c).1
  step (send_disconnect_call w) c = send_disconnect w c
  step (wait_call made conn_made) c = wait_disconnect made conn_made c
  step (reconnect_fires made conn_made) c = on_reconnect made conn_made c
  step (ping_fires w) c = if (fire c.ping_alarm).0 then notify w (fire_ping c) else c
  step (ping_late_fires w) c =
      if (fire c.ping_timeout_alarm).0 then notify w (fire_ping_late c) else c
  step (timeout_fires w cw i) c = on_send_late w cw i c
  step (status_changes s) c = set_connect_status s c
  step (count_refreshed tick) c = refresh_count tick c
  step reconnect_refused c = record c { should_reconnect = false }
  step socket_opened c = record c { has_socket = true }
  step connect_select_clears c = clear_connect_breaker c
  step (count_settled start_tick tick) c = settle start_tick tick c
  step (ping_started now) c = start_ping now c
  step select_clears c = clear_breaker c
  step ping_late c = record c { dis_code = ping_timeout }
  step (message_written now) c = write_one now c.message_queue c
  step (response_came m) c = handle_send_resp m c
  step (request_came m) c = handle_send_req m c
  step (disconnect_came w cw m) c = handle_disconnect w cw m c
  step ping_resp_came c = cancel_ping_late c
  step (ping_sent now) c = start_ping_late now (cancel_ping_late c)
  step pings_stopped c = cancel_ping_late (cancel_ping c)
  step (thread_ends now) c = finish now c

  unfoldable pub run : List (Event C) → Client C → Client C
  run [] c = c
  run (e ∷ es) c = run es (step e c)

  pub run-append : (es fs : List (Event C)) (c : Client C) → run (es ++ fs) c ≡ run fs (run es c)
  unfolding run
  run-append [] fs c = refl
  run-append (e ∷ es) fs c = run-append es fs (step e c)
