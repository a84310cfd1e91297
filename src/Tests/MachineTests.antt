-- ===== src/Tests/MachineTests.antt =====
-- The theorems on runs of the client's events at concrete inputs.
use go_socket_client.Prelude.{
  ◌++◌, ℕ, ◌+◌, ◌≡◌, refl, Bool, true, false, none, some, List, [], ◌∷◌, ltb,
}
use go_socket_client.Prelude.StdMap.{put, find, erase}
use go_socket_client.Packet.Error.{ok, exception, socket_close}
use go_socket_client.Packet.Reader.{stream}
use go_socket_client.Client.{
  is_dis_none, status_number, is_connected, respond_to, kickout, Client, new_client, connected,
}
use go_socket_client.Client.Calls.{
  clear_breaker, renew_breakers, stop_all, lose_all, wait_disconnect, break_connect,
  break_read_write, disconnect_async, make_sure_connected, set_connect_status, handle_send_resp,
  answer, stop_timeout, get_callback,
}
use go_socket_client.Client.Requests.{new_send_req, plain_send_req, next_msg_id, send, notify}
use go_socket_client.Socket.Breaker.{clear, break}
use go_socket_client.Client.Loop.{
  turn, leave, prepare, stop_pings, finish, cancel_ping, start_ping, start_timeout, start_timeout,
  note_request, written, Turn,
}
use go_socket_client.Client.Machine.{
  write_one, Event, connect_call, disconnect_call, send_call, wait_call, status_changes,
  message_written, response_came, thread_ends, step, run,
}
use go_socket_client.Client.Machine.Account.{AllFree, account}
use go_socket_client.Client.Machine.Account.Run.{given, run-account}
use go_socket_client.NetCore
use go_socket_client.NetCore.Unsent.{goodbye, turn-disconnect_async}
use go_socket_client.Tests.PacketTests.{toy_gzip}
use go_socket_client.Tests.ClientTests.{all_listeners, quiet_turn, busy_client, response}

-- A client connects, sends the requests 1 and 2, and writes the first. Its answer comes, the thread
-- ends, and the wait follows.
abbrev fresh_client : Client ℕ
fresh_client = new_client (1 ∷ []) (2 ∷ []) all_listeners

abbrev session : List (Event ℕ)
session =
    connect_call
    ∷ status_changes connected
    ∷ send_call true (3 ∷ []) (4 ∷ []) none (some 10)
    ∷ send_call true (3 ∷ []) (5 ∷ []) none (some 20)
    ∷ message_written 1000
    ∷ response_came (response 1)
    ∷ disconnect_call true true kickout false
    ∷ thread_ends 2000
    ∷ wait_call true true
    ∷ send_call true (3 ∷ []) (6 ∷ []) none (some 30)
    ∷ []

abbrev below_thirty : ℕ → Bool
below_thirty n = ltb n 30

session-AllFree : AllFree session fresh_client
unfolding step send set_connect_status respond_to notify find put next_msg_id make_sure_connected
    clear erase get_callback answer stop_timeout handle_send_resp write_one written note_request
    start_timeout start_ping cancel_ping disconnect_async break_read_write break_connect break
    finish wait_disconnect lose_all stop_all renew_breakers is_connected status_number new_send_req
    plain_send_req
session-AllFree =
    (tt, (tt, ((λ h. refl), ((λ h. refl), (tt, (tt, (tt, (tt, (tt, ((λ h. refl), tt))))))))))

run-account_example :
    account below_thirty (run session fresh_client)
    ≡ given below_thirty session + account below_thirty fresh_client
run-account_example = run-account below_thirty session fresh_client session-AllFree

-- A Send during the select of the turn.
abbrev sending_turn : Turn ℕ
sending_turn = record quiet_turn { others = λ c. (send true (3 ∷ []) (4 ∷ []) none (some 10) c).1 }

-- A user who disconnects during the select of the turn.
abbrev leaving_turn : Turn ℕ
leaving_turn = record quiet_turn { others = NetCore.disconnect_async true true true kickout false }

abbrev connected_client : Client ℕ
connected_client = record busy_client { status = connected }

turn-disconnect_async_example :
    let s = stream (0x11 ∷ []) (exception socket_close) in
    let d =
      NetCore.disconnect_async true true true kickout false
        (prepare 0 leaving_turn connected_client) in
    (turn toy_gzip 0 leaving_turn connected_client s ≡ ok (leave (clear_breaker d) s))
    × ((finish 2000 (stop_pings (clear_breaker d))).message_queue
        ≡ connected_client.message_queue ++ (goodbye ∷ []))
unfolding is_dis_none is_connected status_number
turn-disconnect_async_example =
    turn-disconnect_async toy_gzip 0 2000 leaving_turn true true true false kickout connected_client
      (stream (0x11 ∷ []) (exception socket_close)) refl refl refl refl
