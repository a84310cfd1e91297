-- ===== src/Tests/ClientTests.antt =====
-- The theorems on tcp_client.cpp at concrete inputs.
use go_socket_client.Prelude.{ℕ, ◌≤◌, ◌<◌, ◌≡◌, refl, ◌≢◌, true, false, none, some, [], ◌∷◌, arith}
use go_socket_client.Prelude.StdMap.{find}
use go_socket_client.Packet.Error.{exception, socket_close}
use go_socket_client.Packet.Reader.{stream}
use go_socket_client.Packet.Message.{SendResp, new_header, send_resp_type}
use go_socket_client.Timer.Alarm.{new_alarm}
use go_socket_client.Client.{Client, Listeners, new_client, respond, no_error}
use go_socket_client.Client.Calls.{handle_send_resp, wait_disconnect}
use go_socket_client.Client.Calls.Answered.{
  handle_send_resp-twice, wait_disconnect-answers, wait_disconnect-stops, lost,
}
use go_socket_client.Client.Requests.{uint16_max}
use go_socket_client.Client.Requests.Ids.{id_after, id_after-distinct}
use go_socket_client.Client.Connecting.{Meeting, run_connect}
use go_socket_client.Client.Connecting.Count.{KeepsCount, run_connect-KeepsCount}
use go_socket_client.Client.Loop.{Turn, run_client}
use go_socket_client.Client.Loop.Caught.{IsCaught}
use go_socket_client.Client.Loop.Lifecycle.{run_client-IsCaught}
use go_socket_client.Tests.PacketTests.{toy_gzip}

abbrev pub all_listeners : Listeners
all_listeners = record { on_status_change = true; on_send_req = true; on_server_disconnect = true }

-- A client with the requests 3 and 4 on their way; callbacks are numbers.
abbrev pub busy_client : Client ℕ
busy_client = record (new_client (1 ∷ []) (2 ∷ []) all_listeners) {
  has_thread = true;
  callback_map = (3, some 30) ∷ (4, some 40) ∷ [];
  timeout_alarms = (3, new_alarm) ∷ (4, new_alarm) ∷ [];
}

abbrev pub response : ℕ → SendResp
response i = record { header = new_header send_resp_type; message_id = i; payload = 5 ∷ [] }

handle_send_resp-twice_example :
    let d = handle_send_resp (response 3) busy_client in
    (d.effects ≡ respond 30 no_error (5 ∷ []) ∷ [])
    × (find 3 d.callback_map ≡ none)
    × (find 3 d.timeout_alarms ≡ none)
    × (handle_send_resp (response 3) d ≡ d)
handle_send_resp-twice_example =
    handle_send_resp-twice (response 3) (response 3) 30 busy_client (unfold find in refl) refl
      ((omega arith, tt), (tt, tt)) ((omega arith, tt), (tt, tt))

wait_disconnect-answers_example :
    (wait_disconnect true true busy_client).effects ≡ lost ((3, 30) ∷ (4, 40) ∷ [])
wait_disconnect-answers_example =
    wait_disconnect-answers true true ((3, 30) ∷ (4, 40) ∷ []) busy_client refl refl
      ((omega arith, tt), (tt, tt)) (unfold find in (refl, (refl, tt)))

-- The same client after a request without a reply was written, with a breaker that failed.
abbrev quiet_client : Client ℕ
quiet_client = record busy_client {
  timeout_alarms = (0, new_alarm) ∷ busy_client.timeout_alarms;
  should_new_breaker = true;
}

wait_disconnect-stops_example :
    let d = wait_disconnect true true quiet_client in
    (d.effects ≡ [])
    × (d.callback_map ≡ quiet_client.callback_map)
    × (d.timeout_alarms ≡ [])
    × (d.read_write_breaker ≡ quiet_client.read_write_breaker)
    × (d.connect_breaker ≡ quiet_client.connect_breaker)
wait_disconnect-stops_example =
    wait_disconnect-stops true true 0 new_alarm busy_client.timeout_alarms quiet_client refl refl
      (unfold find in refl)

id_after-distinct_example :
    (1 ≤ id_after 2 65533) × (id_after 2 65533 < uint16_max) × (id_after 2 65533 ≢ id_after 9 65533)
id_after-distinct_example =
    id_after-distinct 2 9 65533 (omega arith) (omega arith) (omega arith) (omega arith)

-- A lookup with one address, a valid socket, and a peer that closes at once.
abbrev pub meeting : Meeting
meeting = record {
  tick = 7;
  lookup = record { http_dns = none; resolved = some ((1 ∷ []) ∷ []); is_break = false };
  cache_ips = [];
  port = 443;
  is_tls = true;
  valid_socket = λ addrs. true;
  takes_timeouts = true;
  connect_info = some (6 ∷ []);
  write_error = none;
  eagain = 11;
}

abbrev pub quiet_turn : Turn ℕ
quiet_turn = record {
  tick = 8;
  now = 1000;
  others = λ c. c;
  select_failed = false;
  breaker_exception = false;
  socket_exception = false;
  writable = true;
  readable = true;
  write_error = none;
  ping_error = none;
  breaker_writes = true;
  conn_breaker_writes = true;
}

run_client-IsCaught_example : IsCaught (
    run_client toy_gzip meeting 2000
      (quiet_turn ∷ [])
      busy_client
      (stream (0x11 ∷ []) (exception socket_close)))
run_client-IsCaught_example =
    run_client-IsCaught toy_gzip meeting 2000 (quiet_turn ∷ []) busy_client
      (stream (0x11 ∷ []) (exception socket_close))

run_connect-KeepsCount_example :
    KeepsCount busy_client
      (run_connect toy_gzip meeting busy_client (stream (0x11 ∷ []) (exception socket_close)))
run_connect-KeepsCount_example =
    run_connect-KeepsCount toy_gzip meeting busy_client
      (stream (0x11 ∷ []) (exception socket_close)) refl
