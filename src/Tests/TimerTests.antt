-- ===== src/Tests/TimerTests.antt =====
-- The theorems on common/, socket/ and connect/ at concrete inputs.
use go_socket_client.Prelude.{
  ℕ, ◌*◌, ◌≤◌, ◌<◌, ◌≡◌, refl, ◌⊎◌, true, false, none, some, List, [], ◌∷◌, arith,
}
use go_socket_client.Packet.Error.{ok}
use go_socket_client.Timer.Queue.{
  QueueMessage, Queue, wait_until, wait, begin_pass, end_pass, is_due, has_id,
}
use go_socket_client.Timer.Queue.Schedule.{
  IsOrdered, due, not_due, note_all, begin_pass-due, end_pass-wakes,
}
use go_socket_client.Timer.Queue.Cancelled.{cancel-run, total}
use go_socket_client.Timer.Queue.Passes.{
  World, Event, cancel, start_pass, look_next, call_looked, step, run,
}
use go_socket_client.Connect.Connector.Rounds.{IsSound, rounds-IsSound, rounds-early}
use go_socket_client.Connect.Connector.{
  Connector, Answers, SslResult, ssl_failure, ssl_want_read, ssl_none, new_connector, connected,
  start_ssl, rounds, round, pre_select, after_select, tcp_pre_select, pre_connect_select,
  tcp_after_select, after_connect_select, ssl_part_pre, pre_ssl_select, ssl_part_after,
  after_ssl_select,
}
use go_socket_client.Connect.Dns.{
  Lookup, make_addrs, with_port, get_host_by_name, get_host_by_name-make_addrs, look_up,
  ask_http_dns, or_backup, get_ips,
}

abbrev message : ℕ → ℕ → QueueMessage ℕ
message i t = record { callback = some (10 * i); message_id = i; when = t }

-- Two messages, of which the first is due at 1000.
abbrev two_messages : Queue ℕ
two_messages = record {
  first = message 1 900 ∷ message 2 5000000000 ∷ [];
  current_id = 3;
  has_post = true;
  canceled = (7, true) ∷ [];
}

two_messages-IsOrdered : IsOrdered two_messages.first
two_messages-IsOrdered = ((omega arith, tt), (tt, tt))

begin_pass-due_example :
    ((begin_pass 1000 two_messages).0.callbacks ≡ note_all [] (due 1000 two_messages.first))
    × ((begin_pass 1000 two_messages).1 ≡ record two_messages {
      first = not_due 1000 two_messages.first;
      canceled = [];
      has_post = false;
    })
begin_pass-due_example = begin_pass-due 1000 two_messages two_messages-IsOrdered

end_pass-wakes_example :
    let r = begin_pass 1000 two_messages in
    ((r.1.first ≡ []) × ((end_pass r.0 r.1).0 ≡ wait))
    ⊎ ((m : QueueMessage ℕ) × (rest : List (QueueMessage ℕ)) × (t : ℕ) × (r.1.first ≡ m ∷ rest)
        × ((end_pass r.0 r.1).0 ≡ wait_until t)
        × (1000 < t)
        × (t ≤ m.when)
        × (is_due t m ≡ true))
end_pass-wakes_example = end_pass-wakes 1000 two_messages

-- The run loop has taken the message 1 and not looked yet whether it is cancelled.
abbrev in_pass : World ℕ
in_pass = record { queue = two_messages; pending = (1, 10) ∷ []; looked = none; called = [] }

abbrev later_events : List (Event ℕ)
later_events = look_next ∷ call_looked ∷ start_pass 9000000000 ∷ look_next ∷ call_looked ∷ []

cancel-run_example : total 1 (run later_events (step (cancel 1) in_pass)) ≡ 0
cancel-run_example = cancel-run 1 in_pass later_events (unfold has_id in refl) (tt, tt) tt

abbrev two_ips : Lookup
two_ips = record { http_dns = none; resolved = some ((1 ∷ []) ∷ (2 ∷ []) ∷ []); is_break = false }

two_ips-get_host_by_name :
    (get_host_by_name two_ips (9 ∷ []) (8 ∷ []) []).0 ≡ some ((1 ∷ []) ∷ (2 ∷ []) ∷ [])
unfolding get_host_by_name look_up ask_http_dns or_backup get_ips
two_ips-get_host_by_name = refl

get_host_by_name-make_addrs_example :
    make_addrs 3 0 ((1 ∷ []) ∷ (2 ∷ []) ∷ []) 443 true
    ≡ ok (with_port 443 true ((1 ∷ []) ∷ (2 ∷ []) ∷ (1 ∷ []) ∷ []))
get_host_by_name-make_addrs_example =
    get_host_by_name-make_addrs two_ips (9 ∷ []) (8 ∷ []) [] ((1 ∷ []) ∷ (2 ∷ []) ∷ []) 443 true
      two_ips-get_host_by_name

-- Answers of a round: the TCP connection is made, and SSL_connect gives the result.
abbrev answers : SslResult → Answers
answers result = record {
  tick = 9;
  got_socket = true;
  set_noblo = true;
  connect_begun = true;
  exception_set = false;
  write_set = true;
  read_set = false;
  set_blo = true;
  ssl_result = result;
}

abbrev tls_connector : Connector
tls_connector = new_connector true true 10000

rounds-IsSound_example : IsSound (
    rounds
      ((answers ssl_failure, answers ssl_failure)
        ∷ (answers ssl_want_read, answers ssl_want_read)
        ∷ [])
      tls_connector)
rounds-IsSound_example =
    rounds-IsSound
      ((answers ssl_failure, answers ssl_failure)
        ∷ (answers ssl_want_read, answers ssl_want_read)
        ∷ [])
      tls_connector refl

abbrev open_connector : Connector
open_connector = record tls_connector { status = start_ssl; has_socket = true }

rounds-early_example :
    rounds
      ((answers ssl_none, answers ssl_none) ∷ (answers ssl_none, answers ssl_none) ∷ [])
      open_connector
    ≡ open_connector
rounds-early_example =
    rounds-early ((answers ssl_none, answers ssl_none) ∷ (answers ssl_none, answers ssl_none) ∷ [])
      open_connector refl refl (refl, (refl, tt))

-- Two rounds bring a TLS connector to its goal.
two_rounds :
    (rounds
      ((answers ssl_failure, answers ssl_failure)
        ∷ (answers ssl_want_read, answers ssl_want_read)
        ∷ [])
      tls_connector).status
    ≡ connected
unfolding round pre_select after_select tcp_pre_select pre_connect_select tcp_after_select
    after_connect_select ssl_part_pre pre_ssl_select ssl_part_after after_ssl_select
two_rounds = refl
