-- ===== src/Client/Wakeup/Run.antt =====
-- tcp_client.cpp: no wake-up is lost, however the threads come between one another.
use go_socket_client.Prelude.{◌≡◌, refl, ◌∙◌, Bool, true, false, arith, leb, length}
use go_socket_client.Client.{[], Client, ping_timeout, connected, timeout, not_connect}
use go_socket_client.Client.Calls.{drop_timeout}
use go_socket_client.Client.Loop.{cancel_ping_late}
use go_socket_client.Client.Wakeup.{
  Place, connecting, starting, prepared, selecting, woken, cleared, looking, writing, reading,
  pinging, left, Holder, nobody, breaking_connect, Moment, at, clear_breaker, Step, enqueue,
  enqueue_no_reply, enqueue_disconnect, counts, refuses, opens, fails, connects, prepares, looks,
  wakes, clears, errs, goes_on, gives_up, stays, skips_write, writes, write_fails, skips_read,
  reads, read_fails, skips_ping, pings, ping_fails, ensures, refused, sends, sends_no_reply,
  sends_disconnect, tells, disconnects, breaks_read_write, breaks_connect, ping_fires,
  ping_late_fires, signals, answers_late, gives_up_late,
}
use go_socket_client.Client.Wakeup.Quiet.{
  cancel_ping_late-IsQuieter, IsQuieter-refl, IsQuieter-trans, refresh_count-IsQuieter,
  set_connect_status-IsQuieter, start_ping_late-IsQuieter, prepare-IsQuieter, prepare-quiet,
}
use go_socket_client.Client.Wakeup.Calm.{
  written-IsQuieter, respond_to-IsQuieter, answer-IsQuieter, drop_timeout-IsQuieter,
  make_sure_connected-IsQuieter,
}
use go_socket_client.Client.Wakeup.Awake.{
  IsWorking, clear-IsWorking, is_told, IsAwake, Leads, advance, hold, told-IsAwake,
}
use go_socket_client.Client.Wakeup.Steps.{notify-told, break_read_write-told, dispatch-IsAwake}
use go_socket_client.Client.Wakeup.Others.{
  enqueued-IsAwake, disconnects-IsAwake, fire_ping-IsAwake, fire_ping_late-IsAwake,
  breaks_connect-IsAwake,
}

module _ {ℓ} {C : Type ℓ} where
  -- A step that leaves the client as it is
  move :
      (m : Moment C) (q : Place) → IsAwake m → Leads m.place q m.client → IsAwake (at q m.client m)
  move m q a l = advance m q m.client a (IsQuieter-refl m.client) l

  looks-IsAwake :
      (m : Moment C)
      → m.place ≡ prepared
      → IsAwake m
      → IsAwake (at (selecting (leb 1 (length m.client.message_queue))) m.client m)
  looks-IsAwake m p a = move m _ a (ground (arith, p))

  clears-IsAwake :
      (m : Moment C) (w : Bool)
      → m.place ≡ woken w
      → IsAwake m
      → IsAwake (at (cleared w) (clear_breaker m.client) m)
  unfolding clear_breaker
  clears-IsAwake m w p a = record {
    threaded = a.threaded;
    callback = a.callback;
    working = clear-IsWorking m.client.read_write_breaker a.working;
    code = λ x. cc;
    late = λ x. cc;
    ping = λ x. cc;
    message = λ x. cc;
  }

  -- The thread leaves for a late ping, with a code of its own.
  gives_up-IsAwake :
      (m : Moment C) → IsAwake m → IsAwake (at left (record m.client { dis_code = ping_timeout }) m)
  gives_up-IsAwake m a = record {
    threaded = a.threaded;
    callback = a.callback;
    working = a.working;
    code = λ x. cc;
    late = λ x. cc;
    ping = λ x. cc;
    message = λ x. cc;
  }

  told :
      (m : Moment C) (d : Client C) (k : Holder) (f : Bool)
      → IsAwake m
      → (d.has_thread ≡ m.client.has_thread)
        × (d.ping_alarm.has_callback ≡ m.client.ping_alarm.has_callback)
        × IsWorking d.read_write_breaker
        × (is_told d ≡ true)
      → IsAwake (record m { client = d; holder = k; firing = f })
  told m d k f a h = told-IsAwake d m.place k f (h.0 ∙ a.threaded) (h.1 ∙ a.callback) h.2 h.3

  pub Step-IsAwake : {m n : Moment C} → Step m n → IsAwake m → IsAwake n
  unfolding enqueue enqueue_no_reply enqueue_disconnect
  Step-IsAwake {m} (counts tick p) a =
      advance m connecting _ a (refresh_count-IsQuieter tick m.client) (ground (arith, p))
  Step-IsAwake {m} (refuses p) a = advance m connecting _ a (ground arith) (ground (arith, p))
  Step-IsAwake {m} (opens p) a = advance m connecting _ a (ground arith) (ground (arith, p))
  Step-IsAwake {m} (fails p) a = move m left a (ground (arith, p))
  Step-IsAwake {m} (connects p) a =
      advance m starting _ a (set_connect_status-IsQuieter connected m.client) (ground (arith, p))
  Step-IsAwake {m} (prepares start_tick t p) a =
      advance m prepared _ a (prepare-IsQuieter start_tick t m.client)
        (ground (arith, p, prepare-quiet start_tick t m.client a.callback))
  Step-IsAwake {m} (looks p n) a = looks-IsAwake m p a
  Step-IsAwake {m} (wakes w p) a = move m (woken w) a (ground (arith, p))
  Step-IsAwake {m} (clears w p) a = clears-IsAwake m w p a
  Step-IsAwake {m} (errs w p) a = move m left a (ground (arith, p))
  Step-IsAwake {m} (goes_on w p e) a = move m (looking w) a (ground (arith, p, e))
  Step-IsAwake {m} (gives_up w p e) a = gives_up-IsAwake m a
  Step-IsAwake {m} (stays w p e) a = move m (writing w) a (ground (arith, p, e))
  Step-IsAwake {m} (skips_write w p) a = move m reading a (ground (arith, p))
  Step-IsAwake {m} (writes now x rest p e) a =
      advance m reading _ a (written-IsQuieter now x rest m.client e) (ground (arith, p))
  Step-IsAwake {m} (write_fails p) a = move m left a (ground (arith, p))
  Step-IsAwake {m} (skips_read p) a = move m pinging a (ground (arith, p))
  Step-IsAwake {m} (reads t x p e) a = dispatch-IsAwake t x m p e a
  Step-IsAwake {m} (read_fails p) a = move m left a (ground (arith, p))
  Step-IsAwake {m} (skips_ping p e) a = move m starting a (ground (arith, p, e))
  Step-IsAwake {m} (pings now p e) a =
      advance m starting _ a
        (IsQuieter-trans m.client (cancel_ping_late m.client) _
          (cancel_ping_late-IsQuieter m.client)
          (start_ping_late-IsQuieter now (cancel_ping_late m.client)))
        (ground (arith, p))
  Step-IsAwake {m} (ping_fails p) a = move m left a (ground (arith, p))
  Step-IsAwake {m} ensures a = hold m _ a (make_sure_connected-IsQuieter m.client a.threaded)
  Step-IsAwake {m} (refused func e) a =
      hold m _ a (respond_to-IsQuieter func not_connect [] m.client)
  Step-IsAwake {m} (sends kind payload content func n e) a = enqueued-IsAwake m _ n a refl
  Step-IsAwake {m} (sends_no_reply kind payload n e) a = enqueued-IsAwake m _ n a refl
  Step-IsAwake {m} (sends_disconnect n e) a = enqueued-IsAwake m _ n a refl
  Step-IsAwake {m} (tells h) a = told m _ nobody m.firing a (notify-told m.client a.working)
  Step-IsAwake {m} (disconnects code again n e) a = disconnects-IsAwake m code again n a
  Step-IsAwake {m} (breaks_read_write h) a =
      told m _ breaking_connect m.firing a (break_read_write-told m.client a.working)
  Step-IsAwake {m} (breaks_connect takes h) a = breaks_connect-IsAwake takes m h a
  Step-IsAwake {m} (ping_fires f e) a = fire_ping-IsAwake m a
  Step-IsAwake {m} (ping_late_fires f e) a = fire_ping_late-IsAwake m a
  Step-IsAwake {m} (signals f) a = told m _ m.holder false a (notify-told m.client a.working)
  Step-IsAwake {m} (answers_late i) a = hold m _ a (
      IsQuieter-trans m.client (drop_timeout i m.client) _ (drop_timeout-IsQuieter i m.client)
        (answer-IsQuieter i timeout [] (drop_timeout i m.client)))
  Step-IsAwake {m} gives_up_late a = hold m _ a (ground arith)
