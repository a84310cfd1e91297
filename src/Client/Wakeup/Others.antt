-- ===== src/Client/Wakeup/Others.antt =====
-- tcp_client.cpp: the parts of the other threads keep what is owed to the client's thread.
use go_socket_client.Prelude.{◌≡◌, sym, subst, ◌∙◌, Bool, true, ◌||◌, arith}
use go_socket_client.Timer.Alarm.{Alarm, fire}
use go_socket_client.Client.{Client, DisconnectCode}
use go_socket_client.Client.Calls.{break_connect}
use go_socket_client.Client.Wakeup.{
  nobody, telling, breaking_read_write, breaking_connect, Moment, fire_ping, fire_ping_late,
}
use go_socket_client.Client.Wakeup.Awake.{IsAwake, hold}
use go_socket_client.Client.Wakeup.Steps.{break_connect-IsQuieter}

fire-callback : (a : Alarm) → (fire a).1.has_callback ≡ a.has_callback
unfolding fire
fire-callback a = ground arith

or_true : (b : Bool) → (b || true) ≡ true
or_true b = ground arith

module _ {ℓ} {C : Type ℓ} where
  -- A message is put in the queue, and nothing else changes for the thread.
  pub enqueued-IsAwake :
      (m : Moment C) (d : Client C)
      → m.holder ≡ nobody
      → IsAwake m
      → d ≡ record m.client {
        callback_map = d.callback_map;
        message_queue = d.message_queue;
        current_msg_id = d.current_msg_id;
      }
      → IsAwake (record m { client = d; holder = telling })
  enqueued-IsAwake m d n a e =
      subst (λ c. IsAwake (record m { client = c; holder = telling })) (sym e)
        (record {
          threaded = a.threaded;
          callback = a.callback;
          working = a.working;
          code = λ x. ground (arith, n, a.code x);
          late = a.late;
          ping = a.ping;
          message = λ x. or_true _;
        })

  pub disconnects-IsAwake :
      (m : Moment C) (code : DisconnectCode) (again : Bool)
      → m.holder ≡ nobody
      → IsAwake m
      → IsAwake (record m {
        client = record m.client { dis_code = code; should_reconnect = again };
        holder = breaking_read_write;
      })
  disconnects-IsAwake m code again n a = record {
    threaded = a.threaded;
    callback = a.callback;
    working = a.working;
    code = λ x. or_true _;
    late = a.late;
    ping = a.ping;
    message = λ x. ground (arith, n, a.message x);
  }

  pub fire_ping-IsAwake :
      (m : Moment C) → IsAwake m → IsAwake (record m { client = fire_ping m.client; firing = true })
  unfolding fire_ping
  fire_ping-IsAwake m a = record {
    threaded = a.threaded;
    callback = fire-callback m.client.ping_alarm ∙ a.callback;
    working = a.working;
    code = a.code;
    late = λ x. or_true _;
    ping = λ x. or_true _;
    message = a.message;
  }

  pub fire_ping_late-IsAwake :
      (m : Moment C)
      → IsAwake m
      → IsAwake (record m { client = fire_ping_late m.client; firing = true })
  unfolding fire_ping_late
  fire_ping_late-IsAwake m a = record {
    threaded = a.threaded;
    callback = a.callback;
    working = a.working;
    code = a.code;
    late = λ x. or_true _;
    ping = λ x. or_true _;
    message = a.message;
  }

  pub breaks_connect-IsAwake :
      (takes : Bool) (m : Moment C)
      → m.holder ≡ breaking_connect
      → IsAwake m
      → IsAwake (record m { client = break_connect takes m.client; holder = nobody })
  breaks_connect-IsAwake takes m h a =
      let n = record m { holder = nobody } in
      hold n (break_connect takes m.client)
        (record {
          threaded = a.threaded;
          callback = a.callback;
          working = a.working;
          code = λ x. ground (arith, h, a.code x);
          late = a.late;
          ping = a.ping;
          message = λ x. ground (arith, h, a.message x);
        })
        (break_connect-IsQuieter takes m.client)
