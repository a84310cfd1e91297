-- ===== src/Client/Machine/Thread/Connecting.antt =====
-- tcp_client.cpp: __RunConnect as a run of events.
use go_socket_client.Prelude.{ℕ, Bool, true, false, Option, none, some, ◌==◌, if◌then◌else◌}
use go_socket_client.Packet.Error.{◌>>=◌, Outcome, ok, throw, undefined}
use go_socket_client.Packet.Reader.{Stream}
use go_socket_client.Packet.Gzip.{Gzip}
use go_socket_client.Packet.Message.{
  Message, ReturnCode, not_authorized, connect, conn_ack, ping_req, ping_resp, disconnect, send_req,
  send_resp,
}
use go_socket_client.Packet.Message.Decode.{decode_message}
use go_socket_client.Connect.Dns.{get_host_by_name, make_addrs}
use go_socket_client.Client.{Message, Client, connecting}
use go_socket_client.Client.Calls.{clear_connect_breaker, set_connect_status}
use go_socket_client.Client.Connecting.{
  Meeting, RetConn, conn_failed, run_connect, reach, say_hello, on_sent, on_answer, on_return_code,
  as_conn_ack, write_message, connect_message, refresh_count,
}
use go_socket_client.Client.Machine.{
  connect_select_clears, status_changes, count_refreshed, reconnect_refused, socket_opened, step,
}
use go_socket_client.Client.Machine.Thread.{Reaches, Reaches-refl, Reaches-trans, by_step}

module _ {ℓ} {C : Type ℓ} where
  -- The client that __RunConnect leaves, if it returns.
  unfoldable pub MeetsAt : Client C → Outcome (RetConn × Client C × Stream) → Type ℓ
  MeetsAt c (ok (r, d, s)) = Reaches c d
  MeetsAt c (throw e) = Unit
  MeetsAt c undefined = Unit

  if-MeetsAt :
      (c : Client C) (b : Bool) (x y : Outcome (RetConn × Client C × Stream))
      → MeetsAt c x
      → MeetsAt c y
      → MeetsAt c (if b then x else y)
  if-MeetsAt c true x y h k = h
  if-MeetsAt c false x y h k = k

  on_return_code-Reaches : (r : ReturnCode) (c : Client C) → Reaches c (on_return_code r c).1
  unfolding on_return_code step
  on_return_code-Reaches r c = elim r as (λ r. Reaches c (on_return_code r c).1) [
    | not_authorized ↦ by_step reconnect_refused c
    | _ ↦ Reaches-refl c
  ]

  on_answer-MeetsAt :
      (eagain : ℕ) (c : Client C) (x : Outcome (Message × Stream))
      → MeetsAt c (on_answer eagain c x)
  unfolding on_answer as_conn_ack MeetsAt
  on_answer-MeetsAt eagain c (ok (conn_ack m, s)) = on_return_code-Reaches m.return_code c
  on_answer-MeetsAt eagain c (ok (connect m, s)) = tt
  on_answer-MeetsAt eagain c (ok (ping_req m, s)) = tt
  on_answer-MeetsAt eagain c (ok (ping_resp m, s)) = tt
  on_answer-MeetsAt eagain c (ok (disconnect m, s)) = tt
  on_answer-MeetsAt eagain c (ok (send_req m, s)) = tt
  on_answer-MeetsAt eagain c (ok (send_resp m, s)) = tt
  on_answer-MeetsAt eagain c (throw e) =
      if-MeetsAt c (e.error_no == eagain) _ _ (Reaches-refl c) (Reaches-refl c)
  on_answer-MeetsAt eagain c undefined = tt

  on_sent-MeetsAt :
      (gzip : Gzip) (eagain : ℕ) (c : Client C) (s : Stream) (w : Outcome (Unit {0}))
      → MeetsAt c (on_sent gzip eagain c s w)
  unfolding on_sent MeetsAt
  on_sent-MeetsAt gzip eagain c s (ok u) = on_answer-MeetsAt eagain c (decode_message gzip s)
  on_sent-MeetsAt gzip eagain c s (throw e) = Reaches-refl c
  on_sent-MeetsAt gzip eagain c s undefined = tt

  meets : (c d : Client C) (r : RetConn) (s : Stream) → Reaches c d → MeetsAt c (ok (r, d, s))
  unfolding MeetsAt
  meets c d r s h = h

  meet_from :
      (c d : Client C) (x : Outcome (RetConn × Client C × Stream))
      → Reaches c d
      → MeetsAt d x
      → MeetsAt c x
  unfolding MeetsAt
  meet_from c d (ok (r, e, s)) h k = Reaches-trans c d e h k
  meet_from c d (throw e) h k = tt
  meet_from c d undefined h k = tt

  option-MeetsAt {ℓ'} :
      {A : Type ℓ'} (c : Client C) (o : Option A) (x : Outcome (RetConn × Client C × Stream))
      (f : A → Outcome (RetConn × Client C × Stream))
      → MeetsAt c x
      → ((a : A) → MeetsAt c (f a))
      → MeetsAt c (elim o [ none ↦ x | some a ↦ f a ])
  option-MeetsAt c none x f h k = h
  option-MeetsAt c (some a) x f h k = k a

  bind-MeetsAt {ℓ'} :
      {A : Type ℓ'} (c : Client C) (x : Outcome A) (f : A → Outcome (RetConn × Client C × Stream))
      → ((a : A) → MeetsAt c (f a))
      → MeetsAt c (x >>= f)
  unfolding MeetsAt
  bind-MeetsAt c (ok a) f h = h a
  bind-MeetsAt c (throw e) f h = tt
  bind-MeetsAt c undefined f h = tt

  say_hello-MeetsAt :
      (gzip : Gzip) (w : Meeting) (c : Client C) (s : Stream) → MeetsAt c (say_hello gzip w c s)
  unfolding say_hello
  say_hello-MeetsAt gzip w c s =
      option-MeetsAt c w.connect_info _ _ (meets c c conn_failed s (Reaches-refl c)) (λ info.
        on_sent-MeetsAt gzip w.eagain c s (write_message gzip (connect_message info) w.write_error))

  reach-MeetsAt :
      (gzip : Gzip) (w : Meeting) (c : Client C) (s : Stream) → MeetsAt c (reach gzip w c s)
  unfolding reach step
  reach-MeetsAt gzip w c s =
      let d = record c { has_socket = true } in
      let h = by_step socket_opened c in
      option-MeetsAt c (get_host_by_name w.lookup c.host c.backup_ip w.cache_ips).0 _ _
        (meets c c conn_failed s (Reaches-refl c))
        (λ ips. bind-MeetsAt c (make_addrs 3 0 ips w.port w.is_tls) _ (λ addrs.
          if-MeetsAt c (w.valid_socket addrs) _ _
            (if-MeetsAt c w.takes_timeouts _ _ (meet_from c d _ h (say_hello-MeetsAt gzip w d s))
              (meets c d conn_failed s h))
            (meets c c conn_failed s (Reaches-refl c))))

  pub run_connect-MeetsAt :
      (gzip : Gzip) (w : Meeting) (c : Client C) (s : Stream) → MeetsAt c (run_connect gzip w c s)
  unfolding run_connect step
  run_connect-MeetsAt gzip w c s =
      let b = set_connect_status connecting c in
      let d = refresh_count w.tick b in
      meet_from c d _
        (Reaches-trans c b d (by_step (status_changes connecting) c)
          (by_step (count_refreshed w.tick) b))
        (if-MeetsAt d _ _ _ (meets d _ conn_failed s (by_step reconnect_refused d)) (
          if-MeetsAt d _ _ _ (meets d d conn_failed s (Reaches-refl d)) (
            meet_from d (clear_connect_breaker d) _ (by_step connect_select_clears d)
              (reach-MeetsAt gzip w (clear_connect_breaker d) s))))
