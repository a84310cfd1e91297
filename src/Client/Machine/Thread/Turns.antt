-- ===== src/Client/Machine/Thread/Turns.antt =====
-- tcp_client.cpp: the turns of __RunReadWrite as runs of events.
use go_socket_client.Prelude.{ℕ, ◌≡◌, refl, ap, subst, List, [], ◌∷◌}
use go_socket_client.Packet.Error.{Outcome, ok, throw, undefined}
use go_socket_client.Packet.Reader.{Stream}
use go_socket_client.Packet.Gzip.{Gzip}
use go_socket_client.Packet.Message.{
  conn_ack, connect, disconnect, send_resp, send_req, ping_resp, ping_req,
}
use go_socket_client.Packet.Message.Decode.{decode_message}
use go_socket_client.Client.{Message, Client}
use go_socket_client.Client.Connecting.{write_message}
use go_socket_client.Client.Loop.{
  Turn, prepare, settle, start_ping, dispatch, after_write, write_front, after_read, after_ping,
  send_ping, read_one, may_write, react, turn, run_read_write,
}
use go_socket_client.Client.Calls.{clear_breaker}
use go_socket_client.Client.Machine.{
  select_clears, count_settled, ping_started, ping_late, message_written, response_came,
  request_came, disconnect_came, ping_resp_came, ping_sent, step, write_one,
}
use go_socket_client.Client.Machine.Thread.{
  Reaches, ReachesAt, Reaches-refl, Reaches-trans, by_step, stays, leaves, if-ReachesAt, if-Reaches,
  from_here, and_then-ReachesAt,
}

module _ {ℓ} {C : Type ℓ} where
  pub prepare-Reaches :
      (start_tick : ℕ) (t : Turn C) (c : Client C) → Reaches c (prepare start_tick t c)
  unfolding prepare step
  prepare-Reaches start_tick t c =
      let d = settle start_tick t.tick c in
      let h = by_step (count_settled start_tick t.tick) c in
      if-Reaches c _ d (start_ping t.now d) h
        (Reaches-trans c d _ h (by_step (ping_started t.now) d))

  pub after_write-ReachesAt :
      (now : ℕ) (c : Client C) (m : Message) (rest : List Message) (s : Stream)
      (w : Outcome (Unit {0}))
      → c.message_queue ≡ m ∷ rest
      → ReachesAt c (after_write now m rest c s w)
  unfolding after_write step write_one ReachesAt
  after_write-ReachesAt now c m rest s (ok u) e =
      subst (λ d. Reaches c d) (ap (λ q. write_one now q c) e) (by_step (message_written now) c)
  after_write-ReachesAt now c m rest s (throw x) e = Reaches-refl c
  after_write-ReachesAt now c m rest s undefined e = tt

  pub write_front-ReachesAt :
      (gzip : Gzip) (t : Turn C) (q : List Message) (c : Client C) (s : Stream)
      → c.message_queue ≡ q
      → ReachesAt c (write_front gzip t q c s)
  unfolding write_front ReachesAt
  write_front-ReachesAt gzip t [] c s e = Reaches-refl c
  write_front-ReachesAt gzip t (m ∷ rest) c s e =
      after_write-ReachesAt t.now c m rest s (write_message gzip m t.write_error) e

  pub dispatch-Reaches : (t : Turn C) (m : Message) (c : Client C) → Reaches c (dispatch t m c)
  unfolding dispatch step
  dispatch-Reaches t (ping_resp m) c = by_step ping_resp_came c
  dispatch-Reaches t (send_req m) c = by_step (request_came m) c
  dispatch-Reaches t (send_resp m) c = by_step (response_came m) c
  dispatch-Reaches t (disconnect m) c =
      by_step (disconnect_came t.breaker_writes t.conn_breaker_writes m) c
  dispatch-Reaches t (connect m) c = Reaches-refl c
  dispatch-Reaches t (conn_ack m) c = Reaches-refl c
  dispatch-Reaches t (ping_req m) c = Reaches-refl c

  pub after_read-ReachesAt :
      (t : Turn C) (c : Client C) (r : Outcome (Message × Stream)) → ReachesAt c (after_read t c r)
  unfolding after_read ReachesAt
  after_read-ReachesAt t c (ok (m, s)) = dispatch-Reaches t m c
  after_read-ReachesAt t c (throw e) = Reaches-refl c
  after_read-ReachesAt t c undefined = tt

  pub after_ping-ReachesAt :
      (t : Turn C) (c : Client C) (s : Stream) (w : Outcome (Unit {0}))
      → ReachesAt c (after_ping t c s w)
  unfolding after_ping step ReachesAt
  after_ping-ReachesAt t c s (ok u) = by_step (ping_sent t.now) c
  after_ping-ReachesAt t c s (throw e) = Reaches-refl c
  after_ping-ReachesAt t c s undefined = tt

  pub react-ReachesAt :
      (gzip : Gzip) (t : Turn C) (before c : Client C) (s : Stream)
      → ReachesAt c (react gzip t before c s)
  unfolding react may_write read_one send_ping step
  react-ReachesAt gzip t before c s = if-ReachesAt c _ _ _ (leaves c c s (Reaches-refl c)) (
      if-ReachesAt c _ _ _ (leaves c _ s (by_step ping_late c)) (
        and_then-ReachesAt c _ _
          (and_then-ReachesAt c _ _
            (if-ReachesAt c _ _ _ (write_front-ReachesAt gzip t c.message_queue c s refl)
              (stays c c s (Reaches-refl c)))
            (λ d u.
              if-ReachesAt d _ _ _ (after_read-ReachesAt t d (decode_message gzip u))
                (stays d d u (Reaches-refl d))))
          (λ d u.
            if-ReachesAt d _ _ _ (after_ping-ReachesAt t d u _) (stays d d u (Reaches-refl d)))))

  -- What a run of events by the other threads makes of the client during each of the turns.
  abbrev pub AllReach : List (Turn C) → Type ℓ
  AllReach [] = Unit
  AllReach (t ∷ ts) = ((c : Client C) → Reaches c (t.others c)) × AllReach ts

  pub turn-ReachesAt :
      (gzip : Gzip) (start_tick : ℕ) (t : Turn C) (c : Client C) (s : Stream)
      → ((d : Client C) → Reaches d (t.others d))
      → ReachesAt c (turn gzip start_tick t c s)
  unfolding turn step
  turn-ReachesAt gzip start_tick t c s h =
      let d = prepare start_tick t c in
      let e = t.others d in
      from_here c (clear_breaker e) _
        (Reaches-trans c d _ (prepare-Reaches start_tick t c)
          (Reaches-trans d e _ (h d) (by_step select_clears e)))
        (react-ReachesAt gzip t d (clear_breaker e) s)

  pub run_read_write-ReachesAt :
      (gzip : Gzip) (start_tick : ℕ) (ts : List (Turn C)) (c : Client C) (s : Stream)
      → AllReach ts
      → ReachesAt c (run_read_write gzip start_tick ts c s)
  unfolding run_read_write ReachesAt
  run_read_write-ReachesAt gzip start_tick [] c s h = Reaches-refl c
  run_read_write-ReachesAt gzip start_tick (t ∷ ts) c s h =
      and_then-ReachesAt c _ _ (turn-ReachesAt gzip start_tick t c s h.0)
        (λ d u. run_read_write-ReachesAt gzip start_tick ts d u h.1)
