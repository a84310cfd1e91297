-- ===== src/Client/Loop/Lifecycle.antt =====
-- tcp_client.cpp: what a run of the client's thread comes to.
use go_socket_client.Prelude.{ℕ, refl, List, [], ◌∷◌}
use go_socket_client.Packet.Error.{Outcome, ok, throw, undefined}
use go_socket_client.Packet.Reader.{Stream}
use go_socket_client.Packet.Gzip.{Gzip}
use go_socket_client.Packet.Message.{Message}
use go_socket_client.Client.{Client}
use go_socket_client.Client.Connecting.{
  Meeting, RetConn, conn_failed, conn_success, conn_timeout, conn_kickout, run_connect,
  write_message,
}
use go_socket_client.Client.Loop.{
  Turn, Turned, stay, leave, after_write, write_front, after_read, after_ping, send_ping, read_one,
  and_then, may_write, react, turn, run_read_write, after_loop, enter, run_client,
}
use go_socket_client.Client.Loop.Caught.{
  IsCaught, undefined-IsCaught, ok-IsCaught, >>=-IsCaught, caught_rules, run_connect-IsCaught,
}

module _ {ℓ} {C : Type ℓ} (gzip : Gzip) where
  and_then-IsCaught :
      (o : Outcome (Turned C)) (f : Client C → Stream → Outcome (Turned C))
      → IsCaught o
      → ((c : Client C) (s : Stream) → IsCaught (f c s))
      → IsCaught (and_then o f)
  unfolding and_then IsCaught
  and_then-IsCaught (ok (stay c s)) f h k = k c s
  and_then-IsCaught (ok (leave c s)) f h k = ok-IsCaught _
  and_then-IsCaught (throw x) f h k = absurd (h x refl)
  and_then-IsCaught undefined f h k = undefined-IsCaught _

  after_write-IsCaught :
      (now : ℕ) (m : Message) (rest : List Message) (c : Client C) (s : Stream)
      (o : Outcome (Unit {0}))
      → IsCaught (after_write now m rest c s o)
  unfolding after_write
  after_write-IsCaught now m rest c s (ok u) = ok-IsCaught _
  after_write-IsCaught now m rest c s (throw x) = ok-IsCaught _
  after_write-IsCaught now m rest c s undefined = undefined-IsCaught _

  after_read-IsCaught :
      (t : Turn C) (c : Client C) (o : Outcome (Message × Stream)) → IsCaught (after_read t c o)
  unfolding after_read
  after_read-IsCaught t c (ok (m, s')) = ok-IsCaught _
  after_read-IsCaught t c (throw x) = ok-IsCaught _
  after_read-IsCaught t c undefined = undefined-IsCaught _

  after_ping-IsCaught :
      (t : Turn C) (c : Client C) (s : Stream) (o : Outcome (Unit {0}))
      → IsCaught (after_ping t c s o)
  unfolding after_ping
  after_ping-IsCaught t c s (ok u) = ok-IsCaught _
  after_ping-IsCaught t c s (throw x) = ok-IsCaught _
  after_ping-IsCaught t c s undefined = undefined-IsCaught _

  write_front-IsCaught :
      (t : Turn C) (ms : List Message) (c : Client C) (s : Stream)
      → IsCaught (write_front gzip t ms c s)
  unfolding write_front
  write_front-IsCaught t [] c s = ok-IsCaught _
  write_front-IsCaught t (m ∷ rest) c s =
      after_write-IsCaught t.now m rest c s (write_message gzip m t.write_error)

  read_one-IsCaught : (t : Turn C) (c : Client C) (s : Stream) → IsCaught (read_one gzip t c s)
  unfolding read_one
  read_one-IsCaught t c s = search (caught_rules, after_read-IsCaught) depth 5

  send_ping-IsCaught : (t : Turn C) (c : Client C) (s : Stream) → IsCaught (send_ping gzip t c s)
  unfolding send_ping
  send_ping-IsCaught t c s = search (caught_rules, after_ping-IsCaught) depth 5

  may_write-IsCaught :
      (t : Turn C) (before c : Client C) (s : Stream) → IsCaught (may_write t before c s gzip)
  unfolding may_write
  may_write-IsCaught t before c s = search (caught_rules, write_front-IsCaught) depth 5

  react-IsCaught :
      (t : Turn C) (before c : Client C) (s : Stream) → IsCaught (react gzip t before c s)
  unfolding react
  react-IsCaught t before c s =
      search
        (caught_rules, and_then-IsCaught, may_write-IsCaught, read_one-IsCaught, send_ping-IsCaught)
        depth 8

  run_read_write-IsCaught :
      (start : ℕ) (ts : List (Turn C)) (c : Client C) (s : Stream)
      → IsCaught (run_read_write gzip start ts c s)
  unfolding run_read_write turn
  run_read_write-IsCaught start [] c s = ok-IsCaught _
  run_read_write-IsCaught start (t ∷ ts) c s =
      and_then-IsCaught _ _ (react-IsCaught t _ _ s) (run_read_write-IsCaught start ts)

  after_loop-IsCaught :
      (now : ℕ) (o : Outcome (Turned C)) → IsCaught o → IsCaught (after_loop now o)
  unfolding IsCaught after_loop
  after_loop-IsCaught now (ok (stay c s)) h = ok-IsCaught _
  after_loop-IsCaught now (ok (leave c s)) h = ok-IsCaught _
  after_loop-IsCaught now (throw x) h = absurd (h x refl)
  after_loop-IsCaught now undefined h = undefined-IsCaught _

  enter-IsCaught :
      (w : Meeting) (now : ℕ) (ts : List (Turn C)) (r : RetConn) (c : Client C) (s : Stream)
      → IsCaught (enter gzip w now ts r c s)
  unfolding enter
  enter-IsCaught w now ts conn_success c s =
      after_loop-IsCaught now _ (run_read_write-IsCaught w.tick ts c s)
  enter-IsCaught w now ts conn_failed c s = ok-IsCaught _
  enter-IsCaught w now ts conn_timeout c s = ok-IsCaught _
  enter-IsCaught w now ts conn_kickout c s = ok-IsCaught _

  -- Whatever the lookup, the sockets, the peer's bytes, the writes and the other threads do, no
  -- TcpException leaves the function that the client's thread runs, where it would end the process:
  -- neither from connecting nor from any number of turns of the read and write loop.
  pub run_client-IsCaught :
      (w : Meeting) (now : ℕ) (ts : List (Turn C)) (c : Client C) (s : Stream)
      → IsCaught (run_client gzip w now ts c s)
  unfolding run_client
  run_client-IsCaught w now ts c s =
      >>=-IsCaught (run_connect gzip w c s) _ (run_connect-IsCaught gzip w c s)
        (λ r. enter-IsCaught w now ts r.0 _ r.2)
