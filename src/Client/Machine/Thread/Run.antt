-- ===== src/Client/Machine/Thread/Run.antt =====
-- tcp_client.cpp: __Run as a run of events.
use go_socket_client.Prelude.{ℕ, List}
use go_socket_client.Packet.Error.{◌>>=◌, Outcome, ok, throw, undefined}
use go_socket_client.Packet.Reader.{Stream}
use go_socket_client.Packet.Gzip.{Gzip}
use go_socket_client.Client.{Client}
use go_socket_client.Client.Calls.{set_connect_status}
use go_socket_client.Client.Connecting.{
  Meeting, RetConn, conn_success, conn_kickout, conn_failed, conn_timeout, run_connect,
}
use go_socket_client.Client.Loop.{
  Turn, Turned, stay, leave, stop_pings, after_loop, enter, run_client, status_of,
}
use go_socket_client.Client.Machine.{status_changes, pings_stopped, thread_ends, step}
use go_socket_client.Client.Machine.Thread.{ReachesAt, Reaches-trans, by_step, leaves, from_here}
use go_socket_client.Client.Machine.Thread.Turns.{run_read_write-ReachesAt, AllReach}
use go_socket_client.Client.Machine.Thread.Connecting.{MeetsAt, run_connect-MeetsAt}

module _ {ℓ} {C : Type ℓ} where
  after_loop-ReachesAt :
      (now : ℕ) (c : Client C) (x : Outcome (Turned C))
      → ReachesAt c x
      → ReachesAt c (after_loop now x)
  unfolding after_loop stop_pings step ReachesAt
  after_loop-ReachesAt now c (ok (stay d s)) h = h
  after_loop-ReachesAt now c (ok (leave d s)) h =
      let e = stop_pings d in
      Reaches-trans c d _ h
        (Reaches-trans d e _ (by_step pings_stopped d) (by_step (thread_ends now) e))
  after_loop-ReachesAt now c (throw e) h = tt
  after_loop-ReachesAt now c undefined h = tt

  enter-ReachesAt :
      (gzip : Gzip) (w : Meeting) (now : ℕ) (ts : List (Turn C)) (r : RetConn) (c : Client C)
      (s : Stream)
      → AllReach ts
      → ReachesAt c (enter gzip w now ts r c s)
  unfolding enter step
  enter-ReachesAt gzip w now ts conn_success c s h =
      after_loop-ReachesAt now c _ (run_read_write-ReachesAt gzip w.tick ts c s h)
  enter-ReachesAt gzip w now ts conn_kickout c s h = leaves c _ s (by_step (thread_ends now) c)
  enter-ReachesAt gzip w now ts conn_failed c s h = leaves c _ s (by_step (thread_ends now) c)
  enter-ReachesAt gzip w now ts conn_timeout c s h = leaves c _ s (by_step (thread_ends now) c)

  run_from :
      (gzip : Gzip) (w : Meeting) (now : ℕ) (ts : List (Turn C)) (c : Client C)
      (x : Outcome (RetConn × Client C × Stream))
      → AllReach ts
      → MeetsAt c x
      → ReachesAt c
          (x >>= λ r. enter gzip w now ts r.0 (set_connect_status (status_of r.0) r.1) r.2)
  unfolding MeetsAt ReachesAt step
  run_from gzip w now ts c (ok (r, d, s)) h k =
      let e = set_connect_status (status_of r) d in
      from_here c e (enter gzip w now ts r e s)
        (Reaches-trans c d e k (by_step (status_changes (status_of r)) d))
        (enter-ReachesAt gzip w now ts r e s h)
  run_from gzip w now ts c (throw e) h k = tt
  run_from gzip w now ts c undefined h k = tt

  -- The whole of `__Run`, as far as the given turns, in which the other threads take any events during
  -- the select of each turn: if it returns or still runs at the last turn, some run of events makes
  -- the client that it leaves of the one that it began with.
  pub run_client-ReachesAt :
      (gzip : Gzip) (w : Meeting) (now : ℕ) (ts : List (Turn C)) (c : Client C) (s : Stream)
      → AllReach ts
      → ReachesAt c (run_client gzip w now ts c s)
  unfolding run_client
  run_client-ReachesAt gzip w now ts c s h =
      run_from gzip w now ts c (run_connect gzip w c s) h (run_connect-MeetsAt gzip w c s)
