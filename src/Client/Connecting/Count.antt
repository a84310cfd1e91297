-- ===== src/Client/Connecting/Count.antt =====
-- tcp_client.cpp, TcpClient::__RunConnect: the time of the last connection and the count of reconnects.
use go_socket_client.Prelude.{
  ℕ, ◌≡◌, refl, ◌∙◌, inl, inr, Bool, true, false, ◌||◌, arith, ◌==◌, if◌then◌else◌, Option-cases,
}
use go_socket_client.Packet.Error.{Outcome, ok, throw, undefined, ◌>>=◌}
use go_socket_client.Packet.Reader.{Stream}
use go_socket_client.Packet.Gzip.{Gzip}
use go_socket_client.Packet.Message.{Message, ReturnCode}
use go_socket_client.Packet.Message.Decode.{decode_message}
use go_socket_client.Connect.Dns.{make_addrs, get_host_by_name}
use go_socket_client.Client.{Client, ConnectStatus, connecting}
use go_socket_client.Client.Calls.{clear_connect_breaker, set_connect_status}
use go_socket_client.Client.Connecting.{
  Meeting, RetConn, run_connect, write_message, connect_message, as_conn_ack, refresh_count,
  on_return_code, on_answer, on_sent, say_hello, reach, is_no_net, is_empty,
}

module _ {ℓ} {C : Type ℓ} where
  -- The two numbers are the same.
  abbrev pub SameCount : Client C → Client C → Type 0
  SameCount c d = (d.last_conn_tick ≡ c.last_conn_tick) × (d.reconnect_count ≡ c.reconnect_count)

  -- A run that returns keeps them.
  abbrev pub KeepsCount : Client C → Outcome (RetConn × Client C × Stream) → Type 0
  KeepsCount c undefined = Unit
  KeepsCount c (throw e) = Unit
  KeepsCount c (ok (r, d, s)) = SameCount c d

  KeepsCount-trans :
      (c d : Client C) (o : Outcome (RetConn × Client C × Stream))
      → SameCount c d
      → KeepsCount d o
      → KeepsCount c o
  KeepsCount-trans c d undefined h k = tt
  KeepsCount-trans c d (throw e) h k = tt
  KeepsCount-trans c d (ok (r, d', s)) h k = (k.0 ∙ h.0, k.1 ∙ h.1)

  if-KeepsCount :
      (c : Client C) (b : Bool) (m n : Outcome (RetConn × Client C × Stream))
      → KeepsCount c m
      → KeepsCount c n
      → KeepsCount c (if b then m else n)
  if-KeepsCount c true m n h k = h
  if-KeepsCount c false m n h k = k

  >>=-KeepsCount {κ} :
      {B : Type κ} (c : Client C) (m : Outcome B) (f : B → Outcome (RetConn × Client C × Stream))
      → ((b : B) → KeepsCount c (f b))
      → KeepsCount c (m >>= f)
  >>=-KeepsCount c undefined f k = tt
  >>=-KeepsCount c (throw e) f k = tt
  >>=-KeepsCount c (ok b) f k = k b

  on_return_code-SameCount :
      (code : ReturnCode) (c : Client C) → SameCount c (on_return_code code c).1
  unfolding on_return_code
  on_return_code-SameCount code c = ground (arith, code)

  on_answer-KeepsCount :
      (eagain : ℕ) (c : Client C) (o : Outcome (Message × Stream))
      → KeepsCount c (on_answer eagain c o)
  unfolding on_answer
  on_answer-KeepsCount eagain c undefined = tt
  on_answer-KeepsCount eagain c (throw e) =
      if-KeepsCount c (e.error_no == eagain) _ _ (refl, refl) (refl, refl)
  on_answer-KeepsCount eagain c (ok (m, s)) =
      >>=-KeepsCount c (as_conn_ack m) _ (λ code. on_return_code-SameCount code c)

  on_sent-KeepsCount :
      (gzip : Gzip) (eagain : ℕ) (c : Client C) (s : Stream) (o : Outcome (Unit {0}))
      → KeepsCount c (on_sent gzip eagain c s o)
  unfolding on_sent
  on_sent-KeepsCount gzip eagain c s undefined = tt
  on_sent-KeepsCount gzip eagain c s (throw e) = (refl, refl)
  on_sent-KeepsCount gzip eagain c s (ok u) = on_answer-KeepsCount eagain c (decode_message gzip s)

  say_hello-KeepsCount :
      (gzip : Gzip) (w : Meeting) (c : Client C) (s : Stream) → KeepsCount c (say_hello gzip w c s)
  unfolding say_hello
  say_hello-KeepsCount gzip w c s = elim (Option-cases w.connect_info) [
    | inl e ↦ rw (say_hello, e) (refl, refl)
    | inr (info, e) ↦
        rw (say_hello, e)
          (on_sent-KeepsCount gzip w.eagain c s
            (write_message gzip (connect_message info) w.write_error))
  ]

  reach-KeepsCount :
      (gzip : Gzip) (w : Meeting) (c : Client C) (s : Stream) → KeepsCount c (reach gzip w c s)
  unfolding reach
  reach-KeepsCount gzip w c s =
      elim (Option-cases (get_host_by_name w.lookup c.host c.backup_ip w.cache_ips).0) [
        | inl e ↦ rw (reach, e) (refl, refl)
        | inr (ips, e) ↦
            rw (reach, e)
              (>>=-KeepsCount c (make_addrs 3 0 ips w.port w.is_tls) _ (λ addrs.
                if-KeepsCount c (w.valid_socket addrs) _ _
                  (if-KeepsCount c w.takes_timeouts _ _
                    (say_hello-KeepsCount gzip w (record c { has_socket = true }) s) (refl, refl))
                  (refl, refl)))
      ]

  set_connect_status-SameCount :
      (status : ConnectStatus) (c : Client C) → SameCount c (set_connect_status status c)
  unfolding set_connect_status
  set_connect_status-SameCount status c = ground arith

  -- The branch for more than five minutes is not taken before the first connection.
  refresh_count-first : (tick : ℕ) (c : Client C) → c.last_conn_tick ≡ 0 → refresh_count tick c ≡ c
  unfolding refresh_count
  refresh_count-first tick c h = ground (arith, h)

  -- While the time of the last connection is 0, as the constructor sets it, a run of __RunConnect that
  -- returns leaves it 0 and keeps the count of reconnects, whatever the clock says: the reset after
  -- five minutes never comes.
  pub run_connect-KeepsCount :
      (gzip : Gzip) (w : Meeting) (c : Client C) (s : Stream)
      → c.last_conn_tick ≡ 0
      → KeepsCount c (run_connect gzip w c s)
  unfolding run_connect clear_connect_breaker
  run_connect-KeepsCount gzip w c s h =
      let d = set_connect_status connecting c in
      let k = set_connect_status-SameCount connecting c in
      let e : refresh_count w.tick d ≡ d = refresh_count-first w.tick d (k.0 ∙ h) in
      let same : SameCount c (refresh_count w.tick d) = rw (e) k in
      let d' = refresh_count w.tick d in
      KeepsCount-trans c d' _ same (
        if-KeepsCount d' (is_no_net d'.net_type) _ _ (refl, refl)
          (if-KeepsCount d' (is_empty d'.host || is_empty d'.backup_ip) _ _ (refl, refl)
            (reach-KeepsCount gzip w (clear_connect_breaker d') s)))
