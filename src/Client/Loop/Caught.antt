-- ===== src/Client/Loop/Caught.antt =====
-- tcp_client.cpp: connecting lets no exception out.
use go_socket_client.Prelude.{
  ℕ, zero, suc, refl, ◌≢◌, inl, inr, Bool, true, false, List, [], ◌==◌, if◌then◌else◌, Option-cases,
  get_elem?,
}
use go_socket_client.Packet.Error.{TcpException, Outcome, ok, throw, undefined, ◌>>=◌}
use go_socket_client.Packet.Reader.{Stream}
use go_socket_client.Packet.Gzip.{Bytes, Gzip}
use go_socket_client.Packet.Message.{
  Message, connect, conn_ack, ping_req, ping_resp, disconnect, send_req, send_resp,
}
use go_socket_client.Packet.Message.Decode.{decode_message}
use go_socket_client.Connect.Dns.{make_addrs, get_host_by_name}
use go_socket_client.Client.{Client}
use go_socket_client.Client.Connecting.{
  Meeting, run_connect, as_conn_ack, on_answer, on_sent, say_hello, reach,
}

-- No exception leaves the code.
unfoldable pub IsCaught {ℓ} : {A : Type ℓ} → Outcome A → Type ℓ
IsCaught o = (e : TcpException) → o ≢ throw e

pub undefined-IsCaught {ℓ} : (A : Type ℓ) → IsCaught {A = A} undefined
unfolding IsCaught
undefined-IsCaught A e h = cc

module _ {ℓ} {A : Type ℓ} where
  pub ok-IsCaught : (a : A) → IsCaught (ok a)
  unfolding IsCaught
  ok-IsCaught a e h = cc

  pub >>=-IsCaught {κ} :
      {B : Type κ} (m : Outcome A) (f : A → Outcome B)
      → IsCaught m
      → ((a : A) → IsCaught (f a))
      → IsCaught (m >>= f)
  unfolding IsCaught
  >>=-IsCaught (ok a) f h k = k a
  >>=-IsCaught (throw x) f h k = absurd (h x refl)
  >>=-IsCaught undefined f h k = undefined-IsCaught _

  pub if-IsCaught :
      (b : Bool) (m n : Outcome A) → IsCaught m → IsCaught n → IsCaught (if b then m else n)
  if-IsCaught true m n h k = h
  if-IsCaught false m n h k = k

pub ruleset caught_rules = (ok-IsCaught, undefined-IsCaught, if-IsCaught, >>=-IsCaught)

pub make_addrs-IsCaught :
    (n i : ℕ) (ips : List Bytes) (port : ℕ) (is_tls : Bool)
    → IsCaught (make_addrs n i ips port is_tls)
unfolding make_addrs
make_addrs-IsCaught zero i ips port is_tls = ok-IsCaught []
make_addrs-IsCaught (suc n) i ips port is_tls = elim (Option-cases (get_elem? ips i)) [
  | inl e ↦ rw (make_addrs, e) (undefined-IsCaught _)
  | inr (ip, e) ↦
      rw (make_addrs, e)
        (>>=-IsCaught (make_addrs n _ ips port is_tls) _ (make_addrs-IsCaught n _ ips port is_tls)
          (λ a. ok-IsCaught _))
]

pub as_conn_ack-IsCaught : (m : Message) → IsCaught (as_conn_ack m)
unfolding as_conn_ack
as_conn_ack-IsCaught (conn_ack m) = ok-IsCaught _
as_conn_ack-IsCaught (connect m) = undefined-IsCaught _
as_conn_ack-IsCaught (ping_req m) = undefined-IsCaught _
as_conn_ack-IsCaught (ping_resp m) = undefined-IsCaught _
as_conn_ack-IsCaught (disconnect m) = undefined-IsCaught _
as_conn_ack-IsCaught (send_req m) = undefined-IsCaught _
as_conn_ack-IsCaught (send_resp m) = undefined-IsCaught _

module _ {ℓ} {C : Type ℓ} (gzip : Gzip) where
  pub on_answer-IsCaught :
      (eagain : ℕ) (c : Client C) (o : Outcome (Message × Stream)) → IsCaught (on_answer eagain c o)
  unfolding on_answer
  on_answer-IsCaught eagain c (ok (m, s)) =
      >>=-IsCaught (as_conn_ack m) _ (as_conn_ack-IsCaught m) (λ r. ok-IsCaught _)
  on_answer-IsCaught eagain c (throw x) =
      if-IsCaught (x.error_no == eagain) _ _ (ok-IsCaught _) (ok-IsCaught _)
  on_answer-IsCaught eagain c undefined = undefined-IsCaught _

  pub on_sent-IsCaught :
      (eagain : ℕ) (c : Client C) (s : Stream) (o : Outcome (Unit {0}))
      → IsCaught (on_sent gzip eagain c s o)
  unfolding on_sent
  on_sent-IsCaught eagain c s (ok u) = on_answer-IsCaught eagain c (decode_message gzip s)
  on_sent-IsCaught eagain c s (throw x) = ok-IsCaught _
  on_sent-IsCaught eagain c s undefined = undefined-IsCaught _

  pub say_hello-IsCaught :
      (w : Meeting) (c : Client C) (s : Stream) → IsCaught (say_hello gzip w c s)
  unfolding say_hello
  say_hello-IsCaught w c s = elim (Option-cases w.connect_info) [
    | inl e ↦ rw (e) (ok-IsCaught _)
    | inr (info, e) ↦ rw (e) (on_sent-IsCaught w.eagain c s _)
  ]

  pub reach-IsCaught : (w : Meeting) (c : Client C) (s : Stream) → IsCaught (reach gzip w c s)
  unfolding reach
  reach-IsCaught w c s =
      elim (Option-cases (get_host_by_name w.lookup c.host c.backup_ip w.cache_ips).0) [
        | inl e ↦ rw (reach, e) (ok-IsCaught _)
        | inr (ips, e) ↦
            rw (reach, e)
              (>>=-IsCaught (make_addrs 3 0 ips w.port w.is_tls) _
                (make_addrs-IsCaught 3 0 ips w.port w.is_tls)
                (λ addrs.
                  if-IsCaught (w.valid_socket addrs) _ _
                    (if-IsCaught w.takes_timeouts _ _ (say_hello-IsCaught w _ s) (ok-IsCaught _))
                    (ok-IsCaught _)))
      ]

  pub run_connect-IsCaught :
      (w : Meeting) (c : Client C) (s : Stream) → IsCaught (run_connect gzip w c s)
  unfolding run_connect
  run_connect-IsCaught w c s = search (caught_rules, reach-IsCaught) depth 6
