-- ===== src/Tests/TlsTests.antt =====
-- The theorem on TLS records over a small OpenSSL, and the sockets at work.
use go_socket_client.Prelude.{
  ℕ, ◌<◌, ◌≡◌, refl, Bool, true, false, none, some, List, [], ◌∷◌, ◌++◌, arith, length, take, drop,
}
use go_socket_client.Packet.Error.{ok, throw, exception, socket_close, invalid_socket}
use go_socket_client.Packet.Gzip.{Bytes}
use go_socket_client.Packet.Reader.{stream, read_full}
use go_socket_client.Socket.TcpSocket.{
  ReadAnswer, gave, read_failed, new_socket, connect, close, free_ssl, close_descriptor, took,
  write, writer_write,
}
use go_socket_client.Socket.Tls.{reads-unseen}
use go_socket_client.Socket.Ssl.{OpenSsl, reads, ssl_full}
use go_socket_client.Client.Loop.{stay, read_one}
use go_socket_client.Tests.PacketTests.{toy_gzip}
use go_socket_client.Tests.ClientTests.{quiet_turn, busy_client}

abbrev toy_read : ℕ → Bytes × List Bytes → ReadAnswer × (Bytes × List Bytes)
toy_read n (x ∷ xs, rs) = (gave (take n (x ∷ xs)), (drop n (x ∷ xs), rs))
toy_read n ([], r ∷ rs) = (gave (take n r), (drop n r, rs))
toy_read n ([], []) = (read_failed 2, ([], []))

abbrev toy_readable : List Bytes → Bool
toy_readable [] = false
toy_readable (r ∷ rs) = true

toy_readable_none : (s : Bytes × List Bytes) → s.1 ≡ [] → toy_readable s.1 ≡ false
toy_readable_none (b, []) h = refl
toy_readable_none (b, r ∷ rs) h = cc

toy_buffered :
    (n : ℕ) (s : Bytes × List Bytes)
    → 0 < n
    → 0 < length s.0
    → ((toy_read n s).0 ≡ gave (take n s.0))
      × ((toy_read n s).1.0 ≡ drop n s.0)
      × ((toy_read n s).1.1 ≡ s.1)
toy_buffered n (x ∷ xs, rs) h l = (refl, refl, refl)
toy_buffered n ([], rs) h l = absurd (omega (arith, l))

toy_record :
    (n : ℕ) (s : Bytes × List Bytes) (r : Bytes) (rs : List Bytes)
    → 0 < n
    → 0 < length r
    → s.0 ≡ []
    → s.1 ≡ r ∷ rs
    → ((toy_read n s).0 ≡ gave (take n r))
      × ((toy_read n s).1.0 ≡ drop n r)
      × ((toy_read n s).1.1 ≡ rs)
toy_record n (x ∷ xs, ts) r rs h l e f = ground (arith, e)
toy_record n ([], []) r rs h l e f = ground (arith, f)
toy_record n ([], t ∷ ts) r rs h l e f = ground (arith, f)

abbrev toy_ssl : OpenSsl
toy_ssl = record {
  State = Bytes × List Bytes;
  ssl_read = toy_read;
  buffered = λ s. s.0;
  records = λ s. s.1;
  readable = λ s. toy_readable s.1;
  readable_none = toy_readable_none;
  read_buffered = toy_buffered;
  read_record = toy_record;
}

-- Two PingResp messages in one record: the second is not seen.
abbrev two_pings : Bytes × List Bytes
two_pings = ([], ((0x50 ∷ 0 ∷ []) ++ (0x50 ∷ 0 ∷ [])) ∷ [])

reads-unseen_example :
    (xs : List Bytes) × (s' : Bytes × List Bytes) × (reads (ssl_full toy_ssl) (1 ∷ 1 ∷ []) two_pings
      ≡ ok (xs, s'))
    × (reads read_full
          (1 ∷ 1 ∷ [])
          (stream ((0x50 ∷ 0 ∷ []) ++ (0x50 ∷ 0 ∷ [])) (exception socket_close))
        ≡ ok (xs, stream (0x50 ∷ 0 ∷ []) (exception socket_close)))
    × (s'.0 ≡ 0x50 ∷ 0 ∷ [])
    × (read_one toy_gzip
          (record quiet_turn { readable = toy_readable s'.1 })
          busy_client
          (stream [] (exception socket_close))
        ≡ ok (stay busy_client (stream [] (exception socket_close))))
reads-unseen_example =
    reads-unseen toy_ssl (1 ∷ 1 ∷ []) (0x50 ∷ 0 ∷ []) (0x50 ∷ 0 ∷ []) two_pings
      (exception socket_close) toy_gzip quiet_turn busy_client (stream [] (exception socket_close))
      refl (omega arith) (refl, refl)

-- Close frees what Connect made, once.
closes_once :
    let s =
      (connect (record { makes = true; done = false; error = 2 }) (new_socket true (some 9))).1 in
    ((close s).0 ≡ free_ssl ∷ close_descriptor 9 ∷ []) × ((close (close s).1).0 ≡ [])
unfolding connect new_socket close
closes_once = (refl, refl)

-- A send that takes one byte of many is no error.
short_write :
    (write 0 (took 1) (new_socket false (some 9)) ≡ ok tt)
    × (writer_write 0 (took 1) none ≡ throw (exception invalid_socket))
unfolding write writer_write new_socket
short_write = (refl, refl)
