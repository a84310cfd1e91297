-- ===== src/Socket/Tls.antt =====
-- tcp_client.cpp over a TLS socket: what a turn of the loop does not see.
use go_socket_client.Prelude.{
  ℕ, ◌<◌, ◌≡◌, refl, ap, ◌∙◌, List, ◌++◌, arith, length, drop, length-append, drop-append,
}
use go_socket_client.Packet.Error.{TcpException, ok}
use go_socket_client.Packet.Gzip.{Bytes, Gzip}
use go_socket_client.Packet.Reader.{Stream, stream, read_full}
use go_socket_client.Client.{Client}
use go_socket_client.Client.Loop.{Turn, stay, read_one}
use go_socket_client.Socket.Ssl.{OpenSsl, reads, sum, ssl_full, Begins, reads-Begins}

module _ (ssl : OpenSsl) where
  open ssl use {State, buffered, readable}

  -- When the peer sends several messages in one record, the client waits on those behind the first. Of a
  -- record with the bytes `a` and `b`, any calls of ReadFull that take as many bytes as there are in `a`,
  -- which are some, give what they give on the stream of these bytes, and leave `b` in the memory of
  -- OpenSSL. The descriptor is not readable then, so that a turn of the loop reads nothing, whatever
  -- messages `b` holds.
  pub reads-unseen {ℓ} :
      {C : Type ℓ} (ns : List ℕ) (a b : Bytes) (s : State) (e : TcpException) (gzip : Gzip)
      (t : Turn C) (c : Client C) (left : Stream)
      → sum ns ≡ length a
      → 0 < length a
      → Begins ssl (a ++ b) s
      → (xs : List Bytes) × (s' : State) × (reads (ssl_full ssl) ns s ≡ ok (xs, s'))
        × (reads read_full ns (stream (a ++ b) e) ≡ ok (xs, stream b e))
        × (buffered s' ≡ b)
        × (read_one gzip (record t { readable = readable s' }) c left ≡ ok (stay c left))
  unfolding read_one
  reads-unseen ns a b s e gzip t c left l z h =
      let d : drop (sum ns) (a ++ b) ≡ b = ap (λ n. drop n (a ++ b)) l ∙ drop-append a b in
      let (xs, s', f, g, k) =
        reads-Begins ssl ns (a ++ b) s e (omega (arith, l, length-append a b)) (omega (arith, l, z))
          h in
      (
        xs,
        s',
        f,
        g ∙ ap (λ bs. ok (xs, stream bs e)) d,
        k.0 ∙ d,
        rw (ssl.readable_none s' k.1) refl,
      )
