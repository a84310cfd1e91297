-- ===== src/Packet/TcpIo.antt =====
-- packet/tcp_io.cpp, TcpReader::ReadFull, over socket/tcp_socket.cpp, TcpSocket::Read. What the peer sent
-- stands in the socket in pieces, as they arrived; behind the last one a recv fails, and Read throws the exception `e`. A recv gives what it finds of the first piece.
use go_socket_client.Prelude.{
  drop, take, ℕ, zero, suc, ◌-◌, ◌≤◌, ◌<◌, ◌≡◌, refl, sym, inl, inr, true, false, List, [], ◌∷◌,
  ◌++◌, arith, append-nil, length-take, leb→le, leb, ◌==◌, if◌then◌else◌, Bool-cases, length, All,
}
use go_socket_client.Packet.Error.{TcpException, Outcome, ok, throw, undefined}
use go_socket_client.Packet.Gzip.{Bytes}
use go_socket_client.Packet.Reader.{Stream, stream, read_full}

abbrev pub joined : List Bytes → Bytes
joined [] = []
joined (c ∷ cs) = c ++ joined cs

-- TcpSocket::Read
unfoldable pub socket_read : TcpException → ℕ → List Bytes → Outcome (Bytes × List Bytes)
socket_read e len [] = throw e
socket_read e len (c ∷ cs) =
    if leb (length c) len then ok (c, cs) else ok (take len c, drop len c ∷ cs)

module _ {ℓ} {S : Type ℓ} where
  -- The bytes that were read stand in front of those that the rest of the loop reads.
  unfoldable pub prepend : Bytes → Outcome (Bytes × S) → Outcome (Bytes × S)
  prepend c undefined = undefined
  prepend c (throw x) = throw x
  prepend c (ok (rest, s)) = ok (c ++ rest, s)

  -- The loop of TcpReader::ReadFull with the number of bytes that are missing, over the Read of whichever
  -- socket it has. The fuel bounds its turns.
  unfoldable pub read_loop : (ℕ → S → Outcome (Bytes × S)) → ℕ → ℕ → S → Outcome (Bytes × S)
  read_loop read zero missing s = if missing == 0 then ok ([], s) else undefined
  read_loop read (suc fuel) missing s = if missing == 0 then ok ([], s) else elim (read missing s) [
    | undefined ↦ undefined
    | throw x ↦ throw x
    | ok (c, s') ↦ prepend c (read_loop read fuel (missing - length c) s')
  ]

  pub read_loop-zero :
      (read : ℕ → S → Outcome (Bytes × S)) (fuel : ℕ) (s : S) → read_loop read fuel 0 s ≡ ok ([], s)
  unfolding read_loop
  read_loop-zero read zero s = refl
  read_loop-zero read (suc fuel) s = refl

-- A read of pieces as a read of their bytes.
abbrev pub as_stream : TcpException → Outcome (Bytes × List Bytes) → Outcome (Bytes × Stream)
as_stream e undefined = undefined
as_stream e (throw x) = throw x
as_stream e (ok (bs, cs)) = ok (bs, stream (joined cs) e)

abbrev prefixed : Bytes → Outcome (Bytes × Stream) → Outcome (Bytes × Stream)
prefixed c undefined = undefined
prefixed c (throw x) = throw x
prefixed c (ok (bs, s)) = ok (c ++ bs, s)

read_full-more :
    (n : ℕ) (c rest : Bytes) (e : TcpException)
    → length c ≤ n
    → read_full n (stream (c ++ rest) e) ≡ prefixed c (read_full (n - length c) (stream rest e))
unfolding read_full
read_full-more n [] rest e h = ground (arith)
read_full-more zero (x ∷ c) rest e h = ground (arith, h)
read_full-more (suc n) (x ∷ c) rest e h =
    ground (arith, read_full-more n c rest e (omega (arith, h)))

read_full-less :
    (n : ℕ) (c rest : Bytes) (e : TcpException)
    → n < length c
    → read_full n (stream (c ++ rest) e) ≡ ok (take n c, stream (drop n c ++ rest) e)
unfolding read_full
read_full-less n [] rest e h = ground (arith, h)
read_full-less zero (x ∷ c) rest e h = ground arith
read_full-less (suc n) (x ∷ c) rest e h =
    ground (arith, read_full-less n c rest e (omega (arith, h)))

as_stream-prepend :
    (e : TcpException) (c : Bytes) (o : Outcome (Bytes × List Bytes))
    → as_stream e (prepend c o) ≡ prefixed c (as_stream e o)
unfolding prepend
as_stream-prepend e c undefined = refl
as_stream-prepend e c (throw x) = refl
as_stream-prepend e c (ok (rest, cs)) = refl

read_loop-piece :
    (e : TcpException) (fuel m : ℕ) (c : Bytes) (cs : List Bytes)
    → leb (length c) (suc m) ≡ true
    → read_loop (socket_read e) (suc fuel) (suc m) (c ∷ cs)
      ≡ prepend c (read_loop (socket_read e) fuel (suc m - length c) cs)
unfolding read_loop socket_read
read_loop-piece e fuel m c cs k = ground (arith, k)

read_loop-part :
    (e : TcpException) (fuel m : ℕ) (c : Bytes) (cs : List Bytes)
    → leb (length c) (suc m) ≡ false
    → read_loop (socket_read e) (suc fuel) (suc m) (c ∷ cs)
      ≡ ok (take (suc m) c, drop (suc m) c ∷ cs)
unfolding read_loop socket_read prepend
read_loop-part e fuel m c cs k = ground (
  arith,
  k,
  length-take (suc m) c,
  read_loop-zero (socket_read e) fuel (drop (suc m) c ∷ cs),
  append-nil (take (suc m) c),
)

-- Into whatever pieces the bytes of the peer fall, none of them empty, ReadFull over the socket reads
-- what the stream of the bytes reads, or throws what it throws; as many turns as there are bytes to
-- read are enough.
pub read_loop-read_full :
    (e : TcpException) (fuel missing : ℕ) (cs : List Bytes)
    → missing ≤ fuel
    → All (λ c. 1 ≤ length c) cs
    → as_stream e (read_loop (socket_read e) fuel missing cs)
      ≡ read_full missing (stream (joined cs) e)
read_loop-read_full e zero missing cs h a =
    let z : missing ≡ 0 = omega arith in
    rw (z, read_loop-zero (socket_read e) 0 cs) (unfold read_full in ground arith)
read_loop-read_full e (suc fuel) zero cs h a =
    rw (read_loop-zero (socket_read e) (suc fuel) cs) (unfold read_full in ground arith)
read_loop-read_full e (suc fuel) (suc m) [] h a =
    unfold read_loop socket_read read_full in ground arith
read_loop-read_full e (suc fuel) (suc m) (c ∷ cs) h a = elim (Bool-cases (leb (length c) (suc m))) [
  | inl k ↦
      rw
        (
          read_loop-piece e fuel m c cs k,
          as_stream-prepend e c (read_loop (socket_read e) fuel (suc m - length c) cs),
          read_loop-read_full e fuel (suc m - length c) cs (omega (arith, a.0)) a.1,
        )
        (sym (read_full-more (suc m) c (joined cs) e (leb→le (length c) (suc m) k)))
  | inr k ↦
      rw (read_loop-part e fuel m c cs k)
        (sym (read_full-less (suc m) c (joined cs) e (ground (arith, k))))
]
