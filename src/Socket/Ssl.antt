-- ===== src/Socket/Ssl.antt =====
-- socket/ssl_socket.cpp under packet/tcp_io.cpp: a TLS socket opens whole records, and keeps in memory
-- what a Read leaves of one. OpenSSL is an argument, with what its manual says.
use go_socket_client.Prelude.{
  ℕ, zero, suc, ◌+◌, ◌≤◌, ◌<◌, ◌≡◌, refl, sym, ap, subst, ◌∙◌, Bool, false, some, List, [], ◌∷◌,
  arith, length, take, drop, append-nil, length-take, length-drop, le→leb,
}
use go_socket_client.Packet.Error.{TcpException, Outcome, ok, ◌>>=◌}
use go_socket_client.Packet.Gzip.{Bytes}
use go_socket_client.Packet.Reader.{stream, read_full}
use go_socket_client.Packet.TcpIo.{read_loop, read_loop-zero, prepend}
use go_socket_client.Socket.TcpSocket.{ReadAnswer, gave, read, reader_read_full}

-- SSL_read(3), SSL_pending(3) and poll(2). `buffered` are the opened bytes that the object keeps,
-- `records` what stands in the descriptor, one list for each TLS record.
pub record OpenSsl : Type 1 where
  pub State : Type 0
  pub ssl_read : ℕ → State → ReadAnswer × State
  pub buffered : State → Bytes
  pub records : State → List Bytes
  -- A poll reports the descriptor readable if there is something in it.
  pub readable : State → Bool
  pub readable_none : (s : State) → records s ≡ [] → readable s ≡ false
  -- With bytes in the buffer, a read takes of them, and leaves the descriptor alone.
  pub read_buffered :
      (n : ℕ) (s : State)
      → 0 < n
      → 0 < length (buffered s)
      → ((ssl_read n s).0 ≡ gave (take n (buffered s)))
        × (buffered (ssl_read n s).1 ≡ drop n (buffered s))
        × (records (ssl_read n s).1 ≡ records s)
  -- Without, it opens the next record, and keeps what is left of it.
  pub read_record :
      (n : ℕ) (s : State) (r : Bytes) (rs : List Bytes)
      → 0 < n
      → 0 < length r
      → buffered s ≡ []
      → records s ≡ r ∷ rs
      → ((ssl_read n s).0 ≡ gave (take n r))
        × (buffered (ssl_read n s).1 ≡ drop n r)
        × (records (ssl_read n s).1 ≡ rs)

-- The calls of ReadFull with the given lengths, as a decoder makes them.
unfoldable pub reads {ℓ} :
    {S : Type ℓ} → (ℕ → S → Outcome (Bytes × S)) → List ℕ → S → Outcome (List Bytes × S)
reads full [] s = ok ([], s)
reads full (n ∷ ns) s = full n s >>= λ r. reads full ns r.1 >>= λ t. ok (r.0 ∷ t.0, t.1)

abbrev pub sum : List ℕ → ℕ
sum [] = 0
sum (n ∷ ns) = n + sum ns

-- A read that gives all it is asked for is one turn of the loop.
read_loop-once {ℓ} :
    {S : Type ℓ} (get : ℕ → S → Outcome (Bytes × S)) (n : ℕ) (c : Bytes) (s s' : S)
    → get (suc n) s ≡ ok (c, s')
    → length c ≡ suc n
    → read_loop get (suc n) (suc n) s ≡ ok (c, s')
unfolding read_loop prepend
read_loop-once get n c s s' e l = ground (arith, e, l, read_loop-zero get n s', append-nil c)

read-gave {ℓ} :
    {S : Type ℓ} (a : ReadAnswer × S) (c : Bytes)
    → a.0 ≡ gave c
    → 0 < length c
    → read a ≡ ok (c, a.1)
unfolding read
read-gave (gave [], s) c e l = ground (arith, e, l)
read-gave (gave (x ∷ xs), s) c e l = ground (arith, e, l)
read-gave (ReadAnswer.read_failed k, s) c e l = ground (arith, e, l)

zero_sum : (n : ℕ) → n ≡ 0 + n
zero_sum n = omega arith

drop-nil : (k : ℕ) → let none_left : Bytes = [] in drop k none_left ≡ []
drop-nil zero = refl
drop-nil (suc k) = refl

drop-drop : (m n : ℕ) (bs : Bytes) → drop n (drop m bs) ≡ drop (m + n) bs
drop-drop zero n bs = let h : n ≡ 0 + n = omega arith in ap (λ k. drop k bs) h
drop-drop (suc m) n [] = drop-nil n ∙ sym (drop-nil (suc m + n))
drop-drop (suc m) n (b ∷ bs) =
    let h : suc (m + n) ≡ suc m + n = omega arith in drop-drop m n bs ∙ ap (λ k. drop k (b ∷ bs)) h

read_full-front :
    (n : ℕ) (bs : Bytes) (e : TcpException)
    → n ≤ length bs
    → read_full n (stream bs e) ≡ ok (take n bs, stream (drop n bs) e)
unfolding read_full
read_full-front n bs e l = rw (le→leb n (length bs) l) refl

module _ (ssl : OpenSsl) where
  open ssl use {State, ssl_read, buffered, records, readable}

  unfoldable pub ssl_full : ℕ → State → Outcome (Bytes × State)
  ssl_full n s = reader_read_full ssl_read n (some s)

  -- What is to come: the buffer, or one record and an empty buffer.
  abbrev pub Holds : Bytes → State → Type 0
  Holds bs s = (buffered s ≡ bs) × (records s ≡ [])

  ssl_full-zero : (s : State) → ssl_full 0 s ≡ ok ([], s)
  unfolding ssl_full reader_read_full
  ssl_full-zero s = read_loop-zero _ 0 s

  ssl_full-once :
      (n : ℕ) (s : State) (bs : Bytes)
      → suc n ≤ length bs
      → (ssl_read (suc n) s).0 ≡ gave (take (suc n) bs)
      → ssl_full (suc n) s ≡ ok (take (suc n) bs, (ssl_read (suc n) s).1)
  unfolding ssl_full reader_read_full
  ssl_full-once n s bs l e =
      read_loop-once _ n (take (suc n) bs) s (ssl_read (suc n) s).1
        (read-gave (ssl_read (suc n) s) (take (suc n) bs) e (omega (arith, length-take (suc n) bs)))
        (omega (arith, length-take (suc n) bs))

  -- A full read out of the buffer leaves the rest there.
  full-Holds :
      (n : ℕ) (bs : Bytes) (s : State)
      → n ≤ length bs
      → Holds bs s
      → (s' : State) × (ssl_full n s ≡ ok (take n bs, s')) × Holds (drop n bs) s'
  full-Holds zero bs s l h = (s, ssl_full-zero s, h)
  full-Holds (suc n) bs s l h =
      let k = ssl.read_buffered (suc n) s (omega arith) (rw h.0 (omega (arith, l))) in
      (
        (ssl_read (suc n) s).1,
        ssl_full-once n s bs l (k.0 ∙ ap (λ b. gave (take (suc n) b)) h.0),
        (k.1 ∙ ap (drop (suc n)) h.0, k.2 ∙ h.1),
      )

  -- One record, not opened yet
  abbrev pub Begins : Bytes → State → Type 0
  Begins r s = (buffered s ≡ []) × (records s ≡ r ∷ [])

  -- The first read that asks for anything opens the record.
  full-Begins :
      (n : ℕ) (r : Bytes) (s : State)
      → suc n ≤ length r
      → Begins r s
      → (s' : State) × (ssl_full (suc n) s ≡ ok (take (suc n) r, s')) × Holds (drop (suc n) r) s'
  full-Begins n r s l h =
      let k = ssl.read_record (suc n) s r [] (omega arith) (omega (arith, l)) h.0 h.1 in
      ((ssl_read (suc n) s).1, ssl_full-once n s r l k.0, (k.1, k.2))

  -- Reads of a socket and of the stream of its bytes give the same, and the socket ends as `P` says.
  abbrev pub ReadAs : List ℕ → State → Bytes → TcpException → (State → Type 0) → Type 0
  ReadAs ns s bs e P =
      (xs : List Bytes) × (s' : State) × (reads ssl_full ns s ≡ ok (xs, s'))
      × (reads read_full ns (stream bs e) ≡ ok (xs, stream (drop (sum ns) bs) e))
      × P s'

  ReadAs-cons :
      (n : ℕ) (ns : List ℕ) (s s' : State) (bs : Bytes) (e : TcpException) (P : State → Type 0)
      → n ≤ length bs
      → ssl_full n s ≡ ok (take n bs, s')
      → ReadAs ns s' (drop n bs) e P
      → ReadAs (n ∷ ns) s bs e P
  unfolding reads
  ReadAs-cons n ns s s' bs e P l k (xs, t, f, g, p) = (
    take n bs ∷ xs,
    t,
    rw k (rw f refl),
    rw (read_full-front n bs e l)
        (rw g (ap (λ b. ok (take n bs ∷ xs, stream b e)) (drop-drop n (sum ns) bs))),
    p,
  )

  reads-Holds :
      (ns : List ℕ) (bs : Bytes) (s : State) (e : TcpException)
      → sum ns ≤ length bs
      → Holds bs s
      → ReadAs ns s bs e (Holds (drop (sum ns) bs))
  unfolding reads
  reads-Holds [] bs s e l h = ([], s, refl, refl, h)
  reads-Holds (n ∷ ns) bs s e l h =
      let (s', k, h') = full-Holds n bs s (omega (arith, l)) h in
      let q = reads-Holds ns (drop n bs) s' e (omega (arith, l, length-drop n bs)) h' in
      ReadAs-cons n ns s s' bs e _ (omega (arith, l)) k
        (subst (λ b. ReadAs ns s' (drop n bs) e (Holds b)) (drop-drop n (sum ns) bs) q)

  pub reads-Begins :
      (ns : List ℕ) (r : Bytes) (s : State) (e : TcpException)
      → sum ns ≤ length r
      → 0 < sum ns
      → Begins r s
      → ReadAs ns s r e (Holds (drop (sum ns) r))
  reads-Begins [] r s e l z h = absurd (omega (arith, z))
  reads-Begins (zero ∷ ns) r s e l z h =
      ReadAs-cons zero ns s s r e _ (omega arith) (ssl_full-zero s) (
        subst (λ k. ReadAs ns s r e (Holds (drop k r))) (zero_sum (sum ns))
          (reads-Begins ns r s e (omega (arith, l)) (omega (arith, z)) h))
  reads-Begins (suc n ∷ ns) r s e l z h =
      let (s', k, h') = full-Begins n r s (omega (arith, l)) h in
      let q = reads-Holds ns (drop (suc n) r) s' e (omega (arith, l, length-drop (suc n) r)) h' in
      ReadAs-cons (suc n) ns s s' r e _ (omega (arith, l)) k
        (subst (λ b. ReadAs ns s' (drop (suc n) r) e (Holds b)) (drop-drop (suc n) (sum ns) r) q)
