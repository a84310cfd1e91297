-- ===== src/Packet/Message/Framing.antt =====
-- A Decode that returns has read exactly the bytes that the header's remaining length promised, for
-- every class of message and every input, although `packetRemaining` may wrap on the way.
use go_socket_client.Prelude.{
  ℕ, ◌+◌, ◌*◌, ◌/◌, ◌%◌, ◌^◌, ◌≤◌, ◌<◌, ◌≡◌, Bool, true, false, not, ◌&&◌, arith, length, All, ltb,
  leb, ◌==◌, bytes_eq,
}
use go_socket_client.Packet.Error.{ok}
use go_socket_client.Packet.Reader.{Stream, >>=-eq_ok}
use go_socket_client.Packet.Reader.Returns.{Returns, Returns-pure, Returns-guard, Returns-bind}
use go_socket_client.Packet.Gzip.{Gzip}
use go_socket_client.Packet.Decoding.{u32_max, get_string}
use go_socket_client.Packet.Decoding.Bounds.{IsByte}
use go_socket_client.Packet.Decoding.Taken.{
  Taken, Accounts, block_bound, get_uint8-Accounts, get_uint16-Accounts, get_counted-Accounts,
  get_gzip_string-Accounts, get_gzip_data-Accounts,
}
use go_socket_client.Packet.Header.{MessageType, FixHeader, decode_header}
use go_socket_client.Packet.Header.Bounds.{decode_header-IsDecoded}
use go_socket_client.Packet.Message.{Message, protocol_name, protocol_version}
use go_socket_client.Packet.Message.Decode.{
  get_payload, get_content, decode_conn_ack, decode_ping_req, decode_ping_resp, decode_disconnect,
  decode_connect, decode_send_req, decode_send_resp, decode_body, decode_message,
}

-- From `s` to `u` the stream lost `r` bytes, and `r` is not the length -1.
abbrev pub Lost : ℕ → Stream → Stream → Type 0
Lost r s u = (length s.bytes ≡ length u.bytes + r) × (r < u32_max)

Taken-trans :
    (a b r r1 r2 : ℕ) (s t u : Stream)
    → Taken a r r1 s t
    → Taken b r1 r2 t u
    → Taken (a + b) r r2 s u
Taken-trans a b r r1 r2 s t u h k = (omega arith, omega arith, omega arith, omega arith, k.4)

Taken-Lost :
    (a r r' : ℕ) (s u : Stream)
    → a < u32_max
    → Taken a r r' s u
    → not (r' == 0) ≡ false
    → Lost r s u
Taken-Lost a r r' s u ha h done = ground arith

module _ (h : FixHeader) (s : Stream) (top : h.remain_len ≤ u32_max) (hs : All IsByte s.bytes) where
  conn_ack-Lost : Returns (decode_conn_ack h) s (λ _ u. Lost h.remain_len s u)
  unfolding decode_conn_ack
  conn_ack-Lost = Returns-bind _ _ s _ _ (get_uint8-Accounts h.remain_len s top hs) λ p t k.
      Returns-guard _ t (not (p.0 == 0)) _ _ λ _.
        Returns-bind _ _ t _ _ (get_uint8-Accounts p.1 t k.3 k.4) λ q u l.
          Returns-guard _ u (leb 7 q.0) _ _ λ _. Returns-guard _ u (not (q.1 == 0)) _ _ λ done.
            Returns-pure _ u _ (
              Taken-Lost 2 h.remain_len q.1 s u (omega arith)
                (Taken-trans 1 1 h.remain_len p.1 q.1 s t u k l) done)

  disconnect-Lost : Returns (decode_disconnect h) s (λ _ u. Lost h.remain_len s u)
  unfolding decode_disconnect
  disconnect-Lost = Returns-bind _ _ s _ _ (get_uint8-Accounts h.remain_len s top hs) λ p t k.
      Returns-guard _ t (not (p.1 == 0)) _ _
        λ done. Returns-pure _ t _ (Taken-Lost 1 h.remain_len p.1 s t (omega arith) k done)

  ping_req-Lost : Returns (decode_ping_req h) s (λ _ u. Lost h.remain_len s u)
  unfolding decode_ping_req
  ping_req-Lost =
      Returns-guard _ s (not (h.remain_len == 0)) _ _ λ done. Returns-pure _ s _ (ground arith)

  ping_resp-Lost : Returns (decode_ping_resp h) s (λ _ u. Lost h.remain_len s u)
  unfolding decode_ping_resp
  ping_resp-Lost =
      Returns-guard _ s (not (h.remain_len == 0)) _ _ λ done. Returns-pure _ s _ (ground arith)

  module _ (gzip : Gzip) where
    send_resp-Lost : Returns (decode_send_resp gzip h) s (λ _ u. Lost h.remain_len s u)
    unfolding decode_send_resp get_payload
    send_resp-Lost = Returns-bind _ _ s _ _ (get_uint16-Accounts h.remain_len s top hs) λ p t k.
        Returns-bind _ _ t _ _ (get_gzip_string-Accounts gzip p.1 t k.3 k.4) λ q u l.
          Returns-guard _ u (not (q.1 == 0)) _ _ λ done. Returns-pure _ u _ (
            Taken-Lost (2 + block_bound) h.remain_len q.1 s u (omega arith)
              (Taken-trans 2 block_bound h.remain_len p.1 q.1 s t u k l) done)

    get_content-Accounts :
        (b : Bool) (r : ℕ) (t : Stream)
        → r ≤ u32_max
        → All IsByte t.bytes
        → Accounts block_bound r t (get_content gzip b r)
    unfolding get_content
    get_content-Accounts true r t hr ht = get_gzip_data-Accounts gzip r t hr ht
    get_content-Accounts false r t hr ht =
        Returns-pure _ t _ (omega arith, omega arith, omega arith, hr, ht)

    send_req-Lost : Returns (decode_send_req gzip h) s (λ _ u. Lost h.remain_len s u)
    unfolding decode_send_req get_payload get_string
    send_req-Lost =
        let has_data : Bool = h.flags / 8 % 2 == 1 in
        let r : ℕ = h.remain_len in
        Returns-bind _ _ s _ _ (get_uint16-Accounts r s top hs) λ p t k.
          Returns-bind _ _ t _ _ (get_counted-Accounts p.1 t k.3 k.4) λ q u l.
            Returns-bind _ _ u _ _ (get_gzip_string-Accounts gzip q.1 u l.3 l.4) λ x v m.
              Returns-bind _ _ v _ _ (get_content-Accounts has_data x.1 v m.3 m.4) λ y w n.
                Returns-guard _ w (not (y.1 == 0)) _ _ λ done.
                  let a : Taken (2 + block_bound) r q.1 s u =
                    Taken-trans 2 block_bound r p.1 q.1 s t u k l in
                  let b : Taken (2 + 2 * block_bound) r x.1 s v =
                    Taken-trans (2 + block_bound) block_bound r q.1 x.1 s u v a m in
                  let c : Taken (2 + 3 * block_bound) r y.1 s w =
                    Taken-trans (2 + 2 * block_bound) block_bound r x.1 y.1 s v w b n in
                  Returns-pure _ w _
                    (Taken-Lost (2 + 3 * block_bound) r y.1 s w (omega arith) c done)

    connect-Lost : Returns (decode_connect gzip h) s (λ _ u. Lost h.remain_len s u)
    unfolding decode_connect get_payload get_string
    connect-Lost =
        let r : ℕ = h.remain_len in
        Returns-bind _ _ s _ _ (get_counted-Accounts r s top hs) λ p t k.
          Returns-guard _ t (not (bytes_eq p.0 protocol_name)) _ _ λ _.
            Returns-bind _ _ t _ _ (get_uint8-Accounts p.1 t k.3 k.4) λ q u l.
              Returns-guard _ u (ltb protocol_version q.0) _ _ λ _.
                Returns-bind _ _ u _ _ (get_uint8-Accounts q.1 u l.3 l.4) λ x v m.
                  Returns-guard _ v (not (x.0 == 0) && not (x.0 == 128)) _ _ λ _.
                    Returns-bind _ _ v _ _ (get_uint16-Accounts x.1 v m.3 m.4) λ y w n.
                      Returns-bind _ _ w _ _ (get_gzip_string-Accounts gzip y.1 w n.3 n.4) λ z i o.
                        Returns-guard _ i (not (z.1 == 0)) _ _ λ done.
                          let a : Taken (block_bound + 1) r q.1 s u =
                            Taken-trans block_bound 1 r p.1 q.1 s t u k l in
                          let b : Taken (block_bound + 2) r x.1 s v =
                            Taken-trans (block_bound + 1) 1 r q.1 x.1 s u v a m in
                          let c : Taken (block_bound + 4) r y.1 s w =
                            Taken-trans (block_bound + 2) 2 r x.1 y.1 s v w b n in
                          let d : Taken (block_bound + 4 + block_bound) r z.1 s i =
                            Taken-trans (block_bound + 4) block_bound r y.1 z.1 s w i c o in
                          Returns-pure _ i _ (
                            Taken-Lost (block_bound + 4 + block_bound) r z.1 s i (omega arith) d
                              done)

    -- A body that is decoded has exactly the length that its header announced.
    pub decode_body-Lost :
        (t : MessageType) → Returns (decode_body gzip t h) s (λ _ u. Lost h.remain_len s u)
    unfolding decode_body
    decode_body-Lost MessageType.first = record { at = λ a u e. cc }
    decode_body-Lost MessageType.connect =
        Returns-bind _ _ s _ _ connect-Lost λ m u l. Returns-pure _ u _ l
    decode_body-Lost MessageType.conn_ack =
        Returns-bind _ _ s _ _ conn_ack-Lost λ m u l. Returns-pure _ u _ l
    decode_body-Lost MessageType.ping_req =
        Returns-bind _ _ s _ _ ping_req-Lost λ m u l. Returns-pure _ u _ l
    decode_body-Lost MessageType.ping_resp =
        Returns-bind _ _ s _ _ ping_resp-Lost λ m u l. Returns-pure _ u _ l
    decode_body-Lost MessageType.disconnect =
        Returns-bind _ _ s _ _ disconnect-Lost λ m u l. Returns-pure _ u _ l
    decode_body-Lost MessageType.send_req =
        Returns-bind _ _ s _ _ send_req-Lost λ m u l. Returns-pure _ u _ l
    decode_body-Lost MessageType.send_resp =
        Returns-bind _ _ s _ _ send_resp-Lost λ m u l. Returns-pure _ u _ l
    decode_body-Lost MessageType.last = record { at = λ a u e. cc }

-- DecodeMessage returns only with the stream exactly behind the message: as many bytes were read
-- after the fixed header as it announced.
pub decode_message-Lost :
    (gzip : Gzip) (s u : Stream) (m : Message)
    → All IsByte s.bytes
    → decode_message gzip s ≡ ok (m, u)
    → (h : FixHeader) × (t : Stream) × (decode_header s ≡ ok (h, t))
      × (h.remain_len < 2 ^ 28)
      × (length t.bytes ≡ length u.bytes + h.remain_len)
unfolding decode_message
decode_message-Lost gzip s u m hs e =
    let (h, t, eh, eb) = >>=-eq_ok decode_header _ e in
    let (d, ht) = (decode_header-IsDecoded s hs).at h t eh in
    let lost : Lost h.remain_len t u =
      (decode_body-Lost h t (ground (arith, d.size)) ht gzip h.msg_type).at m u eb in
    (h, t, eh, ground (arith, d.size, lost.1), lost.0)
