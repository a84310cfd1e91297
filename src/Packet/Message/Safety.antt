-- ===== src/Packet/Message/Safety.antt =====
-- Undefined behaviour in the Decode methods: none but in SendReq's, and there only for a remaining
-- length of 2 to 5, when `packetRemaining` wraps on the length of the type.
use go_socket_client.Prelude.{
  ℕ, ◌-◌, ◌/◌, ◌%◌, ◌≤◌, ◌<◌, ◌≡◌, ◌≢◌, refl, false, not, ◌&&◌, arith, All, ltb, ◌==◌, bytes_eq,
}
use go_socket_client.Packet.Error.{ok, undefined}
use go_socket_client.Packet.Reader.{Stream, M, ◌>>=◌, ◌>>◌, pure}
use go_socket_client.Packet.Reader.Defined.{
  Defined, DefinedAt, DefinedAt-of, DefinedAt-bind, DefinedAt-guard, Defined-pure, Defined-raise_if,
  Defined-bind, defined_rules,
}
use go_socket_client.Packet.Gzip.{Gzip}
use go_socket_client.Packet.Decoding.{u32_max, get_uint8, get_uint16, get_string, get_gzip_string}
use go_socket_client.Packet.Decoding.Bounds.{IsByte}
use go_socket_client.Packet.Decoding.Defined.{
  get_uint8-Defined, get_uint16-Defined, get_counted-DefinedAt, get_counted_shrinks,
  get_gzip_string-DefinedAt,
}
use go_socket_client.Packet.Decoding.Taken.{get_uint8_exact, get_uint16_exact, get_counted-Accounts}
use go_socket_client.Packet.Header.{MessageType, FixHeader, decode_header}
use go_socket_client.Packet.Header.{out_of_range}
use go_socket_client.Packet.Header.Bounds.{
  IsDecoded, decode_header-IsDecoded, decode_header-Defined,
}
use go_socket_client.Packet.Message.{Message, protocol_name, protocol_version}
use go_socket_client.Packet.Message.Decode.{
  nothing_left, get_payload, get_content, decode_conn_ack, decode_ping_req, decode_ping_resp,
  decode_disconnect, decode_connect, decode_send_req, decode_send_resp, decode_body, decode_message,
}

conn_ack-Defined : (h : FixHeader) → Defined (decode_conn_ack h)
unfolding decode_conn_ack
conn_ack-Defined h = search (defined_rules, get_uint8-Defined) depth 9

finish-Defined : {A : Type 0} (r : ℕ) (a : A) → Defined (nothing_left r >> pure a)
finish-Defined r a = Defined-bind (nothing_left r) _ (Defined-raise_if _ _) (λ _. Defined-pure a)

disconnect-Defined : (h : FixHeader) → Defined (decode_disconnect h)
unfolding decode_disconnect
disconnect-Defined h =
    Defined-bind (get_uint8 h.remain_len) _ (get_uint8-Defined h.remain_len)
      λ p. finish-Defined p.1 _

wrap :
    {A : Type 0} (m : M A) (f : A → Message) {s : Stream}
    → DefinedAt m s
    → DefinedAt (m >>= λ a. pure (f a)) s
wrap m f {s} d =
    DefinedAt-bind (λ _ _. Unit {0}) s m _ d (record { at = λ _ _ _. tt })
      λ a t _. DefinedAt-of _ t (Defined-pure (f a))

module _ (gzip : Gzip) (h : FixHeader) (s : Stream) (top : h.remain_len ≤ u32_max)
    (hs : All IsByte s.bytes) where
  send_resp-DefinedAt : DefinedAt (decode_send_resp gzip h) s
  unfolding decode_send_resp get_payload
  send_resp-DefinedAt =
      DefinedAt-bind _ s (get_uint16 h.remain_len) _
        (DefinedAt-of _ s (get_uint16-Defined h.remain_len))
        (get_uint16_exact h.remain_len s top hs)
        λ p t k.
          DefinedAt-bind (λ _ _. Unit {0}) t (get_gzip_string gzip p.1) _
            (get_gzip_string-DefinedAt gzip p.1 t (omega arith) k.1 (omega arith))
            (record { at = λ _ _ _. tt }) λ q u _. DefinedAt-of _ u (finish-Defined q.1 _)

  connect-DefinedAt : h.remain_len ≢ u32_max - 1 → DefinedAt (decode_connect gzip h) s
  unfolding decode_connect get_payload get_string
  connect-DefinedAt hn =
      let r : ℕ = h.remain_len in
      DefinedAt-bind _ s _ _ (get_counted-DefinedAt r s top hs hn) (get_counted-Accounts r s top hs)
        λ p t k. DefinedAt-guard t (not (bytes_eq p.0 protocol_name)) _ _ λ _.
          DefinedAt-bind _ t (get_uint8 p.1) _ (DefinedAt-of _ t (get_uint8-Defined p.1))
            (get_uint8_exact p.1 t k.3 k.4)
            λ q u l. DefinedAt-guard u (ltb protocol_version q.0) _ _ λ _.
              let hq : q.1 ≤ u32_max = omega arith in
              DefinedAt-bind _ u (get_uint8 q.1) _ (DefinedAt-of _ u (get_uint8-Defined q.1))
                (get_uint8_exact q.1 u hq l.1)
                λ x v m. DefinedAt-guard v (not (x.0 == 0) && not (x.0 == 128)) _ _ λ _.
                  let hx : x.1 ≤ u32_max = omega arith in
                  DefinedAt-bind _ v (get_uint16 x.1) _ (DefinedAt-of _ v (get_uint16-Defined x.1))
                    (get_uint16_exact x.1 v hx m.1)
                    λ y w n.
                      DefinedAt-bind (λ _ _. Unit {0}) w (get_gzip_string gzip y.1) _
                        (get_gzip_string-DefinedAt gzip y.1 w (omega arith) n.1 (omega arith))
                        (record { at = λ _ _ _. tt })
                        λ z i _. DefinedAt-of _ i (finish-Defined z.1 _)

  send_req-DefinedAt : 6 ≤ h.remain_len → h.flags < 8 → DefinedAt (decode_send_req gzip h) s
  unfolding decode_send_req get_payload get_string get_content
  send_req-DefinedAt h6 hf =
      let no_data : (h.flags / 8 % 2 == 1) ≡ false = ground arith in
      DefinedAt-bind _ s (get_uint16 h.remain_len) _
        (DefinedAt-of _ s (get_uint16-Defined h.remain_len))
        (get_uint16_exact h.remain_len s top hs)
        λ p t k.
          let hp : p.1 ≤ u32_max = omega arith in
          DefinedAt-bind (λ q u. (q.1 < p.1) × All IsByte u.bytes) t _ _
            (get_counted-DefinedAt p.1 t hp k.1 (omega arith))
            (record {
              at = λ q u e. (
                (get_counted_shrinks p.1 t hp k.1 (omega arith)).at q u e,
                ((get_counted-Accounts p.1 t hp k.1).at q u e).4,
              );
            })
            λ q u l.
              DefinedAt-bind (λ _ _. Unit {0}) u (get_gzip_string gzip q.1) _
                (get_gzip_string-DefinedAt gzip q.1 u (omega arith) l.1 (omega arith))
                (record { at = λ _ _ _. tt })
                λ x v _. rw no_data (DefinedAt-of _ v (finish-Defined x.1 _))

  pub decode_body-DefinedAt :
      (t : MessageType)
      → out_of_range t ≡ false
      → h.remain_len ≢ u32_max - 1
      → h.flags < 8
      → (t ≡ MessageType.send_req → 6 ≤ h.remain_len)
      → DefinedAt (decode_body gzip t h) s
  unfolding decode_body decode_ping_req decode_ping_resp
  decode_body-DefinedAt MessageType.first known hn hf long = cc
  decode_body-DefinedAt MessageType.last known hn hf long = cc
  decode_body-DefinedAt MessageType.connect known hn hf long = wrap _ _ (connect-DefinedAt hn)
  decode_body-DefinedAt MessageType.conn_ack known hn hf long =
      wrap _ _ (DefinedAt-of _ s (conn_ack-Defined h))
  decode_body-DefinedAt MessageType.ping_req known hn hf long =
      wrap _ _ (DefinedAt-of _ s (finish-Defined h.remain_len _))
  decode_body-DefinedAt MessageType.ping_resp known hn hf long =
      wrap _ _ (DefinedAt-of _ s (finish-Defined h.remain_len _))
  decode_body-DefinedAt MessageType.disconnect known hn hf long =
      wrap _ _ (DefinedAt-of _ s (disconnect-Defined h))
  decode_body-DefinedAt MessageType.send_req known hn hf long =
      wrap _ _ (send_req-DefinedAt (long refl) hf)
  decode_body-DefinedAt MessageType.send_resp known hn hf long = wrap _ _ send_resp-DefinedAt

-- On a stream of bytes DecodeMessage declares no array with a negative bound and reads a body only of a
-- type that has a class, unless the header is that of a SendReq with fewer than six bytes. An array of up
-- to 2^28-1 bytes on the stack, and the cast of a byte above 1 to DisconnectType, count as defined here.
pub decode_message-ne-undefined :
    (gzip : Gzip) (s : Stream)
    → All IsByte s.bytes
    → ((h : FixHeader) (t : Stream)
        → decode_header s ≡ ok (h, t)
        → h.msg_type ≡ MessageType.send_req
        → 6 ≤ h.remain_len)
    → decode_message gzip s ≢ undefined
unfolding decode_message
decode_message-ne-undefined gzip s hs long =
    (DefinedAt-bind
      (λ h t.
        IsDecoded h × All IsByte t.bytes × (h.msg_type ≡ MessageType.send_req → 6 ≤ h.remain_len))
      s decode_header _ (DefinedAt-of _ s decode_header-Defined)
      (record {
        at = λ h t e. let (d, b) = (decode_header-IsDecoded s hs).at h t e in (d, b, long h t e);
      })
      λ h t (d, b, six).
        decode_body-DefinedAt gzip h t (ground (arith, d.size)) b h.msg_type d.known
          (ground (arith, d.size)) d.flags.0 six).holds
