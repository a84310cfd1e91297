-- ===== src/Packet/Message/SmallTrips.antt =====
-- packet/message.cpp: the round trips of PingReq, PingResp and Disconnect, and what Encode of a SendResp
-- loses.
use go_socket_client.Prelude.{
  ◌^◌, ◌%◌, ℕ, ◌<◌, ◌≡◌, refl, subst, Bool, true, false, none, some, [], ◌∷◌, ◌++◌, arith,
  if◌then◌else◌,
}
use go_socket_client.Packet.Error.{ok, throw, undefined, fail, msg_too_long, TcpException, Outcome}
use go_socket_client.Packet.Error.{◌>>=◌ as ◌>>=ₒ◌}
use go_socket_client.Packet.Reader.{stream}
use go_socket_client.Packet.Gzip.{Bytes, Gzip}
use go_socket_client.Packet.Encoding.{set_uint8, set_uint16}
use go_socket_client.Packet.Encoding.Groups.{groups}
use go_socket_client.Packet.Decoding.{get_uint8}
use go_socket_client.Packet.Decoding.Length.{read_one}
use go_socket_client.Packet.Header.{MessageType, FixHeader, write_header}
use go_socket_client.Packet.Header.RoundTrip.{decode_header-bytes, header_bytes, write_header-bytes}
use go_socket_client.Packet.Message.{
  Message, ping_req, ping_resp, disconnect, send_resp, SendResp, new_header, ping_req_type,
  ping_resp_type, disconnect_message_type,
}
use go_socket_client.Packet.Message.Encode.{
  encode_message, encode_ping_req, encode_ping_resp, encode_disconnect, encode_send_resp,
  payload_buf,
}
use go_socket_client.Packet.Message.Decode.{
  decode_message, decode_body, decode_ping_req, decode_ping_resp, decode_disconnect,
}

-- EncodeMessage of `m` writes bytes that DecodeMessage reads as `m'`, up to their end.
abbrev pub Trips : Gzip → Message → Message → Bytes → TcpException → Type 0
Trips gzip m m' rest e =
    (bytes : Bytes) × (encode_message gzip m ≡ ok bytes)
    × (decode_message gzip (stream (bytes ++ rest) e) ≡ ok (m', stream rest e))

-- The messages as their classes make them.
abbrev pub new_ping_req : Message
new_ping_req = ping_req (record { header = new_header ping_req_type })

abbrev pub new_ping_resp : Message
new_ping_resp = ping_resp (record { header = new_header ping_resp_type })

-- `len` is 0 before the message is sent, and 1 as it is read.
abbrev pub a_disconnect : ℕ → ℕ → Message
a_disconnect len t = disconnect (record {
  header = record (new_header disconnect_message_type) { remain_len = len };
  disconnect_type = t;
})

bind-ap {ℓ κ} :
    {A : Type ℓ} {B : Type κ} (x : Outcome A) (f g : A → Outcome B)
    → ((a : A) → f a ≡ g a)
    → (x >>=ₒ f) ≡ (x >>=ₒ g)
bind-ap (ok a) f g h = h a
bind-ap (throw x) f g h = refl
bind-ap undefined f g h = refl

abbrev with_header : FixHeader → Bytes → Bytes → Outcome (FixHeader × Bytes)
with_header h u buf = ok (h, buf ++ u)

-- The header's bytes go, whatever follows them.
bytes_go :
    (b : Bool) (x : Outcome Bytes) (h : FixHeader) (u v payload : Bytes)
    → ((if b then fail msg_too_long else (x >>=ₒ with_header h u)) >>=ₒ λ r. ok payload)
      ≡ ((if b then fail msg_too_long else (x >>=ₒ with_header h v)) >>=ₒ λ r. ok payload)
bytes_go true x h u v payload = refl
bytes_go false (ok buf) h u v payload = refl
bytes_go false (throw x) h u v payload = refl
bytes_go false undefined h u v payload = refl

module _ (gzip : Gzip) (rest : Bytes) (e : TcpException) where
  ping_req-Trips : Trips gzip new_ping_req new_ping_req rest e
  unfolding encode_message encode_ping_req decode_message decode_body decode_ping_req groups
  ping_req-Trips = (
    header_bytes MessageType.ping_req 0 0 ++ [],
    ground (
      arith,
      write_header-bytes (new_header ping_req_type) none 0 0 (omega arith) (omega arith) refl
          (omega arith) (omega arith),
    ),
    ground (
      arith,
      decode_header-bytes MessageType.ping_req 0 0 rest e refl (omega arith) (omega arith),
    ),
  )

  ping_resp-Trips : Trips gzip new_ping_resp new_ping_resp rest e
  unfolding encode_message encode_ping_resp decode_message decode_body decode_ping_resp groups
  ping_resp-Trips = (
    header_bytes MessageType.ping_resp 0 0 ++ [],
    ground (
      arith,
      write_header-bytes (new_header ping_resp_type) none 0 0 (omega arith) (omega arith) refl
          (omega arith) (omega arith),
    ),
    ground (
      arith,
      decode_header-bytes MessageType.ping_resp 0 0 rest e refl (omega arith) (omega arith),
    ),
  )

  disconnect-Trips : (t : ℕ) → Trips gzip (a_disconnect 0 t) (a_disconnect 1 (t % 2 ^ 8)) rest e
  unfolding encode_message encode_disconnect decode_message decode_body decode_disconnect set_uint8
      get_uint8 groups
  disconnect-Trips t = (
    header_bytes MessageType.disconnect 0 1 ++ (t % 2 ^ 8 ∷ []),
    ground (
      arith,
      write_header-bytes (new_header disconnect_message_type) (some (t % 2 ^ 8 ∷ [])) 0 0
          (omega arith) (omega arith) refl (omega arith) (omega arith),
    ),
    ground (
      arith,
      decode_header-bytes MessageType.disconnect 0 1 (t % 2 ^ 8 ∷ rest) e refl (omega arith)
          (omega arith),
      read_one (t % 2 ^ 8) rest e,
    ),
  )

  -- A PingReq, a PingResp, and a Disconnect with either value of DisconnectType are read back as they were
  -- written, and what follows them in the stream is left.
  pub decode_message-encode_small :
      (t : ℕ)
      → t < 2
      → Trips gzip new_ping_req new_ping_req rest e
        × Trips gzip new_ping_resp new_ping_resp rest e
        × Trips gzip (a_disconnect 0 t) (a_disconnect 1 t) rest e
  decode_message-encode_small t h = (
    ping_req-Trips,
    ping_resp-Trips,
    subst (λ u. Trips gzip (a_disconnect 0 t) (a_disconnect 1 u) rest e) (omega (arith, h))
        (disconnect-Trips t),
  )

-- What Encode of a SendResp writes says nothing of the request that it answers: with any other id it
-- writes the same, or throws the same.
pub encode_send_resp-same :
    (gzip : Gzip) (m : SendResp) (i : ℕ)
    → encode_message gzip (send_resp (record m { message_id = i }))
      ≡ encode_message gzip (send_resp m)
unfolding encode_message encode_send_resp set_uint16 write_header
encode_send_resp-same gzip m i =
    bind-ap (payload_buf gzip m.payload) _ _ (λ payload. bytes_go _ _ _ _ _ payload)
