-- ===== src/Packet/Message/SendReqTrip.antt =====
-- A SendReq as it goes over the wire: what Encode writes, and that DecodeMessage reads it back.
use go_socket_client.Prelude.{
  append_assoc, ℕ, ◌+◌, ◌-◌, ◌*◌, ◌/◌, ◌%◌, ◌^◌, ◌≤◌, ◌<◌, ◌≡◌, refl, false, [], ◌∷◌, ◌++◌, some,
  arith, length,
}
use go_socket_client.Prelude.Bits.{bit_or-eq_add}
use go_socket_client.Packet.Error.{ok, fail, TcpException, msg_too_long}
use go_socket_client.Packet.Reader.{stream}
use go_socket_client.Packet.Gzip.{Bytes, Gzip}
use go_socket_client.Packet.Encoding.{set_uint16, set_string}
use go_socket_client.Packet.Encoding.Appends.{
  counted, set_uint16-append, set_string-append, set_gzip_string-append,
}
use go_socket_client.Packet.Decoding.RoundTrip.{
  get_uint16_bytes, get_string_block, get_gzip_string_block,
}
use go_socket_client.Packet.Header.{MessageType, FixHeader, max_payload_size}
use go_socket_client.Packet.Header.RoundTrip.{
  decode_header-bytes, header_bytes, write_header-bytes, write_header-too_long, total,
}
use go_socket_client.Packet.Message.{SendReq, Message}
use go_socket_client.Packet.Message.Encode.{
  send_req_flags, payload_buf, data_buf, encode_send_req, encode_message,
}
use go_socket_client.Packet.Message.Decode.{
  get_payload, get_content, decode_send_req, decode_message, decode_body,
}

abbrev pub uint16_bytes : ℕ → Bytes
uint16_bytes v = (v / 256 % 256) ∷ (v % 256) ∷ []

-- The variable header: the id and the type.
abbrev pub variable_header : SendReq → Bytes
variable_header m = uint16_bytes m.message_id ++ counted m.kind

-- What follows the fixed header, for the compressed payload `out`.
abbrev pub body_length : SendReq → Bytes → ℕ
body_length m out = length (variable_header m) + length (counted out) + 0

abbrev pub wire : SendReq → Bytes → Bytes
wire m out =
    (header_bytes MessageType.send_req (m.reply_level * 2) (body_length m out) ++ variable_header m)
    ++ counted out

-- The header that WriteHeader leaves.
abbrev pub sent_header : SendReq → Bytes → FixHeader
sent_header m out = record {
  msg_type = MessageType.send_req;
  remain_len = body_length m out;
  flags = m.reply_level * 2;
}

-- A SendReq without binary data, whose fields are in range and whose payload compresses to `out`.
pub record IsSendable (gzip : Gzip) (m : SendReq) (out : Bytes) : Type 0 where
  pub compressed : gzip.compress m.payload ≡ some out
  pub typed : m.header.msg_type ≡ MessageType.send_req
  pub no_data : m.has_data ≡ false
  pub level : m.reply_level < 3
  pub id : m.message_id < 2 ^ 16
  pub kind_size : length m.kind < 2 ^ 28
  pub payload_length : length m.payload < 2 ^ 31
  pub payload_size : length out < 2 ^ 28

-- Encode of a SendReq refuses with TcpExcMsgTooLong, and writes nothing, when the id, the type, the counted
-- compressed payload and the counted compressed data are together longer than kMaxPayloadSize, provided
-- that the payload and the data compress and that each of the two comes to fewer than 2^31 bytes, so
-- that its int32_t is not negative. The other fields may be anything.
pub encode_send_req-too_long :
    (gzip : Gzip) (m : SendReq) (payload content : Bytes)
    → payload_buf gzip m.payload ≡ ok payload
    → data_buf gzip m.has_data m.content ≡ ok content
    → length payload < 2 ^ 31
    → length content < 2 ^ 31
    → max_payload_size
      < total
          (some (set_string m.kind (set_uint16 m.message_id [])))
          (length payload)
          (length content)
    → encode_send_req gzip m ≡ fail msg_too_long
unfolding encode_send_req
encode_send_req-too_long gzip m payload content p d hp hd long =
    let head = set_string m.kind (set_uint16 m.message_id []) in
    let header = record (m.header) { flags = send_req_flags m } in
    rw (p, d, write_header-too_long header (some head) (length payload) (length content) hp hd long)
      refl

module _ (gzip : Gzip) (m : SendReq) (out : Bytes) (v : IsSendable gzip m out) where
  flags-eq : send_req_flags m ≡ m.reply_level * 2
  unfolding send_req_flags
  flags-eq =
      rw v.no_data
        (omega (arith, bit_or-eq_add 3 (m.reply_level * 2) 0 (omega (arith, v.level)), v.level))

  pub payload_buf-eq : payload_buf gzip m.payload ≡ ok (counted out)
  unfolding payload_buf
  payload_buf-eq = set_gzip_string-append gzip m.payload out v.compressed v.payload_size []

  pub data_buf-eq : data_buf gzip m.has_data m.content ≡ ok []
  unfolding data_buf
  data_buf-eq = rw v.no_data

  pub variable_header-eq : set_string m.kind (set_uint16 m.message_id []) ≡ variable_header m
  variable_header-eq = rw (
    set_uint16-append m.message_id [],
    set_string-append m.kind (uint16_bytes m.message_id) v.kind_size,
  )

  -- Encode writes the header, the id, the type and the payload, if the message is not too long.
  pub encode_send_req-wire :
      body_length m out ≤ max_payload_size → encode_send_req gzip m ≡ ok (wire m out ++ [])
  unfolding encode_send_req
  encode_send_req-wire fits = ground (
    arith,
    flags-eq,
    payload_buf-eq,
    data_buf-eq,
    variable_header-eq,
    v.typed,
    v.level,
    write_header-bytes (record (m.header) { flags = m.reply_level * 2 }) (some (variable_header m))
        (length (counted out)) 0 (omega arith) (omega arith),
  )

  module _ (rest : Bytes) (e : TcpException) (fits : body_length m out ≤ max_payload_size) where
    decode_send_req-wire :
        decode_send_req gzip
          (sent_header m out)
          (stream (uint16_bytes m.message_id ++ (counted m.kind ++ (counted out ++ rest))) e)
        ≡ ok (record m { header = sent_header m out; content = [] }, stream rest e)
    unfolding decode_send_req get_payload get_content
    decode_send_req-wire =
        let r1 : ℕ = body_length m out - 2 in
        let r2 : ℕ = r1 - length (counted m.kind) in
        ground (
          arith,
          v.no_data,
          v.level,
          get_uint16_bytes (counted m.kind ++ (counted out ++ rest)) e (body_length m out)
              m.message_id (omega arith) v.id,
          get_string_block (counted out ++ rest) e r1 m.kind v.kind_size (omega arith)
              (omega arith),
          get_gzip_string_block gzip m.payload out v.compressed v.payload_length v.payload_size r2
              (omega arith) (omega arith) rest e,
        )

    wire_regroup :
        (wire m out ++ []) ++ rest
        ≡ header_bytes MessageType.send_req (m.reply_level * 2) (body_length m out)
          ++ (uint16_bytes m.message_id ++ (counted m.kind ++ (counted out ++ rest)))
    wire_regroup = simp append_assoc

    -- EncodeMessage writes a SendReq without binary data, whose fields are in range, whose payload is
    -- shorter than 2^31 bytes and compresses, and whose body is not longer than kMaxPayloadSize, and DecodeMessage reads it back,
    -- with the header of its length and no data, and leaves the rest of the stream as it is.
    pub decode_message-encode_send_req :
        (bytes : Bytes) × (encode_message gzip (Message.send_req m) ≡ ok bytes)
        × (decode_message gzip (stream (bytes ++ rest) e)
            ≡ ok (
              Message.send_req (record m { header = sent_header m out; content = [] }),
              stream rest e,
            ))
    unfolding encode_message decode_message decode_body
    decode_message-encode_send_req = (
      wire m out ++ [],
      encode_send_req-wire fits,
      rw wire_regroup (
          ground (
            arith,
            v.level,
            decode_send_req-wire,
            decode_header-bytes MessageType.send_req (m.reply_level * 2) (body_length m out)
                (uint16_bytes m.message_id ++ (counted m.kind ++ (counted out ++ rest))) e refl
                (omega (arith, v.level)) (omega arith),
          )),
    )
