-- ===== src/Packet/Message/Faults.antt =====
-- What the messages' code does against its purpose.
use go_socket_client.Prelude.{
  ℕ, zero, suc, ◌+◌, ◌-◌, ◌*◌, ◌%◌, ◌^◌, ◌≤◌, ◌<◌, ◌≡◌, refl, ◌∙◌, true, arith, length, All, [],
  ◌∷◌, ◌++◌, some, bit_or,
}
use go_socket_client.Prelude.Bits.{bit_or-eq_add, bit_and_0x0f, bit_and_0xf0}
use go_socket_client.Packet.Error.{
  ok, >>=-returns, throw, exception, undefined, TcpException, invalid_flag, invalid_pro_name,
}
use go_socket_client.Packet.Reader.{Stream, stream, ◌>>=◌, read_full-append}
use go_socket_client.Packet.Gzip.{Bytes, Gzip}
use go_socket_client.Packet.Decoding.{
  u32_max, decode_length, decode_length_loop, get_uint16, get_string, get_counted, get_gzip_string,
}
use go_socket_client.Packet.Decoding.RoundTrip.{get_string_block}
use go_socket_client.Packet.Decoding.Length.{read_one, last_byte, inner_byte, group_fits}
use go_socket_client.Packet.Encoding.{set_string, set_uint8, set_uint16}
use go_socket_client.Packet.Encoding.Groups.{groups}
use go_socket_client.Packet.Header.RoundTrip.{
  decode_header-bytes, header_bytes, write_header-bytes, write_header-first_byte,
}
use go_socket_client.Packet.Header.{code, MessageType, FixHeader, decode_header, write_header}
use go_socket_client.Packet.Message.{
  SendReq, ReturnCode, new_header, conn_ack_type, return_code_number,
}
use go_socket_client.Packet.Message.Encode.{
  payload_buf, data_buf, send_req_flags, encode_send_req, encode_conn_ack,
}
use go_socket_client.Packet.Message.Decode.{
  get_payload, decode_connect, decode_send_req, decode_body, decode_message,
}

-- A length byte with the mark, as the fifth that never comes would need.
abbrev IsMarked : ℕ → Type 0
IsMarked f = (128 ≤ f) × (f < 256)

too_long_loop :
    (i shift v : ℕ) (n : ℕ) (fs rest : Bytes) (e : TcpException)
    → length fs ≡ n
    → All IsMarked fs
    → v < 2 ^ shift
    → decode_length_loop n i shift v (stream (fs ++ rest) e)
      ≡ ok ((u32_max, u32_max), stream rest e)
unfolding decode_length_loop
too_long_loop i shift v zero [] rest e hn hf hv = refl
too_long_loop i shift v zero (f ∷ fs) rest e hn hf hv = absurd (omega arith)
too_long_loop i shift v (suc n) [] rest e hn hf hv = absurd (omega arith)
too_long_loop i shift v (suc n) (f ∷ fs) rest e hn ((lo, hi), hf) hv =
    inner_byte n i shift v f (fs ++ rest) e hv lo hi
    ∙ too_long_loop (i + 1) (shift + 7) (v + f % 128 * 2 ^ shift) n fs rest e (omega arith) hf
        (group_fits v f shift hv)

-- decodeLength gives up on four marked bytes.
decode_length_too_long :
    (fs rest : Bytes) (e : TcpException)
    → length fs ≡ 4
    → All IsMarked fs
    → decode_length (stream (fs ++ rest) e) ≡ ok ((u32_max, u32_max), stream rest e)
unfolding decode_length
decode_length_too_long fs rest e h k = too_long_loop 0 0 0 4 fs rest e h k (omega arith)

-- A SendReq that announces two bytes, all of which its id takes, and goes on behind them.
abbrev pub short_request : ℕ → ℕ → ℕ → Bytes → Bytes
short_request a b c fs = 0x60 ∷ 2 ∷ a ∷ b ∷ 1 ∷ c ∷ fs

abbrev short_header : FixHeader
short_header = record { msg_type = MessageType.send_req; remain_len = 2; flags = 0 }

module _ (a b c : ℕ) (fs : Bytes) (e : TcpException) where
  read_id : get_uint16 2 (stream (a ∷ b ∷ fs) e) ≡ ok ((bit_or b (a * 2 ^ 8), 0), stream fs e)
  unfolding get_uint16
  read_id = ground (arith, read_full-append 2 (a ∷ b ∷ []) fs e refl)

  -- The length of the type is taken off a remaining length of 0.
  wrapped_kind : get_string 0 (stream (1 ∷ c ∷ fs) e) ≡ ok ((c ∷ [], u32_max - 1), stream fs e)
  unfolding get_string get_counted decode_length
  wrapped_kind =
      ground (arith, last_byte 3 0 0 0 1 (c ∷ fs) e (omega arith) (omega arith), read_one c fs e)

  negative_length :
      (gzip : Gzip) (t : Stream)
      → decode_length (stream fs e) ≡ ok ((u32_max, u32_max), t)
      → get_gzip_string gzip (u32_max - 1) (stream fs e) ≡ undefined
  unfolding get_gzip_string get_counted
  negative_length gzip t h = ground (arith, h)

-- Whatever compression does, a peer that sends such a SendReq, with four marked bytes behind its type of
-- one byte, brings DecodeMessage to declare an array of -1 bytes.
pub decode_message_overflow :
    (gzip : Gzip) (a b c : ℕ) (fs rest : Bytes) (e : TcpException)
    → length fs ≡ 4
    → All IsMarked fs
    → decode_message gzip (stream (short_request a b c (fs ++ rest)) e) ≡ undefined
unfolding decode_message decode_body decode_send_req get_payload
decode_message_overflow gzip a b c fs rest e h k = ground (
  arith,
  decode_header-bytes MessageType.send_req 0 2 (a ∷ b ∷ 1 ∷ c ∷ (fs ++ rest)) e refl (omega arith)
      (omega arith),
  two_bytes,
  read_id a b c (1 ∷ c ∷ (fs ++ rest)) e,
  wrapped_kind a b c (fs ++ rest) e,
  negative_length a b c (fs ++ rest) e gzip (stream rest e) (decode_length_too_long fs rest e h k),
)
  where
    two_bytes : groups 3 2 ≡ 2 ∷ []
    two_bytes = unfold groups in refl

-- FixHeader::Decode refuses the flag of binary data.
header_refused :
    (f : ℕ) (tail : Bytes) (e : TcpException)
    → f < 16
    → 8 ≤ f
    → decode_header (stream ((f + 6 * 16) ∷ tail) e) ≡ throw (exception invalid_flag)
unfolding decode_header
header_refused f tail e h k =
    ground
      (arith, read_one (f + 6 * 16) tail e, bit_and_0x0f (f + 6 * 16), bit_and_0xf0 (f + 6 * 16))

flags-data :
    (m : SendReq) → m.reply_level < 4 → m.has_data ≡ true → send_req_flags m ≡ m.reply_level * 2 + 8
unfolding send_req_flags
flags-data m hl hd = rw hd (omega (arith, bit_or-eq_add 3 (m.reply_level * 2) 1 (omega arith)))

-- What Encode wrote begins with the byte of the type and the flags.
encode_send_req-first_byte :
    (gzip : Gzip) (m : SendReq) (bytes : Bytes)
    → send_req_flags m < 256
    → encode_send_req gzip m ≡ ok bytes
    → (tail : Bytes) × (bytes ≡ (send_req_flags m % 16 + code m.header.msg_type * 16) ∷ tail)
unfolding encode_send_req
encode_send_req-first_byte gzip m bytes hf h =
    let header : FixHeader = record (m.header) { flags = send_req_flags m } in
    let buf : Bytes = set_string m.kind (set_uint16 m.message_id []) in
    let (payload, _, h1) = >>=-returns (payload_buf gzip m.payload) _ h in
    let (content, _, h2) = >>=-returns (data_buf gzip m.has_data m.content) _ h1 in
    let (p, h3, h4) =
      >>=-returns (write_header header (some buf) (length payload) (length content)) _ h2 in
    finish p.1 payload content h4
      (write_header-first_byte header p.0 (some buf) (length payload) (length content) p.1 hf h3)
  where
    finish :
        (hb payload content : Bytes)
        → ok ((hb ++ payload) ++ content) ≡ ok bytes
        → (tail : Bytes) × (hb ≡ (send_req_flags m % 16 + code m.header.msg_type * 16) ∷ tail)
        → (tail : Bytes) × (bytes ≡ (send_req_flags m % 16 + code m.header.msg_type * 16) ∷ tail)
    finish hb payload content e (tail, b) = ((tail ++ payload) ++ content, ground (arith, b, e))

-- Whenever Encode returns for a SendReq with binary data and a reply level below 4, DecodeMessage
-- refuses what it wrote with TcpExcInvalidFlag.
pub decode_message-encode_data :
    (gzip : Gzip) (m : SendReq) (bytes rest : Bytes) (e : TcpException)
    → m.header.msg_type ≡ MessageType.send_req
    → m.reply_level < 4
    → m.has_data ≡ true
    → encode_send_req gzip m ≡ ok bytes
    → decode_message gzip (stream (bytes ++ rest) e) ≡ throw (exception invalid_flag)
unfolding decode_message
decode_message-encode_data gzip m bytes rest e ht hl hd h =
    refused (encode_send_req-first_byte gzip m bytes (omega (arith, flags-data m hl hd)) h)
  where
    refused :
        (tail : Bytes) × (bytes ≡ (send_req_flags m % 16 + code m.header.msg_type * 16) ∷ tail)
        → (decode_header >>= λ header. decode_body gzip header.msg_type header)
            (stream (bytes ++ rest) e)
          ≡ throw (exception invalid_flag)
    refused (tail, b) = ground (
      arith,
      b,
      ht,
      flags-data m hl hd,
      header_refused (m.reply_level * 2 + 8) (tail ++ rest) e (omega arith) (omega arith),
    )

-- The wrong type of a ConnAck: what its Encode writes is decoded as a Connect, and refused.
pub decode_message-encode_conn_ack :
    (gzip : Gzip) (code : ReturnCode) (rest : Bytes) (e : TcpException)
    → (bytes : Bytes) × (encode_conn_ack
          (record { header = new_header conn_ack_type; return_code = code })
        ≡ ok bytes)
      × (decode_message gzip (stream (bytes ++ rest) e) ≡ throw (exception invalid_pro_name))
unfolding decode_message decode_body encode_conn_ack set_uint8 decode_connect groups
decode_message-encode_conn_ack gzip c rest e = (
  header_bytes MessageType.connect 0 2 ++ (0 ∷ return_code_number c ∷ []),
  ground (
    arith,
    write_header-bytes (new_header conn_ack_type) (some (0 ∷ return_code_number c ∷ [])) 0 0
        (omega arith) (omega arith) refl (omega arith) (omega arith),
  ),
  ground (
    arith,
    decode_header-bytes MessageType.connect 0 2 (0 ∷ return_code_number c ∷ rest) e refl
        (omega arith) (omega arith),
    get_string_block (return_code_number c ∷ rest) e 2 [] (omega arith) (omega arith) (omega arith),
  ),
)
