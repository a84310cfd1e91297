-- ===== src/Tests/PacketTests.antt =====
-- packet/: the theorems about the codecs at concrete inputs.
use go_socket_client.Prelude.{
  ap, ℕ, zero, suc, ◌-◌, ◌+◌, ◌^◌, ◌≤◌, ◌<◌, ◌≡◌, ◌≢◌, refl, true, false, [], ◌∷◌, ◌++◌, Option,
  none, some, arith, length, All,
}
use go_socket_client.Packet.Error.{
  ok, throw, undefined, exception, fail, socket_close, invalid_flag, invalid_pro_name, msg_too_long,
  TcpException,
}
use go_socket_client.Packet.Reader.{Stream, stream, read_full}
use go_socket_client.Packet.Gzip.{Bytes, Gzip}
use go_socket_client.Packet.Encoding.{
  encode_length, set_gzip_string, set_gzip_data, set_string, set_uint16, set_uint8,
}
use go_socket_client.Packet.Encoding.Appends.{counted, length-counted}
use go_socket_client.Packet.Encoding.Groups.{groups}
use go_socket_client.Packet.Decoding.{decode_length, decode_length_loop}
use go_socket_client.Packet.Decoding.Length.{decode_length-encode_length}
use go_socket_client.Packet.Decoding.Bounds.{IsByte, LengthRead, decode_length-LengthRead}
use go_socket_client.Packet.Header.{
  MessageType, FixHeader, decode_header, encode_header, write_header,
}
use go_socket_client.Packet.Message.{SendReq, Message, ReturnCode, new_header, conn_ack_type}
use go_socket_client.Packet.Message.Encode.{
  send_req_flags, payload_buf, data_buf, encode_send_req, encode_message, encode_conn_ack,
}
use go_socket_client.Packet.Message.Decode.{decode_message, decode_body, decode_ping_resp}
use go_socket_client.Packet.Message.SendReqTrip.{
  IsSendable, body_length, sent_header, encode_send_req-too_long, payload_buf-eq, data_buf-eq,
  variable_header-eq, decode_message-encode_send_req,
}
use go_socket_client.Packet.Message.Framing.{decode_message-Lost}
use go_socket_client.Packet.Message.Safety.{decode_message-ne-undefined}
use go_socket_client.Packet.Message.Faults.{
  short_request, decode_message_overflow, decode_message-encode_data,
  decode_message-encode_conn_ack,
}

-- A stand-in for gzip: one byte in front of the text.
abbrev pub unmark : Bytes → Option Bytes
unmark [] = none
unmark (b ∷ x) = some x

pub unmark-mark : (x y : Bytes) → some (0 ∷ x) ≡ some y → unmark y ≡ some x
unmark-mark x y e = ground (arith, e)

pub mark-nonempty : (x y : Bytes) → some (0 ∷ x) ≡ some y → y ≢ []
mark-nonempty x y e n = cc

abbrev pub toy_gzip : Gzip
toy_gzip = record {
  compress = λ x. some (0 ∷ x);
  uncompress = unmark;
  round_trip = λ x y l m e. unmark-mark x y e;
  nonempty = mark-nonempty;
}

abbrev pub closed : TcpException
closed = exception socket_close

decode_length-encode_length_example :
    decode_length (stream (encode_length 300 [] ++ 7 ∷ []) closed)
    ≡ ok ((300, length (encode_length 300 [])), stream (7 ∷ []) closed)
decode_length-encode_length_example = decode_length-encode_length 300 (7 ∷ []) closed (omega arith)

decode_length_300 :
    decode_length (stream (0xac ∷ 0x02 ∷ 9 ∷ []) closed) ≡ ok ((300, 2), stream (9 ∷ []) closed)
unfolding decode_length read_full decode_length_loop
decode_length_300 = refl

decode_length-LengthRead_example : LengthRead 3 300 2 1 × All IsByte (9 ∷ []) × (closed ≡ closed)
decode_length-LengthRead_example =
    decode_length-LengthRead (stream (0xac ∷ 0x02 ∷ 9 ∷ []) closed) (stream (9 ∷ []) closed) 300 2
      (omega arith) decode_length_300

-- A request without binary data.
abbrev request : SendReq
request = record {
  header = new_header MessageType.send_req;
  reply_level = 1;
  has_data = false;
  message_id = 513;
  kind = 1 ∷ 2 ∷ [];
  payload = 3 ∷ [];
  content = [];
}

request-IsSendable : IsSendable toy_gzip request (0 ∷ 3 ∷ [])
request-IsSendable = record {
  compressed = refl;
  typed = refl;
  no_data = refl;
  level = omega arith;
  id = omega arith;
  kind_size = omega arith;
  payload_length = omega arith;
  payload_size = omega arith;
}

request_length : body_length request (0 ∷ 3 ∷ []) ≡ 8
unfolding groups
request_length = refl

decode_message-encode_send_req_example :
    (bytes : Bytes) × (encode_message toy_gzip (Message.send_req request) ≡ ok bytes)
    × (decode_message toy_gzip (stream (bytes ++ 5 ∷ []) closed)
        ≡ ok (
          Message.send_req
              (record request { header = sent_header request (0 ∷ 3 ∷ []); content = [] }),
          stream (5 ∷ []) closed,
        ))
decode_message-encode_send_req_example =
    decode_message-encode_send_req toy_gzip request (0 ∷ 3 ∷ []) request-IsSendable (5 ∷ []) closed
      (omega (arith, request_length))

-- A ping response: two bytes.
ping_resp_run :
    decode_message toy_gzip (stream (0x40 ∷ 0 ∷ 8 ∷ []) closed)
    ≡ ok (
      Message.ping_resp (record {
        header = record { msg_type = MessageType.ping_resp; remain_len = 0; flags = 0 };
      }),
      stream (8 ∷ []) closed,
    )
unfolding decode_message decode_header decode_body decode_ping_resp decode_length decode_length_loop
    read_full
ping_resp_run = refl

decode_message-Lost_example :
    (h : FixHeader) × (t : Stream) × (decode_header (stream (0x40 ∷ 0 ∷ 8 ∷ []) closed) ≡ ok (h, t))
    × (h.remain_len < 2 ^ 28)
    × (length t.bytes ≡ 1 + h.remain_len)
decode_message-Lost_example =
    decode_message-Lost toy_gzip (stream (0x40 ∷ 0 ∷ 8 ∷ []) closed) (stream (8 ∷ []) closed) _
      (omega arith) ping_resp_run

ping_header :
    (h : FixHeader) (t : Stream)
    → decode_header (stream (0x40 ∷ 0 ∷ 8 ∷ []) closed) ≡ ok (h, t)
    → h.msg_type ≡ MessageType.send_req
    → 6 ≤ h.remain_len
unfolding decode_header decode_length decode_length_loop read_full
ping_header h t e k = cc

decode_message-ne-undefined_example :
    decode_message toy_gzip (stream (0x40 ∷ 0 ∷ 8 ∷ []) closed) ≢ undefined
decode_message-ne-undefined_example =
    decode_message-ne-undefined toy_gzip (stream (0x40 ∷ 0 ∷ 8 ∷ []) closed) (omega arith)
      ping_header

decode_message_overflow_example :
    decode_message toy_gzip
      (stream (short_request 0 1 65 ((255 ∷ 255 ∷ 255 ∷ 255 ∷ []) ++ [])) closed)
    ≡ undefined
decode_message_overflow_example =
    decode_message_overflow toy_gzip 0 1 65 (255 ∷ 255 ∷ 255 ∷ 255 ∷ []) [] closed refl
      (omega arith)

abbrev data_request : SendReq
data_request = record request { has_data = true; content = 4 ∷ 5 ∷ [] }

data_request_bytes :
    encode_send_req toy_gzip data_request
    ≡ ok (0x6a ∷ 12 ∷ 2 ∷ 1 ∷ 2 ∷ 1 ∷ 2 ∷ 2 ∷ 0 ∷ 3 ∷ 3 ∷ 0 ∷ 4 ∷ 5 ∷ [])
unfolding encode_send_req send_req_flags payload_buf data_buf write_header encode_header
    set_gzip_string set_gzip_data set_string set_uint16 set_uint8 encode_length
data_request_bytes = refl

decode_message-encode_data_example :
    decode_message toy_gzip
      (stream ((0x6a ∷ 12 ∷ 2 ∷ 1 ∷ 2 ∷ 1 ∷ 2 ∷ 2 ∷ 0 ∷ 3 ∷ 3 ∷ 0 ∷ 4 ∷ 5 ∷ []) ++ []) closed)
    ≡ throw (exception invalid_flag)
decode_message-encode_data_example =
    decode_message-encode_data toy_gzip data_request
      (0x6a ∷ 12 ∷ 2 ∷ 1 ∷ 2 ∷ 1 ∷ 2 ∷ 2 ∷ 0 ∷ 3 ∷ 3 ∷ 0 ∷ 4 ∷ 5 ∷ []) [] closed refl (omega arith)
      refl data_request_bytes

-- A payload that is too long, kept folded.
zeros : ℕ → Bytes
zeros zero = []
zeros (suc n) = 0 ∷ zeros n

length-zeros : (n : ℕ) → length (zeros n) ≡ n
unfolding zeros
length-zeros zero = refl
length-zeros (suc n) = omega (arith, length-zeros n)

abbrev long_request : SendReq
long_request = record request { payload = zeros (2 ^ 28 - 2) }

long_request-IsSendable : IsSendable toy_gzip long_request (0 ∷ zeros (2 ^ 28 - 2))
long_request-IsSendable = record {
  compressed = refl;
  typed = refl;
  no_data = refl;
  level = omega arith;
  id = omega arith;
  kind_size = omega arith;
  payload_length = omega (arith, length-zeros (2 ^ 28 - 2));
  payload_size = omega (arith, length-zeros (2 ^ 28 - 2));
}

encode_send_req-too_long_example : encode_send_req toy_gzip long_request ≡ fail msg_too_long
encode_send_req-too_long_example =
    let v = long_request-IsSendable in
    let out = 0 ∷ zeros (2 ^ 28 - 2) in
    let l = length-zeros (2 ^ 28 - 2) in
    let c = length-counted out in
    encode_send_req-too_long toy_gzip long_request (counted out) []
      (payload_buf-eq toy_gzip long_request out v) (data_buf-eq toy_gzip long_request out v)
      (omega (arith, l, c)) (omega arith)
      (omega (arith, l, c, ap length (variable_header-eq toy_gzip long_request out v)))

decode_message-encode_conn_ack_example :
    (bytes : Bytes) × (encode_conn_ack
        (record { header = new_header conn_ack_type; return_code = ReturnCode.accepted })
      ≡ ok bytes)
    × (decode_message toy_gzip (stream (bytes ++ []) closed) ≡ throw (exception invalid_pro_name))
decode_message-encode_conn_ack_example =
    decode_message-encode_conn_ack toy_gzip ReturnCode.accepted [] closed
