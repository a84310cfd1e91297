-- ===== src/Packet/Message/Encode.antt =====
-- packet/message.cpp, the Encode methods: what each hands to `writer->Write`. The header's flags and
-- length, which an Encode sets on the object, show in the bytes only.
use go_socket_client.Prelude.{
  ℕ, ◌*◌, ◌%◌, ◌^◌, Bool, true, false, [], ◌++◌, none, some, if◌then◌else◌, length, bit_or,
}
use go_socket_client.Packet.Error.{Outcome, ok, ◌>>=◌}
use go_socket_client.Packet.Gzip.{Bytes, Gzip}
use go_socket_client.Packet.Encoding.{
  set_uint8, set_uint16, set_string, set_data, set_gzip_string, set_gzip_data,
}
use go_socket_client.Packet.Header.{write_header}
use go_socket_client.Packet.Message.{
  Connect, ConnAck, PingReq, PingResp, Disconnect, SendReq, SendResp, Message, connect, conn_ack,
  ping_req, ping_resp, disconnect, send_req, send_resp, enable_gzip, return_code_number,
}

abbrev pub bit : Bool → ℕ
bit true = 1
bit false = 0

unfoldable pub encode_conn_ack : ConnAck → Outcome Bytes
encode_conn_ack m = do
  let buf = set_uint8 (return_code_number m.return_code) (set_uint8 0 [])
  (_, final_buf) ← write_header m.header (some buf) 0 0
  ok final_buf

unfoldable pub encode_ping_req : PingReq → Outcome Bytes
encode_ping_req m = do (_, final_buf) ← write_header m.header none 0 0; ok final_buf

unfoldable pub encode_ping_resp : PingResp → Outcome Bytes
encode_ping_resp m = do (_, final_buf) ← write_header m.header none 0 0; ok final_buf

unfoldable pub encode_disconnect : Disconnect → Outcome Bytes
encode_disconnect m = do
  (_, final_buf) ← write_header m.header (some (set_uint8 (m.disconnect_type % 2 ^ 8) [])) 0 0
  ok final_buf

-- `(uint8_t)((_replyLevel << 1) | (_hasData << 3))`
unfoldable pub send_req_flags : SendReq → ℕ
send_req_flags m = bit_or (m.reply_level * 2) (bit m.has_data * 2 ^ 3) % 256

module _ (gzip : Gzip) where
  -- `if (kEnableGzip) setGzipString(...) else setString(...)`, into an empty buffer.
  unfoldable pub payload_buf : Bytes → Outcome Bytes
  payload_buf payload =
      if enable_gzip then set_gzip_string gzip payload [] else ok (set_string payload [])

  -- The binary data of a SendReq, into an empty buffer.
  unfoldable pub data_buf : Bool → Bytes → Outcome Bytes
  data_buf has_data content =
      if has_data
      then (if enable_gzip then set_gzip_data gzip content [] else ok (set_data content []))
      else ok []

  unfoldable pub encode_connect : Connect → Outcome Bytes
  encode_connect m = do
    let flags = bit m.gzip_enabled * 2 ^ 7
    let buf = set_uint16 m.keep_alive (set_uint8 flags (set_uint8 m.version (set_string m.name [])))
    payload ← payload_buf m.payload
    (_, final_buf) ← write_header m.header (some buf) (length payload) 0
    ok (final_buf ++ payload)

  unfoldable pub encode_send_req : SendReq → Outcome Bytes
  encode_send_req m = do
    let header = record (m.header) { flags = send_req_flags m }
    let buf = set_string m.kind (set_uint16 m.message_id [])
    payload ← payload_buf m.payload
    content ← data_buf m.has_data m.content
    (_, final_buf) ← write_header header (some buf) (length payload) (length content)
    ok ((final_buf ++ payload) ++ content)

  -- The buffer that is written is the payload's, not the message's.
  unfoldable pub encode_send_resp : SendResp → Outcome Bytes
  encode_send_resp m = do
    let buf = set_uint16 m.message_id []
    payload ← payload_buf m.payload
    (_, final_buf) ← write_header m.header (some buf) (length payload) 0
    let final_buf' = final_buf ++ payload
    ok payload

  -- MessageManager::EncodeMessage, by the object's class.
  unfoldable pub encode_message : Message → Outcome Bytes
  encode_message (connect m) = encode_connect m
  encode_message (conn_ack m) = encode_conn_ack m
  encode_message (ping_req m) = encode_ping_req m
  encode_message (ping_resp m) = encode_ping_resp m
  encode_message (disconnect m) = encode_disconnect m
  encode_message (send_req m) = encode_send_req m
  encode_message (send_resp m) = encode_send_resp m
