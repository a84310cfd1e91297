-- ===== src/Packet/Message/Decode.antt =====
-- packet/message.cpp, the Decode methods, and packet/message_manager.cpp. A Decode takes the header
-- that MessageManager::DecodeMessage sets on the new object.
use go_socket_client.Prelude.{
  ℕ, ◌/◌, ◌%◌, Bool, not, ◌&&◌, ltb, leb, ◌==◌, if◌then◌else◌, bytes_eq, bit_and,
}
use go_socket_client.Packet.Error.{
  msg_too_long, invalid_pro_name, invalid_pro_version, invalid_flag, bad_return_code, undefined,
}
use go_socket_client.Packet.Reader.{M, ◌>>=◌, ◌>>◌, pure, raise_if}
use go_socket_client.Packet.Gzip.{Bytes, Gzip}
use go_socket_client.Packet.Decoding.{
  get_uint8, get_uint16, get_string, get_data, get_gzip_string, get_gzip_data,
}
use go_socket_client.Packet.Header.{MessageType, FixHeader, decode_header}
use go_socket_client.Packet.Message.{
  [], Connect, ConnAck, PingReq, PingResp, Disconnect, SendReq, SendResp, Message, connect,
  conn_ack, ping_req, ping_resp, disconnect, send_req, send_resp, enable_gzip, protocol_name,
  protocol_version, return_code_of, return_code_number, invalid,
}

-- `if (remainLen != 0) throw TcpException(TcpExcMsgTooLong);`
abbrev pub nothing_left : ℕ → M (Unit {0})
nothing_left remain = raise_if (not (remain == 0)) msg_too_long

unfoldable pub decode_conn_ack : FixHeader → M ConnAck
decode_conn_ack header = do
  (flags, remain) ← get_uint8 header.remain_len
  raise_if (not (flags == 0)) invalid_flag
  (ret_code, remain') ← get_uint8 remain
  raise_if (leb (return_code_number invalid) ret_code) bad_return_code
  nothing_left remain'
  pure (record { header = header; return_code = return_code_of ret_code })

unfoldable pub decode_ping_req : FixHeader → M PingReq
decode_ping_req header = do nothing_left header.remain_len; pure (record { header = header })

unfoldable pub decode_ping_resp : FixHeader → M PingResp
decode_ping_resp header = do nothing_left header.remain_len; pure (record { header = header })

unfoldable pub decode_disconnect : FixHeader → M Disconnect
decode_disconnect header = do
  (type, remain) ← get_uint8 header.remain_len
  nothing_left remain
  pure (record { header = header; disconnect_type = type })

module _ (gzip : Gzip) where
  -- `if (kEnableGzip) getGzipString(...) else getString(...)`
  unfoldable pub get_payload : ℕ → M (Bytes × ℕ)
  get_payload remain = if enable_gzip then get_gzip_string gzip remain else get_string remain

  -- The binary data of a SendReq; without it `_data` stays empty.
  unfoldable pub get_content : Bool → ℕ → M (Bytes × ℕ)
  get_content has_data remain =
      if has_data
      then (if enable_gzip then get_gzip_data gzip remain else get_data remain)
      else pure ([], remain)

  unfoldable pub decode_connect : FixHeader → M Connect
  decode_connect header = do
    (name, remain) ← get_string header.remain_len
    raise_if (not (bytes_eq name protocol_name)) invalid_pro_name
    (version, remain1) ← get_uint8 remain
    raise_if (ltb protocol_version version) invalid_pro_version
    (flags, remain2) ← get_uint8 remain1
    let gzip_enabled = ltb 0 (bit_and flags 0x80)
    raise_if (not (flags == 0) && not (flags == 128)) invalid_flag
    (keep_alive, remain3) ← get_uint16 remain2
    (payload, remain4) ← get_payload remain3
    nothing_left remain4
    pure (record {
      header = header;
      name = name;
      version = version;
      keep_alive = keep_alive;
      payload = payload;
      gzip_enabled = gzip_enabled;
    })

  unfoldable pub decode_send_req : FixHeader → M SendReq
  decode_send_req header = do
    let reply_level = header.flags / 2 % 4
    let has_data = header.flags / 8 % 2 == 1
    (message_id, remain) ← get_uint16 header.remain_len
    (kind, remain1) ← get_string remain
    (payload, remain2) ← get_payload remain1
    (content, remain3) ← get_content has_data remain2
    nothing_left remain3
    pure (record {
      header = header;
      reply_level = reply_level;
      has_data = has_data;
      message_id = message_id;
      kind = kind;
      payload = payload;
      content = content;
    })

  unfoldable pub decode_send_resp : FixHeader → M SendResp
  decode_send_resp header = do
    (message_id, remain) ← get_uint16 header.remain_len
    (payload, remain1) ← get_payload remain
    nothing_left remain1
    pure (record { header = header; message_id = message_id; payload = payload })

  -- The switch of DecodeMessage. A type without a class leaves `message` NULL, through which
  -- SetHeader is then called.
  unfoldable pub decode_body : MessageType → FixHeader → M Message
  decode_body MessageType.first header = λ s. undefined
  decode_body MessageType.connect header = decode_connect header >>= λ m. pure (connect m)
  decode_body MessageType.conn_ack header = decode_conn_ack header >>= λ m. pure (conn_ack m)
  decode_body MessageType.ping_req header = decode_ping_req header >>= λ m. pure (ping_req m)
  decode_body MessageType.ping_resp header = decode_ping_resp header >>= λ m. pure (ping_resp m)
  decode_body MessageType.disconnect header = decode_disconnect header >>= λ m. pure (disconnect m)
  decode_body MessageType.send_req header = decode_send_req header >>= λ m. pure (send_req m)
  decode_body MessageType.send_resp header = decode_send_resp header >>= λ m. pure (send_resp m)
  decode_body MessageType.last header = λ s. undefined

  -- MessageManager::DecodeMessage
  unfoldable pub decode_message : M Message
  decode_message = do header ← decode_header; decode_body header.msg_type header
