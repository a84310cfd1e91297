-- ===== src/Packet/Error/What.antt =====
-- packet/tcp_error.cpp, TcpException::What: the texts of the exceptions. std::to_string is an argument.
use Prim.Native.String.{String, ◌++◌}
use go_socket_client.Prelude.{ℕ}
use go_socket_client.Packet.Error.{
  TcpExcType, TcpException, bad_msg_type, bad_len_encoding, bad_return_code, data_exceeds_packet,
  msg_too_long, invalid_flag, invalid_pro_name, invalid_pro_version, invalid_socket, socket_close,
  socket_error, gzip_error, ungzip_error,
}

unfoldable pub message_text : (ℕ → String) → TcpExcType → ℕ → String
message_text to_string bad_msg_type e = "message type error"
message_text to_string bad_len_encoding e = "bad length encoding"
message_text to_string bad_return_code e = "bad return code"
message_text to_string data_exceeds_packet e = "data exceeds packet size limit"
message_text to_string msg_too_long e = "message too long"
message_text to_string invalid_flag e = "flag invalid"
message_text to_string invalid_pro_name e = "protocal name invalid"
message_text to_string invalid_pro_version e = "protocal version invalid"
message_text to_string invalid_socket e = "invalid socket"
message_text to_string socket_close e = "socket close"
message_text to_string socket_error e = "socket error:" ++ to_string e
message_text to_string gzip_error e = "gzip error:"
message_text to_string ungzip_error e = "ungzip error:"

-- TcpException::What
unfoldable pub what : (ℕ → String) → TcpException → String
what to_string x = message_text to_string x.exc_type x.error_no
