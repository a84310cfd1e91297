-- ===== src/Packet/Message.antt =====
-- packet/message.hpp: the messages, each with the fixed header that MessageBase gives it.
-- `Encode` and `Decode` are in the children of that name.
pub mod Encode
pub mod SendReqTrip
pub mod Framing
pub mod Safety
pub mod Faults
pub mod SmallTrips
pub mod ConnectTrip
pub mod Decode
use go_socket_client.Prelude.{ℕ, zero, suc, Bool, true, [], ◌∷◌}
use go_socket_client.Packet.Gzip.{Bytes}
use go_socket_client.Packet.Header.{MessageType, FixHeader}

-- kProtocolName, "GOSOC"
abbrev pub protocol_name : Bytes
protocol_name = b'G' ∷ b'O' ∷ b'S' ∷ b'O' ∷ b'C' ∷ []

-- kProtocolVersion
abbrev pub protocol_version : ℕ
protocol_version = 1

-- kEnableGzip
abbrev pub enable_gzip : Bool
enable_gzip = true

pub record Connect : Type 0 where
  pub header : FixHeader
  pub name : Bytes
  pub version : ℕ
  pub keep_alive : ℕ
  pub payload : Bytes
  pub gzip_enabled : Bool

-- ConnAck::ReturnCode
pub data ReturnCode : Type 0 where
  accepted server_unavailable bad_login_info not_authorized already_connected : ReturnCode
  concurrent_login bad_token invalid : ReturnCode

abbrev pub return_code_number : ReturnCode → ℕ
return_code_number accepted = 0
return_code_number server_unavailable = 1
return_code_number bad_login_info = 2
return_code_number not_authorized = 3
return_code_number already_connected = 4
return_code_number concurrent_login = 5
return_code_number bad_token = 6
return_code_number invalid = 7

-- `ReturnCode(retCode)`, which is used below RetCodeInvalid only.
abbrev pub return_code_of : ℕ → ReturnCode
return_code_of n = elim n [
  | zero ↦ accepted
  | suc zero ↦ server_unavailable
  | suc (suc zero) ↦ bad_login_info
  | suc (suc (suc zero)) ↦ not_authorized
  | suc (suc (suc (suc zero))) ↦ already_connected
  | suc (suc (suc (suc (suc zero)))) ↦ concurrent_login
  | suc (suc (suc (suc (suc (suc zero))))) ↦ bad_token
  | _ ↦ invalid
]

pub record ConnAck : Type 0 where
  pub header : FixHeader
  pub return_code : ReturnCode

pub record PingReq : Type 0 where
  pub header : FixHeader

pub record PingResp : Type 0 where
  pub header : FixHeader

-- DisconnectType is kept as the number that is cast to it: 0 is DiscTypeNone, 1 DiscTypeKickout. A byte
-- above 1 is kept too, as compilers do, though C++ leaves a cast to an enumeration without it open.
pub record Disconnect : Type 0 where
  pub header : FixHeader
  pub disconnect_type : ℕ

-- ReplyLevel is kept as a number too: RLevelNoReply, RLevelReplyLater, RLevelReplyNow.
abbrev pub rlevel_no_reply : ℕ
rlevel_no_reply = 0

abbrev pub rlevel_reply_later : ℕ
rlevel_reply_later = 1

pub record SendReq : Type 0 where
  pub header : FixHeader
  pub reply_level : ℕ
  pub has_data : Bool
  pub message_id : ℕ
  pub kind : Bytes
  pub payload : Bytes
  pub content : Bytes

pub record SendResp : Type 0 where
  pub header : FixHeader
  pub message_id : ℕ
  pub payload : Bytes

-- A pointer to MessageBase: an object of one of its classes.
pub data Message : Type 0 where
  connect : Connect → Message
  conn_ack : ConnAck → Message
  ping_req : PingReq → Message
  ping_resp : PingResp → Message
  disconnect : Disconnect → Message
  send_req : SendReq → Message
  send_resp : SendResp → Message

-- What the constructors leave in the header: the type, and `_flags = 0`. The length is set by
-- WriteHeader.
abbrev pub new_header : MessageType → FixHeader
new_header t = record { msg_type = t; remain_len = 0; flags = 0 }

-- The type that each class's constructor sets. ConnAck sets kMsgConnect.
abbrev pub connect_type : MessageType
connect_type = MessageType.connect

abbrev pub conn_ack_type : MessageType
conn_ack_type = MessageType.connect

abbrev pub ping_req_type : MessageType
ping_req_type = MessageType.ping_req

abbrev pub ping_resp_type : MessageType
ping_resp_type = MessageType.ping_resp

abbrev pub disconnect_message_type : MessageType
disconnect_message_type = MessageType.disconnect

abbrev pub send_req_type : MessageType
send_req_type = MessageType.send_req

abbrev pub send_resp_type : MessageType
send_resp_type = MessageType.send_resp

-- SendReq::SetData
abbrev pub set_data : Bytes → SendReq → SendReq
set_data bs m = record m { has_data = true; content = bs }
