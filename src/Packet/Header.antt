-- ===== src/Packet/Header.antt =====
-- packet/fix_header.hpp, packet/fix_header.cpp and packet/message_base.cpp: the fixed header of a
-- message.
pub mod RoundTrip
pub mod Bounds
use go_socket_client.Prelude.{
  ℕ, zero, suc, ◌+◌, ◌-◌, ◌*◌, ◌/◌, ◌%◌, ◌^◌, ◌≡◌, refl, Bool, not, ◌||◌, [], ◌∷◌, ◌++◌, Option,
  none, some, ltb, leb, if◌then◌else◌, ◌==◌, get_or, length, bit_and, bit_or,
}
use go_socket_client.Packet.Error.{Outcome, ok, fail, bad_msg_type, invalid_flag, msg_too_long}
use go_socket_client.Packet.Error.{◌>>=◌ as ◌>>=ₒ◌}
use go_socket_client.Packet.Reader.{M, ◌>>=◌, ◌>>◌, pure, raise_if, read_full}
use go_socket_client.Packet.Gzip.{Bytes}
use go_socket_client.Packet.Encoding.{u32_mod, encode_length, set_uint8}
use go_socket_client.Packet.Decoding.{decode_length}

-- MessageType. A number above kMsgLast in the four bits of a header is read as `last`: the code
-- only compares it with kMsgLast.
pub data MessageType : Type 0 where
  first connect conn_ack ping_req ping_resp disconnect send_req send_resp last : MessageType

abbrev pub code : MessageType → ℕ
code first = 0
code connect = 1
code conn_ack = 2
code ping_req = 3
code ping_resp = 4
code disconnect = 5
code send_req = 6
code send_resp = 7
code last = 8

abbrev pub of_code : ℕ → MessageType
of_code n = elim n [
  | zero ↦ first
  | suc zero ↦ connect
  | suc (suc zero) ↦ conn_ack
  | suc (suc (suc zero)) ↦ ping_req
  | suc (suc (suc (suc zero))) ↦ ping_resp
  | suc (suc (suc (suc (suc zero)))) ↦ disconnect
  | suc (suc (suc (suc (suc (suc zero))))) ↦ send_req
  | suc (suc (suc (suc (suc (suc (suc zero)))))) ↦ send_resp
  | _ ↦ last
]

pub record FixHeader : Type 0 where
  pub msg_type : MessageType
  pub remain_len : ℕ
  pub flags : ℕ

-- `_msgType <= kMsgFirst || _msgType >= kMsgLast`
abbrev pub out_of_range : MessageType → Bool
out_of_range t = leb (code t) (code first) || leb (code last) (code t)

-- FixHeader::Encode
unfoldable pub encode_header : FixHeader → Bytes → Outcome Bytes
encode_header h buf =
    if out_of_range h.msg_type
    then fail bad_msg_type
    else ok (
        encode_length h.remain_len
          (set_uint8 (bit_or (bit_and h.flags 0x0f) (code h.msg_type * 2 ^ 4)) buf))

-- FixHeader::Decode
unfoldable pub decode_header : M FixHeader
decode_header = do
  buf ← read_full 1
  let b = get_or buf 0 0
  let msg_type = of_code (bit_and b 0xf0 / 16)
  raise_if (out_of_range msg_type) bad_msg_type
  let flags = bit_and b 0x0f
  raise_if (not (flags / 8 == 0) || not (flags % 2 == 0)) invalid_flag
  (remain_len, len) ← decode_length
  pure (record { msg_type = msg_type; remain_len = remain_len; flags = flags })

-- MessageBase::kMaxPayloadSize
abbrev pub max_payload_size : ℕ
max_payload_size = 2 ^ (4 * 7) - 1

-- `int32_t(size)`, by its positive and its negative part.
abbrev pub int32_pos : ℕ → ℕ
int32_pos n = if ltb (n % u32_mod) 0x8000_0000 then n % u32_mod else 0

abbrev pub int32_neg : ℕ → ℕ
int32_neg n = if ltb (n % u32_mod) 0x8000_0000 then 0 else u32_mod - n % u32_mod

abbrev bytes_of : Option Bytes → Bytes
bytes_of none = []
bytes_of (some bs) = bs

-- MessageBase::WriteHeader on an empty `headerBuf`, with the sizes that its callers cast to int32_t.
-- The total is compared as a signed number and stored as a uint32_t.
unfoldable pub write_header : FixHeader → Option Bytes → ℕ → ℕ → Outcome (FixHeader × Bytes)
write_header h mutable_header payload_size data_size =
    let header_bytes = bytes_of mutable_header in
    let gain = length header_bytes + int32_pos payload_size + int32_pos data_size in
    let loss = int32_neg payload_size + int32_neg data_size in
    let h' = record h { remain_len = (gain + 2 * u32_mod - loss) % u32_mod } in
    if ltb (max_payload_size + loss) gain
    then fail msg_too_long
    else (encode_header h' [] >>=ₒ λ buf. ok (h', buf ++ header_bytes))

header_6_300 :
    encode_header (record { msg_type = send_req; remain_len = 300; flags = 2 }) []
    ≡ ok (0x62 ∷ 0xac ∷ 0x02 ∷ [])
unfolding encode_header encode_length set_uint8
header_6_300 = refl
