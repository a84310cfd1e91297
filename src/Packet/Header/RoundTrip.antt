-- ===== src/Packet/Header/RoundTrip.antt =====
-- FixHeader::Decode reads back what WriteHeader wrote, for the flags that it accepts.
use go_socket_client.Prelude.{
  ℕ, ◌+◌, ◌-◌, ◌*◌, ◌/◌, ◌%◌, ◌^◌, ◌≤◌, ◌<◌, ◌≡◌, refl, false, [], ◌∷◌, ◌++◌, Option, arith, length,
  bit_or, bit_and,
}
use go_socket_client.Prelude.Bits.{bit_or-eq_add, bit_and_0x0f, bit_and_0xf0}
use go_socket_client.Packet.Error.{ok, fail, TcpException, msg_too_long}
use go_socket_client.Packet.Reader.{stream}
use go_socket_client.Packet.Gzip.{Bytes}
use go_socket_client.Packet.Encoding.{u32_mod, set_uint8}
use go_socket_client.Packet.Encoding.Groups.{groups, encode_length-groups}
use go_socket_client.Packet.Decoding.Length.{read_one, decode_length-groups}
use go_socket_client.Packet.Header.{
  MessageType, first, connect, conn_ack, ping_req, ping_resp, disconnect, send_req, send_resp, last,
  code, of_code, out_of_range, FixHeader, encode_header, decode_header, write_header,
  max_payload_size, bytes_of, int32_pos, int32_neg,
}

-- The first byte and the length, in plain arithmetic.
abbrev pub header_bytes : MessageType → ℕ → ℕ → Bytes
header_bytes t flags len = (flags % 16 + code t * 16) ∷ groups 3 len

pub encode_header-bytes :
    (h : FixHeader)
    → out_of_range h.msg_type ≡ false
    → h.flags < 256
    → h.remain_len < 2 ^ 28
    → encode_header h [] ≡ ok (header_bytes h.msg_type h.flags h.remain_len)
unfolding encode_header set_uint8
encode_header-bytes h known hf hl = rw known (
    ground (
      arith,
      encode_length-groups 3 h.remain_len
          (bit_or (bit_and h.flags 0x0f) (code h.msg_type * 2 ^ 4) ∷ []) hl,
      bit_and_0x0f h.flags hf,
      bit_or-eq_add 4 (h.flags % 16) (code h.msg_type) (omega arith),
    ))

-- The total of a message whose parts are below 2 ^ 31 bytes.
abbrev pub total : Option Bytes → ℕ → ℕ → ℕ
total mutable_header p d = length (bytes_of mutable_header) + p + d

module _ (h : FixHeader) (mutable_header : Option Bytes) (p d : ℕ) (hp : p < 2 ^ 31)
    (hd : d < 2 ^ 31) where
  pub write_header-bytes :
      out_of_range h.msg_type ≡ false
      → h.flags < 256
      → total mutable_header p d ≤ max_payload_size
      → write_header h mutable_header p d
        ≡ ok (
          record h { remain_len = total mutable_header p d },
          header_bytes h.msg_type h.flags (total mutable_header p d) ++ bytes_of mutable_header,
        )
  unfolding write_header
  write_header-bytes known hf ht = ground (
    arith,
    encode_header-bytes (record h { remain_len = total mutable_header p d }) known hf (omega arith),
  )

  pub write_header-too_long :
      max_payload_size < total mutable_header p d
      → write_header h mutable_header p d ≡ fail msg_too_long
  unfolding write_header
  write_header-too_long ht = ground arith

-- The flags that FixHeader::Decode lets pass: bits 1 and 2.
abbrev pub AcceptedFlags : ℕ → Type 0
AcceptedFlags f = (f < 8) × (f % 2 ≡ 0)

high_bits : (f t : ℕ) → f < 16 → t < 9 → bit_and (f + t * 16) 0xf0 / 16 ≡ t
high_bits f t h k = omega (arith, bit_and_0xf0 (f + t * 16))

of_code-code : (t : MessageType) → of_code (code t) ≡ t
of_code-code first = refl
of_code-code connect = refl
of_code-code conn_ack = refl
of_code-code ping_req = refl
of_code-code ping_resp = refl
of_code-code disconnect = refl
of_code-code send_req = refl
of_code-code send_resp = refl
of_code-code last = refl

code_bound : (t : MessageType) → code t < 9
code_bound first = omega arith
code_bound _ = omega arith

pub decode_header-bytes :
    (t : MessageType) (flags len : ℕ) (rest : Bytes) (e : TcpException)
    → out_of_range t ≡ false
    → AcceptedFlags flags
    → len < 2 ^ 28
    → decode_header (stream (header_bytes t flags len ++ rest) e)
      ≡ ok (record { msg_type = t; remain_len = len; flags = flags }, stream rest e)
unfolding decode_header
decode_header-bytes t flags len rest e known hf hl = ground (
  arith,
  read_one (flags % 16 + code t * 16) (groups 3 len ++ rest) e,
  field,
  of_code-code t,
  low,
  known,
  decode_length-groups len rest e hl,
)
  where
    bound : code t < 9
    bound = code_bound t

    field : bit_and (flags % 16 + code t * 16) 0xf0 / 16 ≡ code t
    field = high_bits (flags % 16) (code t) (omega arith) bound

    low : bit_and (flags % 16 + code t * 16) 0x0f ≡ flags
    low = omega (arith, bit_and_0x0f (flags % 16 + code t * 16), bound)

-- Whatever is written begins with the type and the flags.
pub write_header-first_byte :
    (h h' : FixHeader) (mutable_header : Option Bytes) (p d : ℕ) (bytes : Bytes)
    → h.flags < 256
    → write_header h mutable_header p d ≡ ok (h', bytes)
    → (tail : Bytes) × (bytes ≡ (h.flags % 16 + code h.msg_type * 16) ∷ tail)
unfolding write_header encode_header set_uint8
write_header-first_byte h h' mutable_header p d bytes hf e =
    let gain : ℕ = length (bytes_of mutable_header) + int32_pos p + int32_pos d in
    let loss : ℕ = int32_neg p + int32_neg d in
    let len : ℕ = (gain + 2 * u32_mod - loss) % u32_mod in
    let first : ℕ = bit_or (bit_and h.flags 0x0f) (code h.msg_type * 2 ^ 4) in
    (
      groups 4 len ++ bytes_of mutable_header,
      ground (
        arith,
        e,
        encode_length-groups 4 len (first ∷ []) (omega arith),
        bit_and_0x0f h.flags hf,
        bit_or-eq_add 4 (h.flags % 16) (code h.msg_type) (omega arith),
      ),
    )
