-- ===== src/Packet/Message/ConnectTrip.antt =====
-- A Connect as it goes over the wire: what Encode writes, and that DecodeMessage reads it back.
use go_socket_client.Prelude.{
  bit_and, append_assoc, ℕ, ◌+◌, ◌-◌, ◌*◌, ◌^◌, ◌≤◌, ◌<◌, ◌≡◌, refl, Bool, true, false, not, ◌&&◌,
  some, [], ◌∷◌, ◌++◌, arith, ltb, ◌==◌, length,
}
use go_socket_client.Packet.Message.Encode.{bit}
use go_socket_client.Packet.Error.{ok, TcpException}
use go_socket_client.Packet.Reader.{stream}
use go_socket_client.Packet.Gzip.{Bytes, Gzip}
use go_socket_client.Packet.Encoding.{set_uint16, set_uint8, set_string}
use go_socket_client.Packet.Encoding.Appends.{
  counted, length-counted, set_uint16-append, set_string-append, set_gzip_string-append,
}
use go_socket_client.Packet.Decoding.{get_uint8}
use go_socket_client.Packet.Decoding.Length.{read_one}
use go_socket_client.Packet.Decoding.RoundTrip.{
  get_uint16_bytes, get_string_block, get_gzip_string_block,
}
use go_socket_client.Packet.Encoding.Groups.{groups}
use go_socket_client.Packet.Header.{MessageType, FixHeader, max_payload_size}
use go_socket_client.Packet.Header.RoundTrip.{decode_header-bytes, header_bytes, write_header-bytes}
use go_socket_client.Packet.Message.{Connect, Message, protocol_name, protocol_version}
use go_socket_client.Packet.Message.SendReqTrip.{uint16_bytes}
use go_socket_client.Packet.Message.Encode.{payload_buf, encode_connect, encode_message}
use go_socket_client.Packet.Message.Decode.{
  get_payload, decode_connect, decode_message, decode_body,
}

-- The byte of the connect flags.
abbrev pub connect_flags : Connect → ℕ
connect_flags m = bit m.gzip_enabled * 2 ^ 7

-- The name, the version, the flags and the interval.
abbrev pub connect_header : Connect → Bytes
connect_header m =
    counted protocol_name ++ (protocol_version ∷ connect_flags m ∷ uint16_bytes m.keep_alive)

-- What follows the fixed header, for the compressed payload `out`.
abbrev pub connect_length : Connect → Bytes → ℕ
connect_length m out = length (connect_header m) + length (counted out) + 0

abbrev pub connect_wire : Connect → Bytes → Bytes
connect_wire m out =
    (header_bytes MessageType.connect 0 (connect_length m out) ++ connect_header m) ++ counted out

-- The header that WriteHeader leaves.
abbrev pub sent_connect : Connect → Bytes → FixHeader
sent_connect m out = record {
  msg_type = MessageType.connect;
  remain_len = connect_length m out;
  flags = 0;
}

-- A Connect as the client makes it, whose payload compresses to `out`.
pub record IsGreeting (gzip : Gzip) (m : Connect) (out : Bytes) : Type 0 where
  pub compressed : gzip.compress m.payload ≡ some out
  pub typed : m.header.msg_type ≡ MessageType.connect
  pub no_flags : m.header.flags ≡ 0
  pub named : m.name ≡ protocol_name
  pub versioned : m.version ≡ protocol_version
  pub interval : m.keep_alive < 2 ^ 16
  pub payload_length : length m.payload < 2 ^ 31
  pub payload_size : length out < 2 ^ 28

flag_bit :
    (b : Bool)
    → (ltb 0 (bit_and (bit b * 2 ^ 7) 0x80) ≡ b)
      × ((not (bit b * 2 ^ 7 == 0) && not (bit b * 2 ^ 7 == 128)) ≡ false)
flag_bit true = (refl, refl)
flag_bit false = (refl, refl)

module _ (gzip : Gzip) (m : Connect) (out : Bytes) (v : IsGreeting gzip m out) where
  greeting_payload : payload_buf gzip m.payload ≡ ok (counted out)
  unfolding payload_buf
  greeting_payload = set_gzip_string-append gzip m.payload out v.compressed v.payload_size []

  connect_header-eq :
      set_uint16 m.keep_alive
        (set_uint8 (connect_flags m) (set_uint8 m.version (set_string m.name [])))
      ≡ connect_header m
  unfolding set_uint8
  connect_header-eq =
      rw
        (
          v.named,
          v.versioned,
          set_string-append protocol_name [] (omega arith),
          set_uint16-append m.keep_alive
              ((counted protocol_name ++ protocol_version ∷ []) ++ connect_flags m ∷ []),
        )
        (simp append_assoc)

  -- Encode writes the header, the variable header and the payload, if the message is not too long.
  encode_connect-wire :
      connect_length m out ≤ max_payload_size → encode_connect gzip m ≡ ok (connect_wire m out)
  unfolding encode_connect
  encode_connect-wire fits = ground (
    arith,
    greeting_payload,
    connect_header-eq,
    v.typed,
    v.no_flags,
    write_header-bytes m.header (some (connect_header m)) (length (counted out)) 0 (omega arith)
        (omega arith),
  )

  module _ (rest : Bytes) (e : TcpException) (fits : connect_length m out ≤ max_payload_size) where
    decode_connect-wire :
        decode_connect gzip (sent_connect m out) (
          stream
            (counted protocol_name
              ++ (protocol_version
                  ∷ connect_flags m
                  ∷ (uint16_bytes m.keep_alive ++ (counted out ++ rest))))
            e)
        ≡ ok (record m { header = sent_connect m out }, stream rest e)
    unfolding decode_connect get_payload get_uint8 groups
    decode_connect-wire =
        let tail = counted out ++ rest in
        let r1 : ℕ = connect_length m out - 6 in
        let six : length (counted protocol_name) ≡ 6 =
          omega (arith, length-counted protocol_name) in
        ground (
          arith,
          v.named,
          v.versioned,
          flag_bit m.gzip_enabled,
          six,
          get_string_block
              (protocol_version ∷ connect_flags m ∷ (uint16_bytes m.keep_alive ++ tail)) e
              (connect_length m out) protocol_name (omega arith) (omega (arith, six)) (omega arith),
          read_one protocol_version (connect_flags m ∷ (uint16_bytes m.keep_alive ++ tail)) e,
          read_one (connect_flags m) (uint16_bytes m.keep_alive ++ tail) e,
          get_uint16_bytes tail e (r1 - 2) m.keep_alive (omega (arith, six)) v.interval,
          get_gzip_string_block gzip m.payload out v.compressed v.payload_length v.payload_size
              (r1 - 4) (omega (arith, six)) (omega arith) rest e,
        )

    connect_regroup :
        connect_wire m out ++ rest
        ≡ header_bytes MessageType.connect 0 (connect_length m out)
          ++ (counted protocol_name
              ++ (protocol_version
                  ∷ connect_flags m
                  ∷ (uint16_bytes m.keep_alive ++ (counted out ++ rest))))
    connect_regroup = simp append_assoc

    -- EncodeMessage writes a Connect with the protocol's name and version, an interval in range, a payload
    -- shorter than 2^31 bytes that compresses, and a body that is not longer than kMaxPayloadSize, and DecodeMessage reads it back,
    -- with the header of its length, and leaves the rest of the stream as it is.
    pub decode_message-encode_connect :
        (bytes : Bytes) × (encode_message gzip (Message.connect m) ≡ ok bytes)
        × (decode_message gzip (stream (bytes ++ rest) e)
            ≡ ok (Message.connect (record m { header = sent_connect m out }), stream rest e))
    unfolding encode_message decode_message decode_body
    decode_message-encode_connect = (
      connect_wire m out,
      encode_connect-wire fits,
      rw connect_regroup (
          ground (
            arith,
            decode_connect-wire,
            decode_header-bytes MessageType.connect 0 (connect_length m out)
                (counted protocol_name
                  ++ (protocol_version
                      ∷ connect_flags m
                      ∷ (uint16_bytes m.keep_alive ++ (counted out ++ rest))))
                e refl (omega arith) (omega arith),
          )),
    )
