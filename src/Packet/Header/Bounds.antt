-- ===== src/Packet/Header/Bounds.antt =====
-- FixHeader::Decode on any input: what a header that it returns can hold.
use go_socket_client.Prelude.{
  ℕ, ◌/◌, ◌%◌, ◌^◌, ◌<◌, ◌≡◌, subst, ◌⊎◌, false, not, ◌||◌, [], ◌∷◌, ◌++◌, arith, All, All-right,
  get_or, bit_and, ◌==◌,
}
use go_socket_client.Packet.Reader.{Stream}
use go_socket_client.Packet.Reader.Returns.{
  Returns, Returns-pure, Returns-guard, Returns-read, Returns-bind,
}
use go_socket_client.Packet.Reader.Defined.{Defined, defined_rules}
use go_socket_client.Packet.Gzip.{Bytes}
use go_socket_client.Packet.Decoding.{u32_max, decode_length}
use go_socket_client.Packet.Decoding.Bounds.{IsByte, decode_length-LengthRead}
use go_socket_client.Packet.Decoding.Defined.{decode_length-Defined}
use go_socket_client.Packet.Header.{out_of_range, of_code, FixHeader, decode_header}
use go_socket_client.Packet.Header.RoundTrip.{AcceptedFlags}

first_byte : (buf bs : Bytes) → All IsByte (buf ++ bs) → get_or buf 0 0 < 256
first_byte [] bs h = omega arith
first_byte (b ∷ buf) bs h = h.0

-- A header that was decoded: a known type, flags without bits 0 and 3, and a length below 2 ^ 28
-- or, for a length of more than four bytes, 2 ^ 32 - 1.
pub record IsDecoded (h : FixHeader) : Type 0 where
  pub known : out_of_range h.msg_type ≡ false
  pub flags : AcceptedFlags h.flags
  pub size : (h.remain_len < 2 ^ 28) ⊎ (h.remain_len ≡ u32_max)

pub decode_header-IsDecoded :
    (s : Stream)
    → All IsByte s.bytes
    → Returns decode_header s (λ h t. IsDecoded h × All IsByte t.bytes)
unfolding decode_header
decode_header-IsDecoded s hs = Returns-read _ s 1 _ λ buf t e l.
    let b : ℕ = get_or buf 0 0 in
    let f : ℕ = bit_and b 0x0f in
    let ht : All IsByte t.bytes = All-right IsByte buf t.bytes (subst (All IsByte) e hs) in
    Returns-guard _ t (out_of_range (of_code (bit_and b 0xf0 / 16))) _ _ λ known.
      Returns-guard _ t (not (f / 8 == 0) || not (f % 2 == 0)) _ _ λ ok_flags.
        Returns-bind (λ p u. ((p.0 < 2 ^ 28) ⊎ (p.0 ≡ u32_max)) × All IsByte u.bytes) _ t
          decode_length _
          (record { at = λ p u k. ground (arith, decode_length-LengthRead t u p.0 p.1 ht k) })
          λ p u k.
            Returns-pure _ u _ (record { known = known; flags = ground arith; size = k.0 }, k.1)

pub decode_header-Defined : Defined decode_header
unfolding decode_header
decode_header-Defined = search (defined_rules, decode_length-Defined) depth 9
