-- ===== src/Packet/Decoding/Defined.antt =====
-- When the get functions are free of undefined behaviour: `char buf[len]` has a negative bound only
-- if decodeLength returned -1 and the remaining length was exactly 2 ^ 32 - 2, as after a wrap.
use go_socket_client.Prelude.{
  ℕ, zero, suc, ◌+◌, ◌-◌, ◌^◌, ◌*◌, ◌≤◌, ◌<◌, ◌≡◌, ◌≢◌, arith, length, All, ltb, leb, false, get_or,
  bit_and, bit_or, ◌==◌, Option-cases,
}
use go_socket_client.Packet.Reader.{Stream, read_full}
use go_socket_client.Packet.Reader.Returns.{
  Returns, Returns-bind, Returns-guard, Returns-undefined_guard, Returns-read, Returns-pure,
}
use go_socket_client.Packet.Reader.Defined.{
  Defined, DefinedAt, DefinedAt-of, DefinedAt-bind, DefinedAt-guard, DefinedAt-undefined_guard,
  Defined-pure, Defined-if, Defined-bind, Defined-read_full, defined_rules,
}
use go_socket_client.Packet.Gzip.{Bytes, Gzip}
use go_socket_client.Packet.Decoding.{
  u32_max, sub32, decode_length_loop, decode_length, get_uint8, get_uint16, get_counted,
  get_gzip_string, unzip,
}
use go_socket_client.Packet.Decoding.Bounds.{IsByte, LengthRead, decode_length-LengthRead}

decode_length_loop-Defined : (n i shift v : ℕ) → Defined (decode_length_loop n i shift v)
unfolding decode_length_loop
decode_length_loop-Defined zero i shift v = Defined-pure (u32_max, u32_max)
decode_length_loop-Defined (suc n) i shift v =
    Defined-bind (read_full 1) _ (Defined-read_full 1) λ buf.
      let v' : ℕ = bit_or v (bit_and (get_or buf 0 0) 0x7f * 2 ^ shift) in
      Defined-if (bit_and (get_or buf 0 0) 0x80 == 0) _ _ (Defined-pure (v', i + 1))
        (decode_length_loop-Defined n (i + 1) (shift + 7) v')

pub decode_length-Defined : Defined decode_length
unfolding decode_length
decode_length-Defined = decode_length_loop-Defined 4 0 0 0

pub get_uint8-Defined : (r : ℕ) → Defined (get_uint8 r)
unfolding get_uint8
get_uint8-Defined r = search defined_rules

pub get_uint16-Defined : (r : ℕ) → Defined (get_uint16 r)
unfolding get_uint16
get_uint16-Defined r = search defined_rules

length_fits :
    (r len len_len before after : ℕ)
    → r ≤ u32_max
    → r ≢ u32_max - 1
    → LengthRead before len len_len after
    → ltb (sub32 r len_len) len ≡ false
    → leb 0x8000_0000 len ≡ false
length_fits r len len_len before after hr hn read room = ground arith

module _ (r : ℕ) (s : Stream) (hr : r ≤ u32_max) (hs : All IsByte s.bytes) where
  length_read :
      Returns decode_length s (λ p t. LengthRead (length s.bytes) p.0 p.1 (length t.bytes))
  length_read = record { at = λ p t e. (decode_length-LengthRead s t p.0 p.1 hs e).0 }

  pub get_counted-DefinedAt : r ≢ u32_max - 1 → DefinedAt (get_counted r) s
  unfolding get_counted
  get_counted-DefinedAt hn =
      DefinedAt-bind _ s decode_length _ (DefinedAt-of decode_length s decode_length-Defined)
        length_read
        λ p t read. DefinedAt-guard t (ltb (sub32 r p.1) p.0) _ _ λ room.
          DefinedAt-undefined_guard t (leb 0x8000_0000 p.0) _
            (length_fits r p.0 p.1 (length s.bytes) (length t.bytes) hr hn read room)
            (DefinedAt-of _ t
              (Defined-bind (read_full p.0) _ (Defined-read_full p.0) (λ buf. Defined-pure _)))

  -- With four bytes left there is no wrap: less remains than before.
  pub get_counted_shrinks : 4 ≤ r → Returns (get_counted r) s (λ p t. p.1 < r)
  unfolding get_counted
  get_counted_shrinks h4 = Returns-bind _ _ s decode_length _ length_read λ p t read.
      Returns-guard _ t (ltb (sub32 r p.1) p.0) _ _ λ room.
        Returns-undefined_guard _ t (leb 0x8000_0000 p.0) _
          λ small. Returns-read _ t _ _ λ buf u e l. Returns-pure _ u _ (ground arith)

module _ (gzip : Gzip) where
  unzip-Defined : (buf : Bytes) → Defined (unzip gzip buf)
  unfolding unzip
  unzip-Defined buf = record { at = λ s e. ground (arith, Option-cases (gzip.uncompress buf)) }

  module _ (r : ℕ) (s : Stream) (hr : r ≤ u32_max) (hs : All IsByte s.bytes)
      (hn : r ≢ u32_max - 1) where
    pub get_gzip_string-DefinedAt : DefinedAt (get_gzip_string gzip r) s
    unfolding get_gzip_string
    get_gzip_string-DefinedAt =
        DefinedAt-bind (λ p t. Unit {0}) s (get_counted r) _ (get_counted-DefinedAt r s hr hs hn)
          (record { at = λ p t e. tt })
          λ p t _.
            DefinedAt-of _ t
              (Defined-bind (unzip gzip p.0) _ (unzip-Defined p.0) λ out. Defined-pure _)
