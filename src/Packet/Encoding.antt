-- ===== src/Packet/Encoding.antt =====
-- packet/encoding.cpp, the writing half: encodeLength and the set functions. A `std::vector<char>`
-- and a `std::string` are lists of bytes, each as the uint8_t that it holds.
pub mod Groups
pub mod Appends
use go_socket_client.Prelude.{
  ℕ, ◌/◌, ◌%◌, ◌<◌, [], ◌∷◌, ◌++◌, Option, none, some, arith, ltb, if◌then◌else◌, ◌==◌, length,
  bit_or, lt_wf, ◌≡◌, refl,
}
use mathlib.Core.Logic.{dite}
use mathlib.Core.WellFounded.{Acc}
use native.Mathlib.Decide.{dec_lt}
use go_socket_client.Packet.Error.{Outcome, ok, fail, gzip_error}
use go_socket_client.Packet.Gzip.{Bytes, Gzip}

-- One past the greatest uint32_t.
abbrev pub u32_mod : ℕ
u32_mod = 0x1_0000_0000

pub shift_shrinks : (v : ℕ) → 0 < v → v / 128 < v
shift_shrinks v h = omega arith

-- `while (length > 0)`; `length & 0x7f` is `length % 128` and `length >> 7` is `length / 128`.
unfoldable pub encode_length_loop : (length : ℕ) → Acc ◌<◌ length → Bytes → Bytes
encode_length_loop length (Acc.intro _ smaller) buf =
    dite (dec_lt 0 length)
      (λ positive.
        let digit = length % 128 in
        let length' = length / 128 in
        encode_length_loop length' (smaller _ (shift_shrinks length positive))
          (buf ++ (if ltb 0 length' then bit_or digit 0x80 else digit) ∷ []))
      (λ _. buf)

unfoldable pub encode_length : ℕ → Bytes → Bytes
unfolding encode_length_loop lt_wf dec_lt
encode_length length buf =
    encode_length_loop length (lt_wf.apply length) (if length == 0 then buf ++ 0 ∷ [] else buf)

unfoldable pub set_uint8 : ℕ → Bytes → Bytes
set_uint8 val buf = buf ++ val ∷ []

-- `(val & 0xff00) >> 8`, then `val & 0x00ff`.
unfoldable pub set_uint16 : ℕ → Bytes → Bytes
set_uint16 val buf = (buf ++ (val / 256 % 256) ∷ []) ++ (val % 256) ∷ []

-- The length is cast to 32 bits.
unfoldable pub set_string : Bytes → Bytes → Bytes
set_string val buf = encode_length (length val % u32_mod) buf ++ val

unfoldable pub set_data : Bytes → Bytes → Bytes
set_data val buf = encode_length (length val % u32_mod) buf ++ val

module _ (gzip : Gzip) where
  append_gzip : Bytes → Option Bytes → Outcome Bytes
  append_gzip buf none = fail gzip_error
  append_gzip buf (some output) = ok (encode_length (length output % u32_mod) buf ++ output)

  -- The cast of the size to an int belongs to the compression.
  unfoldable pub set_gzip_string : Bytes → Bytes → Outcome Bytes
  unfolding append_gzip
  set_gzip_string val buf = append_gzip buf (gzip.compress val)

  -- Empty data writes nothing, not even its length.
  unfoldable pub set_gzip_data : Bytes → Bytes → Outcome Bytes
  unfolding append_gzip
  set_gzip_data val buf = if length val == 0 then ok buf else append_gzip buf (gzip.compress val)

encode_length_300 : encode_length 300 [] ≡ 0xac ∷ 0x02 ∷ []
unfolding encode_length
encode_length_300 = refl
