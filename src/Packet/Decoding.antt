-- ===== src/Packet/Decoding.antt =====
-- packet/encoding.cpp, the reading half: decodeLength and the get functions. Each get function takes
-- `packetRemaining` and returns it beside its value. Values of 32 bits are kept as uint32_t: the -1
-- that decodeLength returns twice for a length of more than four bytes is `u32_max`.
pub mod Length
pub mod Bounds
pub mod Defined
pub mod Taken
pub mod RoundTrip
use go_socket_client.Prelude.{
  ℕ, zero, suc, ◌+◌, ◌-◌, ◌*◌, ◌%◌, ◌^◌, [], Option, none, some, ltb, leb, if◌then◌else◌, ◌==◌,
  get_or, length, bit_and, bit_or,
}
use go_socket_client.Packet.Error.{data_exceeds_packet, ungzip_error}
use go_socket_client.Packet.Reader.{M, ◌>>=◌, ◌>>◌, pure, raise, raise_if, undefined_if, read_full}
use go_socket_client.Packet.Gzip.{Bytes, Gzip}
use go_socket_client.Packet.Encoding.{u32_mod}

abbrev pub u32_max : ℕ
u32_max = 0xffff_ffff

-- `a -= b` on uint32_t.
abbrev pub sub32 : ℕ → ℕ → ℕ
sub32 a b = (a + u32_mod - b) % u32_mod

-- The rounds of `for (int i=0; i<4; i++)` that are left, and the loop's variables.
unfoldable pub decode_length_loop : (rounds i shift v : ℕ) → M (ℕ × ℕ)
decode_length_loop zero i shift v = pure (u32_max, u32_max)
decode_length_loop (suc n) i shift v = do
  buf ← read_full 1
  let b = get_or buf 0 0
  let v' = bit_or v (bit_and b 0x7f * 2 ^ shift)
  let more = decode_length_loop n (i + 1) (shift + 7) v'
  if bit_and b 0x80 == 0 then pure (v', i + 1) else more

unfoldable pub decode_length : M (ℕ × ℕ)
decode_length = decode_length_loop 4 0 0 0

unfoldable pub get_uint8 : ℕ → M (ℕ × ℕ)
get_uint8 remaining = do
  raise_if (ltb remaining 1) data_exceeds_packet
  buf ← read_full 1
  pure (get_or buf 0 0, remaining - 1)

unfoldable pub get_uint16 : ℕ → M (ℕ × ℕ)
get_uint16 remaining = do
  raise_if (ltb remaining 2) data_exceeds_packet
  buf ← read_full 2
  pure (bit_or (get_or buf 1 0) (get_or buf 0 0 * 2 ^ 8), remaining - 2)

-- What getString, getData, getGzipString and getGzipData begin with: the length, its own size taken
-- off `packetRemaining`, the comparison as uint32_t, and the read into `char buf[len]`, which is
-- undefined for a negative `len`; an array of any other size is taken to fit on the stack.
unfoldable pub get_counted : ℕ → M (Bytes × ℕ)
get_counted remaining = do
  (len, len_len) ← decode_length
  let remaining' = sub32 remaining len_len
  raise_if (ltb remaining' len) data_exceeds_packet
  undefined_if (leb 0x8000_0000 len)
  buf ← read_full len
  pure (buf, remaining' - len)

unfoldable pub get_string : ℕ → M (Bytes × ℕ)
get_string = get_counted

unfoldable pub get_data : ℕ → M (Bytes × ℕ)
get_data = get_counted

module _ (gzip : Gzip) where
  abbrev pub restore : Option Bytes → M Bytes
  restore none = raise ungzip_error
  restore (some output) = pure output

  -- An empty block is the empty text; any other is unzipped.
  unfoldable pub unzip : Bytes → M Bytes
  unzip buf = if ltb 0 (length buf) then restore (gzip.uncompress buf) else pure []

  unfoldable pub get_gzip_string : ℕ → M (Bytes × ℕ)
  get_gzip_string remaining = do
    (buf, remaining') ← get_counted remaining
    result ← unzip buf
    pure (result, remaining')

  unfoldable pub get_gzip_data : ℕ → M (Bytes × ℕ)
  get_gzip_data remaining = do
    (buf, remaining') ← get_counted remaining
    output ← unzip buf
    pure (output, remaining')
