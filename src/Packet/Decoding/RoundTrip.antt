-- ===== src/Packet/Decoding/RoundTrip.antt =====
-- The get functions read back what the set functions append.
use go_socket_client.Prelude.{
  true, ◌≢◌, ℕ, ◌-◌, ◌/◌, ◌%◌, ◌^◌, ◌≤◌, ◌<◌, ◌≡◌, refl, [], ◌∷◌, ◌++◌, append_assoc, arith, length,
  length-append,
}
use go_socket_client.Prelude.Bits.{bit_or-eq_add}
use go_socket_client.Packet.Error.{ok, TcpException}
use go_socket_client.Packet.Reader.{Stream, stream, read_full-append}
use go_socket_client.Packet.Gzip.{Bytes}
use go_socket_client.Packet.Encoding.Groups.{groups, length-groups}
use go_socket_client.Packet.Encoding.Appends.{counted}
use go_socket_client.Packet.Decoding.{
  get_string, get_gzip_data, unzip, get_gzip_string, some, ltb, Gzip, u32_max, get_uint8,
  get_uint16, get_counted,
}
use go_socket_client.Packet.Decoding.Length.{read_one, decode_length-groups}

module _ (rest : Bytes) (e : TcpException) where
  pub get_uint8_byte :
      (r v : ℕ) → 1 ≤ r → get_uint8 r (stream (v ∷ rest) e) ≡ ok ((v, r - 1), stream rest e)
  unfolding get_uint8
  get_uint8_byte r v h = ground (arith, read_one v rest e)

  pub get_uint16_bytes :
      (r v : ℕ)
      → 2 ≤ r
      → v < 2 ^ 16
      → get_uint16 r (stream ((v / 256 % 256) ∷ (v % 256) ∷ rest) e)
        ≡ ok ((v, r - 2), stream rest e)
  unfolding get_uint16
  get_uint16_bytes r v h k = ground (
    arith,
    read_full-append 2 ((v / 256 % 256) ∷ (v % 256) ∷ []) rest e refl,
    bit_or-eq_add 8 (v % 256) (v / 256 % 256) (omega arith),
  )

  pub get_counted_block :
      (r : ℕ) (v : Bytes)
      → length v < 2 ^ 28
      → length (counted v) ≤ r
      → r ≤ u32_max
      → get_counted r (stream (counted v ++ rest) e)
        ≡ ok ((v, r - length (counted v)), stream rest e)
  unfolding get_counted
  get_counted_block r v h k top = rw (append_assoc (groups 3 (length v)) v rest) (
      ground (
        arith,
        decode_length-groups (length v) (v ++ rest) e h,
        read_full-append (length v) v rest e refl,
        length-append (groups 3 (length v)) v,
        length-groups 3 (length v),
      ))

  pub get_string_block :
      (r : ℕ) (v : Bytes)
      → length v < 2 ^ 28
      → length (counted v) ≤ r
      → r ≤ u32_max
      → get_string r (stream (counted v ++ rest) e)
        ≡ ok ((v, r - length (counted v)), stream rest e)
  unfolding get_string
  get_string_block r v h k top = get_counted_block r v h k top

nonempty_positive : (bs : Bytes) → bs ≢ [] → ltb 0 (length bs) ≡ true
nonempty_positive [] h = absurd (h refl)
nonempty_positive (b ∷ bs) h = ground arith

-- The unzipping half: a compressed text is not empty and is restored.
module _ (gzip : Gzip) (v out : Bytes) (done : gzip.compress v ≡ some out)
    (short : length v < 2 ^ 31) where
  unzip_compressed : length out < 2 ^ 28 → (s : Stream) → unzip gzip out s ≡ ok (v, s)
  unfolding unzip
  unzip_compressed h s = rw (
    nonempty_positive out (gzip.nonempty v out done),
    gzip.round_trip v out short (omega (arith, h)) done,
  )

  module _ (h : length out < 2 ^ 28) (r : ℕ) (k : length (counted out) ≤ r) (top : r ≤ u32_max)
      (rest : Bytes) (e : TcpException) where
    pub get_gzip_string_block :
        get_gzip_string gzip r (stream (counted out ++ rest) e)
        ≡ ok ((v, r - length (counted out)), stream rest e)
    unfolding get_gzip_string
    get_gzip_string_block =
        ground (arith, get_counted_block rest e r out h k top, unzip_compressed h (stream rest e))

    pub get_gzip_data_block :
        get_gzip_data gzip r (stream (counted out ++ rest) e)
        ≡ ok ((v, r - length (counted out)), stream rest e)
    unfolding get_gzip_data
    get_gzip_data_block =
        ground (arith, get_counted_block rest e r out h k top, unzip_compressed h (stream rest e))
