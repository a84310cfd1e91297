-- ===== src/Packet/Encoding/Appends.antt =====
-- What the set functions append to the buffer.
use go_socket_client.Prelude.{
  false, ℕ, ◌+◌, ◌/◌, ◌%◌, ◌^◌, ◌≤◌, ◌<◌, ◌≡◌, [], ◌∷◌, ◌++◌, append_assoc, some, arith, length,
  length-append, ◌==◌,
}
use go_socket_client.Packet.Error.{ok}
use go_socket_client.Packet.Gzip.{Bytes, Gzip}
use go_socket_client.Packet.Encoding.{
  u32_mod, encode_length, set_uint16, set_string, set_gzip_string, set_gzip_data,
}
use go_socket_client.Packet.Encoding.Groups.{groups, encode_length-groups, length-groups}

-- A block behind its length.
abbrev pub counted : Bytes → Bytes
counted v = groups 3 (length v) ++ v

pub length-counted :
    (v : Bytes) → (length v + 1 ≤ length (counted v)) × (length (counted v) ≤ length v + 4)
length-counted v = omega (arith, length-append (groups 3 (length v)) v, length-groups 3 (length v))

pub encode_length-append :
    (v buf : Bytes)
    → length v < 2 ^ 28
    → encode_length (length v % u32_mod) buf ++ v ≡ buf ++ counted v
encode_length-append v buf h =
    let small : length v % u32_mod ≡ length v = omega arith in
    rw (small, encode_length-groups 3 (length v) buf (omega arith), append_assoc)

pub set_uint16-append :
    (v : ℕ) (buf : Bytes) → set_uint16 v buf ≡ buf ++ (v / 256 % 256) ∷ (v % 256) ∷ []
unfolding set_uint16
set_uint16-append v buf = append_assoc buf ((v / 256 % 256) ∷ []) ((v % 256) ∷ [])

pub set_string-append : (v buf : Bytes) → length v < 2 ^ 28 → set_string v buf ≡ buf ++ counted v
unfolding set_string
set_string-append v buf h = encode_length-append v buf h

module _ (gzip : Gzip) (v out : Bytes) (done : gzip.compress v ≡ some out)
    (h : length out < 2 ^ 28) where
  pub set_gzip_string-append : (buf : Bytes) → set_gzip_string gzip v buf ≡ ok (buf ++ counted out)
  unfolding set_gzip_string
  set_gzip_string-append buf = rw (done, encode_length-append out buf h)

  pub set_gzip_data-append :
      (buf : Bytes) → 1 ≤ length v → set_gzip_data gzip v buf ≡ ok (buf ++ counted out)
  unfolding set_gzip_data
  set_gzip_data-append buf p =
      let some_data : (length v == 0) ≡ false = ground arith in
      rw (some_data, done, encode_length-append out buf h)
