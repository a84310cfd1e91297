-- ===== src/Packet/Decoding/Length.antt =====
-- decodeLength on what encodeLength wrote, and on any input.
use go_socket_client.Prelude.{
  sym, ℕ, zero, suc, ◌+◌, ◌*◌, ◌/◌, ◌%◌, ◌^◌, ◌≤◌, ◌<◌, ◌≡◌, refl, ap, [], ◌∷◌, ◌++◌, arith, length,
}
use native.Mathlib.Nat.{div-add-mod}
use native.Mathlib.Numerals.{towards_suc}
use go_socket_client.Prelude.Bits.{bit_or-eq_add, bit_and_0x7f, bit_and_0x80}
use go_socket_client.Packet.Error.{ok, TcpException}
use go_socket_client.Packet.Reader.{stream, read_full, read_full-append}
use go_socket_client.Packet.Gzip.{Bytes}
use go_socket_client.Packet.Encoding.{encode_length}
use go_socket_client.Packet.Encoding.Groups.{groups, encode_length-groups}
use go_socket_client.Packet.Decoding.{decode_length_loop, decode_length}

-- One byte is taken off the stream.
pub read_one :
    (b : ℕ) (bs : Bytes) (e : TcpException)
    → read_full 1 (stream (b ∷ bs) e) ≡ ok (b ∷ [], stream bs e)
read_one b bs e = read_full-append 1 (b ∷ []) bs e refl

module _ (n i shift v b : ℕ) (bs : Bytes) (e : TcpException) (fits : v < 2 ^ shift) where
  pub last_byte :
      b < 128
      → decode_length_loop (suc n) i shift v (stream (b ∷ bs) e)
        ≡ ok ((v + b * 2 ^ shift, i + 1), stream bs e)
  unfolding decode_length_loop
  last_byte h =
      ground (arith, read_one b bs e, bit_and_0x7f b, bit_and_0x80 b, bit_or-eq_add shift v b)

  pub inner_byte :
      128 ≤ b
      → b < 256
      → decode_length_loop (suc n) i shift v (stream (b ∷ bs) e)
        ≡ decode_length_loop n (i + 1) (shift + 7) (v + b % 128 * 2 ^ shift) (stream bs e)
  unfolding decode_length_loop
  inner_byte h k =
      ground
        (arith, read_one b bs e, bit_and_0x7f b, bit_and_0x80 b, bit_or-eq_add shift v (b % 128))

pub next_shift : (shift : ℕ) → 128 * 2 ^ shift ≡ 2 ^ (shift + 7)
next_shift shift = sym (simp towards_suc (omega arith))

-- A length from bit `shift` on is its lowest group there and what is left from bit `shift + 7` on.
low_and_left :
    (shift len : ℕ) → len % 128 * 2 ^ shift + len / 128 * 2 ^ (shift + 7) ≡ len * 2 ^ shift
low_and_left shift len =
    let left = ap (λ (p : ℕ). len / 128 * p) (next_shift shift) in
    let whole = ap (λ (l : ℕ). l * 2 ^ shift) (div-add-mod len 128) in omega (arith, left, whole)

-- A group below the next shift does not reach over it.
pub group_fits : (v d s : ℕ) → v < 2 ^ s → v + d % 128 * 2 ^ s < 2 ^ (s + 7)
group_fits v d s h = grind (arith, next_shift s)

-- `w` is what is still to be read, and it counts from bit `shift` on.
loop-groups :
    (k n w i shift v : ℕ) (rest : Bytes) (e : TcpException)
    → w < 128 ^ suc k
    → k < n
    → v < 2 ^ shift
    → decode_length_loop n i shift v (stream (groups k w ++ rest) e)
      ≡ ok ((v + w * 2 ^ shift, i + length (groups k w)), stream rest e)
unfolding groups
loop-groups k zero w i shift v rest e hw hk fits = absurd (omega arith)
loop-groups zero (suc n) w i shift v rest e hw hk fits = last_byte n i shift v w rest e fits hw
loop-groups (suc k) (suc n) w i shift v rest e hw hk fits = ground (
  arith,
  last_byte n i shift v w rest e fits,
  inner_byte n i shift v (w % 128 + 128) (groups k (w / 128) ++ rest) e fits,
  group_fits v w shift fits,
  low_and_left shift w,
  loop-groups k n (w / 128) (i + 1) (shift + 7) (v + w % 128 * 2 ^ shift) rest e (omega arith),
)

-- decodeLength reads back a length that encodeLength wrote, with the number of its bytes, and
-- leaves what follows it.
pub decode_length-groups :
    (w : ℕ) (rest : Bytes) (e : TcpException)
    → w < 2 ^ 28
    → decode_length (stream (groups 3 w ++ rest) e) ≡ ok ((w, length (groups 3 w)), stream rest e)
unfolding decode_length
decode_length-groups w rest e h =
    ground (arith, loop-groups 3 4 w 0 0 0 rest e (omega arith) (omega arith) (omega arith))

-- decodeLength reads back a length below 2 ^ 28 that encodeLength wrote, with the number of its
-- bytes, and leaves what follows it.
pub decode_length-encode_length :
    (w : ℕ) (rest : Bytes) (e : TcpException)
    → w < 2 ^ 28
    → decode_length (stream (encode_length w [] ++ rest) e)
      ≡ ok ((w, length (encode_length w [])), stream rest e)
decode_length-encode_length w rest e h =
    rw (encode_length-groups 3 w [] (omega arith)) (decode_length-groups w rest e h)
