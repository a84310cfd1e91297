-- ===== src/Packet/Decoding/Bounds.antt =====
-- decodeLength on any input: what a result says of the bytes that were read.
use go_socket_client.Prelude.{
  ℕ, zero, suc, ◌+◌, ◌*◌, ◌%◌, ◌^◌, ◌≤◌, ◌<◌, ◌≡◌, refl, ap, ◌⊎◌, [], ◌∷◌, arith, length, All,
}
use go_socket_client.Packet.Error.{ok, TcpException}
use go_socket_client.Packet.Reader.{Stream, stream, read_full_short}
use go_socket_client.Packet.Gzip.{Bytes}
use go_socket_client.Packet.Decoding.{u32_max, decode_length_loop, decode_length}
use go_socket_client.Packet.Decoding.Length.{last_byte, inner_byte, group_fits, next_shift}

abbrev pub IsByte : ℕ → Type 0
IsByte b = b < 256

-- A length of one to four bytes below 2 ^ 28, or four bytes of a length that is too long.
abbrev pub LengthRead : ℕ → ℕ → ℕ → ℕ → Type 0
LengthRead before w m after =
    ((w < 2 ^ 28) × (1 ≤ m) × (m ≤ 4) × (before ≡ after + m))
    ⊎ ((w ≡ u32_max) × (m ≡ u32_max) × (before ≡ after + 4))

pow_128_suc : (n : ℕ) → 128 ^ suc n ≡ 128 * 128 ^ n
pow_128_suc n = omega arith

room_split : (n s : ℕ) → 2 ^ s * 128 ^ suc n ≡ 128 * 2 ^ s * 128 ^ n
room_split n s = omega (arith, ap (λ (p : ℕ). 2 ^ s * p) (pow_128_suc n))

next_room : (n s : ℕ) → 2 ^ s * 128 ^ suc n ≡ 2 ^ 28 → 2 ^ (s + 7) * 128 ^ n ≡ 2 ^ 28
next_room n s h = omega (arith, room_split n s, ap (λ (p : ℕ). p * 128 ^ n) (next_shift s))

last_bound :
    (n s v b : ℕ) → 2 ^ s * 128 ^ suc n ≡ 2 ^ 28 → v < 2 ^ s → b < 128 → v + b * 2 ^ s < 2 ^ 28
last_bound n s v b h hv hb = grind (arith, room_split n s, pow_pos n)
  where
    pow_pos : (n : ℕ) → 1 ≤ 128 ^ n
    pow_pos zero = omega arith
    pow_pos (suc n) = omega (arith, pow_pos n)

module _ (e : TcpException) (w m : ℕ) (t : Stream) where
  loop_inv :
      (n i shift v : ℕ) (bs : Bytes)
      → i + n ≡ 4
      → v < 2 ^ shift
      → 2 ^ shift * 128 ^ n ≡ 2 ^ 28
      → All IsByte bs
      → decode_length_loop n i shift v (stream bs e) ≡ ok ((w, m), t)
      → LengthRead (length bs + i) w m (length t.bytes) × All IsByte t.bytes × (t.ending ≡ e)
  loop_inv zero i shift v bs hi hv hs hb r = unfold decode_length_loop in ground arith
  loop_inv (suc n) i shift v [] hi hv hs hb r =
      unfold decode_length_loop in ground (arith, read_full_short 1 [] e)
  loop_inv (suc n) i shift v (b ∷ bs) hi hv hs (hb, hbs) r = ground (
    arith,
    last_byte n i shift v b bs e hv,
    inner_byte n i shift v b bs e hv,
    last_bound n shift v b,
    loop_inv n (i + 1) (shift + 7) (v + b % 128 * 2 ^ shift) bs,
    group_fits v b shift hv,
    next_room n shift,
  )

-- A successful decodeLength on bytes took one to four of them, and its value is below 2 ^ 28; or it
-- took four and returned -1 twice.
pub decode_length-LengthRead :
    (s t : Stream) (w m : ℕ)
    → All IsByte s.bytes
    → decode_length s ≡ ok ((w, m), t)
    → LengthRead (length s.bytes) w m (length t.bytes) × All IsByte t.bytes × (t.ending ≡ s.ending)
unfolding decode_length
decode_length-LengthRead s t w m h r =
    ground (arith, loop_inv s.ending w m t 4 0 0 0 s.bytes (omega arith) (omega arith) refl h r)
