-- ===== src/Packet/Encoding/Groups.antt =====
-- What encodeLength writes, in plain arithmetic.
use go_socket_client.Prelude.{
  false, ◌∙◌, ℕ, zero, suc, ◌+◌, ◌/◌, ◌%◌, ◌^◌, ◌≤◌, ◌<◌, ◌≡◌, refl, [], ◌∷◌, ◌++◌, arith, ltb,
  if◌then◌else◌, ◌==◌, length, bit_or, append_assoc, lt_wf,
}
use go_socket_client.Prelude.Bits.{bit_or-eq_add}
use mathlib.Core.WellFounded.{Acc}
use go_socket_client.Packet.Gzip.{Bytes}
use go_socket_client.Packet.Encoding.{encode_length_loop, encode_length}

-- The groups of seven bits of `v`, lowest first, all but the last marked; at most `k + 1` of them.
unfoldable pub groups : ℕ → ℕ → Bytes
groups zero v = v ∷ []
groups (suc k) v =
    let rest = groups k (v / 128) in if ltb v 128 then v ∷ [] else (v % 128 + 128) ∷ rest

marked : (d : ℕ) → d < 128 → bit_or d 0x80 ≡ d + 128
marked d h = bit_or-eq_add 7 d 1 (omega arith)

loop_done : (v : ℕ) (w : Acc ◌<◌ v) (buf : Bytes) → v ≡ 0 → encode_length_loop v w buf ≡ buf
unfolding encode_length_loop
loop_done v (Acc.intro _ smaller) buf e = ground arith

loop-groups :
    (k v : ℕ) (w : Acc ◌<◌ v) (buf : Bytes)
    → 0 < v
    → v < 128 ^ suc k
    → encode_length_loop v w buf ≡ buf ++ groups k v
unfolding encode_length_loop groups
loop-groups zero v (Acc.intro _ smaller) buf p h =
    grind (arith, λ (w : Acc ◌<◌ (v / 128)). loop_done (v / 128) w (buf ++ v ∷ []) (omega arith))
loop-groups (suc k) v (Acc.intro _ smaller) buf p h =
    let head : Bytes = (v % 128 + 128) ∷ [] in
    grind (
      arith,
      marked (v % 128) (omega arith),
      λ (w : Acc ◌<◌ (v / 128)) (q : v < 128). loop_done (v / 128) w (buf ++ v ∷ []) (omega arith),
      λ (w : Acc ◌<◌ (v / 128)) (q : 128 ≤ v).
          loop-groups k (v / 128) w (buf ++ head) (omega arith) (omega arith),
      append_assoc buf head (groups k (v / 128)),
    )

-- encodeLength keeps the buffer and appends the groups.
pub encode_length-groups :
    (k v : ℕ) (buf : Bytes) → v < 128 ^ suc k → encode_length v buf ≡ buf ++ groups k v
unfolding encode_length groups
encode_length-groups k zero buf h = loop_done 0 (lt_wf.apply 0) (buf ++ 0 ∷ []) refl ∙ zero_groups k
  where
    zero_groups : (k : ℕ) → buf ++ 0 ∷ [] ≡ buf ++ groups k 0
    zero_groups zero = refl
    zero_groups (suc k) = refl
encode_length-groups k (suc v) buf h =
    let e : (suc v == 0) ≡ false = ground arith in
    rw e (loop-groups k (suc v) (lt_wf.apply (suc v)) buf (omega arith) h)

-- The number of bytes grows with the value.
pub length-groups : (k v : ℕ) → (1 ≤ length (groups k v)) × (length (groups k v) ≤ suc k)
unfolding groups
length-groups zero v = omega arith
length-groups (suc k) v = ground (arith, length-groups k (v / 128))
