-- ===== src/Prelude/Bits.antt =====
-- Masks, shifts and joins of bit fields as arithmetic, for the wire format's bytes.
use Prim.Native.Nat.{
  ℕ, zero, suc, ◌+◌, ◌*◌, ◌/◌, ◌%◌, ◌^◌, ◌≤◌, ◌<◌, max, bit_and, bit_or, digits, bit_or-bitwise,
}
use mathlib.Core.Path.{◌≡◌, refl, ap, ◌∙◌}
use mathlib.Core.Bool.{Bool, true, false}
use mathlib.Core.Logic.{ite}
use native.Mathlib.Decide.{ℕ_discrete}
use native.Mathlib.Omega.{arith}

pub pow_two_suc : (s : ℕ) → 2 ^ suc s ≡ 2 * 2 ^ s
pow_two_suc s = omega arith

shift_two : (s d : ℕ) → d * 2 ^ suc s ≡ d * 2 ^ s * 2
shift_two s d = omega (arith, ap (λ (t : ℕ). d * t) (pow_two_suc s))

-- By induction on the digits of the low field; the high field is even while one is left.
join_digits :
    (n s v d : ℕ) → v ≤ n → v < 2 ^ s → digits (λ b. b) max n v (d * 2 ^ s) ≡ v + d * 2 ^ s
join_digits zero s v d p h = omega arith
join_digits (suc n) s zero d p h = omega arith
join_digits (suc n) zero (suc v) d p h = absurd (omega arith)
join_digits (suc n) (suc s) (suc v) d p h = omega (
  arith,
  shift_two s d,
  halves (d * 2 ^ suc s) (shift_two s d),
  join_digits n s (suc v / 2) d (omega arith) (omega (arith, pow_two_suc s)),
)
  where
    halves :
        (b : ℕ)
        → b ≡ d * 2 ^ s * 2
        → digits (λ b. b) max n (suc v / 2) (b / 2) ≡ digits (λ b. b) max n (suc v / 2) (d * 2 ^ s)
    halves b e = let q : b / 2 ≡ d * 2 ^ s = omega arith in rw q

-- Fields that do not overlap are joined by `|` as by `+`.
pub bit_or-eq_add : (s v d : ℕ) → v < 2 ^ s → bit_or v (d * 2 ^ s) ≡ v + d * 2 ^ s
bit_or-eq_add s v d h = bit_or-bitwise v (d * 2 ^ s) ∙ join_digits v s v d (omega arith) h

module _ (f g : ℕ → ℕ) where
  agree_below : ℕ → Bool
  unfolding ℕ_discrete
  agree_below zero = true
  agree_below (suc n) = ite (ℕ_discrete (f n) (g n)) (agree_below n) false

  agree_below→eq : (n : ℕ) → agree_below n ≡ true → (i : ℕ) → i < n → f i ≡ g i
  unfolding agree_below
  agree_below→eq zero e i h = absurd (omega arith)
  agree_below→eq (suc n) e i h = ground (arith, agree_below→eq n (ground arith) i)

-- The masks of the source on a byte; each is a table of 256 entries.
pub bit_and_0x7f : (b : ℕ) → b < 256 → bit_and b 0x7f ≡ b % 128
unfolding agree_below
bit_and_0x7f = agree_below→eq _ _ 256 refl

pub bit_and_0x80 : (b : ℕ) → b < 256 → bit_and b 0x80 ≡ b / 128 * 128
unfolding agree_below
bit_and_0x80 = agree_below→eq _ _ 256 refl

pub bit_and_0x0f : (b : ℕ) → b < 256 → bit_and b 0x0f ≡ b % 16
unfolding agree_below
bit_and_0x0f = agree_below→eq _ _ 256 refl

pub bit_and_0xf0 : (b : ℕ) → b < 256 → bit_and b 0xf0 ≡ b / 16 * 16
unfolding agree_below
bit_and_0xf0 = agree_below→eq _ _ 256 refl
