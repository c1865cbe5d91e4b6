-- ===== src/Base/Words/Bits.antt =====
-- The arithmetic forms of `Base.Words` against the native operations on binary digits.
use Prim.Native.Nat.{
  ℕ, zero, suc, ◌+◌, ◌*◌, ◌/◌, ◌%◌, ◌^◌, ◌≤◌, ◌<◌, max, bit_or, digits, bit_or-bitwise,
}
use mathlib.Core.Path.{◌≡◌, refl, ap₂, ◌≡⟨◌⟩◌, ◌∎}
use native.Mathlib.Nat.{pow-suc, pow-succ', mul_assoc, div-div-eq-div-mul}
use native.Mathlib.Omega.{arith}
use axi_dma_engine.Base.Words.{shl, set_bit}

abbrev or_digits : ℕ → ℕ → ℕ → ℕ
or_digits n a b = digits (λ b. b) max n a b

or_digits-zero : (n b : ℕ) → or_digits n 0 b ≡ b
or_digits-zero zero b = refl
or_digits-zero (suc n) b = refl

or_digits_fuel : (n m a b : ℕ) → a ≤ n → a ≤ m → or_digits n a b ≡ or_digits m a b
or_digits_fuel zero zero a b p q = refl
or_digits_fuel zero (suc m) zero b p q = refl
or_digits_fuel zero (suc m) (suc a) b p q = absurd (omega arith)
or_digits_fuel (suc n) zero zero b p q = refl
or_digits_fuel (suc n) zero (suc a) b p q = absurd (omega arith)
or_digits_fuel (suc n) (suc m) zero b p q = refl
or_digits_fuel (suc n) (suc m) (suc a) b p q =
    omega (arith, or_digits_fuel n m (suc a / 2) (b / 2) (omega arith) (omega arith))

pub zero-bit_or : (b : ℕ) → bit_or 0 b ≡ b
zero-bit_or b = bit_or-bitwise 0 b

-- The law for the lowest digit.
bit_or_step : (a b : ℕ) → bit_or a b ≡ bit_or (a / 2) (b / 2) * 2 + max (a % 2) (b % 2)
bit_or_step zero b = omega (arith, zero-bit_or b, zero-bit_or (b / 2))
bit_or_step (suc a) b = omega (
  arith,
  bit_or-bitwise (suc a) b,
  bit_or-bitwise (suc a / 2) (b / 2),
  or_digits_fuel a (suc a / 2) (suc a / 2) (b / 2) (omega arith) (omega arith),
)

shl-suc : (b k : ℕ) → shl b (suc k) ≡ shl b k * 2
shl-suc b k = rw (pow-suc, mul_assoc)

-- Fields that do not overlap: `|` is the sum.
pub bit_or-shl : (k a b : ℕ) → a < 2 ^ k → bit_or a (shl b k) ≡ a + shl b k
bit_or-shl zero zero b h = omega (arith, zero-bit_or (shl b 0))
bit_or-shl zero (suc a) b h = absurd (omega arith)
bit_or-shl (suc k) a b h =
    let low : a / 2 < 2 ^ k = omega (arith, pow-suc 2 k) in
    let half : shl b (suc k) / 2 ≡ shl b k = omega (arith, shl-suc b k) in
    let even : shl b (suc k) % 2 ≡ 0 = omega (arith, shl-suc b k) in
    bit_or a (shl b (suc k))
    ≡⟨ bit_or_step a (shl b (suc k)) ⟩
      bit_or (a / 2) (shl b (suc k) / 2) * 2 + max (a % 2) (shl b (suc k) % 2)
    ≡⟨ ap₂ (λ u v. bit_or (a / 2) u * 2 + max (a % 2) v) half even ⟩
      bit_or (a / 2) (shl b k) * 2 + max (a % 2) 0
    ≡⟨ omega (arith, bit_or-shl k (a / 2) b low, shl-suc b k) ⟩ a + shl b (suc k) ∎

bit_or-zero_fuel : (n a : ℕ) → a ≤ n → bit_or a 0 ≡ a
bit_or-zero_fuel n zero h = refl
bit_or-zero_fuel zero (suc a) h = absurd (omega arith)
bit_or-zero_fuel (suc n) (suc a) h =
    omega (arith, bit_or_step (suc a) 0, bit_or-zero_fuel n (suc a / 2) (omega arith))

bit_or-zero : (a : ℕ) → bit_or a 0 ≡ a
bit_or-zero a = bit_or-zero_fuel a a (omega arith)

div_pow_suc : (x k : ℕ) → x / 2 ^ suc k ≡ x / 2 / 2 ^ k
div_pow_suc x k = rw (pow-succ', ← div-div-eq-div-mul)

set_bit-suc : (x k : ℕ) → set_bit x (suc k) ≡ set_bit (x / 2) k * 2 + x % 2
set_bit-suc x k = ground (arith, div_pow_suc x k, pow-suc 2 k)

-- `x |= 1 << k`
pub bit_or-pow : (k x : ℕ) → bit_or x (2 ^ k) ≡ set_bit x k
bit_or-pow zero x = ground (arith, bit_or_step x 1, bit_or-zero (x / 2))
bit_or-pow (suc k) x =
    let low : 2 ^ suc k / 2 ≡ 2 ^ k = omega (arith, pow-suc 2 k) in
    let even : 2 ^ suc k % 2 ≡ 0 = omega (arith, pow-suc 2 k) in
    bit_or x (2 ^ suc k)
    ≡⟨ bit_or_step x (2 ^ suc k) ⟩ bit_or (x / 2) (2 ^ suc k / 2) * 2 + max (x % 2) (2 ^ suc k % 2)
    ≡⟨ ap₂ (λ u v. bit_or (x / 2) u * 2 + max (x % 2) v) low even ⟩
      bit_or (x / 2) (2 ^ k) * 2 + max (x % 2) 0
    ≡⟨ omega (arith, bit_or-pow k (x / 2), set_bit-suc x k) ⟩ set_bit x (suc k) ∎
