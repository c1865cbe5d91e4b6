-- ===== src/Base/Words.antt =====
-- Python's bit operations on the integers of 0 and above. `x & ((1 << w) - 1)` is `mask w x`,
-- `x >> k` is `shr x k`, `x << k` is `shl x k`; `|` and `&` are the native `bit_or` and `bit_and`.
pub mod Bits
use Prim.Native.Nat.{
  ℕ, zero, suc, ◌+◌, ◌-◌, ◌*◌, ◌/◌, ◌%◌, ◌^◌, ◌≤◌, ◌<◌, min, max, bit_and, bit_or, digits,
  bit_and-bitwise, bit_or-bitwise,
}
use mathlib.Core.Path.{◌≡◌, refl}
use mathlib.Core.Bool.{Bool}
use native.Mathlib.Nat.{pow-suc}
use native.Mathlib.Omega.{arith}
use axi_dma_engine.Base.Tests.{◌==◌, if◌then◌else◌}

abbrev pub mask : ℕ → ℕ → ℕ
mask w x = x % 2 ^ w

abbrev pub shr : ℕ → ℕ → ℕ
shr x k = x / 2 ^ k

abbrev pub shl : ℕ → ℕ → ℕ
shl x k = x * 2 ^ k

-- `(x >> k) & 1`, and as a truth value also `x & (1 << k)`
abbrev pub bit : ℕ → ℕ → ℕ
bit x k = x / 2 ^ k % 2

abbrev pub test_bit : ℕ → ℕ → Bool
test_bit x k = bit x k == 1

-- `x |= 1 << k`
abbrev pub set_bit : ℕ → ℕ → ℕ
set_bit x k = if test_bit x k then x else x + 2 ^ k

-- `x &= ~(1 << k)`
abbrev pub clear_bit : ℕ → ℕ → ℕ
clear_bit x k = if test_bit x k then x - 2 ^ k else x
