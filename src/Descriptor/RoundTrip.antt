-- ===== src/Descriptor/RoundTrip.antt =====
-- source/descriptor.py: packing into 128 bits, and unpacking.
use axi_dma_engine.Base.{ℕ, ◌+◌, ◌*◌, ◌%◌, ◌^◌, ◌<◌, ◌≡◌, ◌∙◌, arith}
use axi_dma_engine.Base.Words.{shl}
use axi_dma_engine.Base.Words.Bits.{bit_or-shl}
use axi_dma_engine.Descriptor.{Descriptor, new, pack, from_packed}

-- Every word is a 32-bit word.
pub record IsValid (d : Descriptor) : Type 0 where
  pub w0_word : d.w0 < 2 ^ 32
  pub w1_word : d.w1 < 2 ^ 32
  pub w2_word : d.w2 < 2 ^ 32
  pub w3_word : d.w3 < 2 ^ 32

pub new-IsValid : (a b c d : ℕ) → IsValid (new a b c d)
unfolding new
new-IsValid a b c d = omega arith

from_packed-IsValid : (p : ℕ) → IsValid (from_packed p)
unfolding from_packed
from_packed-IsValid p = omega arith

-- The packed descriptor as a number in base 2 ^ 32.
pack_sum :
    (d : Descriptor) → IsValid d → pack d ≡ d.w0 + d.w1 * 2 ^ 32 + d.w2 * 2 ^ 64 + d.w3 * 2 ^ 96
unfolding pack
pack_sum d v =
    let e1 = bit_or-shl 32 d.w0 d.w1 (omega arith) in
    let e2 = bit_or-shl 64 (d.w0 + shl d.w1 32) d.w2 (omega arith) in
    let e3 = bit_or-shl 96 (d.w0 + shl d.w1 32 + shl d.w2 64) d.w3 (omega arith) in
    rw (e1, e2, e3) (omega arith)

-- Unpacking a packed descriptor of 32-bit words gives it back.
pub from_packed-pack : (d : Descriptor) → IsValid d → from_packed (pack d) ≡ d
unfolding from_packed
from_packed-pack d v = let e = pack_sum d v in ground arith

words_sum :
    (p : ℕ)
    → (from_packed p).w0
        + (from_packed p).w1 * 2 ^ 32
        + (from_packed p).w2 * 2 ^ 64
        + (from_packed p).w3 * 2 ^ 96
      ≡ p % 2 ^ 128
unfolding from_packed
words_sum p = omega arith

-- Packing what was unpacked gives the low 128 bits back.
pub pack-from_packed : (p : ℕ) → pack (from_packed p) ≡ p % 2 ^ 128
pack-from_packed p = pack_sum (from_packed p) (from_packed-IsValid p) ∙ words_sum p
