-- ===== src/Descriptor.antt =====
-- source/descriptor.py: four 32-bit words, packed with word 0 lowest into 128 bits.
pub mod RoundTrip
use Prim.Native.Nat.{bit_or}
use axi_dma_engine.Base.{ℕ}
use axi_dma_engine.Base.Words.{mask, shr, shl}

abbrev pub desc_words : ℕ
desc_words = 4

abbrev desc_bits : ℕ
desc_bits = 128

pub record Descriptor : Type 0 where
  pub w0 : ℕ
  pub w1 : ℕ
  pub w2 : ℕ
  pub w3 : ℕ

-- `Descriptor(word0, word1, word2, word3)`
unfoldable pub new : ℕ → ℕ → ℕ → ℕ → Descriptor
new a b c d = record { w0 = mask 32 a; w1 = mask 32 b; w2 = mask 32 c; w3 = mask 32 d }

unfoldable pub from_packed : ℕ → Descriptor
unfolding new
from_packed packed =
    let p = mask desc_bits packed in
    new (mask 32 p) (mask 32 (shr p 32)) (mask 32 (shr p 64)) (mask 32 (shr p 96))

unfoldable pub pack : Descriptor → ℕ
pack d = mask desc_bits (bit_or (bit_or (bit_or d.w0 (shl d.w1 32)) (shl d.w2 64)) (shl d.w3 96))

-- `descriptor(start_address, burst_length, datasize)`, the legacy class
unfoldable legacy : ℕ → ℕ → ℕ → Descriptor
unfolding new
legacy start_address burst_length datasize =
    new (mask 32 start_address) (mask 32 burst_length) (mask 32 datasize) 0
