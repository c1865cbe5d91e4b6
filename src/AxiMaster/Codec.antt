-- ===== src/AxiMaster/Codec.antt =====
-- source/axi_4_master.py: the fields of handles, instructions and packed descriptors.
use native.Mathlib.Nat.{mod-eq_of_lt, mul-one}
use axi_dma_engine.Base.{
  ℕ, ◌+◌, ◌*◌, ◌%◌, ◌^◌, ◌≡◌, Bool, true, false, [], ◌∷◌, arith, if◌then◌else◌, ◌==◌,
}
use axi_dma_engine.Base.Words.{shr, shl, mask, bit}
use axi_dma_engine.Base.Words.Bits.{bit_or-shl, zero-bit_or}
use axi_dma_engine.Descriptor
use axi_dma_engine.Descriptor.{Descriptor}
use axi_dma_engine.Descriptor.RoundTrip.{IsValid}
use axi_dma_engine.AxiMaster.{pack_handle, pack_instruction, pack_descriptor_words, len_lsb, rw_bit}

pack_handle_sum : (a l : ℕ) → pack_handle a l ≡ a % 2 ^ 32 + l % 2 ^ 8 * 2 ^ 32
unfolding pack_handle
pack_handle_sum a l = bit_or-shl 32 (a % 2 ^ 32) (l % 2 ^ 8) (omega arith)

pub pack_instruction_sum :
    (a l : ℕ) (w : Bool)
    → pack_instruction a l w ≡ a % 2 ^ 32 + l % 2 ^ 8 * 2 ^ 32 + (if w then 1 else 0) * 2 ^ 40
unfolding pack_instruction
pack_instruction_sum a l w =
    let e1 = bit_or-shl 32 (a % 2 ^ 32) (l % 2 ^ 8) (omega arith) in
    let e2 = bit_or-shl 40 (a % 2 ^ 32 + shl (l % 2 ^ 8) 32) (if w then 1 else 0) (omega arith) in
    rw (e1, e2)

-- A handle carries the low 32 bits of the address and the low 8 bits of the length.
pub pack_handle_fields :
    (a l : ℕ)
    → (mask 32 (pack_handle a l) ≡ a % 2 ^ 32)
      × (mask 8 (shr (pack_handle a l) len_lsb) ≡ l % 2 ^ 8)
pack_handle_fields a l = omega (arith, pack_handle_sum a l)

-- An instruction decodes to the low 32 bits of the address, the low 8 bits of the length, and the
-- direction that it was packed from.
pub pack_instruction_fields :
    (a l : ℕ) (w : Bool)
    → (mask 32 (pack_instruction a l w) ≡ a % 2 ^ 32)
      × (mask 8 (shr (pack_instruction a l w) len_lsb) ≡ l % 2 ^ 8)
      × ((bit (pack_instruction a l w) rw_bit == 1) ≡ w)
pack_instruction_fields a l true = let e = pack_instruction_sum a l true in ground arith
pack_instruction_fields a l false = let e = pack_instruction_sum a l false in ground arith

-- The four 32-bit words of a burst are packed by the AXI master as the descriptor that they are.
pub pack_descriptor_words-pack :
    (d : Descriptor)
    → IsValid d
    → pack_descriptor_words (d.w0 ∷ d.w1 ∷ d.w2 ∷ d.w3 ∷ []) ≡ Descriptor.pack d
unfolding pack_descriptor_words Descriptor.pack
pack_descriptor_words-pack d v = rw (
  zero-bit_or,
  mod-eq_of_lt v.w0_word,
  mod-eq_of_lt v.w1_word,
  mod-eq_of_lt v.w2_word,
  mod-eq_of_lt v.w3_word,
  mul-one,
)
