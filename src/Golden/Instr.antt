-- ===== src/Golden/Instr.antt =====
-- sim/run_golden.py: a descriptor as the pair of instructions that the two controllers decode.
use native.Mathlib.Nat.{mod-eq_of_lt}
use axi_dma_engine.Base.{ℕ, ◌+◌, ◌*◌, ◌/◌, ◌%◌, ◌^◌, ◌≡◌, Bool, true, false, arith, if◌then◌else◌}
use axi_dma_engine.Base.Words.{shl}
use axi_dma_engine.Base.Words.Bits.{bit_or-shl}
use axi_dma_engine.Descriptor.{Descriptor}
use axi_dma_engine.Descriptor.RoundTrip.{IsValid}
use axi_dma_engine.AxiMaster.{pack_instruction}
use axi_dma_engine.AxiMaster.Codec.{pack_instruction_sum}
use axi_dma_engine.Golden.{build_65, narrow65_to_41, desc_to_instr_pair, dir_bit}

abbrev rw_of : Bool → ℕ
rw_of w = if w then 1 else 0

build_65_sum :
    (a l : ℕ) (w : Bool)
    → build_65 a l (rw_of w) ≡ a % 2 ^ 32 + l % 2 ^ 32 * 2 ^ 32 + rw_of w * 2 ^ 64
unfolding build_65
build_65_sum a l w =
    let rw' = rw_of w % 2 in
    let e1 = bit_or-shl 32 (a % 2 ^ 32) (l % 2 ^ 32) (omega arith) in
    let e2 = bit_or-shl 64 (a % 2 ^ 32 + shl (l % 2 ^ 32) 32) rw' (omega arith) in
    rw (e1, e2) (ground arith)

narrow_sum :
    (x : ℕ) → narrow65_to_41 x ≡ x % 2 ^ 32 + x / 2 ^ 32 % 2 ^ 8 * 2 ^ 32 + x / 2 ^ 64 % 2 * 2 ^ 40
unfolding narrow65_to_41
narrow_sum x =
    let l = x / 2 ^ 32 % 2 ^ 8 in
    let e1 = bit_or-shl 32 (x % 2 ^ 32) l (omega arith) in
    let e2 = bit_or-shl 40 (x % 2 ^ 32 + shl l 32) (x / 2 ^ 64 % 2) (omega arith) in rw (e1, e2)

-- Building the 65-bit word and narrowing it gives the 41-bit instruction: the narrowing keeps the
-- low 8 bits of the length and moves the direction bit.
narrow65_to_41-build_65 :
    (a l : ℕ) (w : Bool)
    → narrow65_to_41 (build_65 a l (if w then 1 else 0)) ≡ pack_instruction a l w
narrow65_to_41-build_65 a l true =
    omega (arith, narrow_sum (build_65 a l 1), build_65_sum a l true, pack_instruction_sum a l true)
narrow65_to_41-build_65 a l false =
    omega
      (arith, narrow_sum (build_65 a l 0), build_65_sum a l false, pack_instruction_sum a l false)

-- For a descriptor of 32-bit words, the AXI master reads the source when DIR is 1 and writes the
-- destination when it is 0; the SRAM controller does the opposite. Both get the descriptor's
-- length.
pub desc_to_instr_pair_lem :
    (d : Descriptor)
    → IsValid d
    → desc_to_instr_pair d ≡ (
        if dir_bit d
        then (pack_instruction d.w0 d.w2 false, pack_instruction d.w1 d.w2 true)
        else (pack_instruction d.w1 d.w2 true, pack_instruction d.w0 d.w2 false))
unfolding desc_to_instr_pair
desc_to_instr_pair_lem d v = ground (
  arith,
  mod-eq_of_lt v.w0_word,
  mod-eq_of_lt v.w1_word,
  mod-eq_of_lt v.w2_word,
  narrow65_to_41-build_65 d.w0 d.w2 false,
  narrow65_to_41-build_65 d.w1 d.w2 true,
  narrow65_to_41-build_65 d.w1 d.w2 false,
  narrow65_to_41-build_65 d.w0 d.w2 true,
)
