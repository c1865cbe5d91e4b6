-- ===== src/Host/Transfers.antt =====
-- firmware&local/host_runner.py: what parse_stimulus expects of the descriptors in the ring. The
-- dictionaries are read by `get(_, 0)` alone, so they are functions with 0 for a missing key.
use native.Mathlib.Nat.{mod-eq_of_lt}
use mathlib.Core.Path.{ap₂}
use axi_dma_engine.Base.{
  ℕ, zero, suc, ◌+◌, ◌*◌, ◌%◌, ◌^◌, ◌<◌, ◌≡◌, refl, List, [], ◌∷◌, map, get_or, ◌==◌, if◌then◌else◌,
  arith,
}
use axi_dma_engine.Base.Words.{mask, bit}
use axi_dma_engine.Csr
use axi_dma_engine.Descriptor
use axi_dma_engine.Descriptor.{Descriptor}
use axi_dma_engine.Golden.Scenario.{StimLine}
use axi_dma_engine.RingManager.{RingManager}
use axi_dma_engine.RingManager.Indices.{desc_at, window, distance, distance-lt, tail_of_distance}
use axi_dma_engine.RingManager.Refine
use axi_dma_engine.RingManager.Refine.{pending, count}

-- `sysmem_image`, `sram_image` and `csr_writes`
pub record Images : Type 0 where
  pub sysmem_image : ℕ → ℕ
  pub sram_image : ℕ → ℕ
  pub csr_writes : ℕ → ℕ

abbrev pub no_images : Images
no_images = record { sysmem_image = λ a. 0; sram_image = λ a. 0; csr_writes = λ a. 0 }

abbrev pub put : ℕ → ℕ → (ℕ → ℕ) → ℕ → ℕ
put key v image k = if k == key then v else image k

-- What one line of stim.txt adds.
unfoldable pub note_line : StimLine → Images → Images
note_line (StimLine.sysmem_write addr v) i = record i { sysmem_image = put addr v i.sysmem_image }
note_line (StimLine.sram_write addr v) i = record i { sram_image = put addr v i.sram_image }
note_line (StimLine.csr_write offset v) i = record i { csr_writes = put offset v i.csr_writes }

unfoldable pub note_lines : List StimLine → Images → Images
note_lines [] i = i
note_lines (l ∷ ls) i = note_lines ls (note_line l i)

-- one element of `transfers`
pub record Transfer : Type 0 where
  pub src_addr : ℕ
  pub dst_addr : ℕ
  pub len_words : ℕ
  pub dir : ℕ
  pub expected_words : List ℕ

-- `[src_image.get(desc_src + j * 4, 0) for j in range(desc_len)]`, with `n` left
unfoldable pub expected : (ℕ → ℕ) → ℕ → ℕ → List ℕ
expected image addr zero = []
expected image addr (suc n) = image addr ∷ expected image (addr + 4) n

-- The body of the loop over the ring, at the descriptor `desc_off`.
unfoldable pub transfer_at : Images → ℕ → Transfer
transfer_at i desc_off =
    let desc_src = i.sysmem_image (desc_off + 0x00) in
    let desc_dst = i.sysmem_image (desc_off + 0x04) in
    let desc_len = mask 8 (i.sysmem_image (desc_off + 0x08)) in
    let desc_dir = bit (i.sysmem_image (desc_off + 0x0c)) 0 in
    let src_image = if desc_dir == 1 then i.sysmem_image else i.sram_image in
    record {
      src_addr = desc_src;
      dst_addr = desc_dst;
      len_words = desc_len;
      dir = desc_dir;
      expected_words = expected src_image desc_src desc_len;
    }

-- `for i in range(tail)`, from index `k` on with `n` left
unfoldable pub walk : Images → ℕ → ℕ → ℕ → List Transfer
walk i ring_baseaddr k zero = []
walk i ring_baseaddr k (suc n) =
    transfer_at i (ring_baseaddr + k * 16) ∷ walk i ring_baseaddr (k + 1) n

unfoldable pub transfers : Images → List Transfer
transfers i = walk i (i.csr_writes Csr.reg_baseaddr) 0 (i.csr_writes Csr.reg_tail)

-- The images hold what the ring manager's memory and registers hold.
pub record Mirrors (i : Images) (s : RingManager) : Type 0 where
  pub same_words : (w : ℕ) → i.sysmem_image (w * 4) ≡ get_or s.golden.memory.mem w 0
  pub words : (w : ℕ) → get_or s.golden.memory.mem w 0 < 2 ^ 32
  pub same_base : i.csr_writes Csr.reg_baseaddr ≡ s.csr.regs Csr.reg_baseaddr
  pub same_tail : i.csr_writes Csr.reg_tail ≡ s.csr.regs Csr.reg_tail

-- What a transfer says of its descriptor.
abbrev pub fields : Transfer → ℕ × ℕ × ℕ × ℕ
fields t = (t.src_addr, t.dst_addr, t.len_words, t.dir)

abbrev pub fields_of : Descriptor → ℕ × ℕ × ℕ × ℕ
fields_of d = (d.w0, d.w1, mask 8 d.w2, bit d.w3 0)

distance_from_zero : (r t : ℕ) → t < r → distance r 0 t ≡ t
distance_from_zero r t h =
    let z : 0 < r = omega arith in
    let less = distance-lt r 0 t z h in
    let back = tail_of_distance r 0 t z h in ground (arith, back, mod-eq_of_lt less)

module _ (i : Images) (s : RingManager) (h : Mirrors i s) where
  fields-transfer_at :
      (w : ℕ) → fields (transfer_at i (w * 4)) ≡ fields_of (desc_at s.golden.memory.mem w)
  unfolding transfer_at Descriptor.new
  fields-transfer_at w =
      let a0 : w * 4 + 0x00 ≡ w * 4 = omega arith in
      let a1 : w * 4 + 0x04 ≡ (w + 1) * 4 = omega arith in
      let a2 : w * 4 + 0x08 ≡ (w + 2) * 4 = omega arith in
      let a3 : w * 4 + 0x0c ≡ (w + 3) * 4 = omega arith in
      ground (
        arith,
        a0,
        a1,
        a2,
        a3,
        h.same_words w,
        h.same_words (w + 1),
        h.same_words (w + 2),
        h.same_words (w + 3),
        h.words w,
        h.words (w + 1),
        h.words (w + 2),
        h.words (w + 3),
      )

  fields-walk :
      (r b k n : ℕ)
      → k + n < r
      → map fields (walk i (b * 4) k n) ≡ map fields_of (window s.golden.memory.mem b r k n)
  unfolding walk
  fields-walk r b k zero p = refl
  fields-walk r b k (suc n) p =
      let next : (k + 1) % r ≡ k + 1 = mod-eq_of_lt (omega arith) in
      let addr : b * 4 + k * 16 ≡ (b + k * 4) * 4 = omega arith in
      rw (next, addr)
        (ap₂ (λ x xs. x ∷ xs) (fields-transfer_at (b + k * 4))
          (fields-walk r b (k + 1) n (omega arith)))

  -- On a ring that is set up with HEAD at 0, `parse_stimulus` lists the pending descriptors in
  -- their order, with their addresses, beat counts and directions, when its dictionaries mirror
  -- the memory and the registers.
  pub fields-transfers :
      (r b : ℕ)
      → Refine.IsValid r b s
      → s.csr.regs Csr.reg_head ≡ 0
      → map fields (transfers i) ≡ map fields_of (pending r b s)
  unfolding transfers
  fields-transfers r b v head =
      let t = s.csr.regs Csr.reg_tail in
      let cnt : count r s ≡ t =
        ground (arith, head, mod-eq_of_lt v.tail_in, distance_from_zero r t v.tail_in) in
      rw (h.same_base, h.same_tail, v.baseaddr_reg, cnt, head)
        (fields-walk r b 0 t (omega (arith, v.tail_in)))
