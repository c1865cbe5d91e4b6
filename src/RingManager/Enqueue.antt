-- ===== src/RingManager/Enqueue.antt =====
-- source/ringManager.py: what an `enqueue` that returns has done, on any ring.
use axi_dma_engine.Base.{
  ℕ, ◌+◌, ◌*◌, ◌/◌, ◌%◌, ◌^◌, ◌≤◌, ◌≡◌, ◌≢◌, List, set, length, length-set, arith, ok,
}
use axi_dma_engine.Csr
use axi_dma_engine.Memory.Slices.{store_lem}
use axi_dma_engine.Descriptor.{Descriptor}
use axi_dma_engine.RingManager.{
  RingManager, tail_reg, ringlen, base, slot_byte_addr, store_words, write_desc_to_mem, is_full,
  enqueue,
}

-- the memory after four assignments from word `w` on
abbrev with_words : ℕ → Descriptor → List ℕ → List ℕ
with_words w d mem = set (set (set (set mem w d.w0) (w + 1) d.w1) (w + 2) d.w2) (w + 3) d.w3

store_words_set :
    (w : ℕ) (d : Descriptor) (mem : List ℕ)
    → w + 4 ≤ length mem
    → store_words w d mem ≡ (ok tt, with_words w d mem)
unfolding store_words
store_words_set w d mem h =
    let m1 = set mem w d.w0 in
    let m2 = set m1 (w + 1) d.w1 in
    let m3 = set m2 (w + 2) d.w2 in
    let e1 = length-set mem w d.w0 in
    let e2 = length-set m1 (w + 1) d.w1 in
    let e3 = length-set m2 (w + 2) d.w2 in
    ground (
      arith,
      store_lem w d.w0 mem (omega arith),
      store_lem (w + 1) d.w1 m1 (omega arith),
      store_lem (w + 2) d.w2 m2 (omega arith),
      store_lem (w + 3) d.w3 m3 (omega arith),
    )

-- the slot of the tail, and the word that its descriptor starts at
abbrev pub len_of : RingManager → ℕ
len_of s = s.csr.regs Csr.reg_ringlen % 2 ^ 32

abbrev slot_of : RingManager → ℕ
slot_of s = tail_reg s % len_of s % len_of s

abbrev pub word_at : RingManager → ℕ
word_at s = (s.csr.regs Csr.reg_baseaddr % 2 ^ 32 + slot_of s * 16) / 4 % 2 ^ 32

abbrev pub put_desc : Descriptor → RingManager → RingManager
put_desc d s = record s {
  csr = Csr.put Csr.reg_tail ((tail_reg s + 1) % len_of s % 2 ^ 32) s.csr;
  golden = record (s.golden) {
    memory = record (s.golden.memory) { mem = with_words (word_at s) d s.golden.memory.mem };
  };
}

pub enqueue_ok :
    (d d' : Descriptor) (s t : RingManager)
    → s.golden.memory.size ≡ length s.golden.memory.mem
    → enqueue d s ≡ (ok d', t)
    → (len_of s ≢ 0) × (word_at s + 4 ≤ length s.golden.memory.mem) × (t ≡ put_desc d s)
unfolding enqueue ringlen is_full slot_byte_addr base write_desc_to_mem Csr.write
enqueue_ok d d' s t sized e = ground (arith, store_words_set (word_at s) d s.golden.memory.mem)
