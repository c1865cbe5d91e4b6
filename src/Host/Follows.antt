-- ===== src/Host/Follows.antt =====
-- firmware&local/host_runner.py on the lines of sim/run_golden.py's rows: dictionaries that follow
-- the memories and the ring's registers, and the rows other than `desc`.
use mathlib.Core.Path.{subst₂}
use axi_dma_engine.Base.{
  ℕ, ◌*◌, ◌%◌, ◌^◌, ◌≤◌, ◌<◌, ◌≡◌, ◌⊎◌, refl, sym, ◌∙◌, List, [], ◌∷◌, length, length-set, set,
  get_or, get_or-set_self, get_or-set_ne, arith, ok,
}
use axi_dma_engine.Base.Words.{mask}
use axi_dma_engine.Csr
use axi_dma_engine.Golden.{System}
use axi_dma_engine.Golden.Move.{smem}
use axi_dma_engine.Golden.Scenario.{Row, StimLine, apply_row}
use axi_dma_engine.Host.Transfers.{Images, put, note_line, note_lines}

-- A dictionary that follows the words of a memory.
pub record Follows (n : ℕ) (image : ℕ → ℕ) (mem : List ℕ) : Type 0 where
  pub size : length mem ≡ n
  pub same : (w : ℕ) → image (w * 4) ≡ get_or mem w 0
  pub words : (w : ℕ) → get_or mem w 0 < 2 ^ 32

pub put-Follows :
    (n : ℕ) (image : ℕ → ℕ) (mem : List ℕ) (a w x : ℕ)
    → a ≡ w * 4
    → w < n
    → x < 2 ^ 32
    → Follows n image mem
    → Follows n (put a x image) (set mem w x)
put-Follows n image mem a w x e h small v =
    let inside : w < length mem = omega (arith, v.size) in
    record {
      size = length-set mem w x ∙ v.size;
      same = λ k.
          ground (arith, e, get_or-set_self mem w x 0 inside, get_or-set_ne mem w k x 0, v.same k);
      words = λ k.
          ground (arith, get_or-set_self mem w x 0 inside, get_or-set_ne mem w k x 0, v.words k);
    }

-- A dictionary that follows the registers of the ring, in the ranges that keep each slot's address
-- a multiple of 4 below 2 ^ 34.
pub record FollowsRing (csr_writes : ℕ → ℕ) (c : Csr.Csr) : Type 0 where
  pub same_base : csr_writes Csr.reg_baseaddr ≡ c.regs Csr.reg_baseaddr
  pub same_tail : csr_writes Csr.reg_tail ≡ c.regs Csr.reg_tail
  pub tail_word : c.regs Csr.reg_tail < 2 ^ 32
  pub aligned : c.regs Csr.reg_baseaddr % 4 ≡ 0
  pub base_word : c.regs Csr.reg_baseaddr < 2 ^ 32
  pub len_in : c.regs Csr.reg_ringlen ≤ 2 ^ 28

-- The dictionaries hold what the system does.
pub record Synced (m l : ℕ) (i : Images) (s : System) : Type 0 where
  pub sized : s.ring.golden.memory.size ≡ m
  pub smem_part : Follows m i.sysmem_image (smem s)
  pub sram_part : Follows l i.sram_image s.sram.mem
  pub ring_part : FollowsRing i.csr_writes s.ring.csr

-- The rows that place the ring place it at a whole word, with at most 2 ^ 28 slots.
abbrev pub IsFine : Row → Type 0
IsFine (Row.csr_baseaddr a) = a % 4 ≡ 0
IsFine (Row.csr_ringlen n) = n ≤ 2 ^ 28
IsFine _ = Unit {0}

abbrev pub AreFine : List Row → Type 0
AreFine [] = Unit {0}
AreFine (x ∷ xs) = IsFine x × AreFine xs

-- the state after a row of each kind that writes
abbrev with_smem : ℕ → ℕ → System → System
with_smem w x s = record s {
  ring = record (s.ring) {
    golden = record (s.ring.golden) {
      memory = record (s.ring.golden.memory) { mem = set (smem s) w (mask 32 x) };
    };
  };
}

abbrev with_reg : ℕ → ℕ → System → System
with_reg o x s = record s { ring = record (s.ring) { csr = Csr.put o x s.ring.csr } }

module _ (m l : ℕ) (i : Images) (s t : System) (lines : List StimLine) (v : Synced m l i s) where
  pub apply_smem :
      (w x : ℕ) → apply_row m l (Row.smem w x) s ≡ (ok lines, t) → Synced m l (note_lines lines i) t
  unfolding apply_row note_lines note_line
  apply_smem w x e =
      let inv : (w < m)
          × (lines ≡ StimLine.sysmem_write (w * 4) (mask 32 x) ∷ [])
          × (t ≡ with_smem w x s) =
        ground (arith, e) in
      let small : mask 32 x < 2 ^ 32 = omega arith in
      let part =
        put-Follows m i.sysmem_image (smem s) (w * 4) w (mask 32 x) refl inv.0 small v.smem_part in
      subst₂ (λ k u. Synced m l (note_lines k i) u) (sym inv.1) (sym inv.2)
        (record {
          sized = v.sized;
          smem_part = part;
          sram_part = v.sram_part;
          ring_part = v.ring_part;
        })

  pub apply_sram :
      (w x : ℕ) → apply_row m l (Row.sram w x) s ≡ (ok lines, t) → Synced m l (note_lines lines i) t
  unfolding apply_row note_lines note_line
  apply_sram w x e =
      let inv : (w < l)
          × (lines ≡ StimLine.sram_write (w * 4) (mask 32 x) ∷ [])
          × (t ≡ record s { sram = record (s.sram) { mem = set s.sram.mem w (mask 32 x) } }) =
        ground (arith, e) in
      let small : mask 32 x < 2 ^ 32 = omega arith in
      let part =
        put-Follows l i.sram_image s.sram.mem (w * 4) w (mask 32 x) refl inv.0 small v.sram_part in
      subst₂ (λ k u. Synced m l (note_lines k i) u) (sym inv.1) (sym inv.2)
        (record {
          sized = v.sized;
          smem_part = v.smem_part;
          sram_part = part;
          ring_part = v.ring_part;
        })

  pub apply_base :
      (a : ℕ)
      → a % 4 ≡ 0
      → apply_row m l (Row.csr_baseaddr a) s ≡ (ok lines, t)
      → Synced m l (note_lines lines i) t
  unfolding apply_row note_lines note_line Csr.write
  apply_base a h e =
      let inv : (lines ≡ StimLine.csr_write Csr.reg_baseaddr (mask 32 a) ∷ [])
          × (t ≡ with_reg Csr.reg_baseaddr (mask 32 a) s) =
        ground (arith, e) in
      let r = v.ring_part in
      subst₂ (λ k u. Synced m l (note_lines k i) u) (sym inv.0) (sym inv.1)
        (record {
          sized = v.sized;
          smem_part = v.smem_part;
          sram_part = v.sram_part;
          ring_part = record {
            same_base = refl;
            same_tail = r.same_tail;
            tail_word = r.tail_word;
            aligned = omega arith;
            base_word = omega arith;
            len_in = r.len_in;
          };
        })

  pub apply_len :
      (n : ℕ)
      → n ≤ 2 ^ 28
      → apply_row m l (Row.csr_ringlen n) s ≡ (ok lines, t)
      → Synced m l (note_lines lines i) t
  unfolding apply_row note_lines note_line Csr.write
  apply_len n h e =
      let inv : (lines ≡ StimLine.csr_write Csr.reg_ringlen n ∷ [])
          × (t ≡ with_reg Csr.reg_ringlen (mask 32 n) s) =
        ground (arith, e) in
      let r = v.ring_part in
      subst₂ (λ k u. Synced m l (note_lines k i) u) (sym inv.0) (sym inv.1)
        (record {
          sized = v.sized;
          smem_part = v.smem_part;
          sram_part = v.sram_part;
          ring_part = record {
            same_base = r.same_base;
            same_tail = r.same_tail;
            tail_word = r.tail_word;
            aligned = r.aligned;
            base_word = r.base_word;
            len_in = omega arith;
          };
        })

  -- the rows that append nothing
  pub apply_rest :
      (row : Row)
      → (row ≡ Row.blank) ⊎ (row ≡ Row.enable)
      → apply_row m l row s ≡ (ok lines, t)
      → Synced m l (note_lines lines i) t
  unfolding apply_row note_lines note_line Csr.write Csr.read
  apply_rest row h e = ground (arith, v)
