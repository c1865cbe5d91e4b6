-- ===== src/Golden/Scenario.antt =====
-- sim/run_golden.py: the rows of a scenario, and `run_scenario`. A row stands here as `_parse_row`
-- and `int` have read it (Golden/Table.antt), with numbers of 0 and above; a line of stim.txt before
-- it is printed (Golden/Files.antt).
use Prim.Native.Nat.{bit_or}
use axi_dma_engine.Base.{
  ℕ, ◌+◌, ◌*◌, ◌%◌, ◌^◌, some, List, [], ◌∷◌, ◌++◌, set, leb, ◌==◌, if◌then◌else◌, Result, ok, err,
  Action, pure, raise, gets, modify, lift, raise_if, ◌>>=◌, ◌>>◌, zero_division, row_index,
  unknown_op,
}
use axi_dma_engine.Base.Words.{mask}
use axi_dma_engine.Csr
use axi_dma_engine.Csr.{Csr}
use axi_dma_engine.Fifo
use axi_dma_engine.Memory.{new_memory, new_sram}
use axi_dma_engine.Descriptor
use axi_dma_engine.RingManager
use axi_dma_engine.Golden.{System, on_ring, fifo_depth, dm_depth, mid_depth, event_loop, max_iters}

pub data Row : Type 0 where
  blank : Row
  smem : ℕ → ℕ → Row
  sram : ℕ → ℕ → Row
  csr_baseaddr : ℕ → Row
  csr_ringlen : ℕ → Row
  desc : ℕ → ℕ → ℕ → ℕ → Row
  enable : Row
  other : Row

pub data StimLine : Type 0 where
  sysmem_write : ℕ → ℕ → StimLine
  sram_write : ℕ → ℕ → StimLine
  csr_write : ℕ → ℕ → StimLine

abbrev on_csr : (Csr → Csr) → Action System (Unit {0})
on_csr f = modify (λ s. record s { ring = record (s.ring) { csr = f s.ring.csr } })

abbrev set_smem : ℕ → ℕ → System → System
set_smem i v s = record s {
  ring = record (s.ring) {
    golden = record (s.ring.golden) {
      memory = record (s.ring.golden.memory) { mem = set s.ring.golden.memory.mem i v };
    };
  };
}

abbrev set_sram : ℕ → ℕ → System → System
set_sram i v s = record s { sram = record (s.sram) { mem = set s.sram.mem i v } }

-- `csr.read(REG_TAIL) % rlen`, which raises at 0
abbrev tail_slot : ℕ → ℕ → Result ℕ
tail_slot t rlen = if rlen == 0 then err zero_division else ok (t % rlen)

-- the `desc` branch
unfoldable pub apply_desc : ℕ → ℕ → ℕ → ℕ → Action System (List StimLine)
unfolding Descriptor.new Csr.ringlen Csr.baseaddr Csr.read
apply_desc a b c d = do
  let w0 = mask 32 a
  let w1 = mask 32 b
  let w2 = mask 32 c
  let w3 = mask 32 d
  rlen ← gets (λ s. mask 32 (Csr.ringlen s.ring.csr))
  base ← gets (λ s. mask 32 (Csr.baseaddr s.ring.csr))
  t ← gets (λ s. Csr.read Csr.reg_tail s.ring.csr)
  ti ← lift (tail_slot t rlen)
  let slot = base + ti * 16
  on_ring (RingManager.enqueue (Descriptor.new w0 w1 w2 w3))
  tail ← gets (λ s. Csr.read Csr.reg_tail s.ring.csr)
  pure (
      sysmem_write (slot + 0) w0
      ∷ sysmem_write (slot + 4) w1
      ∷ sysmem_write (slot + 8) w2
      ∷ sysmem_write (slot + 12) w3
      ∷ csr_write Csr.reg_tail tail
      ∷ [])

-- The body of the loop over the rows, with the stimulus lines that it appends. The sizes are the
-- arguments `smem_words` and `sram_words` of `run_scenario`.
module _ (smem_words sram_words : ℕ) where
  unfoldable pub apply_row : Row → Action System (List StimLine)
  unfolding Csr.write Csr.read
  apply_row blank = pure []
  apply_row (smem wi v) = do
    raise_if (leb smem_words wi) row_index
    modify (set_smem wi (mask 32 v))
    pure (sysmem_write (wi * 4) (mask 32 v) ∷ [])
  apply_row (sram wi v) = do
    raise_if (leb sram_words wi) row_index
    modify (set_sram wi (mask 32 v))
    pure (sram_write (wi * 4) (mask 32 v) ∷ [])
  apply_row (csr_baseaddr addr) = do
    on_csr (Csr.write Csr.reg_baseaddr (mask 32 addr))
    pure (csr_write Csr.reg_baseaddr (mask 32 addr) ∷ [])
  apply_row (csr_ringlen rlen) = do
    on_csr (Csr.write Csr.reg_ringlen rlen)
    pure (csr_write Csr.reg_ringlen rlen ∷ [])
  apply_row (desc a b c d) = apply_desc a b c d
  apply_row enable = do
    ctrl ← gets (λ s. Csr.read Csr.reg_ctrl s.ring.csr)
    let on = bit_or (bit_or ctrl (2 ^ Csr.enable_bit)) (2 ^ Csr.irq_en_bit)
    on_csr (Csr.write Csr.reg_ctrl on)
    pure []
  apply_row other = raise unknown_op

  unfoldable pub apply_rows : List Row → Action System (List StimLine)
  unfolding apply_row
  apply_rows [] = pure []
  apply_rows (r ∷ rs) = do lines ← apply_row r; rest ← apply_rows rs; pure (lines ++ rest)

-- what `run_scenario` returns
pub record Outcome : Type 0 where
  pub stim_lines : List StimLine
  pub initial_smem : List ℕ
  pub final_smem : List ℕ
  pub initial_sram : List ℕ
  pub final_sram : List ℕ
  pub descs_fetched : List ℕ

-- the objects that `run_scenario` builds
unfoldable pub build : ℕ → ℕ → Action (Unit {0}) System
unfolding new_memory new_sram Fifo.new
build smem_words sram_words = do
  sysmem ← lift (new_memory smem_words)
  local ← lift (new_sram (some sram_words))
  handles ← lift (Fifo.new fifo_depth)
  descs ← lift (Fifo.new fifo_depth)
  dm_axi ← lift (Fifo.new dm_depth)
  dm_sram ← lift (Fifo.new dm_depth)
  mid ← lift (Fifo.new mid_depth)
  pure (record {
    ring = record {
      csr = Csr.new;
      golden = record {
        memory = sysmem;
        df_in = handles;
        df_out = descs;
        dm_in = dm_axi;
        mid = mid;
      };
    };
    sram = local;
    dm_sram = dm_sram;
  })

-- The event loop, if CTRL.ENABLE is set.
unfoldable pub run_enabled : Action System (List ℕ)
unfolding Csr.is_enabled
run_enabled = do
  enabled ← gets (λ s. Csr.is_enabled s.ring.csr)
  if enabled then event_loop max_iters else pure []

-- What follows the rows, behind what reads them.
abbrev pub run_with : Action System (List StimLine) → Action System Outcome
run_with read_rows = do
  stim ← read_rows
  smem0 ← gets (λ s. s.ring.golden.memory.mem)
  sram0 ← gets (λ s. s.sram.mem)
  descs ← run_enabled
  smem1 ← gets (λ s. s.ring.golden.memory.mem)
  sram1 ← gets (λ s. s.sram.mem)
  pure (record {
    stim_lines = stim;
    initial_smem = smem0;
    final_smem = smem1;
    initial_sram = sram0;
    final_sram = sram1;
    descs_fetched = descs;
  })

unfoldable pub run_rows : ℕ → ℕ → List Row → Action System Outcome
run_rows smem_words sram_words rows = run_with (apply_rows smem_words sram_words rows)

unfoldable pub run_scenario : List Row → ℕ → ℕ → Result Outcome
run_scenario rows smem_words sram_words = elim (build smem_words sram_words tt).0 [
  | ok sys ↦ (run_rows smem_words sram_words rows sys).0
  | err e ↦ err e
]
