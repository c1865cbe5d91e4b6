-- ===== src/SramController.antt =====
-- source/sram_controller.py: the SRAM side of a transfer, one instruction at a time. `sram` is the
-- list of words that the object shares with its `SRAM`.
use axi_dma_engine.Base.{
  ℕ, zero, suc, ◌+◌, Bool, true, false, List, ◌==◌, if◌then◌else◌, Action, pure, gets, ◌>>=◌, ◌>>◌,
  zoom,
}
use axi_dma_engine.Base.Words.{mask, shr, bit}
use axi_dma_engine.Fifo
use axi_dma_engine.Fifo.{Fifo}
use axi_dma_engine.Memory.{load, store}
pub mod Serve

abbrev pub len_lsb : ℕ
len_lsb = 32

abbrev pub rw_bit : ℕ
rw_bit = 40

pub record SramController : Type 0 where
  pub sram : List ℕ
  pub dm_in : Fifo
  pub mid : Fifo

module _ {A : Type 0} where
  abbrev pub on_sram : Action (List ℕ) A → Action SramController A
  on_sram = zoom (λ s. s.sram) (λ l s. record s { sram = l })

  abbrev pub on_dm_in : Action Fifo A → Action SramController A
  on_dm_in = zoom (λ s. s.dm_in) (λ q s. record s { dm_in = q })

  abbrev pub on_mid : Action Fifo A → Action SramController A
  on_mid = zoom (λ s. s.mid) (λ q s. record s { mid = q })

-- Pop from MID and write to the SRAM, from word `w` on.
unfoldable pub write_loop : ℕ → ℕ → Action SramController (Unit {0})
write_loop w zero = pure tt
write_loop w (suc n) = do
  v ← on_mid Fifo.dequeue
  on_sram (store w (mask 32 v))
  write_loop (w + 1) n

-- Read from the SRAM and push to MID, from word `w` on.
unfoldable pub read_loop : ℕ → ℕ → Action SramController (Unit {0})
read_loop w zero = pure tt
read_loop w (suc n) = do
  v ← on_sram (load w)
  on_mid (Fifo.enqueue (mask 32 v))
  read_loop (w + 1) n

-- `process_one` once its instruction is taken
unfoldable pub serve_instr : ℕ → Action SramController (Unit {0})
serve_instr instr = do
  let byte_addr = mask 32 instr
  let num_beats = mask 8 (shr instr len_lsb)
  let is_write = bit instr rw_bit == 1
  let word_idx = shr byte_addr 2
  if is_write then write_loop word_idx num_beats else read_loop word_idx num_beats

-- `process_one` behind its test of an empty queue
unfoldable pub do_instruction : Action SramController (Unit {0})
do_instruction = do instr ← on_dm_in Fifo.dequeue; serve_instr instr

unfoldable pub process_one : Action SramController Bool
unfolding Fifo.is_empty
process_one = do
  none_left ← gets (λ s. Fifo.is_empty s.dm_in)
  if none_left then pure false else do_instruction >> pure true

unfoldable pub idle : SramController → Bool
unfolding Fifo.is_empty
idle s = Fifo.is_empty s.dm_in
