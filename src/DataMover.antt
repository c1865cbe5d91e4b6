-- ===== src/DataMover.antt =====
-- source/data_mover.py: instructions for the AXI master, and words for MID ahead of a write.
use axi_dma_engine.Base.{ℕ, true, false, List, Action, zoom}
use axi_dma_engine.Fifo
use axi_dma_engine.Fifo.{Fifo}
use axi_dma_engine.AxiMaster.{pack_instruction}
use axi_dma_engine.Base.{[], ◌∷◌, pure, ◌>>◌}
use axi_dma_engine.Base.Words.{mask}

pub record DataMover : Type 0 where
  fifo_instr_to_axi : Fifo
  fifo_mid : Fifo

module _ {A : Type 0} where
  abbrev on_instrs : Action Fifo A → Action DataMover A
  on_instrs = zoom (λ s. s.fifo_instr_to_axi) (λ q s. record s { fifo_instr_to_axi = q })

  abbrev on_mid : Action Fifo A → Action DataMover A
  on_mid = zoom (λ s. s.fifo_mid) (λ q s. record s { fifo_mid = q })

unfoldable submit_read : ℕ → ℕ → Action DataMover (Unit {0})
unfolding Fifo.enqueue pack_instruction
submit_read byte_addr len_beats =
    on_instrs (Fifo.enqueue (pack_instruction byte_addr len_beats false))

unfoldable submit_write : ℕ → ℕ → Action DataMover (Unit {0})
unfolding Fifo.enqueue pack_instruction
submit_write byte_addr len_beats =
    on_instrs (Fifo.enqueue (pack_instruction byte_addr len_beats true))

unfoldable preload_write_data : List ℕ → Action DataMover (Unit {0})
unfolding Fifo.enqueue
preload_write_data [] = pure tt
preload_write_data (w ∷ ws) = do on_mid (Fifo.enqueue (mask 32 w)); preload_write_data ws
