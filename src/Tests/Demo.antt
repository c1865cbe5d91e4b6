-- ===== src/Tests/Demo.antt =====
-- A small system of the software model for the tests: a ring of three slots from word 0 on with
-- two pending descriptors, 16 words of system memory and an SRAM of 4 words.
use axi_dma_engine.Base.{ℕ, List, [], ◌∷◌}
use axi_dma_engine.Csr
use axi_dma_engine.Csr.{Csr}
use axi_dma_engine.Fifo.{Fifo}
use axi_dma_engine.Descriptor.{Descriptor}
use axi_dma_engine.AxiMaster.{AxiMaster}
use axi_dma_engine.SramController.{SramController}
use axi_dma_engine.RingManager.{RingManager}
use axi_dma_engine.Golden.{System}

abbrev pub fifo : ℕ → List ℕ → Fifo
fifo n vs = record { queue_length = n; buffer = vs }

-- two words from word 12 of the system memory to word 1 of the SRAM, and back to word 14
abbrev pub desc_out : Descriptor
desc_out = record { w0 = 48; w1 = 4; w2 = 2; w3 = 1 }

abbrev pub desc_back : Descriptor
desc_back = record { w0 = 4; w1 = 56; w2 = 2; w3 = 0 }

abbrev pub words : List ℕ
words = 48 ∷ 4 ∷ 2 ∷ 1 ∷ 4 ∷ 56 ∷ 2 ∷ 0 ∷ 0 ∷ 0 ∷ 0 ∷ 0 ∷ 71 ∷ 72 ∷ 0 ∷ 0 ∷ []

-- BASEADDR 0, RINGLEN 3, and `tail` descriptors from slot 0 on
abbrev pub csr : ℕ → Csr
csr tail = Csr.put Csr.reg_tail tail (Csr.put Csr.reg_ringlen 3 Csr.new)

abbrev pub master : List ℕ → List ℕ → List ℕ → AxiMaster
master handles instrs mid = record {
  memory = record { size = 16; mem = words };
  df_in = fifo 4 handles;
  df_out = fifo 4 [];
  dm_in = fifo 4 instrs;
  mid = fifo 8 mid;
}

abbrev pub ring : ℕ → RingManager
ring tail = record { csr = csr tail; golden = master [] [] [] }

abbrev pub system : System
system = record {
  ring = ring 2;
  sram = record { size = 4; mem = 0 ∷ 0 ∷ 0 ∷ 0 ∷ [] };
  dm_sram = fifo 4 [];
}

abbrev pub sram_ctrl : List ℕ → List ℕ → SramController
sram_ctrl instrs mid = record { sram = 5 ∷ 6 ∷ 7 ∷ 8 ∷ []; dm_in = fifo 4 instrs; mid = fifo 8 mid }
