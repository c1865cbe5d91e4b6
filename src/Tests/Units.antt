-- ===== src/Tests/Units.antt =====
-- The theorems on the controllers, the codecs and the registers, at concrete inputs.
use axi_dma_engine.Base.{
  ℕ, ◌+◌, ◌≤◌, ◌%◌, ◌^◌, ◌≡◌, ◌≢◌, refl, [], ◌∷◌, arith, ok, err, index_error, true, false, ◌&&◌,
  ◌||◌, suc, ◌⊎◌,
}
use axi_dma_engine.Csr
use axi_dma_engine.Csr.{Csr, read, write, reg_irq_clear, reg_irq_status, reg_status, reg_tail}
use axi_dma_engine.Csr.Registers.{read-write}
use axi_dma_engine.Irq.{is_irq_empty, is_irq_error, any_pending}
use axi_dma_engine.Irq.Lifecycle.{irq_clear-acknowledges}
use axi_dma_engine.Fifo.Order
use axi_dma_engine.Memory.Slices.{overwrite}
use axi_dma_engine.Descriptor
use axi_dma_engine.Descriptor.RoundTrip
use axi_dma_engine.Descriptor.RoundTrip.{from_packed-pack, pack-from_packed}
use axi_dma_engine.AxiMaster.{AxiMaster, pack_handle, pack_instruction, process_one, idle}
use axi_dma_engine.AxiMaster.Safety
use axi_dma_engine.AxiMaster.Safety.{
  backlog, process_one-IsValid, process_one_handle_first, backlog-process_one,
}
use axi_dma_engine.AxiMaster.Serve.{process_one_read, process_one_write}
use axi_dma_engine.SramController
use axi_dma_engine.SramController.Serve.{serve_read, serve_write, serve_overrun}
use axi_dma_engine.Tests.Demo

fifo-IsValid : (n : ℕ) → 1 ≤ n → Order.IsValid (Demo.fifo n [])
fifo-IsValid n h = record { positive = h; fits = omega arith }

one-IsValid : (v : ℕ) → Order.IsValid (Demo.fifo 4 (v ∷ []))
one-IsValid v = record { positive = omega arith; fits = omega arith }

-- a master with a handle of the descriptor at word 4, behind it a burst of words 12 and 13
abbrev busy : AxiMaster
busy = Demo.master (pack_handle 16 4 ∷ []) (pack_instruction 48 2 false ∷ []) []

busy-IsValid : Safety.IsValid busy
busy-IsValid = record {
  sized = refl;
  df_in_valid = one-IsValid (pack_handle 16 4);
  df_out_valid = fifo-IsValid 4 (omega arith);
  dm_in_valid = one-IsValid (pack_instruction 48 2 false);
  mid_valid = fifo-IsValid 8 (omega arith);
}

process_one-IsValid_example : Safety.IsValid (process_one busy).1
process_one-IsValid_example = process_one-IsValid busy busy-IsValid

process_one_handle_first_example :
    let t = (process_one busy).1 in
    (t.df_in.buffer ≡ []) × (t.dm_in ≡ busy.dm_in) × (t.mid ≡ busy.mid) × (t.memory ≡ busy.memory)
process_one_handle_first_example = process_one_handle_first busy (pack_handle 16 4) [] refl

backlog-process_one_example :
    ((idle busy ≡ true) × (process_one busy ≡ (ok false, busy)))
    ⊎ ((idle busy ≡ false)
        × (backlog busy ≡ suc (backlog (process_one busy).1))
        × ((process_one busy).0 ≢ ok false))
backlog-process_one_example = backlog-process_one busy

process_one_read_example :
    process_one (Demo.master [] (pack_instruction 48 2 false ∷ []) [])
    ≡ (ok true, Demo.master [] [] (71 ∷ 72 ∷ []))
process_one_read_example =
    process_one_read (Demo.master [] (pack_instruction 48 2 false ∷ []) []) 12 [] (omega arith) 2
      refl refl (omega arith) (omega arith) (omega arith)

abbrev storing : AxiMaster
storing = Demo.master [] (pack_instruction 56 2 true ∷ []) (9 ∷ 10 ∷ 11 ∷ [])

process_one_write_example : process_one storing ≡ (
  ok true,
  record (Demo.master [] [] (11 ∷ [])) {
    memory = record (storing.memory) { mem = overwrite 14 (9 ∷ 10 ∷ []) Demo.words };
  },
)
process_one_write_example =
    process_one_write storing 14 [] (omega arith) (9 ∷ 10 ∷ []) (11 ∷ []) refl refl refl
      (omega arith) (omega arith)

serve_read_example :
    SramController.process_one (Demo.sram_ctrl (pack_instruction 6 2 false ∷ []) (9 ∷ []))
    ≡ (ok true, Demo.sram_ctrl [] (9 ∷ 6 ∷ 7 ∷ []))
serve_read_example =
    serve_read (Demo.sram_ctrl (pack_instruction 6 2 false ∷ []) (9 ∷ [])) 6 [] (omega arith) 2 refl
      (omega arith) (omega arith) (omega arith)

serve_write_example :
    SramController.process_one (Demo.sram_ctrl (pack_instruction 8 2 true ∷ []) (9 ∷ 10 ∷ 11 ∷ []))
    ≡ (ok true, record (Demo.sram_ctrl [] (11 ∷ [])) { sram = 5 ∷ 6 ∷ 9 ∷ 10 ∷ [] })
serve_write_example =
    serve_write (Demo.sram_ctrl (pack_instruction 8 2 true ∷ []) (9 ∷ 10 ∷ 11 ∷ [])) 8 []
      (omega arith) (9 ∷ 10 ∷ []) (11 ∷ []) refl refl (omega arith) (omega arith)

abbrev overrun : SramController.SramController
overrun = Demo.sram_ctrl (pack_instruction 12 2 true ∷ []) (9 ∷ 10 ∷ [])

serve_overrun_example :
    ((SramController.process_one overrun).0 ≡ err index_error)
    × ((SramController.process_one overrun).1.sram ≡ 5 ∷ 6 ∷ 7 ∷ 9 ∷ [])
serve_overrun_example =
    serve_overrun overrun 12 [] (omega arith) (9 ∷ 10 ∷ []) [] refl refl (omega arith) (omega arith)
      (omega arith)

out-IsValid : RoundTrip.IsValid Demo.desc_out
out-IsValid = record {
  w0_word = omega arith;
  w1_word = omega arith;
  w2_word = omega arith;
  w3_word = omega arith;
}

from_packed-pack_example : Descriptor.from_packed (Descriptor.pack Demo.desc_out) ≡ Demo.desc_out
from_packed-pack_example = from_packed-pack Demo.desc_out out-IsValid

pack-from_packed_example :
    Descriptor.pack (Descriptor.from_packed (2 ^ 130 + 7)) ≡ (2 ^ 130 + 7) % 2 ^ 128
pack-from_packed_example = pack-from_packed (2 ^ 130 + 7)

-- both interrupts pending and enabled, with STATUS.ERROR
abbrev raised : Csr
raised = Csr.put Csr.reg_ctrl 5 (Csr.put reg_status 7 (Csr.put reg_irq_status 3 Csr.new))

read-write_example : read reg_tail (write reg_tail (2 ^ 32 + 5) raised) ≡ 5
read-write_example = read-write reg_tail (2 ^ 32 + 5) reg_tail raised (λ e. omega arith)

irq_clear-acknowledges_example :
    let c' = write reg_irq_clear 1 raised in
    (is_irq_empty c' ≡ (is_irq_empty raised && false))
    × (is_irq_error c' ≡ (is_irq_error raised && true))
    × (any_pending c' ≡ (is_irq_empty raised && false || is_irq_error raised && true))
irq_clear-acknowledges_example = irq_clear-acknowledges 1 raised
