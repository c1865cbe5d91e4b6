-- ===== src/Tests/Scenarios.antt =====
-- sim/scenarios on small memories.
use axi_dma_engine.Base.{ℕ, ◌≡◌, refl, List, [], ◌∷◌, Result, ok, err}
use axi_dma_engine.Fifo
use axi_dma_engine.Csr
use axi_dma_engine.Memory
use axi_dma_engine.Descriptor
use axi_dma_engine.DescriptorFetcher
use axi_dma_engine.AxiMaster
use axi_dma_engine.SramController
use axi_dma_engine.RingManager
use axi_dma_engine.Golden
use axi_dma_engine.Golden.Scenario
use axi_dma_engine.Golden.Scenario.{Row, Outcome}

-- `run_scenario` with all that it calls open.
unfoldable pub run : List Row → ℕ → ℕ → Result Outcome
unfolding Fifo.dequeue Fifo.enqueue AxiMaster.mem_read_words AxiMaster.mem_write_words
    AxiMaster.pop_words AxiMaster.push_words AxiMaster.pack_descriptor_words AxiMaster.pack_handle
    AxiMaster.idle AxiMaster.do_descriptor_fetch AxiMaster.serve_handle AxiMaster.serve_instr
    AxiMaster.do_write AxiMaster.do_read AxiMaster.do_instruction AxiMaster.process_one
    SramController.do_instruction SramController.serve_instr Memory.load Memory.store
    SramController.process_one SramController.write_loop SramController.read_loop
    SramController.idle DescriptorFetcher.submit_handle DescriptorFetcher.take_descriptor Csr.write
    Csr.hw_set_head RingManager.is_empty RingManager.ringlen RingManager.is_full
    RingManager.slot_byte_addr RingManager.store_words RingManager.write_desc_to_mem
    RingManager.enqueue RingManager.fetch_step RingManager.has_descriptor RingManager.fetch_loop
    RingManager.fetch_head RingManager.fetch_next_descriptor RingManager.complete RingManager.base
    Golden.build_65 Golden.narrow65_to_41 Golden.desc_to_instr_pair Golden.drain_axi_dm
    Golden.drain_sram_dm Golden.move Golden.serve Golden.event_loop Descriptor.pack
    Descriptor.from_packed Scenario.apply_desc Scenario.apply_rows Scenario.build
    Scenario.run_enabled Scenario.run_rows Scenario.run_scenario
run rows smem_words sram_words = Scenario.run_scenario rows smem_words sram_words

pub run_lem : (rows : List Row) (m l : ℕ) → Scenario.run_scenario rows m l ≡ run rows m l
unfolding run
run_lem rows m l = refl

abbrev scenario : List Row
scenario =
    Row.smem 8 0xaabbccdd
    ∷ Row.smem 9 0x11223344
    ∷ Row.csr_baseaddr 0
    ∷ Row.csr_ringlen 2
    ∷ Row.desc 32 4 2 1
    ∷ Row.enable
    ∷ []

abbrev final_sram : Result Outcome → List ℕ
final_sram (ok o) = o.final_sram
final_sram (err e) = []

run-scenario : final_sram (run scenario 12 4) ≡ 0 ∷ 0xaabbccdd ∷ 0x11223344 ∷ 0 ∷ []
unfolding run
run-scenario = refl
