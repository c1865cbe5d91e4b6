-- ===== src/Tests/Setup.antt =====
-- The theorems on the set-up of a scenario, on the demo ring before its descriptors.
use axi_dma_engine.Base.{List, ok, ◌≡◌, refl, [], ◌∷◌, arith}
use axi_dma_engine.Golden.{System}
use axi_dma_engine.Golden.Loop.{IsReady}
use axi_dma_engine.Descriptor.RoundTrip
use axi_dma_engine.Golden.Scenario.{apply_rows}
use axi_dma_engine.Descriptor.{Descriptor}
use axi_dma_engine.RingManager.Indices.{window}
use axi_dma_engine.Golden.Scenario.{Outcome, run_scenario}
use axi_dma_engine.Golden.Load.{Datum}
use axi_dma_engine.Golden.Move.{Fits}
use axi_dma_engine.Golden.Run.{scenario_rows, scenario_lines, set_up, Ran, scenario_replays}
use axi_dma_engine.Csr
use axi_dma_engine.Memory
use axi_dma_engine.Descriptor
use axi_dma_engine.RingManager
use axi_dma_engine.Golden.Scenario
use axi_dma_engine.Tests.Demo
use axi_dma_engine.Tests.Witnesses.{ring-IsValid, out-IsValid}

abbrev before : System
before = record (Demo.system) { ring = Demo.ring 0 }

before-IsReady : IsReady 3 0 before
before-IsReady = record {
  ring_valid = ring-IsValid 0 (omega arith);
  df_quiet = record {
    no_handle = refl;
    no_desc = refl;
    handle_room = omega arith;
    desc_room = omega arith;
  };
  quiet = record {
    no_handle = refl;
    no_axi_instr = refl;
    no_sram_instr = refl;
    no_word = refl;
    axi_room = omega arith;
    sram_room = omega arith;
  };
}

pub back-IsValid : RoundTrip.IsValid Demo.desc_back
back-IsValid = record {
  w0_word = omega arith;
  w1_word = omega arith;
  w2_word = omega arith;
  w3_word = omega arith;
}

-- the demo as a whole scenario
abbrev pub words : List Datum
words = Datum.in_smem 12 71 ∷ Datum.in_smem 13 72 ∷ []

abbrev pub descs : List Descriptor
descs = Demo.desc_out ∷ Demo.desc_back ∷ []

wide_out : Fits Demo.desc_out 128 16 4
wide_out = record { mid_fits = omega arith; src_fits = omega arith; dst_fits = omega arith }

wide_back : Fits Demo.desc_back 128 4 16
wide_back = record { mid_fits = omega arith; src_fits = omega arith; dst_fits = omega arith }

scenario_replays_example :
    (o : Outcome) × (run_scenario (scenario_rows words 3 0 descs) 16 4 ≡ ok o)
    × Ran 3 0 2 (scenario_lines words 3 0 descs) (set_up 16 4 3 0 words descs) o
    × (window o.initial_smem 0 3 0 2 ≡ descs)
    × (o.initial_sram ≡ 0 ∷ 0 ∷ 0 ∷ 0 ∷ [])
unfolding Csr.write RingManager.ringlen RingManager.is_full RingManager.slot_byte_addr
    RingManager.store_words RingManager.write_desc_to_mem RingManager.enqueue RingManager.base
    Descriptor.new Scenario.apply_desc Scenario.apply_rows Memory.store
scenario_replays_example =
    scenario_replays 16 4 3 0 words descs (omega arith) (omega arith) (omega arith) (omega arith)
      (out-IsValid, (back-IsValid, tt)) (omega arith) (omega arith) (omega arith)
      ((refl, wide_out), ((refl, wide_back), tt))
