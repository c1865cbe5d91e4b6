-- ===== src/Tests/Plan.antt =====
-- The theorems on a scenario whose descriptors do not touch one another's words, at one.
use axi_dma_engine.Base.{ℕ, ◌*◌, ◌/◌, ◌≡◌, refl, ◌∙◌, List, [], ◌∷◌, get_or, arith, ok, true, false}
use axi_dma_engine.Descriptor.{Descriptor, pack}
use axi_dma_engine.Golden.Scenario.{Outcome, run_scenario}
use axi_dma_engine.Golden.Run.{scenario_rows, scenario_lines}
use axi_dma_engine.Golden.Apart.{AllMoved, Apart}
use axi_dma_engine.Golden.Clean.{IsClean}
use axi_dma_engine.Host.Transfers.{transfers, no_images, note_lines}
use axi_dma_engine.Viz.{Region}
use axi_dma_engine.HostRunner.Session.{verify_one_transfer, verify_dma_result}
use axi_dma_engine.HostRunner.Outcome.{IsPlan, run_scenario-AllMoved, verify_dma_result-scenario}
use axi_dma_engine.HostRunner.Predicted.{AreSized, Holds}
use axi_dma_engine.HostRunner.Shown.{Shows, verify_one_transfer-Shows}
use axi_dma_engine.Tests.Scenarios.{run, run_lem}
use axi_dma_engine.Tests.Demo
use axi_dma_engine.Tests.Setup.{words}
use axi_dma_engine.Tests.Witnesses.{out-IsValid}
use axi_dma_engine.Tests.Runner.{transfer, transfer_in, done}
use axi_dma_engine.Tests.Board.{Board, board_of, board, on_line, sum32, words_at, board-IsDevice}

-- SRAM word 3 goes to word 14 of the system memory, behind the demo's first transfer.
abbrev back : Descriptor
back = record { w0 = 12; w1 = 56; w2 = 1; w3 = 0 }

abbrev ds : List Descriptor
ds = Demo.desc_out ∷ back ∷ []

out-IsClean : IsClean 16 4 3 0 Demo.desc_out
out-IsClean = record {
  src_aligned = refl;
  dst_aligned = refl;
  short = omega arith;
  src_in = omega arith;
  dst_in = omega arith;
  spares_ring = λ j p. refl;
}

back-IsClean : IsClean 16 4 3 0 back
back-IsClean = record {
  src_aligned = refl;
  dst_aligned = refl;
  short = omega arith;
  src_in = omega arith;
  dst_in = omega arith;
  spares_ring = λ j p. ground arith;
}

out-Apart-back : Apart Demo.desc_out back
out-Apart-back = record {
  dst_spared = λ j p. refl;
  src_spared = λ j p. ground arith;
  spares_src = λ j p. ground arith;
}

plan : IsPlan 16 4 3 0 words ds
plan = record {
  some_slot = omega arith;
  ring_in = omega arith;
  addressable = omega arith;
  some_sram = omega arith;
  in_range = omega arith;
  valid = (
    out-IsValid,
    (
      record {
        w0_word = omega arith;
        w1_word = omega arith;
        w2_word = omega arith;
        w3_word = omega arith;
      },
      tt,
    ),
  );
  room = omega arith;
  rounds = omega arith;
  clean = (out-IsClean, (back-IsClean, tt));
  apart = ((out-Apart-back, tt), (tt, tt));
}

run_scenario-AllMoved_example :
    (o : Outcome) × (run_scenario (scenario_rows words 3 0 ds) 16 4 ≡ ok o)
    × (o.stim_lines ≡ scenario_lines words 3 0 ds)
    × AllMoved ds (o.initial_smem, o.initial_sram) (o.final_smem, o.final_sram)
run_scenario-AllMoved_example = run_scenario-AllMoved 16 4 3 0 words ds plan

abbrev smem_after : List ℕ
smem_after = 48 ∷ 4 ∷ 2 ∷ 1 ∷ 12 ∷ 56 ∷ 1 ∷ 0 ∷ 0 ∷ 0 ∷ 0 ∷ 0 ∷ 71 ∷ 72 ∷ 0 ∷ 0 ∷ []

abbrev sram_after : List ℕ
sram_after = 0 ∷ 71 ∷ 72 ∷ 0 ∷ []

abbrev ended : Outcome
ended = record {
  stim_lines = scenario_lines words 3 0 ds;
  initial_smem = smem_after;
  final_smem = smem_after;
  initial_sram = 0 ∷ 0 ∷ 0 ∷ 0 ∷ [];
  final_sram = sram_after;
  descs_fetched = pack Demo.desc_out ∷ pack back ∷ [];
}

ended_lem : run_scenario (scenario_rows words 3 0 ds) 16 4 ≡ ok ended
unfolding run
ended_lem = run_lem (scenario_rows words 3 0 ds) 16 4 ∙ refl

-- a far side that holds these memories
abbrev after : Board
after =
    board_of
      (elim [ Region.smem ↦ λ i. get_or smem_after i 0 | Region.sram ↦ λ i. get_or sram_after i 0 ])

after-Holds : Holds 16 4 (words_at after) (smem_after, sram_after)
after-Holds true w h = let e : w * 4 / 4 ≡ w = omega arith in rw e (ground arith)
after-Holds false w h = let e : w * 4 / 4 ≡ w = omega arith in rw e (ground arith)

sized : AreSized 16 4 (λ r. 4096)
sized = elim [ true ↦ omega arith | false ↦ omega arith ]

verify_dma_result-scenario_example :
    (verify_dma_result board 64 sum32 false
      (transfers (note_lines ended.stim_lines no_images))
      after).0
    ≡ ok (true, [])
verify_dma_result-scenario_example =
    verify_dma_result-scenario 16 4 3 0 words ds plan board on_line sum32 words_at board-IsDevice 64
      (omega arith) ended after (omega arith) sized ended_lem refl after-Holds

verify_one_transfer-Shows_example :
    Shows board on_line sum32 words_at board-IsDevice 64
      (omega arith)
      (words_at done)
      transfer
      (verify_one_transfer board 64 sum32 true 0 transfer done)
verify_one_transfer-Shows_example =
    verify_one_transfer-Shows board on_line sum32 words_at board-IsDevice 64 (omega arith)
      (words_at done) 0 transfer done
      (record { src_word = omega arith; dst_word = omega arith; short = omega arith; whole = refl })
      transfer_in (record { src_low = omega arith; dst_low = omega arith }) (omega arith)
      (refl, refl)
