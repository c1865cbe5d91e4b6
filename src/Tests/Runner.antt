-- ===== src/Tests/Runner.antt =====
-- The theorems on firmware&local/host_runner.py, at the far side of Tests/Board.
use mathlib.Core.Path.{fun_ext}
use axi_dma_engine.Base.{
  inl, inr, ℕ, ◌≡◌, ◌≢◌, refl, List, [], ◌∷◌, ◌++◌, ◌==◌, if◌then◌else◌, map, arith, ok, err, false,
  out_of_reads,
}
use axi_dma_engine.Golden.Scenario
use axi_dma_engine.Golden.Scenario.{StimLine, Outcome, run_scenario}
use axi_dma_engine.Golden.Run.{scenario_lines}
use axi_dma_engine.Host
use axi_dma_engine.Host.{sync_word, le32}
use axi_dma_engine.Host.Transfers.{Transfer, fields, transfers, no_images, note_lines}
use axi_dma_engine.Host.Expect.{transfers_scenario, run_scenario-Follows}
use axi_dma_engine.Host.Follows.{Follows}
use axi_dma_engine.Viz.{Region}
use axi_dma_engine.HostRunner
use axi_dma_engine.HostRunner.Session.{written, verify_one_transfer, parse_stimulus}
use axi_dma_engine.HostRunner.Device.{Answered}
use axi_dma_engine.HostRunner.Link.{wait_for_ack-same, wait_for_ack-ends}
use axi_dma_engine.HostRunner.Verify.{IsHeld, verdict, verify_one_transfer-verdict}
use axi_dma_engine.HostRunner.Load.{AreInside, held, parse_stimulus-loads}
use axi_dma_engine.Tests.Link.{port, all, port-IsSerial, greeting}
use axi_dma_engine.Tests.Setup.{words, descs, back-IsValid}
use axi_dma_engine.Tests.Witnesses.{out-IsValid}
use axi_dma_engine.Tests.Board.{Board, board_of, board, on_line, sum32, words_at, board-IsDevice}

wait_for_ack-same_example :
    HostRunner.wait_for_ack port 64 (greeting ++ 0xee ∷ 5 ∷ []) ≡ (ok false, 5 ∷ [])
unfolding Host.wait_for_ack Host.scan Host.read_ack
wait_for_ack-same_example =
    wait_for_ack-same port all port-IsSerial 64 6 (greeting ++ 0xee ∷ 5 ∷ []) (omega arith)
      (omega arith) false refl

wait_for_ack-ends_example :
    (HostRunner.wait_for_ack port 8 (greeting ++ 0xee ∷ 5 ∷ [])).0 ≢ err out_of_reads
wait_for_ack-ends_example =
    wait_for_ack-ends port all port-IsSerial 8 (greeting ++ 0xee ∷ 5 ∷ []) (omega arith)

abbrev pub blank : Board
blank = board_of (λ r i. 0)

abbrev lines : List StimLine
lines =
    StimLine.sysmem_write 48 71
    ∷ StimLine.sysmem_write 52 72
    ∷ StimLine.sram_write 4 9
    ∷ StimLine.csr_write 4 3
    ∷ []

pub blank-held : words_at blank ≡ held no_images
blank-held =
    fun_ext (elim [
      | Region.smem ↦ fun_ext (λ a. ground arith)
      | Region.sram ↦ fun_ext (λ a. ground arith)
    ])

lines_in : AreInside (λ r. 4096) lines
lines_in = ((refl, omega arith), ((refl, omega arith), ((refl, omega arith), (inr (inl refl), tt))))

parse_stimulus-loads_example :
    Answered on_line words_at
      (parse_stimulus board 64 (map written lines) blank)
      (transfers (note_lines lines no_images))
      (held (note_lines lines no_images))
parse_stimulus-loads_example =
    parse_stimulus-loads board on_line sum32 words_at board-IsDevice 64 (omega arith) lines blank
      (omega arith) lines_in refl blank-held

-- the demo's first transfer, done
abbrev pub transfer : Transfer
transfer = record {
  src_addr = 48;
  dst_addr = 4;
  len_words = 2;
  dir = 1;
  expected_words = 71 ∷ 72 ∷ [];
}

abbrev pub moved : Region → ℕ → ℕ
moved Region.smem i = if i == 12 then 71 else (if i == 13 then 72 else 0)
moved Region.sram i = if i == 1 then 71 else (if i == 2 then 72 else 0)

abbrev pub done : Board
done = board_of moved

pub transfer_in : IsHeld (λ r. 4096) transfer
transfer_in = ((refl, omega arith), (refl, omega arith))

verify_one_transfer-verdict_example :
    Answered on_line words_at
      (verify_one_transfer board 64 sum32 false 0 transfer done)
      (verdict sum32 (words_at done) transfer, [])
      (words_at done)
verify_one_transfer-verdict_example =
    verify_one_transfer-verdict board on_line sum32 words_at board-IsDevice 64 (omega arith)
      (words_at done) 0 transfer done
      (record { src_word = omega arith; dst_word = omega arith; short = omega arith; whole = refl })
      transfer_in (refl, refl)

transfers_scenario_example :
    map fields (transfers (note_lines (scenario_lines words 3 0 descs) no_images))
    ≡ (48, 4, 2, 1) ∷ (4, 56, 2, 0) ∷ []
transfers_scenario_example =
    transfers_scenario 16 4 3 0 words descs (omega arith) (omega arith) (omega arith) (omega arith)
      (out-IsValid, (back-IsValid, tt)) (omega arith)

abbrev pub few_rows : List Scenario.Row
few_rows =
    Scenario.Row.smem 1 7
    ∷ Scenario.Row.sram 0 8
    ∷ Scenario.Row.csr_baseaddr 0
    ∷ Scenario.Row.csr_ringlen 3
    ∷ []

abbrev pub few_lines : List StimLine
few_lines =
    StimLine.sysmem_write 4 7
    ∷ StimLine.sram_write 0 8
    ∷ StimLine.csr_write 0 0
    ∷ StimLine.csr_write 4 3
    ∷ []

abbrev pub outcome : Outcome
outcome = record {
  stim_lines = few_lines;
  initial_smem = 0 ∷ 7 ∷ 0 ∷ [];
  final_smem = 0 ∷ 7 ∷ 0 ∷ [];
  initial_sram = 8 ∷ 0 ∷ [];
  final_sram = 8 ∷ 0 ∷ [];
  descs_fetched = [];
}

pub runs : run_scenario few_rows 3 2 ≡ ok outcome
unfolding run_scenario Scenario.build Scenario.run_rows Scenario.apply_rows Scenario.run_enabled
runs = refl

run_scenario-Follows_example :
    Follows 3 (note_lines few_lines no_images).sysmem_image (0 ∷ 7 ∷ 0 ∷ [])
    × Follows 2 (note_lines few_lines no_images).sram_image (8 ∷ 0 ∷ [])
run_scenario-Follows_example =
    run_scenario-Follows 3 2 few_rows outcome (tt, (tt, (refl, (omega arith, tt)))) runs
