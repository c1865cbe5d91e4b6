-- ===== src/Tests/Checked.antt =====
-- The theorems on serial_host.py's run against the board, at concrete inputs.
use axi_dma_engine.Base.{
  zero, suc, ◌≡◌, refl, true, [], ◌∷◌, ok, err, Result, arith, map, if◌then◌else◌, ◌==◌,
}
use axi_dma_engine.Base.Words.{mask}
use axi_dma_engine.Memory.{bram_size}
use axi_dma_engine.Golden.{smem_words}
use axi_dma_engine.Golden.Scenario
use axi_dma_engine.Golden.Scenario.{Row, StimLine, Outcome, run_scenario}
use axi_dma_engine.Host.{Bases, send_stim}
use axi_dma_engine.Host.Session
use axi_dma_engine.Host.Session.{validate, check_board, check_sram}
use axi_dma_engine.Host.Held.{HoldsAt}
use axi_dma_engine.Host.Checks.{check_board-HoldsAt}
use axi_dma_engine.Host.Compares.{check_sram-Compares, Compares}
use axi_dma_engine.Host.Main.{run_on_board, run_on_board-validate}
use axi_dma_engine.Viz.{Region}
use axi_dma_engine.HostRunner.Device.{Answered}
use axi_dma_engine.Tests.Board.{Board, board, board_of, on_line, sum32, words_at, board-IsDevice}
use axi_dma_engine.Tests.Runner.{few_rows, outcome}
use axi_dma_engine.Tests.Text.{table, table_reads, source}

abbrev bases : Bases
bases = record { csr_base_addr = 0x80000000; smem_base_addr = 0x100; sram_base_addr = 0 }

abbrev or_outcome : Result Outcome → Outcome
or_outcome (ok o) = o
or_outcome (err e) = outcome

abbrev ended : Outcome
ended = or_outcome (run_scenario (Row.blank ∷ few_rows) smem_words bram_size)

ends : run_scenario (Row.blank ∷ few_rows) smem_words bram_size ≡ ok ended
unfolding Scenario.run_scenario Scenario.build Scenario.run_rows Scenario.apply_rows
    Scenario.run_enabled
ends = refl

run_on_board-validate_example :
    run_on_board board bases 64 96 sum32 source table
    ≡ validate board bases 64 sum32 96
        (send_stim board bases 64 ended.stim_lines)
        (map (mask 32) ended.initial_smem)
        (map (mask 32) ended.initial_sram)
        (map (mask 32) ended.final_sram)
run_on_board-validate_example =
    run_on_board-validate board bases 64 96 sum32 source table (Row.blank ∷ few_rows) ended
      table_reads ends (refl, (refl, (refl, (refl, (refl, (refl, (refl, tt)))))))

-- Word 1 of the SRAM is 5 and word 64 of the system memory is 7.
abbrev after_run : Board
after_run = board_of (elim [
  | Region.sram ↦ λ i. if i == 1 then 5 else 0
  | Region.smem ↦ λ i. if i == 64 then 7 else 0
])

smem_held : HoldsAt (words_at after_run Region.smem) 0x100 (7 ∷ [])
smem_held zero h = refl
smem_held (suc k) h = absurd (omega arith)

sram_held : HoldsAt (words_at after_run Region.sram) 0 (0 ∷ 5 ∷ [])
sram_held zero h = refl
sram_held (suc zero) h = refl
sram_held (suc (suc k)) h = absurd (omega arith)

check_board-HoldsAt_example :
    Answered on_line words_at
      (check_board board bases 64 sum32 (7 ∷ []) (0 ∷ 0 ∷ []) (0 ∷ 5 ∷ []) after_run)
      true
      (words_at after_run)
unfolding Session.changed
check_board-HoldsAt_example =
    check_board-HoldsAt board on_line sum32 words_at board-IsDevice bases 64 (omega arith) (7 ∷ [])
      (0 ∷ 0 ∷ []) (0 ∷ 5 ∷ []) (words_at after_run) after_run ((refl, omega arith), omega arith)
      ((refl, omega arith), omega arith) ((refl, omega arith), omega arith)
      ((refl, omega arith), omega arith) smem_held sram_held (refl, refl)

check_sram-Compares_example :
    Compares board on_line sum32 words_at board-IsDevice bases 64
      (omega arith)
      (0 ∷ 0 ∷ [])
      (0 ∷ 5 ∷ [])
      (words_at after_run)
      (check_sram board bases 64 sum32
        (0 ∷ 5 ∷ [])
        (Session.changed 0 (0 ∷ 0 ∷ []) (0 ∷ 5 ∷ []))
        after_run)
unfolding Session.changed
check_sram-Compares_example =
    check_sram-Compares board on_line sum32 words_at board-IsDevice bases 64 (omega arith)
      (0 ∷ 0 ∷ []) (0 ∷ 5 ∷ []) 1 [] (words_at after_run) after_run refl refl
      ((refl, omega arith), omega arith) (refl, refl)
