-- ===== src/Tests/Text.antt =====
-- Runs of the text functions, and the theorems on the files at concrete contents.
use axi_dma_engine.Base.{
  ◌≡◌, refl, List, [], ◌∷◌, map, ok, err, Result, value_error, index_error, struct_error, some,
  none, arith,
}
use axi_dma_engine.Text.{
  Chars, codes, strip, split, hex, decimal, int_of, dec_literal, hex_literal, any_literal, pos,
  negsuc, lines_of, lstrip, rstrip, split_onto, lines_onto, to_base, scan,
}
use axi_dma_engine.Golden.Scenario
use axi_dma_engine.Golden.Scenario.{Row, StimLine, Outcome, run_scenario}
use axi_dma_engine.Golden.Files.{stim_file, write_hex32, Artifacts, artifacts}
use axi_dma_engine.Golden.Table.{read_row, read_rows, run_table, main}
use axi_dma_engine.Host
use axi_dma_engine.Host.Files.{stim_text, load_hex32, send_stim_file}
use axi_dma_engine.Host.Files.RoundTrip.{send_stim_file-stim_file, load_hex32-write_hex32}
use axi_dma_engine.HostRunner.Files.{directive_text, parse_stimulus_file}
use axi_dma_engine.HostRunner.Files.RoundTrip.{parse_stimulus_file-stim_file}
use axi_dma_engine.HostRunner.Session.{Directive, parse_stimulus}
use axi_dma_engine.HostRunner.Scenario.{IsLoaded, main-IsLoaded, run_scenario-AreSmall}
use axi_dma_engine.HostRunner.Load.{AreSmall}
use axi_dma_engine.Tests.Board.{board, on_line, sum32, words_at, board-IsDevice}
use axi_dma_engine.Tests.Runner.{blank, blank-held, few_rows, few_lines, outcome, runs}

numbers :
    (int_of hex_literal (codes " 0xFf ") ≡ ok (pos 255))
    × (int_of hex_literal (codes "-1_0") ≡ ok (negsuc 15))
    × (int_of hex_literal (codes "12g") ≡ err value_error)
    × (int_of any_literal (codes "0b101") ≡ ok (pos 5))
    × (int_of any_literal (codes "010") ≡ err value_error)
    × (int_of dec_literal (codes "1__0") ≡ err value_error)
unfolding lstrip rstrip scan
numbers = (refl, refl, refl, refl, refl, refl)

printed :
    (hex 8 0xdead ≡ codes "0000dead") × (hex 2 0x123 ≡ codes "123") × (decimal 40 ≡ codes "40")
unfolding to_base
printed = (refl, refl, refl)

cut :
    (split (strip (codes "  a bc\td \r\n")) ≡ codes "a" ∷ codes "bc" ∷ codes "d" ∷ [])
    × (lines_of (codes "a\n\nb") ≡ codes "a\n" ∷ codes "\n" ∷ codes "b" ∷ [])
unfolding lstrip rstrip split_onto lines_onto
cut = (refl, refl)

rows_read :
    (read_row (codes "# note" ∷ codes "1" ∷ []) ≡ ok Row.blank)
    × (read_row (codes " SMEM " ∷ codes " 5" ∷ codes "-1" ∷ []) ≡ ok (Row.smem 5 0xffffffff))
    × (read_row (codes "sram" ∷ codes "5" ∷ []) ≡ err index_error)
    × (read_row (codes "move" ∷ []) ≡ ok Row.other)
unfolding read_row lstrip rstrip scan
rows_read = (refl, refl, refl, refl)

-- The two hosts on lines that the golden model does not write.
odd_lines :
    (stim_text (codes "sysmem_write 4") ≡ ok none)
    × (directive_text (codes "sysmem_write 4") ≡ err index_error)
    × (stim_text (codes "sram_write -4 1") ≡ ok (some (StimLine.sram_write 0xfffffffc 1)))
    × (directive_text (codes "sram_write -4 1") ≡ err struct_error)
    × (directive_text (codes "sram_read 10") ≡ ok (Directive.sram_read 16))
    × (stim_text (codes "sram_read 10 0") ≡ ok none)
unfolding split_onto lstrip rstrip scan
odd_lines = (refl, refl, refl, refl, refl, refl)

abbrev pub source : Chars
source = codes "few.csv"

parse_stimulus_file-stim_file_example :
    parse_stimulus_file board 64 (stim_file source few_lines)
    ≡ parse_stimulus board 64 (map Directive.written few_lines)
parse_stimulus_file-stim_file_example =
    parse_stimulus_file-stim_file board 64 source few_lines
      (refl, (refl, (refl, (refl, (refl, (refl, (refl, tt)))))))

abbrev bases : Host.Bases
bases = record { csr_base_addr = 0x80000000; smem_base_addr = 0; sram_base_addr = 0 }

send_stim_file-stim_file_example :
    send_stim_file board bases 64 (stim_file source few_lines)
    ≡ Host.send_stim board bases 64 few_lines
send_stim_file-stim_file_example =
    send_stim_file-stim_file board bases 64 source few_lines
      (refl, (refl, (refl, (refl, (refl, (refl, (refl, tt)))))))

load_hex32-write_hex32_example :
    load_hex32 (write_hex32 (7 ∷ 0x1deadbeef ∷ [])) ≡ ok (7 ∷ 0xdeadbeef ∷ [])
load_hex32-write_hex32_example = load_hex32-write_hex32 (7 ∷ 0x1deadbeef ∷ [])

abbrev pub table : List (List Chars)
table =
    (codes "op" ∷ codes "arg" ∷ [])
    ∷ (codes "smem" ∷ codes "1" ∷ codes "7" ∷ [])
    ∷ (codes "sram" ∷ codes "0" ∷ codes "8" ∷ [])
    ∷ (codes "csr_baseaddr" ∷ codes "0" ∷ [])
    ∷ (codes "csr_ringlen" ∷ codes "0x3" ∷ [])
    ∷ []

pub table_reads : read_rows table ≡ ok (Row.blank ∷ few_rows)
unfolding read_rows read_row lstrip rstrip scan
table_reads = refl

run_scenario-AreSmall_example : AreSmall few_lines
run_scenario-AreSmall_example =
    run_scenario-AreSmall 3 2 few_rows outcome (omega arith) (omega arith)
      (tt, (tt, (refl, (omega arith, tt)))) runs

abbrev or_empty : Result Artifacts → Artifacts
or_empty (ok files) = files
or_empty (err e) = artifacts [] outcome

abbrev files : Artifacts
files = or_empty (main source table)

written : main source table ≡ ok files
unfolding main run_table read_row lstrip rstrip scan Scenario.build Scenario.run_rows
    Scenario.apply_rows Scenario.run_enabled
written = refl

main-IsLoaded_example :
    IsLoaded on_line words_at files (parse_stimulus_file board 64 files.stim blank)
main-IsLoaded_example =
    main-IsLoaded board on_line sum32 words_at board-IsDevice 64 (omega arith) (omega arith)
      (omega arith) table (Row.blank ∷ few_rows) source files blank table_reads
      (tt, (tt, (tt, (refl, (omega arith, tt))))) written
      (refl, (refl, (refl, (refl, (refl, (refl, (refl, tt))))))) refl blank-held
