-- ===== src/Host/Main.antt =====
-- firmware&local/serial_host.py: `run_golden`, and the part of `main` that runs a scenario against the
-- board. The rows of the table are the cells that csv.reader returns.
use axi_dma_engine.Base.{ℕ, ◌≡◌, refl, ◌∙◌, Bool, List, map, Result, ok, Action, lift, ◌>>=◌}
use axi_dma_engine.Base.Words.{mask}
use axi_dma_engine.Text.{Chars, AllOf, in_line, ◌on_ok◌}
use axi_dma_engine.Memory.{bram_size}
use axi_dma_engine.Golden.{smem_words}
use axi_dma_engine.Golden.Scenario.{Row, Outcome, run_scenario}
use axi_dma_engine.Golden.Files.{stim_file, write_hex32, golden_descs_file}
use axi_dma_engine.Golden.Table.{read_rows, run_table, run_table-run_scenario}
use axi_dma_engine.Host.{Serial, Bases, send_stim}
use axi_dma_engine.Host.Session.{validate}
use axi_dma_engine.Host.Files.{load_hex32, send_stim_file}
use axi_dma_engine.Host.Files.RoundTrip.{send_stim_file-stim_file, load_hex32-write_hex32}

-- The files in `out_dir`.
pub record GoldenFiles : Type 0 where
  stim : Chars
  initial_smem : Chars
  golden_smem : Chars
  initial_sram : Chars
  golden_sram : Chars
  golden_descs : Chars

abbrev golden_files : Chars → Outcome → GoldenFiles
golden_files source o = record {
  stim = stim_file source o.stim_lines;
  initial_smem = write_hex32 o.initial_smem;
  golden_smem = write_hex32 o.final_smem;
  initial_sram = write_hex32 o.initial_sram;
  golden_sram = write_hex32 o.final_sram;
  golden_descs = golden_descs_file o.descs_fetched;
}

unfoldable run_golden : Chars → List (List Chars) → Result GoldenFiles
run_golden source table = run_table table smem_words bram_size on_ok λ o. ok (golden_files source o)

module _ {P : Type 0} (ser : Serial P) (bases : Bases) (polls dma_polls : ℕ)
    (crc32 : List ℕ → ℕ) where
  -- `main` behind `run_golden`. The `except` does not catch the ValueError of a file that cannot be
  -- read, so that each file is loaded once, before the `try`.
  unfoldable run_files : GoldenFiles → Action P Bool
  run_files files = lift (load_hex32 files.golden_smem) >>= λ golden_smem.
      lift (load_hex32 files.golden_sram) >>= λ golden_sram.
      lift (load_hex32 files.initial_smem) >>= λ init_smem.
      lift (load_hex32 files.initial_sram) >>= λ init_sram.
      validate ser bases polls crc32 dma_polls (send_stim_file ser bases polls files.stim) init_smem
        init_sram golden_sram

  -- The part of `main` that stands below its options.
  pub run_on_board : Chars → List (List Chars) → Action P Bool
  unfolding run_files
  run_on_board source table = lift (run_golden source table) >>= run_files

  -- `main` from the scenario's own stimulus and memories on
  abbrev on_lists : Outcome → Action P Bool
  on_lists o =
      validate ser bases polls crc32 dma_polls (send_stim ser bases polls o.stim_lines)
        (map (mask 32) o.initial_smem) (map (mask 32) o.initial_sram) (map (mask 32) o.final_sram)

  run_files-golden_files :
      (source : Chars) (o : Outcome)
      → AllOf in_line source
      → run_files (golden_files source o) ≡ on_lists o
  unfolding run_files
  run_files-golden_files source o one_line =
      rw
        (
          load_hex32-write_hex32 o.final_smem,
          load_hex32-write_hex32 o.final_sram,
          load_hex32-write_hex32 o.initial_smem,
          load_hex32-write_hex32 o.initial_sram,
          send_stim_file-stim_file ser bases polls source o.stim_lines one_line,
        )
        refl

  -- From a table whose rows can be read and make a scenario that returns, and with a name in one
  -- line, main does on the files that run_golden has written what it does on the scenario's own
  -- stimulus and memories, their words modulo 2 ^ 32.
  pub run_on_board-validate :
      (source : Chars) (table : List (List Chars)) (rows : List Row) (o : Outcome)
      → read_rows table ≡ ok rows
      → run_scenario rows smem_words bram_size ≡ ok o
      → AllOf in_line source
      → run_on_board source table ≡ on_lists o
  unfolding run_on_board run_golden
  run_on_board-validate source table rows o h e one_line =
      let ran = run_table-run_scenario table rows smem_words bram_size h ∙ e in
      rw (ran, run_files-golden_files source o one_line) refl
