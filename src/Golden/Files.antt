-- ===== src/Golden/Files.antt =====
-- sim/run_golden.py: the files that `main` writes, with the lines of `run_scenario`'s stim_lines as
-- they are printed, and `_write_hex32`. serial_host.py's `run_golden` writes the same files.
pub mod Lines
use axi_dma_engine.Base.{ℕ, ◌%◌, ◌^◌, List, [], ◌∷◌, ◌++◌, length}
use axi_dma_engine.Base.Words.{mask}
use axi_dma_engine.Text.{Chars, codes, words, write_lines, hex, decimal}
use axi_dma_engine.Golden.Scenario.{StimLine, sysmem_write, sram_write, csr_write, Outcome}

abbrev pub print_line : StimLine → Chars
print_line (sysmem_write addr v) = words (codes "sysmem_write") (hex 8 addr) (hex 8 v)
print_line (sram_write addr v) = words (codes "sram_write") (hex 8 addr) (hex 8 v)
print_line (csr_write offset v) = words (codes "csr_write") (hex 2 offset) (hex 8 v)

-- stim.txt; the source's name is the last part of its path
abbrev pub generated_from : Chars
generated_from = codes "# generated from "

pub stim_file : Chars → List StimLine → Chars
stim_file source ls = generated_from ++ source ++ b'\n' ∷ write_lines print_line ls

abbrev pub hex32 : ℕ → Chars
hex32 w = hex 8 (mask 32 w)

unfoldable pub write_hex32 : List ℕ → Chars
write_hex32 = write_lines hex32

pub golden_descs_file : List ℕ → Chars
golden_descs_file = write_lines (λ p. hex 32 (p % 2 ^ 128))

unfoldable summary_file : Outcome → Chars
summary_file o =
    codes "descriptors_fetched="
    ++ decimal (length o.descs_fetched)
    ++ codes "\nstim_lines="
    ++ decimal (length o.stim_lines)
    ++ codes "\n"

pub record Artifacts : Type 0 where
  pub stim : Chars
  pub initial_smem : Chars
  golden_smem : Chars
  pub initial_sram : Chars
  pub golden_sram : Chars
  golden_descs : Chars
  summary : Chars

unfoldable pub artifacts : Chars → Outcome → Artifacts
unfolding golden_descs_file summary_file
artifacts source o = record {
  stim = stim_file source o.stim_lines;
  initial_smem = write_hex32 o.initial_smem;
  golden_smem = write_hex32 o.final_smem;
  initial_sram = write_hex32 o.initial_sram;
  golden_sram = write_hex32 o.final_sram;
  golden_descs = golden_descs_file o.descs_fetched;
  summary = summary_file o;
}
