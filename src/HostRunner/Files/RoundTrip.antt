-- ===== src/HostRunner/Files/RoundTrip.antt =====
-- firmware&local/host_runner.py reads the stim.txt that sim/run_golden.py writes.
use mathlib.Core.Path.{fun_ext}
use axi_dma_engine.Base.{ℕ, ◌≡◌, refl, ap, ◌∙◌, List, [], ◌∷◌, map, ok}
use axi_dma_engine.Text.{Chars, strip, AllOf, in_line}
use axi_dma_engine.Text.Words.{strip-first}
use axi_dma_engine.Text.Hex.{int_of-hex}
use axi_dma_engine.Golden.Scenario.{StimLine}
use axi_dma_engine.Golden.Files.{print_line, stim_file}
use axi_dma_engine.Golden.Files.Lines.{parts, split-print_line, with_newline, lines_of-stim_file}
use axi_dma_engine.Host.{Serial}
use axi_dma_engine.Host.Transfers.{Images, no_images}
use axi_dma_engine.HostRunner.Session.{
  written, skipped, send_directive, send_directives, parse_stimulus,
}
use axi_dma_engine.HostRunner.Files.{directive_of, directive_text, send_lines, parse_stimulus_file}

directive_of-parts : (l : StimLine) → directive_of (parts l) ≡ ok (written l)
unfolding parts
directive_of-parts (StimLine.sysmem_write a v) = rw (int_of-hex 8 a, int_of-hex 8 v) refl
directive_of-parts (StimLine.sram_write a v) = rw (int_of-hex 8 a, int_of-hex 8 v) refl
directive_of-parts (StimLine.csr_write o v) = rw (int_of-hex 2 o, int_of-hex 8 v) refl

directive_text-print_line : (l : StimLine) → directive_text (print_line l) ≡ ok (written l)
directive_text-print_line l = directive_text_of l ∙ directive_of-parts l
  where
    directive_text_of : (l : StimLine) → directive_text (print_line l) ≡ directive_of (parts l)
    directive_text_of (StimLine.sysmem_write a v) =
        ap directive_of (split-print_line (StimLine.sysmem_write a v)).1
    directive_text_of (StimLine.sram_write a v) =
        ap directive_of (split-print_line (StimLine.sram_write a v)).1
    directive_text_of (StimLine.csr_write o v) =
        ap directive_of (split-print_line (StimLine.csr_write o v)).1

directive_text-line : (l : StimLine) → directive_text (strip (with_newline l)) ≡ ok (written l)
directive_text-line l = ap directive_text (split-print_line l).0 ∙ directive_text-print_line l

directive_text-comment : (s : Chars) → directive_text (strip (b'#' ∷ s)) ≡ ok skipped
directive_text-comment s = let (t, e) = strip-first b'#' s refl in rw e refl

module _ {P : Type 0} (ser : Serial P) (reads : ℕ) where
  send_lines_lem :
      (ls : List StimLine) (i : Images)
      → send_lines ser reads (map with_newline ls) i ≡ send_directives ser reads (map written ls) i
  unfolding send_lines send_directives
  send_lines_lem [] i = refl
  send_lines_lem (l ∷ ls) i =
      let ih : send_lines ser reads (map with_newline ls)
          ≡ send_directives ser reads (map written ls) =
        fun_ext (send_lines_lem ls) in
      rw (directive_text-line l, ih) refl

  -- On the stim.txt that run_golden.py writes for lines with any numbers of 0 and above, and with a
  -- name in one line, parse_stimulus makes the calls that it makes on the lines themselves, and
  -- returns the same transfers.
  pub parse_stimulus_file-stim_file :
      (source : Chars) (ls : List StimLine)
      → AllOf in_line source
      → parse_stimulus_file ser reads (stim_file source ls)
        ≡ parse_stimulus ser reads (map written ls)
  unfolding parse_stimulus_file parse_stimulus send_lines send_directive
  parse_stimulus_file-stim_file source ls h =
      let e = lines_of-stim_file source ls h in
      rw (e, directive_text-comment _, send_lines_lem ls no_images) refl
