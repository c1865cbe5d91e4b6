-- ===== src/Host/Files/RoundTrip.antt =====
-- firmware&local/serial_host.py reads the files that sim/run_golden.py writes.
use axi_dma_engine.Base.{ℕ, ◌≡◌, refl, ap, ◌∙◌, List, [], ◌∷◌, ◌++◌, map, ok, none, some, arith}
use axi_dma_engine.Base.Words.{mask}
use axi_dma_engine.Text.{Chars, strip, AllOf, in_line, hex_literal, int_of, pos}
use axi_dma_engine.Text.Words.{
  IsWord, is_visible-in_line, lines_of-write_lines, strip-word, strip-first,
}
use axi_dma_engine.Text.Hex.{int_of-hex, hex-IsWord}
use axi_dma_engine.Golden.Scenario.{StimLine}
use axi_dma_engine.Golden.Files.{print_line, stim_file, write_hex32, hex32}
use axi_dma_engine.Golden.Files.Lines.{parts, split-print_line, with_newline, lines_of-stim_file}
use axi_dma_engine.Host.{Serial, Bases, send_stim}
use axi_dma_engine.Host.Files.{
  hex_line, stim_text, stim_words, send_lines, send_stim_file, load_lines, load_hex32,
}

stim_words-parts : (l : StimLine) → stim_words (parts l) ≡ ok (some l)
unfolding parts
stim_words-parts (StimLine.sysmem_write a v) = rw (int_of-hex 8 a, int_of-hex 8 v) refl
stim_words-parts (StimLine.sram_write a v) = rw (int_of-hex 8 a, int_of-hex 8 v) refl
stim_words-parts (StimLine.csr_write o v) = rw (int_of-hex 2 o, int_of-hex 8 v) refl

stim_text-print_line : (l : StimLine) → stim_text (print_line l) ≡ ok (some l)
stim_text-print_line (StimLine.sysmem_write a v) =
    rw ((split-print_line (StimLine.sysmem_write a v)).1)
      (stim_words-parts (StimLine.sysmem_write a v))
stim_text-print_line (StimLine.sram_write a v) =
    rw ((split-print_line (StimLine.sram_write a v)).1) (stim_words-parts (StimLine.sram_write a v))
stim_text-print_line (StimLine.csr_write o v) =
    rw ((split-print_line (StimLine.csr_write o v)).1) (stim_words-parts (StimLine.csr_write o v))

stim_text-line : (l : StimLine) → stim_text (strip (with_newline l)) ≡ ok (some l)
stim_text-line l = ap stim_text (split-print_line l).0 ∙ stim_text-print_line l

stim_text-comment : (s : Chars) → stim_text (strip (b'#' ∷ s)) ≡ ok none
stim_text-comment s = let (t, e) = strip-first b'#' s refl in rw e refl

module _ {P : Type 0} (ser : Serial P) (bases : Bases) (polls : ℕ) where
  send_lines_lem :
      (ls : List StimLine)
      → send_lines ser bases polls (map with_newline ls) ≡ send_stim ser bases polls ls
  unfolding send_lines send_stim
  send_lines_lem [] = refl
  send_lines_lem (l ∷ ls) = rw (stim_text-line l, send_lines_lem ls) refl

  -- On the stim.txt that is written for lines with any numbers of 0 and above, and with a name in
  -- one line, send_stim makes the calls that it makes on the lines themselves.
  pub send_stim_file-stim_file :
      (source : Chars) (ls : List StimLine)
      → AllOf in_line source
      → send_stim_file ser bases polls (stim_file source ls) ≡ send_stim ser bases polls ls
  unfolding send_stim_file send_lines
  send_stim_file-stim_file source ls h =
      ap (send_lines ser bases polls) (lines_of-stim_file source ls h)
      ∙ rw (stim_text-comment _) (send_lines_lem ls)

hex_line-IsWord :
    (s : Chars)
    → IsWord s
    → {w : ℕ} → int_of hex_literal s ≡ ok (pos w)
    → hex_line s ≡ ok (some (mask 32 w))
hex_line-IsWord [] h e = absurd (h.0 refl)
hex_line-IsWord (c ∷ s) h e = rw e refl

hex_line-hex32 : (w : ℕ) → hex_line (strip (hex32 w ++ b'\n' ∷ [])) ≡ ok (some (mask 32 w))
hex_line-hex32 w =
    let h = hex-IsWord 8 (mask 32 w) in
    let e = hex_line-IsWord (hex32 w) h (int_of-hex 8 (mask 32 w)) in
    rw (strip-word (hex32 w) h, e) (ap (λ k. ok (some k)) (omega arith))

load_lines_lem :
    (ws : List ℕ) → load_lines (map (λ w. hex32 w ++ b'\n' ∷ []) ws) ≡ ok (map (mask 32) ws)
unfolding load_lines
load_lines_lem [] = refl
load_lines_lem (w ∷ ws) = rw (hex_line-hex32 w, load_lines_lem ws) refl

-- _load_hex32 reads back, modulo 2 ^ 32, the words of a file that _write_hex32 has written.
pub load_hex32-write_hex32 : (ws : List ℕ) → load_hex32 (write_hex32 ws) ≡ ok (map (mask 32) ws)
unfolding load_hex32 write_hex32
load_hex32-write_hex32 ws =
    let one_line = λ (w : ℕ). is_visible-in_line (hex32 w) (hex-IsWord 8 (mask 32 w)).1 in
    ap load_lines (lines_of-write_lines hex32 ws one_line) ∙ load_lines_lem ws
