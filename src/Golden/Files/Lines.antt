-- ===== src/Golden/Files/Lines.antt =====
-- stim.txt and the files of words, line by line.
use axi_dma_engine.Base.{◌≡◌, refl, ap, ◌∙◌, List, [], ◌∷◌, ◌++◌, map}
use axi_dma_engine.Text.{
  Chars, codes, hex, lines_of, write_lines, strip, split, AllOf, in_line, is_visible,
}
use axi_dma_engine.Text.Words.{
  IsWord, all_of, all_of-AllOf, AllOf-append, split-strip-words, words-in_line, lines_of-line,
  lines_of-write_lines,
}
use axi_dma_engine.Text.Hex.{hex-IsWord}
use axi_dma_engine.Golden.Scenario.{StimLine, sysmem_write, sram_write, csr_write}
use axi_dma_engine.Golden.Files.{print_line, stim_file, generated_from}

-- the three words of a printed line
unfoldable pub parts : StimLine → List Chars
parts (sysmem_write addr v) = codes "sysmem_write" ∷ hex 8 addr ∷ hex 8 v ∷ []
parts (sram_write addr v) = codes "sram_write" ∷ hex 8 addr ∷ hex 8 v ∷ []
parts (csr_write offset v) = codes "csr_write" ∷ hex 2 offset ∷ hex 8 v ∷ []

smem-IsWord : IsWord (codes "sysmem_write")
unfolding all_of
smem-IsWord = ((λ e. cc), all_of-AllOf is_visible (codes "sysmem_write") refl)

sram-IsWord : IsWord (codes "sram_write")
unfolding all_of
sram-IsWord = ((λ e. cc), all_of-AllOf is_visible (codes "sram_write") refl)

csr-IsWord : IsWord (codes "csr_write")
unfolding all_of
csr-IsWord = ((λ e. cc), all_of-AllOf is_visible (codes "csr_write") refl)

-- A printed line, with its newline, is stripped to itself and split to its words.
pub split-print_line :
    (l : StimLine)
    → (strip (print_line l ++ b'\n' ∷ []) ≡ print_line l) × (split (print_line l) ≡ parts l)
unfolding parts
split-print_line (sysmem_write a v) =
    split-strip-words _ (hex 8 a) (hex 8 v) smem-IsWord (hex-IsWord 8 a) (hex-IsWord 8 v)
split-print_line (sram_write a v) =
    split-strip-words _ (hex 8 a) (hex 8 v) sram-IsWord (hex-IsWord 8 a) (hex-IsWord 8 v)
split-print_line (csr_write o v) =
    split-strip-words _ (hex 2 o) (hex 8 v) csr-IsWord (hex-IsWord 2 o) (hex-IsWord 8 v)

print_line-in_line : (l : StimLine) → AllOf in_line (print_line l)
print_line-in_line (sysmem_write a v) =
    words-in_line _ (hex 8 a) (hex 8 v) smem-IsWord (hex-IsWord 8 a) (hex-IsWord 8 v)
print_line-in_line (sram_write a v) =
    words-in_line _ (hex 8 a) (hex 8 v) sram-IsWord (hex-IsWord 8 a) (hex-IsWord 8 v)
print_line-in_line (csr_write o v) =
    words-in_line _ (hex 2 o) (hex 8 v) csr-IsWord (hex-IsWord 2 o) (hex-IsWord 8 v)

abbrev pub with_newline : StimLine → Chars
with_newline l = print_line l ++ b'\n' ∷ []

-- The lines of stim.txt, for a name that is in one line.
pub lines_of-stim_file :
    (source : Chars) (ls : List StimLine)
    → AllOf in_line source
    → lines_of (stim_file source ls)
      ≡ (generated_from ++ source ++ b'\n' ∷ []) ∷ map with_newline ls
unfolding stim_file all_of
lines_of-stim_file source ls h =
    let first =
      AllOf-append in_line generated_from source (all_of-AllOf in_line generated_from refl) h in
    lines_of-line (generated_from ++ source) (write_lines print_line ls) first
    ∙ ap (◌∷◌ (generated_from ++ source ++ b'\n' ∷ []))
        (lines_of-write_lines print_line ls print_line-in_line)
