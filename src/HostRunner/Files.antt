-- ===== src/HostRunner/Files.antt =====
-- firmware&local/host_runner.py: the lines of the file that `parse_stimulus` reads.
pub mod RoundTrip
use axi_dma_engine.Base.{
  ℕ, ◌≡◌, Bool, List, [], ◌∷◌, if◌then◌else◌, Result, ok, err, Action, pure, lift, ◌>>=◌,
  index_error, struct_error,
}
use axi_dma_engine.Text.{
  Chars, codes, strip, split, ◌is◌, is_comment, lines_of, hex_literal, int_of, ℤ, natural, ◌on_ok◌,
  pos, negsuc,
}
use axi_dma_engine.Golden.Scenario.{StimLine}
use axi_dma_engine.Host.{Serial}
use axi_dma_engine.Host.Transfers.{Images, Transfer, no_images, transfers}
use axi_dma_engine.HostRunner.Session.{
  Directive, written, sysmem_read, sram_read, skipped, send_directive,
}

-- `int(parts[1], 16)`, or of the word behind it
abbrev number_at : List Chars → Result ℤ
number_at [] = err index_error
number_at (w ∷ ws) = int_of hex_literal w

abbrev rest_of : List Chars → List Chars
rest_of [] = []
rest_of (w ∷ ws) = ws

-- `struct.pack` refuses a negative number.
abbrev packable : ℤ → Result ℕ
packable (pos n) = ok n
packable (negsuc n) = err struct_error

abbrev memory_write : (ℕ → ℕ → StimLine) → List Chars → Result Directive
memory_write line ws = number_at ws on_ok λ a. number_at (rest_of ws) on_ok λ d.
    packable d on_ok λ v. packable a on_ok λ addr. ok (written (line addr v))

abbrev csr_line : List Chars → Result Directive
csr_line ws = number_at ws on_ok λ a. number_at (rest_of ws) on_ok λ d.
    packable d on_ok λ v. natural a on_ok λ offset. ok (written (StimLine.csr_write offset v))

abbrev memory_read : (ℕ → Directive) → List Chars → Result Directive
memory_read directive ws = number_at ws on_ok λ a. packable a on_ok λ addr. ok (directive addr)

-- The branches on `parts[0]`. The offset of a CSR is 0 or above.
abbrev pub directive_of : List Chars → Result Directive
directive_of [] = ok skipped
directive_of (op ∷ ws) =
    if op is codes "csr_write"
    then csr_line ws
    else if op is codes "sysmem_write"
    then memory_write StimLine.sysmem_write ws
    else if op is codes "sram_write"
    then memory_write StimLine.sram_write ws
    else if op is codes "sysmem_read"
    then memory_read sysmem_read ws
    else if op is codes "sram_read"
    then memory_read sram_read ws
    else ok skipped

abbrev pub directive_text : Chars → Result Directive
directive_text [] = ok skipped
directive_text (c ∷ s) = if is_comment (c ∷ s) then ok skipped else directive_of (split (c ∷ s))

module _ {P : Type 0} (ser : Serial P) (reads : ℕ) where
  -- The loop over the lines: an exception at a line comes after the lines before it were sent.
  unfoldable pub send_lines : List Chars → Images → Action P Images
  send_lines [] i = pure i
  send_lines (l ∷ ls) i =
      lift (directive_text (strip l)) >>= λ d. send_directive ser reads d i >>= λ j. send_lines ls j

  pub parse_stimulus_file : Chars → Action P (List Transfer)
  parse_stimulus_file text = send_lines (lines_of text) no_images >>= λ i. pure (transfers i)
