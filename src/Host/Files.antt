-- ===== src/Host/Files.antt =====
-- firmware&local/serial_host.py: the files that it reads, `_load_hex32` and the lines of `send_stim`.
pub mod RoundTrip
use axi_dma_engine.Base.{
  ℕ, zero, suc, ◌+◌, ◌>>=◌, ◌^◌, ◌≡◌, refl, ap, Bool, true, false, Option, none, some, List, [],
  ◌∷◌, ◌++◌, map, if◌then◌else◌, Result, ok, err, Action, pure, lift,
}
use axi_dma_engine.Base.Words.{mask}
use axi_dma_engine.Text.{
  Chars, codes, strip, split, ◌is◌, is_comment, lines_of, hex_literal, int_of, ℤ, natural, mask_int,
  ◌on_ok◌, pos, negsuc,
}
use axi_dma_engine.Golden.Scenario.{StimLine}
use axi_dma_engine.Host.{Serial, Bases, send_line}

-- The number of a line, none of a line of spaces.
abbrev pub hex_line : Chars → Result (Option ℕ)
hex_line [] = ok none
hex_line (c ∷ s) = int_of hex_literal (c ∷ s) on_ok λ w. ok (some (mask_int 32 w))

abbrev noted : Option ℕ → List ℕ → List ℕ
noted none ws = ws
noted (some w) ws = w ∷ ws

pub load_lines : List Chars → Result (List ℕ)
load_lines [] = ok []
load_lines (l ∷ ls) = hex_line (strip l) on_ok λ w. load_lines ls on_ok λ ws. ok (noted w ws)

pub load_hex32 : Chars → Result (List ℕ)
load_hex32 text = load_lines (lines_of text)

-- A 32-bit field of a packet takes a number modulo 2 ^ 32, so a negative one stands here as what is
-- sent for it.
abbrev wrapped : ℤ → ℕ
wrapped (pos n) = n
wrapped (negsuc n) = mask_int 32 (negsuc n)

-- Three words of a line, where the first is one of the commands. The offset of a CSR is 0 or above.
abbrev stim_command : Chars → ℤ → ℤ → Result (Option StimLine)
stim_command op addr v =
    if op is codes "sysmem_write"
    then ok (some (StimLine.sysmem_write (wrapped addr) (wrapped v)))
    else if op is codes "sram_write"
    then ok (some (StimLine.sram_write (wrapped addr) (wrapped v)))
    else if op is codes "csr_write"
    then natural addr on_ok (λ offset. ok (some (StimLine.csr_write offset (wrapped v))))
    else ok none

abbrev pub stim_words : List Chars → Result (Option StimLine)
stim_words (op ∷ a ∷ d ∷ []) =
    int_of hex_literal a on_ok λ addr. int_of hex_literal d on_ok λ v. stim_command op addr v
stim_words _ = ok none

-- What a line of the file asks for, if it does.
abbrev pub stim_text : Chars → Result (Option StimLine)
stim_text [] = ok none
stim_text (c ∷ s) = if is_comment (c ∷ s) then ok none else stim_words (split (c ∷ s))

module _ {P : Type 0} (ser : Serial P) (bases : Bases) (polls : ℕ) where
  -- One line, and the loop over those behind it.
  abbrev send_command : Option StimLine → Action P ℕ → Action P ℕ
  send_command none rest = rest
  send_command (some l) rest = do n ← send_line ser bases polls l; m ← rest; pure (n + m)

  -- The loop of `send_stim` over the lines of the file: a line that `int` refuses ends it after the
  -- lines before it were sent.
  unfoldable pub send_lines : List Chars → Action P ℕ
  send_lines [] = pure 0
  send_lines (l ∷ ls) = lift (stim_text (strip l)) >>= λ c. send_command c (send_lines ls)

  pub send_stim_file : Chars → Action P ℕ
  send_stim_file text = send_lines (lines_of text)
