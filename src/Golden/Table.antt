-- ===== src/Golden/Table.antt =====
-- sim/run_golden.py: `_parse_row` and the conversions of `run_scenario` on the cells of a row, as
-- csv.reader returns them, and `run_scenario` and `main` on the cells of a whole file.
use axi_dma_engine.Base.{
  ℕ, zero, suc, ◌≡◌, refl, ap, Option, none, some, List, [], ◌∷◌, ◌++◌, map, if◌then◌else◌, ◌||◌,
  Result, ok, err, Action, pure, lift, ◌>>=◌, index_error,
}
use axi_dma_engine.Text.{
  Chars, codes, strip, lower, ◌is◌, is_comment, dec_literal, hex_literal, any_literal, int_of, ℤ,
  pos, negsuc, natural, mask_int, ◌on_ok◌,
}
use axi_dma_engine.Memory.{bram_size}
use axi_dma_engine.Golden.{System, smem_words}
use axi_dma_engine.Golden.Scenario.{
  Row, StimLine, Outcome, apply_row, apply_rows, build, run_with, run_rows, run_scenario,
}
use axi_dma_engine.Golden.Files.{Artifacts, artifacts}

-- The operation and the arguments of a row, none for a row that is passed over.
abbrev parse_op : Chars → List Chars → Option (Chars × List Chars)
parse_op [] cells = none
parse_op (c ∷ raw) cells =
    if is_comment (c ∷ raw) || lower (c ∷ raw) is codes "op"
    then none
    else some (lower (c ∷ raw), map strip cells)

abbrev parse_row : List Chars → Option (Chars × List Chars)
parse_row [] = none
parse_row (cell ∷ cells) = parse_op (strip cell) cells

-- `args[i]`
abbrev arg : List Chars → ℕ → Result Chars
arg [] i = err index_error
arg (a ∷ args) zero = ok a
arg (a ∷ args) (suc i) = arg args i

-- A number that is used modulo 2 ^ 32 alone: a negative one stands as what it is then.
abbrev word_of : ℤ → ℕ
word_of (pos n) = n
word_of (negsuc n) = mask_int 32 (negsuc n)

abbrev hex_arg : List Chars → ℕ → Result ℕ
hex_arg args i = arg args i on_ok λ a. int_of hex_literal a on_ok λ n. ok (word_of n)

-- A memory's word, at an index of 0 or above.
abbrev memory_row : (ℕ → ℕ → Row) → List Chars → Result Row
memory_row row args = arg args 0 on_ok λ a.
    int_of dec_literal a on_ok λ n. hex_arg args 1 on_ok λ v. natural n on_ok λ wi. ok (row wi v)

abbrev ringlen_row : List Chars → Result Row
ringlen_row args = arg args 0 on_ok λ a.
    int_of any_literal a on_ok λ n. natural n on_ok λ r. ok (Row.csr_ringlen r)

abbrev desc_row : List Chars → Result Row
desc_row args = hex_arg args 0 on_ok λ w0. hex_arg args 1 on_ok λ w1.
    hex_arg args 2 on_ok λ w2. hex_arg args 3 on_ok λ w3. ok (Row.desc w0 w1 w2 w3)

-- The branches on `op`, up to their first effect.
abbrev row_of : Chars → List Chars → Result Row
row_of op args =
    if op is codes "smem"
    then memory_row Row.smem args
    else if op is codes "sram"
    then memory_row Row.sram args
    else if op is codes "csr_baseaddr"
    then hex_arg args 0 on_ok (λ addr. ok (Row.csr_baseaddr addr))
    else if op is codes "csr_ringlen"
    then ringlen_row args
    else if op is codes "desc"
    then desc_row args
    else if op is codes "enable"
    then ok Row.enable
    else ok Row.other

abbrev row_of_parsed : Option (Chars × List Chars) → Result Row
row_of_parsed none = ok Row.blank
row_of_parsed (some (op, args)) = row_of op args

unfoldable pub read_row : List Chars → Result Row
read_row cells = row_of_parsed (parse_row cells)

module _ (smem_words sram_words : ℕ) where
  -- The loop over the rows: a row that cannot be read ends it with the effects of the rows before.
  unfoldable apply_cells : List (List Chars) → Action System (List StimLine)
  apply_cells [] = pure []
  apply_cells (cells ∷ table) = lift (read_row cells) >>= λ row.
      apply_row smem_words sram_words row >>= λ lines.
      apply_cells table >>= λ rest. pure (lines ++ rest)

-- `run_scenario` on a table of cells
unfoldable pub run_table : List (List Chars) → ℕ → ℕ → Result Outcome
unfolding apply_cells
run_table table smem_words sram_words = elim (build smem_words sram_words tt).0 [
  | ok sys ↦ (run_with (apply_cells smem_words sram_words table) sys).0
  | err e ↦ err e
]

-- `main`, between reading the table and writing the files
unfoldable pub main : Chars → List (List Chars) → Result Artifacts
main source table = run_table table smem_words bram_size on_ok λ o. ok (artifacts source o)

-- what the rows are read as, if all can be read
unfoldable pub read_rows : List (List Chars) → Result (List Row)
read_rows [] = ok []
read_rows (cells ∷ table) = read_row cells on_ok λ r. read_rows table on_ok λ rs. ok (r ∷ rs)

on_ok-eq_ok :
    {A B : Type 0} (r : Result A) (f : A → Result B) {b : B}
    → (r on_ok f) ≡ ok b
    → (a : A) × (r ≡ ok a) × (f a ≡ ok b)
on_ok-eq_ok (ok a) f h = (a, refl, h)
on_ok-eq_ok (err e) f h = cc

ok_injective : {A : Type 0} {x y : A} → ◌≡◌ {A = Result A} (ok x) (ok y) → x ≡ y
ok_injective h = cc

apply_cells_lem :
    (m l : ℕ) (table : List (List Chars)) {rows : List Row}
    → read_rows table ≡ ok rows
    → apply_cells m l table ≡ apply_rows m l rows
unfolding apply_cells apply_rows read_rows
apply_cells_lem m l [] h = ap (apply_rows m l) (ok_injective h)
apply_cells_lem m l (cells ∷ table) h =
    let (row, e1, h1) = on_ok-eq_ok (read_row cells) _ h in
    let (rest, e2, h2) = on_ok-eq_ok (read_rows table) _ h1 in
    rw (← ok_injective h2, e1, apply_cells_lem m l table e2) refl

-- A table whose rows can all be read runs as the scenario of these rows.
pub run_table-run_scenario :
    (table : List (List Chars)) (rows : List Row) (m l : ℕ)
    → read_rows table ≡ ok rows
    → run_table table m l ≡ run_scenario rows m l
unfolding run_table run_scenario run_rows
run_table-run_scenario table rows m l h =
    ap
      (λ (k : Action System (List StimLine)). elim (build m l tt).0 [
        | ok sys ↦ (run_with k sys).0
        | err e ↦ err e
      ])
      (apply_cells_lem m l table h)
