-- ===== src/Golden/Load.antt =====
-- sim/run_golden.py: the rows of a scenario that write words of the two memories, and rows in
-- sequence.
use mathlib.Core.List.{append_assoc}
use axi_dma_engine.Base.{
  ℕ, ◌*◌, ◌<◌, ◌≡◌, refl, ap, sym, ◌>>=◌, >>=-eq_ok, pure, ◌∙◌, List, [], ◌∷◌, ◌++◌, length,
  length-set, set, map, arith, ok,
}
use axi_dma_engine.Base.Words.{mask}
use axi_dma_engine.Golden.{System}
use axi_dma_engine.Golden.Move.{smem, with_memories}
use axi_dma_engine.Golden.Scenario.{Row, StimLine, apply_row, apply_rows}

-- a word of one of the memories
pub data Datum : Type 0 where
  in_smem in_sram : ℕ → ℕ → Datum

abbrev pub data_row : Datum → Row
data_row (Datum.in_smem i v) = Row.smem i v
data_row (Datum.in_sram i v) = Row.sram i v

abbrev pub data_line : Datum → StimLine
data_line (Datum.in_smem i v) = StimLine.sysmem_write (i * 4) (mask 32 v)
data_line (Datum.in_sram i v) = StimLine.sram_write (i * 4) (mask 32 v)

-- The two memories with the words written, the first one first.
abbrev pub loaded : List Datum → List ℕ × List ℕ → List ℕ × List ℕ
loaded [] ml = ml
loaded (Datum.in_smem i v ∷ xs) ml = loaded xs (set ml.0 i (mask 32 v), ml.1)
loaded (Datum.in_sram i v ∷ xs) ml = loaded xs (ml.0, set ml.1 i (mask 32 v))

pub length-loaded :
    (xs : List Datum) (ml : List ℕ × List ℕ)
    → (length (loaded xs ml).0 ≡ length ml.0) × (length (loaded xs ml).1 ≡ length ml.1)
length-loaded [] ml = (refl, refl)
length-loaded (Datum.in_smem i v ∷ xs) ml =
    let ih = length-loaded xs (set ml.0 i (mask 32 v), ml.1) in
    (ih.0 ∙ length-set ml.0 i (mask 32 v), ih.1)
length-loaded (Datum.in_sram i v ∷ xs) ml =
    let ih = length-loaded xs (ml.0, set ml.1 i (mask 32 v)) in
    (ih.0, ih.1 ∙ length-set ml.1 i (mask 32 v))

-- Every word lies in its memory, of `m` and `l` words.
abbrev pub InRange : ℕ → ℕ → List Datum → Type 0
InRange m l [] = Unit {0}
InRange m l (Datum.in_smem i v ∷ xs) = (i < m) × InRange m l xs
InRange m l (Datum.in_sram i v ∷ xs) = (i < l) × InRange m l xs

module _ (m l : ℕ) where
  -- One row in front.
  apply_rows-cons :
      (row : Row) (rows : List Row) (s s1 s2 : System) (lines rest : List StimLine)
      → apply_row m l row s ≡ (ok lines, s1)
      → apply_rows m l rows s1 ≡ (ok rest, s2)
      → apply_rows m l (row ∷ rows) s ≡ (ok (lines ++ rest), s2)
  unfolding apply_rows
  apply_rows-cons row rows s s1 s2 lines rest e1 e2 = ground (arith, e1, e2)

  -- Rows that returned: so did the first.
  pub apply_rows-cons_inv :
      (row : Row) (rows : List Row) (s t : System) (lines : List StimLine)
      → apply_rows m l (row ∷ rows) s ≡ (ok lines, t)
      → (s1 : System) × (here : List StimLine) × (rest : List StimLine) × (apply_row m l row s
          ≡ (ok here, s1))
        × (apply_rows m l rows s1 ≡ (ok rest, t))
        × (lines ≡ here ++ rest)
  unfolding apply_rows
  apply_rows-cons_inv row rows s t lines e =
      let (here, s1, e1, e2) =
        >>=-eq_ok (apply_row m l row s)
          (λ here. apply_rows m l rows >>= λ rest. pure (here ++ rest)) e in
      let (rest, s2, e3, e4) =
        >>=-eq_ok (apply_rows m l rows s1) (λ rest. pure (here ++ rest)) e2 in
      (s1, here, rest, e1, ground (arith, e3, e4), ground (arith, e4))

  pub apply_rows-append :
      (xs ys : List Row) (s s1 s2 : System) (lines rest : List StimLine)
      → apply_rows m l xs s ≡ (ok lines, s1)
      → apply_rows m l ys s1 ≡ (ok rest, s2)
      → apply_rows m l (xs ++ ys) s ≡ (ok (lines ++ rest), s2)
  unfolding apply_rows
  apply_rows-append [] ys s s1 s2 lines rest e1 e2 = ground (arith, e1, e2)
  apply_rows-append (x ∷ xs) ys s s1 s2 lines rest e1 e2 =
      let (t, here, more, h1, h2, h3) = apply_rows-cons_inv x xs s s1 lines e1 in
      apply_rows-cons x (xs ++ ys) s t s2 here (more ++ rest) h1
        (apply_rows-append xs ys t s1 s2 more rest h2 e2)
      ∙ ap (λ k. (ok k, s2)) (sym (append_assoc here more rest) ∙ ap (λ k. k ++ rest) (sym h3))

  pub apply_rows_data :
      (xs : List Datum) (s : System)
      → InRange m l xs
      → apply_rows m l (map data_row xs) s
        ≡ (ok (map data_line xs), with_memories (loaded xs (smem s, s.sram.mem)) s)
  unfolding apply_rows apply_row
  apply_rows_data [] s h = refl
  apply_rows_data (Datum.in_smem i v ∷ xs) s h =
      let ml : List ℕ × List ℕ = (set (smem s) i (mask 32 v), s.sram.mem) in
      ground (arith, apply_rows_data xs (with_memories ml s) h.1)
  apply_rows_data (Datum.in_sram i v ∷ xs) s h =
      let ml : List ℕ × List ℕ = (smem s, set s.sram.mem i (mask 32 v)) in
      ground (arith, apply_rows_data xs (with_memories ml s) h.1)
