-- ===== src/HostRunner/Within.antt =====
-- firmware&local/host_runner.py behind sim/run_golden.py: where the lines of a scenario write.
use axi_dma_engine.Base.{ℕ, ◌*◌, ◌≤◌, ◌<◌, ◌≡◌, refl, inl, inr, List, [], ◌∷◌, ◌++◌, arith, ok}
use axi_dma_engine.Base.Words.{mask}
use axi_dma_engine.Csr
use axi_dma_engine.Golden.{System}
use axi_dma_engine.Golden.Scenario.{
  Row, StimLine, Outcome, apply_row, apply_rows, apply_desc, run_scenario,
}
use axi_dma_engine.Golden.Load.{apply_rows-cons_inv}
use axi_dma_engine.Golden.Setup.{built}
use axi_dma_engine.Host.Transfers.{Images, no_images, note_lines}
use axi_dma_engine.Host.Follows.{Synced, AreFine}
use axi_dma_engine.Host.Mirror.{desc_row_inv, apply_row-Synced, built-Synced}
use axi_dma_engine.Host.Expect.{set_up_inv}
use axi_dma_engine.HostRunner.Load.{AreInside}
use axi_dma_engine.Viz.{Region}

AreInside-append :
    (words : Region → ℕ) (xs ys : List StimLine)
    → AreInside words xs
    → AreInside words ys
    → AreInside words (xs ++ ys)
AreInside-append words [] ys h k = k
AreInside-append words (x ∷ xs) ys h k = (h.0, AreInside-append words xs ys h.1 k)

module _ (m l : ℕ) (words : Region → ℕ) (hm : m ≤ words Region.smem)
    (hl : l ≤ words Region.sram) where
  smem_row :
      (w x : ℕ) (s t : System) (lines : List StimLine)
      → apply_row m l (Row.smem w x) s ≡ (ok lines, t)
      → AreInside words lines
  unfolding apply_row
  smem_row w x s t lines e =
      let inv : (w < m) × (lines ≡ StimLine.sysmem_write (w * 4) (mask 32 x) ∷ []) =
        ground (arith, e) in
      rw (inv.1) ((omega arith, omega (arith, inv.0, hm)), tt)

  sram_row :
      (w x : ℕ) (s t : System) (lines : List StimLine)
      → apply_row m l (Row.sram w x) s ≡ (ok lines, t)
      → AreInside words lines
  unfolding apply_row
  sram_row w x s t lines e =
      let inv : (w < l) × (lines ≡ StimLine.sram_write (w * 4) (mask 32 x) ∷ []) =
        ground (arith, e) in
      rw (inv.1) ((omega arith, omega (arith, inv.0, hl)), tt)

  desc_row :
      (i : Images) (a b c d : ℕ) (s t : System) (lines : List StimLine)
      → Synced m l i s
      → apply_desc a b c d s ≡ (ok lines, t)
      → AreInside words lines
  desc_row i a b c d s t lines v e =
      let (e1, e2, fits) = desc_row_inv m l i a b c d s t lines v e in
      rw e2 (
        (omega arith, omega (arith, fits, hm)),
        (
          (omega arith, omega (arith, fits, hm)),
          (
            (omega arith, omega (arith, fits, hm)),
            ((omega arith, omega (arith, fits, hm)), (inr (inr refl), tt)),
          ),
        ),
      )

  row-AreInside :
      (row : Row) (i : Images) (s t : System) (lines : List StimLine)
      → Synced m l i s
      → apply_row m l row s ≡ (ok lines, t)
      → AreInside words lines
  unfolding apply_row Csr.read Csr.write
  row-AreInside Row.blank i s t lines v e = ground (arith, e)
  row-AreInside Row.enable i s t lines v e = ground (arith, e)
  row-AreInside (Row.smem w x) i s t lines v e = smem_row w x s t lines e
  row-AreInside (Row.sram w x) i s t lines v e = sram_row w x s t lines e
  row-AreInside (Row.csr_baseaddr a) i s t lines v e =
      let inv : lines ≡ StimLine.csr_write Csr.reg_baseaddr (mask 32 a) ∷ [] = ground (arith, e) in
      rw inv (inl refl, tt)
  row-AreInside (Row.csr_ringlen n) i s t lines v e =
      let inv : lines ≡ StimLine.csr_write Csr.reg_ringlen n ∷ [] = ground (arith, e) in
      rw inv (inr (inl refl), tt)
  row-AreInside (Row.desc a b c d) i s t lines v e = desc_row i a b c d s t lines v e
  row-AreInside Row.other i s t lines v e = absurd (ground (arith, e))

  rows-AreInside :
      (rows : List Row) (i : Images) (s t : System) (lines : List StimLine)
      → AreFine rows
      → Synced m l i s
      → apply_rows m l rows s ≡ (ok lines, t)
      → AreInside words lines
  unfolding apply_rows
  rows-AreInside [] i s t lines h v e = ground (arith, e)
  rows-AreInside (row ∷ rows) i s t lines h v e =
      let (s1, here, rest, e1, e2, e3) = apply_rows-cons_inv m l row rows s t lines e in
      let v1 = apply_row-Synced m l row i s s1 here h.0 v e1 in
      rw e3 (
        AreInside-append words here rest (row-AreInside row i s s1 here v e1)
          (rows-AreInside rows (note_lines here i) s1 t rest h.1 v1 e2))

-- The stimulus of a scenario that has returned, with the ring at a whole word and at most 2 ^ 28
-- slots, writes whole words inside memories that are at least as large as the scenario's, and the
-- registers BASEADDR, RINGLEN and TAIL.
pub run_scenario-AreInside :
    (m l : ℕ) (words : Region → ℕ) (rows : List Row) (o : Outcome)
    → m ≤ words Region.smem
    → l ≤ words Region.sram
    → AreFine rows
    → run_scenario rows m l ≡ ok o
    → AreInside words o.stim_lines
run_scenario-AreInside m l words rows o hm hl fine e =
    let (t, ran, _, _) = set_up_inv m l rows o e in
    rows-AreInside m l words hm hl rows no_images (built m l) t o.stim_lines fine (built-Synced m l)
      ran
