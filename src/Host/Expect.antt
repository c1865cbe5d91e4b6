-- ===== src/Host/Expect.antt =====
-- firmware&local/host_runner.py behind sim/run_golden.py: what parse_stimulus reads out of the
-- stimulus of a scenario that run_scenario has run.
use axi_dma_engine.Base.{
  ℕ, ◌+◌, ◌*◌, ◌^◌, ◌≤◌, ◌<◌, ◌≡◌, refl, ap, ◌∙◌, List, [], ◌∷◌, ◌++◌, length, map, arith, ok, err,
  Result,
}
use axi_dma_engine.Descriptor.{Descriptor}
use axi_dma_engine.Golden.{System}
use axi_dma_engine.Golden.Move.{smem}
use axi_dma_engine.Golden.Scenario.{
  Row, StimLine, Outcome, apply_rows, build, run_rows, run_scenario,
}
use axi_dma_engine.Golden.Load.{Datum, data_row, InRange}
use axi_dma_engine.Golden.Run.{scenario_rows, scenario_lines, set_up, set_up_lem}
use axi_dma_engine.Golden.Setup.{desc_row, AreValid, ring_rows, built, build_inv}
use axi_dma_engine.Host.Transfers.{
  Mirrors, transfers, fields, fields_of, fields-transfers, no_images, note_lines,
}
use axi_dma_engine.Host.Follows.{Follows, AreFine}
use axi_dma_engine.Host.Mirror.{apply_rows-Synced, built-Synced}

run_rows_inv :
    (m l : ℕ) (rows : List Row) (s : System) (o : Outcome) (out : Result (List StimLine) × System)
    → apply_rows m l rows s ≡ out
    → (run_rows m l rows s).0 ≡ ok o
    → (out.0 ≡ ok o.stim_lines) × (o.initial_smem ≡ smem out.1) × (o.initial_sram ≡ out.1.sram.mem)
unfolding run_rows
run_rows_inv m l rows s o (ok lines, t) q e = ground (arith, q, e)
run_rows_inv m l rows s o (err x, t) q e = absurd (ground (arith, q, e))

-- The scenario that returned, split into its rows.
run_scenario_inv :
    (m l : ℕ) (rows : List Row) (o : Outcome) (b : Result System)
    → (build m l tt).0 ≡ b
    → run_scenario rows m l ≡ ok o
    → (run_rows m l rows (built m l)).0 ≡ ok o
unfolding run_scenario
run_scenario_inv m l rows o (ok s) q e = rw (← build_inv m l s q) (ground (arith, q, e))
run_scenario_inv m l rows o (err x) q e = absurd (ground (arith, q, e))

-- What a scenario that returned has read before its event loop.
pub set_up_inv :
    (m l : ℕ) (rows : List Row) (o : Outcome)
    → run_scenario rows m l ≡ ok o
    → (t : System) × (apply_rows m l rows (built m l) ≡ (ok o.stim_lines, t))
      × (o.initial_smem ≡ smem t)
      × (o.initial_sram ≡ t.sram.mem)
set_up_inv m l rows o e =
    let out = apply_rows m l rows (built m l) in
    let (e1, e2, e3) =
      run_rows_inv m l rows (built m l) o out refl
        (run_scenario_inv m l rows o (build m l tt).0 refl e) in
    (out.1, ap (λ k. (k, out.1)) e1, e2, e3)

-- When a scenario returns, whose ring is placed at whole words with at most 2 ^ 28 slots, the
-- dictionaries that parse_stimulus builds of its stimulus hold the two memories that the golden
-- run has started from, each word at its byte address, and 0 past their ends.
pub run_scenario-Follows :
    (m l : ℕ) (rows : List Row) (o : Outcome)
    → AreFine rows
    → run_scenario rows m l ≡ ok o
    → let i = note_lines o.stim_lines no_images in
      Follows m i.sysmem_image o.initial_smem × Follows l i.sram_image o.initial_sram
run_scenario-Follows m l rows o fine e =
    let (t, ran, e2, e3) = set_up_inv m l rows o e in
    let v =
      apply_rows-Synced m l rows no_images (built m l) t o.stim_lines fine (built-Synced m l) ran in
    rw (e2, e3) (v.smem_part, v.sram_part)

AreFine-append : (xs ys : List Row) → AreFine xs → AreFine ys → AreFine (xs ++ ys)
AreFine-append [] ys h k = k
AreFine-append (x ∷ xs) ys h k = (h.0, AreFine-append xs ys h.1 k)

data_row-AreFine : (xs : List Datum) → AreFine (map data_row xs)
data_row-AreFine [] = tt
data_row-AreFine (Datum.in_smem w v ∷ xs) = (tt, data_row-AreFine xs)
data_row-AreFine (Datum.in_sram w v ∷ xs) = (tt, data_row-AreFine xs)

desc_row-AreFine : (ds : List Descriptor) → AreFine (map desc_row ds ++ Row.enable ∷ [])
desc_row-AreFine [] = (tt, tt)
desc_row-AreFine (d ∷ ds) = (tt, desc_row-AreFine ds)

pub scenario-AreFine :
    (r b : ℕ) (xs : List Datum) (ds : List Descriptor)
    → r ≤ 2 ^ 28
    → AreFine (scenario_rows xs r b ds)
scenario-AreFine r b xs ds h =
    AreFine-append (map data_row xs) (ring_rows r b ++ (map desc_row ds ++ Row.enable ∷ []))
      (data_row-AreFine xs) (omega arith, (h, desc_row-AreFine ds))

module _ (m l r b : ℕ) (xs : List Datum) (ds : List Descriptor) where
  -- On the stimulus of a scenario that fills memories, places a ring inside the system memory and
  -- queues descriptors of 32-bit words, fewer than the ring has slots, parse_stimulus lists these
  -- descriptors and no others, in the scenario's order, with their addresses, beat counts and
  -- directions.
  pub transfers_scenario :
      0 < r
      → b + r * 4 ≤ m
      → m ≤ 2 ^ 30
      → InRange m l xs
      → AreValid ds
      → length ds < r
      → map fields (transfers (note_lines (scenario_lines xs r b ds) no_images)) ≡ map fields_of ds
  transfers_scenario some_slot fits addressable in_range valid room =
      let t = set_up m l r b xs ds in
      let i = note_lines (scenario_lines xs r b ds) no_images in
      let (e, ready, queued, head) =
        set_up_lem m l r b xs ds some_slot fits addressable in_range valid room in
      let fine = scenario-AreFine r b xs ds (omega arith) in
      let v =
        apply_rows-Synced m l (scenario_rows xs r b ds) no_images (built m l) t
          (scenario_lines xs r b ds) fine (built-Synced m l) e in
      let mirrors : Mirrors i t.ring = record {
        same_words = v.smem_part.same;
        words = v.smem_part.words;
        same_base = v.ring_part.same_base;
        same_tail = v.ring_part.same_tail;
      } in
      fields-transfers i t.ring mirrors r b ready.ring_valid head ∙ ap (map fields_of) queued
