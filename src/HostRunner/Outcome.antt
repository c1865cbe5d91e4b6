-- ===== src/HostRunner/Outcome.antt =====
-- firmware&local/host_runner.py's checks on the memories that run_scenario of sim/run_golden.py
-- returns.
use mathlib.Core.Path.{ap₂, subst, subst₂}
use axi_dma_engine.RingManager.Indices.{window}
use axi_dma_engine.Base.{
  ℕ, ◌+◌, ◌*◌, ◌^◌, ◌≤◌, ◌<◌, ◌≡◌, refl, ap, ◌∙◌, sym, true, false, List, [], ◌∷◌, length,
  length-map, map, arith, ok,
}
use axi_dma_engine.Descriptor.{Descriptor}
use axi_dma_engine.Golden.{System, max_iters}
use axi_dma_engine.Host.Mirror.{apply_rows-Synced, built-Synced}
use axi_dma_engine.Golden.Move.{smem}
use axi_dma_engine.Golden.Loop.{AllMovable, replay}
use axi_dma_engine.Golden.Scenario.{Outcome, run_scenario}
use axi_dma_engine.Golden.Load.{Datum, InRange}
use axi_dma_engine.Golden.Run.{
  scenario_rows, scenario_lines, set_up, set_up_lem, set_up_ring, scenario_replays,
}
use axi_dma_engine.Golden.Setup.{AreValid, built}
use axi_dma_engine.Golden.Apart.{Memories, AreApart, AllMoved, Wordy, steps, steps-AllMoved}
use axi_dma_engine.Golden.Clean.{AreClean, Sized, replay-steps, clean-AllFit}
use axi_dma_engine.Host.{Serial}
use axi_dma_engine.Host.Transfers.{fields, fields_of, Transfer, no_images, note_lines, transfers}
use axi_dma_engine.Host.Follows.{Follows}
use axi_dma_engine.Host.Expect.{run_scenario-Follows, transfers_scenario, scenario-AreFine}
use axi_dma_engine.Viz.{Region}
use axi_dma_engine.HostRunner.Session.{verify_dma_result}
use axi_dma_engine.HostRunner.FarSide.{IsDevice}
use axi_dma_engine.HostRunner.Verify.{AreSound, AreHeld, HaveArrived, verify_dma_result-passes}
use axi_dma_engine.HostRunner.Load.{held}
use axi_dma_engine.HostRunner.Predicted.{AreSized, Holds, transfers-HaveArrived}

-- A scenario in memories of `m` and `l` words: the words that it sets, a ring of `r` slots at word
-- `b`, and its descriptors, which lie at whole words, leave the ring alone and do not touch one
-- another's words.
pub record IsPlan (m l r b : ℕ) (xs : List Datum) (ds : List Descriptor) : Type 0 where
  pub some_slot : 0 < r
  pub ring_in : b + r * 4 ≤ m
  pub addressable : m ≤ 2 ^ 30
  pub some_sram : 0 < l
  pub in_range : InRange m l xs
  pub valid : AreValid ds
  pub room : length ds < r
  pub rounds : length ds < max_iters
  pub clean : AreClean m l r b ds
  pub apart : AreApart ds

Follows-Holds :
    (m l : ℕ) (mem : Region → ℕ → ℕ) (ml : Memories)
    → Follows m (mem Region.smem) ml.0
    → Follows l (mem Region.sram) ml.1
    → Holds m l mem ml
Follows-Holds m l mem ml v w true k _ = w.same k
Follows-Holds m l mem ml v w false k _ = v.same k

module _ (m l r b : ℕ) (xs : List Datum) (ds : List Descriptor) (v : IsPlan m l r b xs ds) where
  -- The memories that the event loop starts from: their sizes and words, and the ring's slots.
  abbrev ready : System
  ready = set_up m l r b xs ds

  abbrev first : Memories
  first = (smem ready, ready.sram.mem)

  start : Sized m l r b first × Wordy first × (window first.0 b r 0 (length ds) ≡ ds)
  start =
      let fine = scenario-AreFine r b xs ds (omega (arith, v.ring_in, v.addressable)) in
      let (ran, _, _, _) =
        set_up_lem m l r b xs ds v.some_slot v.ring_in v.addressable v.in_range v.valid v.room in
      let (_, slots) =
        set_up_ring m l r b xs ds v.some_slot v.ring_in v.addressable v.in_range v.valid v.room in
      let w =
        apply_rows-Synced m l (scenario_rows xs r b ds) no_images (built m l) ready
          (scenario_lines xs r b ds) fine (built-Synced m l) ran in
      (
        (w.smem_part.size, w.sram_part.size),
        elim [ true ↦ w.sram_part.words | false ↦ w.smem_part.words ],
        slots,
      )

  -- A scenario whose descriptors are of 32-bit words, lie at whole words, fit the memories and MID,
  -- leave the ring alone and do not touch one another's words, fewer than the ring has slots and
  -- than the loop has rounds, returns: its stimulus lines are those of the rows, and the words that
  -- each descriptor had at its source in the first memories are at its destination in the final
  -- ones, and still at its source.
  pub run_scenario-AllMoved :
      (o : Outcome) × (run_scenario (scenario_rows xs r b ds) m l ≡ ok o)
      × (o.stim_lines ≡ scenario_lines xs r b ds)
      × AllMoved ds (o.initial_smem, o.initial_sram) (o.final_smem, o.final_sram)
  run_scenario-AllMoved =
      let (sized, wordy, slots) = start in
      let (can, ends) = replay-steps m l r b ds 0 first v.clean sized v.some_slot slots in
      let (mid, _) =
        set_up_ring m l r b xs ds v.some_slot v.ring_in v.addressable v.in_range v.valid v.room in
      let can' : AllMovable r b ready.ring.golden.mid.queue_length (length ds) 0 (smem ready)
          ready.sram.mem =
        rw mid can in
      let (o, e, ran, _, _) =
        scenario_replays m l r b xs ds v.some_slot v.ring_in v.addressable v.in_range v.valid v.room
          v.some_sram v.rounds can' in
      let from : (o.initial_smem, o.initial_sram) ≡ first =
        ap₂ (λ x y. (x, y)) ran.smem_before ran.sram_before in
      let finals : (o.final_smem, o.final_sram) ≡ steps ds first =
        ap (λ x. (x.1, x.2)) ran.replayed
        ∙ ap
            (λ ml. ((replay r b (length ds) 0 ml.0 ml.1).1, (replay r b (length ds) 0 ml.0 ml.1).2))
            from
        ∙ ends in
      (
        o,
        e,
        ran.stimulus,
        subst₂ (AllMoved ds) (sym from) (sym finals)
            (steps-AllMoved ds first v.apart (clean-AllFit m l r b ds first v.clean sized) wordy),
      )

  moves :
      (o : Outcome)
      → run_scenario (scenario_rows xs r b ds) m l ≡ ok o
      → AllMoved ds (o.initial_smem, o.initial_sram) (o.final_smem, o.final_sram)
        × (o.stim_lines ≡ scenario_lines xs r b ds)
  moves o e =
      let (o', e', lines, moved) = run_scenario-AllMoved in
      let same : o' ≡ o = cc in
      subst
        (λ x.
          AllMoved ds (x.initial_smem, x.initial_sram) (x.final_smem, x.final_sram)
          × (x.stim_lines ≡ scenario_lines xs r b ds))
        same (moved, lines)

  -- What a scenario's transfers are to memories that hold its final words.
  arrived :
      (o : Outcome) (mem : Region → ℕ → ℕ) (words : Region → ℕ)
      → AreSized m l words
      → run_scenario (scenario_rows xs r b ds) m l ≡ ok o
      → Holds m l mem (o.final_smem, o.final_sram)
      → let ts = transfers (note_lines o.stim_lines no_images) in
        AreSound ts × AreHeld words ts × HaveArrived mem ts × (map fields ts ≡ map fields_of ds)
  arrived o mem words sized e k =
      let (all, lines) = moves o e in
      let i = note_lines o.stim_lines no_images in
      let fine = scenario-AreFine r b xs ds (omega (arith, v.ring_in, v.addressable)) in
      let (k0, w0) = run_scenario-Follows m l (scenario_rows xs r b ds) o fine e in
      let listed : map fields (transfers i) ≡ map fields_of ds =
        ap (λ x. map fields (transfers (note_lines x no_images))) lines
        ∙ transfers_scenario m l r b xs ds v.some_slot v.ring_in v.addressable v.in_range v.valid
            v.room in
      let both =
        transfers-HaveArrived m l r b i ds mem (o.initial_smem, o.initial_sram)
          (o.final_smem, o.final_sram) words sized listed v.clean v.valid
          (Follows-Holds m l (held i) (o.initial_smem, o.initial_sram) k0 w0) k all in
      (both.0, both.1, both.2, listed)

  module _ {P : Type 0} (ser : Serial P) (arriving : P → List ℕ) (crc32 : List ℕ → ℕ)
      (memory : P → Region → ℕ → ℕ) (d : IsDevice ser arriving crc32 memory) (reads : ℕ)
      (enough : d.longest + 4 ≤ reads) where
    -- For a scenario whose descriptors are of 32-bit words, lie at whole words, fit the memories and
    -- MID, leave the ring alone and do not touch one another's words, fewer than the ring has slots
    -- and than the loop has rounds, and at least one: when the far side serves the commands, with
    -- memories at least as large as the scenario's, is ready and holds the final words of the
    -- golden run's two memories, and there are reads for its longest text and a sync word,
    -- verify_dma_result on the transfers that were read from the run's stimulus returns True.
    pub verify_dma_result-scenario :
        (o : Outcome) (p : P)
        → 0 < length ds
        → AreSized m l d.words
        → run_scenario (scenario_rows xs r b ds) m l ≡ ok o
        → arriving p ≡ []
        → Holds m l (memory p) (o.final_smem, o.final_sram)
        → (verify_dma_result ser reads crc32 false
            (transfers (note_lines o.stim_lines no_images))
            p).0
          ≡ ok (true, [])
    verify_dma_result-scenario o p queued sized e quiet k =
        let (sound, inside, here, listed) = arrived o (memory p) d.words sized e k in
        passes (transfers (note_lines o.stim_lines no_images)) sound inside here
          (omega (arith, queued, ap length listed, length-map fields_of ds))
      where
        passes :
            (ts : List Transfer)
            → AreSound ts
            → AreHeld d.words ts
            → HaveArrived (memory p) ts
            → 0 < length (map fields ts)
            → (verify_dma_result ser reads crc32 false ts p).0 ≡ ok (true, [])
        passes [] s i h z = absurd (omega arith)
        passes (t ∷ ts) s i h z =
            verify_dma_result-passes ser arriving crc32 memory d reads enough (memory p) t ts p s i
              (quiet, refl) h
