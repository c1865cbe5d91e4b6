-- ===== src/Golden/Run.antt =====
-- sim/run_golden.py: run_scenario on a scenario that fills the memories, places the ring, queues
-- descriptors and enables the engine.
use Prim.Native.Nat.{bit_or}
use mathlib.Core.List.{append-nil}
use mathlib.Core.Path.{subst}
use axi_dma_engine.Base.{
  ℕ, true, ◌+◌, ◌*◌, ◌%◌, ◌^◌, ◌≤◌, ◌<◌, ◌≡◌, refl, ap, ◌∙◌, sym, List, [], ◌∷◌, ◌++◌, length,
  replicate, length-replicate, map, arith, ok,
}
use axi_dma_engine.Base.Words.Bits.{bit_or-pow}
use axi_dma_engine.Csr
use axi_dma_engine.Descriptor.{Descriptor}
use axi_dma_engine.RingManager.Indices.{window}
use axi_dma_engine.RingManager.Refine.{pending, count, length-pending}
use axi_dma_engine.Golden.{System, mid_depth, event_loop, max_iters}
use axi_dma_engine.Golden.Move.{smem, with_memories}
use axi_dma_engine.Golden.Loop.{IsReady, AllMovable, Replayed, replay, spec_of, event_loop_replays}
use axi_dma_engine.Golden.Scenario.{
  Row, StimLine, Outcome, apply_row, apply_rows, run_enabled, run_rows, run_scenario,
}
use axi_dma_engine.Golden.Setup.{
  desc_row, AreValid, ring_lines, Enqueued, ring_rows, place_lines, built, placed, build_lem,
  place_lem, placed-IsReady, placed_empty, apply_rows-enqueues,
}
use axi_dma_engine.Golden.Load.{
  Datum, data_row, data_line, loaded, length-loaded, InRange, apply_rows-append, apply_rows_data,
}

-- the rows of a scenario: the words of the memories, the ring, the descriptors, the enable row
abbrev pub scenario_rows : List Datum → ℕ → ℕ → List Descriptor → List Row
scenario_rows xs r b ds = map data_row xs ++ (ring_rows r b ++ (map desc_row ds ++ Row.enable ∷ []))

abbrev pub scenario_lines : List Datum → ℕ → ℕ → List Descriptor → List StimLine
scenario_lines xs r b ds = map data_line xs ++ (place_lines r b ++ ring_lines r b 0 ds)

-- CTRL after the enable row
abbrev enabled : System → System
enabled s = record s {
  ring = record (s.ring) {
    csr = Csr.put Csr.reg_ctrl (bit_or (bit_or (s.ring.csr.regs Csr.reg_ctrl) 1) 4 % 8) s.ring.csr;
  };
}

enabled-IsReady : (r b : ℕ) (s : System) → IsReady r b s → IsReady r b (enabled s)
enabled-IsReady r b s v = ground arith

enabled_lem : (s : System) → Csr.is_enabled (enabled s).ring.csr ≡ true
unfolding Csr.is_enabled
enabled_lem s =
    let c = s.ring.csr.regs Csr.reg_ctrl in
    ground (arith, bit_or-pow 0 c, bit_or-pow 2 (bit_or c 1))

apply_enable : (m l : ℕ) (s : System) → apply_rows m l (Row.enable ∷ []) s ≡ (ok [], enabled s)
unfolding apply_rows apply_row Csr.write Csr.read
apply_enable m l s = ground arith

-- What run_scenario returns from the state that its rows have set up.
pub record Ran (r b n : ℕ) (lines : List StimLine) (s : System) (o : Outcome) : Type 0 where
  pub stimulus : o.stim_lines ≡ lines
  pub smem_before : o.initial_smem ≡ smem s
  pub sram_before : o.initial_sram ≡ s.sram.mem
  pub replayed :
      (o.descs_fetched, o.final_smem, o.final_sram) ≡ replay r b n 0 o.initial_smem o.initial_sram

-- Any rows that leave a ready and enabled system with the head at slot 0.
run_rows_lem :
    (m l r b : ℕ) (rows : List Row) (s t : System) (lines : List StimLine)
    → apply_rows m l rows s ≡ (ok lines, t)
    → Csr.is_enabled t.ring.csr ≡ true
    → t.ring.csr.regs Csr.reg_head ≡ 0
    → Replayed r b t (spec_of r b (length (pending r b t.ring)) t) (event_loop max_iters t)
    → (o : Outcome) × ((run_rows m l rows s).0 ≡ ok o)
      × Ran r b (length (pending r b t.ring)) lines t o
unfolding run_rows run_enabled
run_rows_lem m l r b rows s t lines e on head v =
    let out = event_loop max_iters t in
    let spec = spec_of r b (length (pending r b t.ring)) t in
    (
      record {
        stim_lines = lines;
        initial_smem = smem t;
        final_smem = spec.1;
        initial_sram = t.sram.mem;
        final_sram = spec.2;
        descs_fetched = spec.0;
      },
      ground (arith, e, on, v.returned, v.final_smem, v.final_sram),
      record {
        stimulus = refl;
        smem_before = refl;
        sram_before = refl;
        replayed = ground (arith, head);
      },
    )

module _ (m l r b : ℕ) (xs : List Datum) (ds : List Descriptor) where
  -- the system that the rows set up
  abbrev pub set_up : System
  set_up = (apply_rows m l (scenario_rows xs r b ds) (built m l)).1

  module _ (some_slot : 0 < r) (fits : b + r * 4 ≤ m) (addressable : m ≤ 2 ^ 30)
      (in_range : InRange m l xs) (valid : AreValid ds) (room : length ds < r) where
    abbrev ml : List ℕ × List ℕ
    ml = loaded xs (replicate m 0, replicate l 0)

    abbrev ready : System
    ready = placed r b (with_memories ml (built m l))

    sized : length ml.0 ≡ m
    sized = (length-loaded xs (replicate m 0, replicate l 0)).0 ∙ length-replicate m 0

    queued : Enqueued r b ds ready (apply_rows m l (map desc_row ds) ready)
    queued =
        apply_rows-enqueues m l r b ds ready valid
          (placed-IsReady m l r b some_slot fits addressable ml sized)
          (omega (arith, ap length (placed_empty m l r b some_slot fits addressable ml)))

    abbrev after_descs : System
    after_descs = (apply_rows m l (map desc_row ds) ready).1

    rows_lem :
        apply_rows m l (scenario_rows xs r b ds) (built m l)
        ≡ (ok (scenario_lines xs r b ds), enabled after_descs)
    rows_lem =
        apply_rows-append m l (map data_row xs)
          (ring_rows r b ++ (map desc_row ds ++ Row.enable ∷ [])) (built m l)
          (with_memories ml (built m l)) (enabled after_descs) (map data_line xs)
          (place_lines r b ++ ring_lines r b 0 ds) (apply_rows_data m l xs (built m l) in_range)
          (apply_rows-append m l (ring_rows r b) (map desc_row ds ++ Row.enable ∷ [])
            (with_memories ml (built m l)) ready (enabled after_descs) (place_lines r b)
            (ring_lines r b 0 ds)
            (place_lem m l r b some_slot fits addressable (with_memories ml (built m l)))
            (apply_rows-append m l (map desc_row ds) (Row.enable ∷ []) ready after_descs
                (enabled after_descs) (ring_lines r b 0 ds) []
                (ap (λ x. (x, after_descs)) queued.lines) (apply_enable m l after_descs)
              ∙ ap (λ k. (ok k, enabled after_descs)) (append-nil (ring_lines r b 0 ds))))

    abbrev final : System
    final = enabled after_descs

    final_pending : pending r b final.ring ≡ ds
    final_pending =
        queued.queued ∙ ap (λ q. q ++ ds) (placed_empty m l r b some_slot fits addressable ml)

    final-window : window (smem final) b r 0 (length ds) ≡ ds
    final-window =
        let cnt : count r final.ring ≡ length ds =
          sym (length-pending r b after_descs.ring queued.ready.ring_valid)
          ∙ ap length final_pending in
        rw (← queued.same_head, ← cnt) final_pending

    pub set_up_lem :
        (apply_rows m l (scenario_rows xs r b ds) (built m l)
          ≡ (ok (scenario_lines xs r b ds), set_up))
        × IsReady r b set_up
        × (pending r b set_up.ring ≡ ds)
        × (set_up.ring.csr.regs Csr.reg_head ≡ 0)
    set_up_lem =
        let same : set_up ≡ final = ap (λ x. x.1) rows_lem in
        (
          rows_lem ∙ ap (λ t. (ok (scenario_lines xs r b ds), t)) (sym same),
          subst (λ t. IsReady r b t) (sym same) (enabled-IsReady r b after_descs queued.ready),
          ap (λ t. pending r b t.ring) same ∙ final_pending,
          ap (λ t. t.ring.csr.regs Csr.reg_head) same ∙ queued.same_head,
        )

    -- MID, and the descriptors in the ring's slots.
    pub set_up_ring :
        (set_up.ring.golden.mid.queue_length ≡ mid_depth)
        × (window (smem set_up) b r 0 (length ds) ≡ ds)
    set_up_ring =
        let same : final ≡ set_up = sym (ap (λ x. x.1) rows_lem) in
        (
          ap (λ t. t.ring.golden.mid.queue_length) (sym same)
              ∙ ap (λ q. q.queue_length) queued.same_mid,
          ap (λ t. window (smem t) b r 0 (length ds)) (sym same) ∙ final-window,
        )

    -- A scenario that fills memories, places a ring inside the system memory, queues fewer than 1000
    -- descriptors of 32-bit words, fewer than the ring has slots, and enables the engine, returns an
    -- outcome if each descriptor can be moved when its turn comes: the stimulus lines are those of
    -- the rows, the first memories are those that the rows set up, with the descriptors in the ring's
    -- slots, and the descriptors fetched and the final memories are those of the replay of the ring
    -- on the first memories.
    pub scenario_replays :
        0 < l
        → length ds < max_iters
        → AllMovable r b set_up.ring.golden.mid.queue_length
            (length ds)
            0
            (smem set_up)
            set_up.sram.mem
        → (o : Outcome) × (run_scenario (scenario_rows xs r b ds) m l ≡ ok o)
          × Ran r b (length ds) (scenario_lines xs r b ds) set_up o
          × (window o.initial_smem b r 0 (length ds) ≡ ds)
          × (o.initial_sram ≡ ml.1)
    unfolding run_scenario
    scenario_replays hl rounds can =
        let same : set_up ≡ final = ap (λ x. x.1) rows_lem in
        let n : length (pending r b final.ring) ≡ length ds = ap length final_pending in
        let head : final.ring.csr.regs Csr.reg_head ≡ 0 = queued.same_head in
        let can' : AllMovable r b final.ring.golden.mid.queue_length
            (length (pending r b final.ring)) (final.ring.csr.regs Csr.reg_head) (smem final)
            final.sram.mem =
          rw (n, head)
            (subst
              (λ t. AllMovable r b t.ring.golden.mid.queue_length (length ds) 0 (smem t) t.sram.mem)
              same can) in
        let loop =
          event_loop_replays r b max_iters final (enabled-IsReady r b after_descs queued.ready)
            (omega arith) can' in
        let (o, e, w) =
          run_rows_lem m l r b (scenario_rows xs r b ds) (built m l) final
            (scenario_lines xs r b ds) rows_lem (enabled_lem after_descs) head loop in
        (
          o,
          ground (arith, e, build_lem m l (omega arith) hl),
          subst (λ t. Ran r b (length ds) (scenario_lines xs r b ds) t o) (sym same)
              (subst (λ k. Ran r b k (scenario_lines xs r b ds) final o) n w),
          rw (w.smem_before) final-window,
          w.sram_before ∙ ap (λ x. x.mem) queued.same_sram,
        )
