-- ===== src/Golden/Setup.antt =====
-- sim/run_golden.py: the descriptor rows of a scenario, which set the ring up for the event loop.
use native.Mathlib.Nat.{mod-eq_of_lt}
use mathlib.Core.List.{append_assoc, append-nil}
use axi_dma_engine.Base.{
  ℕ, ◌+◌, ◌*◌, ◌%◌, ◌^◌, ◌≤◌, ◌<◌, ◌≡◌, refl, ap, ◌∙◌, sym, List, [], ◌∷◌, ◌++◌, length,
  length-append, length-replicate, replicate, map, arith, ok, Result,
}
use axi_dma_engine.Csr
use axi_dma_engine.Fifo
use axi_dma_engine.Memory.{new_memory, new_sram}
use axi_dma_engine.Descriptor
use axi_dma_engine.Descriptor.{Descriptor}
use axi_dma_engine.Descriptor.RoundTrip
use axi_dma_engine.RingManager.Refine.{
  enqueued, enqueue_lem, enqueued-IsValid, pending-enqueued, pending,
}
use axi_dma_engine.RingManager.Indices.{distance, distance-zero_iff, window}
use axi_dma_engine.Golden.{System, fifo_depth, dm_depth, mid_depth}
use axi_dma_engine.Golden.Move.{with_memories}
use axi_dma_engine.Golden.Loop.{IsReady}
use axi_dma_engine.Golden.Scenario.{Row, StimLine, apply_desc, apply_row, apply_rows, build}

-- the row of a descriptor
abbrev pub desc_row : Descriptor → Row
desc_row d = Row.desc d.w0 d.w1 d.w2 d.w3

-- the lines of a descriptor at byte address `slot`, and of the tail that follows it
abbrev pub desc_lines : ℕ → ℕ → Descriptor → List StimLine
desc_lines slot tail d =
    StimLine.sysmem_write (slot + 0) d.w0
    ∷ StimLine.sysmem_write (slot + 4) d.w1
    ∷ StimLine.sysmem_write (slot + 8) d.w2
    ∷ StimLine.sysmem_write (slot + 12) d.w3
    ∷ StimLine.csr_write Csr.reg_tail tail
    ∷ []

abbrev with_desc : ℕ → ℕ → Descriptor → System → System
with_desc r b d s = record s { ring = enqueued r b d s.ring }

module _ (r b : ℕ) (d : Descriptor) (w : RoundTrip.IsValid d) where
  with_desc-IsReady : (s : System) → IsReady r b s → IsReady r b (with_desc r b d s)
  with_desc-IsReady s v =
      let e = enqueued-IsValid r b s.ring v.ring_valid d in
      record {
        ring_valid = e;
        df_quiet = ground (arith, v.df_quiet);
        quiet = ground (arith, v.quiet);
      }

  same_words : Descriptor.new (d.w0 % 2 ^ 32) (d.w1 % 2 ^ 32) (d.w2 % 2 ^ 32) (d.w3 % 2 ^ 32) ≡ d
  unfolding Descriptor.new
  same_words = ground (
    arith,
    mod-eq_of_lt w.w0_word,
    mod-eq_of_lt w.w1_word,
    mod-eq_of_lt w.w2_word,
    mod-eq_of_lt w.w3_word,
  )

  apply_desc_lem :
      (s : System)
      → IsReady r b s
      → length (pending r b s.ring) + 1 < r
      → let t = s.ring.csr.regs Csr.reg_tail in
        apply_desc d.w0 d.w1 d.w2 d.w3 s
        ≡ (ok (desc_lines (b * 4 + t * 16) ((t + 1) % r) d), with_desc r b d s)
  unfolding apply_desc Csr.ringlen Csr.baseaddr Csr.read
  apply_desc_lem s v room =
      let t = s.ring.csr.regs Csr.reg_tail in
      let rv = v.ring_valid in
      let r_small : r % 2 ^ 32 ≡ r = mod-eq_of_lt (omega (arith, rv.ring_in, rv.addressable)) in
      let b_small : b * 4 % 2 ^ 32 ≡ b * 4 =
        mod-eq_of_lt (omega (arith, rv.ring_in, rv.addressable, rv.tail_in)) in
      ground (
        arith,
        r_small,
        b_small,
        rv.ringlen_reg,
        rv.baseaddr_reg,
        mod-eq_of_lt rv.tail_in,
        same_words,
        mod-eq_of_lt w.w0_word,
        mod-eq_of_lt w.w1_word,
        mod-eq_of_lt w.w2_word,
        mod-eq_of_lt w.w3_word,
        enqueue_lem r b s.ring rv d room,
      )

abbrev pub AreValid : List Descriptor → Type 0
AreValid [] = Unit {0}
AreValid (d ∷ ds) = RoundTrip.IsValid d × AreValid ds

-- the lines of the descriptors `ds`, enqueued from slot `t` on
abbrev pub ring_lines : ℕ → ℕ → ℕ → List Descriptor → List StimLine
ring_lines r b t [] = []
ring_lines r b t (d ∷ ds) =
    desc_lines (b * 4 + t * 16) ((t + 1) % r) d ++ ring_lines r b ((t + 1) % r) ds

-- What the rows of `ds` do to a system that is ready: the lines that they append, and a system
-- that is ready with the descriptors behind those that were pending, and the SRAM and the head as
-- they were.
pub record Enqueued (r b : ℕ) (ds : List Descriptor) (s : System)
    (out : Result (List StimLine) × System) : Type 0 where
  pub lines : out.0 ≡ ok (ring_lines r b (s.ring.csr.regs Csr.reg_tail) ds)
  pub ready : IsReady r b out.1
  pub queued : pending r b out.1.ring ≡ pending r b s.ring ++ ds
  pub same_sram : out.1.sram ≡ s.sram
  pub same_head : out.1.ring.csr.regs Csr.reg_head ≡ s.ring.csr.regs Csr.reg_head
  pub same_mid : out.1.ring.golden.mid ≡ s.ring.golden.mid

module _ (smem_words sram_words r b : ℕ) where
  apply_rows_step :
      (d : Descriptor) (ds : List Descriptor) (s : System) (lines rest : List StimLine)
      (s1 s2 : System)
      → apply_desc d.w0 d.w1 d.w2 d.w3 s ≡ (ok lines, s1)
      → apply_rows smem_words sram_words (map desc_row ds) s1 ≡ (ok rest, s2)
      → apply_rows smem_words sram_words (map desc_row (d ∷ ds)) s ≡ (ok (lines ++ rest), s2)
  unfolding apply_rows apply_row
  apply_rows_step d ds s lines rest s1 s2 e1 e2 = ground (arith, e1, e2)

  -- The rows of descriptors of 32-bit words, fewer than the free slots, on a system that is ready
  -- raise nothing: they append the stimulus lines of the slots and tails, queue the descriptors
  -- behind those that were pending, and leave the system ready and the SRAM and the head as they
  -- were.
  pub apply_rows-enqueues :
      (ds : List Descriptor) (s : System)
      → AreValid ds
      → IsReady r b s
      → length (pending r b s.ring) + length ds < r
      → Enqueued r b ds s (apply_rows smem_words sram_words (map desc_row ds) s)
  unfolding apply_rows
  apply_rows-enqueues [] s w v room = record {
    lines = refl;
    ready = v;
    queued = sym (append-nil (pending r b s.ring));
    same_sram = refl;
    same_head = refl;
    same_mid = refl;
  }
  apply_rows-enqueues (d ∷ ds) s w v room =
      let p = pending r b s.ring in
      let s1 = with_desc r b d s in
      let more = pending-enqueued r b s.ring v.ring_valid d w.0 (omega arith) in
      let len : length (pending r b s1.ring) ≡ length p + 1 =
        ap length more ∙ length-append p (d ∷ []) in
      let ih = apply_rows-enqueues ds s1 w.1 (with_desc-IsReady r b d w.0 s v) (omega arith) in
      let out = apply_rows smem_words sram_words (map desc_row ds) s1 in
      let step =
        apply_rows_step d ds s
          (desc_lines (b * 4 + s.ring.csr.regs Csr.reg_tail * 16)
            ((s.ring.csr.regs Csr.reg_tail + 1) % r) d)
          (ring_lines r b ((s.ring.csr.regs Csr.reg_tail + 1) % r) ds) s1 out.1
          (apply_desc_lem r b d w.0 s v (omega arith)) (ap (λ x. (x, out.1)) ih.lines) in
      rw step (record {
        lines = refl;
        ready = ih.ready;
        queued = ih.queued ∙ ap (λ l. l ++ ds) more ∙ append_assoc p (d ∷ []) ds;
        same_sram = ih.same_sram;
        same_head = ih.same_head;
        same_mid = ih.same_mid;
      })

-- the rows that place a ring of `r` slots at word `b`
abbrev pub ring_rows : ℕ → ℕ → List Row
ring_rows r b = Row.csr_baseaddr (b * 4) ∷ Row.csr_ringlen r ∷ []

abbrev pub place_lines : ℕ → ℕ → List StimLine
place_lines r b =
    StimLine.csr_write Csr.reg_baseaddr (b * 4) ∷ StimLine.csr_write Csr.reg_ringlen r ∷ []

-- the system that is built, and with its ring placed
abbrev queue : ℕ → Fifo.Fifo
queue n = record { queue_length = n; buffer = [] }

abbrev pub built : ℕ → ℕ → System
built m l = record {
  ring = record {
    csr = Csr.new;
    golden = record {
      memory = record { size = m; mem = replicate m 0 };
      df_in = queue fifo_depth;
      df_out = queue fifo_depth;
      dm_in = queue dm_depth;
      mid = queue mid_depth;
    };
  };
  sram = record { size = l; mem = replicate l 0 };
  dm_sram = queue dm_depth;
}

abbrev pub placed : ℕ → ℕ → System → System
placed r b s = record s {
  ring = record (s.ring) {
    csr = Csr.put Csr.reg_ringlen r (Csr.put Csr.reg_baseaddr (b * 4) s.ring.csr);
  };
}

pub build_inv : (m l : ℕ) (s : System) → (build m l tt).0 ≡ ok s → s ≡ built m l
unfolding build new_memory new_sram Fifo.new
build_inv m l s e = ground (arith, e)

pub build_lem : (m l : ℕ) → 0 < m → 0 < l → build m l tt ≡ (ok (built m l), tt)
unfolding build new_memory new_sram Fifo.new
build_lem m l hm hl = ground arith

module _ (m l r b : ℕ) (some_slot : 0 < r) (fits : b + r * 4 ≤ m) (addressable : m ≤ 2 ^ 30) where
  pub place_lem :
      (s : System) → apply_rows m l (ring_rows r b) s ≡ (ok (place_lines r b), placed r b s)
  unfolding apply_rows apply_row Csr.write
  place_lem s =
      let r_small : r % 2 ^ 32 ≡ r = mod-eq_of_lt (omega arith) in
      let b_small : b * 4 % 2 ^ 32 ≡ b * 4 = mod-eq_of_lt (omega arith) in
      ground (arith, r_small, b_small)

  -- The ring is placed whatever words the memories hold.
  pub placed-IsReady :
      (ml : List ℕ × List ℕ)
      → length ml.0 ≡ m
      → IsReady r b (placed r b (with_memories ml (built m l)))
  placed-IsReady ml e = ground arith

  pub placed_empty :
      (ml : List ℕ × List ℕ) → pending r b (placed r b (with_memories ml (built m l))).ring ≡ []
  placed_empty ml =
      let none : distance r 0 0 ≡ 0 = (distance-zero_iff r 0 0 some_slot some_slot).1 refl in
      ap (window ml.0 b r 0) none

  -- The objects that run_scenario builds, for an SRAM of some words, are ready for the event loop
  -- with an empty ring after the rows that place a ring of some slots inside a system memory of at
  -- most 2 ^ 30 words, and the SRAM is as it was.
  build-IsReady :
      (s : System)
      → 0 < l
      → (build m l tt).0 ≡ ok s
      → let s' = (apply_rows m l (ring_rows r b) s).1 in
        IsReady r b s' × (pending r b s'.ring ≡ []) × (s'.sram ≡ s.sram)
  build-IsReady s hl e =
      let same : s ≡ built m l = cc (e, build_lem m l (omega arith) hl) in
      rw (place_lem s, same)
        (
          placed-IsReady (replicate m 0, replicate l 0) (length-replicate m 0),
          placed_empty (replicate m 0, replicate l 0),
          refl,
        )
