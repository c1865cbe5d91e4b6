-- ===== src/Golden/Loop.antt =====
-- sim/run_golden.py: the event loop against a replay of the ring on the two memories alone.
use native.Mathlib.Nat.{mod-lt}
use axi_dma_engine.Base.{
  ℕ, zero, suc, ◌+◌, ◌*◌, ◌/◌, ◌%◌, ◌<◌, ◌≡◌, ◌≢◌, refl, ◌∙◌, sym, List, [], ◌∷◌, length, arith, ok,
  err, pure, and_then, Result,
}
use axi_dma_engine.Csr
use axi_dma_engine.Memory.Slices.{length-overwrite, slice}
use axi_dma_engine.AxiMaster.Burst.{masked}
use axi_dma_engine.Descriptor
use axi_dma_engine.Descriptor.{Descriptor}
use axi_dma_engine.RingManager.Indices.{desc_at, distance_complete, distance-zero_iff}
use axi_dma_engine.RingManager.Refine
use axi_dma_engine.RingManager.Refine.{
  pending, count, completed, complete_lem, is_empty_lem, pending-cons, length-pending,
}
use axi_dma_engine.RingManager.Fetch
use axi_dma_engine.RingManager.Fetch.{fetch_refines, desc_at-IsValid}
use axi_dma_engine.Golden.{System, serve, event_loop}
use axi_dma_engine.Golden.Move.{
  beats, IsQuiet, Movable, transferred, smem, with_memories, move_refines,
}

-- The ring is set up, and nothing is on its way.
pub record IsReady (r b : ℕ) (s : System) : Type 0 where
  pub ring_valid : Refine.IsValid r b s.ring
  pub df_quiet : Fetch.IsQuiet s.ring
  pub quiet : IsQuiet s

-- The `n` descriptors from slot `h` on, each read when its turn comes and applied to the memories:
-- the packed descriptors, the system memory and the SRAM.
module _ (r b : ℕ) where
  abbrev pub replay : ℕ → ℕ → List ℕ → List ℕ → List ℕ × List ℕ × List ℕ
  replay zero h m l = ([], m, l)
  replay (suc n) h m l =
      let d = desc_at m (b + h * 4) in
      let ml = transferred d m l in
      let rest = replay n ((h + 1) % r) ml.0 ml.1 in (Descriptor.pack d ∷ rest.0, rest.1, rest.2)

  -- Each of them can be moved when its turn comes, through a MID of `room` words.
  abbrev pub AllMovable : ℕ → ℕ → ℕ → List ℕ → List ℕ → Type 0
  AllMovable room zero h m l = Unit {0}
  AllMovable room (suc n) h m l =
      let d = desc_at m (b + h * 4) in
      let ml = transferred d m l in
      Movable d room (length m) (length l) × AllMovable room n ((h + 1) % r) ml.0 ml.1

length-transferred :
    (d : Descriptor) (m l : List ℕ)
    → (length (transferred d m l).0 ≡ length m) × (length (transferred d m l).1 ≡ length l)
length-transferred d m l = ground (
  arith,
  length-overwrite (d.w1 / 4) (masked (slice (d.w0 / 4) (beats d) m)) l,
  length-overwrite (d.w1 / 4) (masked (slice (d.w0 / 4) (beats d) l)) m,
)

with_memories-IsReady :
    (r b : ℕ) (s : System) (ml : List ℕ × List ℕ)
    → IsReady r b s
    → length ml.0 ≡ length (smem s)
    → IsReady r b (with_memories ml s)
with_memories-IsReady r b s ml v e = ground arith

abbrev mid_room : System → ℕ
mid_room s = s.ring.golden.mid.queue_length

-- The descriptor at the head, and the system once it is done.
module _ (r b : ℕ) (s : System) where
  abbrev head_desc : Descriptor
  head_desc = desc_at (smem s) (b + s.ring.csr.regs Csr.reg_head * 4)

  abbrev moved : System
  moved = with_memories (transferred head_desc (smem s) s.sram.mem) s

  abbrev after : System
  after = record moved { ring = completed r moved.ring }

  module _ (v : IsReady r b s) where
    moved-IsReady : IsReady r b moved
    moved-IsReady =
        with_memories-IsReady r b s (transferred head_desc (smem s) s.sram.mem) v
          (length-transferred head_desc (smem s) s.sram.mem).0

    after-IsReady : IsReady r b after
    after-IsReady =
        let w = moved-IsReady in
        let next : (s.ring.csr.regs Csr.reg_head + 1) % r < r =
          mod-lt (s.ring.csr.regs Csr.reg_head + 1) (omega (arith, v.ring_valid.head_in)) in
        ground arith

    event_loop_done : (k : ℕ) → count r s.ring ≡ 0 → event_loop (suc k) s ≡ (ok [], s)
    unfolding event_loop
    event_loop_done k e =
        ground (arith, is_empty_lem r b s.ring v.ring_valid, length-pending r b s.ring v.ring_valid)

    -- One round of the loop.
    event_loop_step :
        (k : ℕ)
        → count r s.ring ≢ 0
        → Movable head_desc (mid_room s) (length (smem s)) (length s.sram.mem)
        → event_loop (suc k) s
          ≡ and_then (λ rest. pure (Descriptor.pack head_desc ∷ rest)) (event_loop k after)
    unfolding event_loop serve
    event_loop_step k ne can =
        let d = head_desc in
        let some_pending : length (pending r b s.ring) ≢ 0 =
          omega (arith, length-pending r b s.ring v.ring_valid) in
        let fetched =
          fetch_refines r b s.ring v.ring_valid v.df_quiet 255 d (pending r b (completed r s.ring))
            (pending-cons r b s.ring v.ring_valid some_pending) in
        let still : length (pending r b moved.ring) ≢ 0 =
          omega (arith, length-pending r b moved.ring moved-IsReady.ring_valid) in
        ground (
          arith,
          is_empty_lem r b s.ring v.ring_valid,
          fetched,
          move_refines d s (desc_at-IsValid (smem s) (b + s.ring.csr.regs Csr.reg_head * 4)) v.quiet
              can,
          complete_lem r b moved.ring moved-IsReady.ring_valid still,
        )

-- How the event loop ends when it has replayed the ring: what it returned, the two memories, an
-- empty ring under the same tail, and a system that is ready again.
pub record Replayed (r b : ℕ) (s : System) (spec : List ℕ × List ℕ × List ℕ)
    (out : Result (List ℕ) × System) : Type 0 where
  pub returned : out.0 ≡ ok spec.0
  pub final_smem : smem out.1 ≡ spec.1
  pub final_sram : out.1.sram.mem ≡ spec.2
  drained : pending r b out.1.ring ≡ []
  tail_same : out.1.ring.csr.regs Csr.reg_tail ≡ s.ring.csr.regs Csr.reg_tail
  pub ready : IsReady r b out.1

abbrev pub spec_of : ℕ → ℕ → ℕ → System → List ℕ × List ℕ × List ℕ
spec_of r b n s = replay r b n (s.ring.csr.regs Csr.reg_head) (smem s) s.sram.mem

suc_ne_zero : {n : ℕ} → suc n ≢ 0
suc_ne_zero e = omega arith

-- One more descriptor in front.
Replayed-cons :
    (r b : ℕ) (s s' : System) (packed : ℕ) (spec : List ℕ × List ℕ × List ℕ)
    (out : Result (List ℕ) × System)
    → s'.ring.csr.regs Csr.reg_tail ≡ s.ring.csr.regs Csr.reg_tail
    → Replayed r b s' spec out
    → Replayed r b s (packed ∷ spec.0, spec.1, spec.2) (and_then (λ rest. pure (packed ∷ rest)) out)
Replayed-cons r b s s' packed spec (ok ps, t) e w = record {
  returned = cc (w.returned);
  final_smem = w.final_smem;
  final_sram = w.final_sram;
  drained = w.drained;
  tail_same = w.tail_same ∙ e;
  ready = w.ready;
}
Replayed-cons r b s s' packed spec (err x, t) e w = absurd (cc (w.returned))

replays_from :
    (r b n k : ℕ) (s : System)
    → IsReady r b s
    → count r s.ring ≡ n
    → n < k
    → AllMovable r b (mid_room s) n (s.ring.csr.regs Csr.reg_head) (smem s) s.sram.mem
    → Replayed r b s (spec_of r b n s) (event_loop k s)
replays_from r b n zero s v e h can = absurd (omega arith)
replays_from r b zero (suc k) s v e h can = rw (event_loop_done r b s v k e) (record {
  returned = refl;
  final_smem = refl;
  final_sram = refl;
  drained = rw e;
  tail_same = refl;
  ready = v;
})
replays_from r b (suc n) (suc k) s v e h can =
    let h0 = s.ring.csr.regs Csr.reg_head in
    let t0 = s.ring.csr.regs Csr.reg_tail in
    let ne : h0 ≢ t0 = λ p.
      suc_ne_zero
        (sym e ∙ (distance-zero_iff r h0 t0 v.ring_valid.head_in v.ring_valid.tail_in).1 p) in
    let fewer : count r (after r b s).ring ≡ n =
      omega (arith, distance_complete r h0 t0 v.ring_valid.head_in v.ring_valid.tail_in ne) in
    let ih = replays_from r b n k (after r b s) (after-IsReady r b s v) fewer (omega arith) can.1 in
    rw (event_loop_step r b s v k (omega arith) can.0) (
      Replayed-cons r b s (after r b s) (Descriptor.pack (head_desc r b s))
        (spec_of r b n (after r b s)) (event_loop k (after r b s)) refl ih)

-- On a system whose ring is set up, with nothing on its way, and where each pending descriptor can
-- be moved when its turn comes (aligned, its bursts inside the memories and MID), the event loop,
-- given more rounds than descriptors are pending, ends without an error: it returns the packed
-- descriptors in their order, leaves the two memories as the replay of the ring does, and leaves
-- the ring empty under the same tail and the system ready again.
pub event_loop_replays :
    (r b k : ℕ) (s : System)
    → IsReady r b s
    → length (pending r b s.ring) < k
    → AllMovable r b s.ring.golden.mid.queue_length
        (length (pending r b s.ring))
        (s.ring.csr.regs Csr.reg_head)
        (smem s)
        s.sram.mem
    → Replayed r b s (spec_of r b (length (pending r b s.ring)) s) (event_loop k s)
event_loop_replays r b k s v h can =
    replays_from r b (length (pending r b s.ring)) k s v
      (sym (length-pending r b s.ring v.ring_valid)) h can
