-- ===== src/RingManager/Sequence.antt =====
-- source/ringManager.py: any sequence of calls of a ring, beside the bounded queue.
use mathlib.Core.Path.{ap₂, subst}
use axi_dma_engine.Base.{
  ℕ, ◌+◌, ◌<◌, ◌≡◌, ◌≢◌, refl, ap, sym, ◌∙◌, List, [], ◌∷◌, ◌++◌, length, arith, Option, none, some,
  Result, ok, err, ring_full, nothing_pending, ltb, if◌then◌else◌, suc, Bool-cases, inl, inr,
}
use axi_dma_engine.Csr
use axi_dma_engine.Descriptor.{Descriptor}
use axi_dma_engine.Descriptor.RoundTrip
use axi_dma_engine.RingManager.{RingManager, enqueue, fetch_next_descriptor, complete}
use axi_dma_engine.RingManager.Indices.{distance-lt}
use axi_dma_engine.RingManager.Refine.{
  IsValid, pending, length-pending, enqueued, completed, enqueue_lem, enqueued-IsValid,
  pending-enqueued, enqueue_full, complete_lem, complete_refines, complete_empty,
}
use axi_dma_engine.RingManager.Fetch.{IsQuiet, fetch_refines, fetch_empty}

-- a call, and what it returned or raised
pub data Call : Type 0 where
  enqueues : Descriptor → Call
  fetches : ℕ → Call
  completes : Call

pub data Reply : Type 0 where
  of_enqueue : Result Descriptor → Reply
  of_fetch : Result (Option Descriptor) → Reply
  of_complete : Result (Unit {0}) → Reply

-- One call, and calls in sequence, each on what the one before has left, raised or not.
abbrev answer : {A : Type 0} → (A → Reply) → A × RingManager → Reply × RingManager
answer f (a, s) = (f a, s)

call : Call → RingManager → Reply × RingManager
call (enqueues d) s = answer of_enqueue (enqueue d s)
call (fetches n) s = answer of_fetch (fetch_next_descriptor (suc n) s)
call completes s = answer of_complete (complete s)

abbrev then_calls : Reply → List Reply × RingManager → List Reply × RingManager
then_calls a (rest, s) = (a ∷ rest, s)

pub calls : List Call → RingManager → List Reply × RingManager
calls [] s = ([], s)
calls (c ∷ cs) s = then_calls (call c s).0 (calls cs (call c s).1)

-- The same of a queue of at most `r - 1` descriptors.
abbrev pub front : List Descriptor → Option Descriptor
front [] = none
front (d ∷ ds) = some d

unfoldable pub spec_call : ℕ → Call → List Descriptor → Reply × List Descriptor
spec_call r (enqueues d) q =
    if ltb (length q + 1) r
    then (of_enqueue (ok d), q ++ d ∷ [])
    else (of_enqueue (err ring_full), q)
spec_call r (fetches n) q = (of_fetch (ok (front q)), q)
spec_call r completes [] = (of_complete (err nothing_pending), [])
spec_call r completes (d ∷ q) = (of_complete (ok tt), q)

unfoldable pub spec_calls : ℕ → List Call → List Descriptor → List Reply × List Descriptor
spec_calls r [] q = ([], q)
spec_calls r (c ∷ cs) q =
    let rest = spec_calls r cs (spec_call r c q).1 in ((spec_call r c q).0 ∷ rest.0, rest.1)

-- The descriptors of the calls have words of 32 bits.
abbrev pub IsFine : Call → Type 0
IsFine (enqueues d) = RoundTrip.IsValid d
IsFine _ = Unit {0}

abbrev pub AreFine : List Call → Type 0
AreFine [] = Unit {0}
AreFine (c ∷ cs) = IsFine c × AreFine cs

module _ (r b : ℕ) where
  -- The ring stands for the queue `q`.
  pub record Stands (q : List Descriptor) (s : RingManager) : Type 0 where
    pub valid : IsValid r b s
    pub quiet : IsQuiet s
    pub holds : pending r b s ≡ q

  call_step :
      (c : Call) (q : List Descriptor) (s : RingManager)
      → IsFine c
      → Stands q s
      → ((call c s).0 ≡ (spec_call r c q).0) × Stands (spec_call r c q).1 (call c s).1
  unfolding call spec_call
  call_step (enqueues d) q s w v = elim (Bool-cases (ltb (length q + 1) r)) [
    | inl y ↦
        let room : length (pending r b s) + 1 < r = ground (arith, y, v.holds) in
        let e = enqueue_lem r b s v.valid d room in
        let kept : Stands (q ++ d ∷ []) (enqueued r b d s) = record {
          valid = enqueued-IsValid r b s v.valid d;
          quiet = ground (arith, v.quiet);
          holds = pending-enqueued r b s v.valid d w room ∙ ap (λ k. k ++ d ∷ []) v.holds;
        } in
        rw (y, e) (refl, kept)
    | inr y ↦
        let below =
          distance-lt r (s.csr.regs Csr.reg_head) (s.csr.regs Csr.reg_tail) v.valid.head_in
            v.valid.tail_in in
        let full : length (pending r b s) + 1 ≡ r =
          ground (arith, y, v.holds, length-pending r b s v.valid, below) in
        rw (y, enqueue_full r b s v.valid d full) (refl, v)
  ]
  call_step (fetches n) [] s w v = rw (fetch_empty r b s v.valid v.quiet (suc n) v.holds) (refl, v)
  call_step (fetches n) (d ∷ q) s w v =
      rw (fetch_refines r b s v.valid v.quiet n d q v.holds) (refl, v)
  call_step completes [] s w v = rw (complete_empty r b s v.valid v.holds) (refl, v)
  call_step completes (d ∷ q) s w v =
      let ne : length (pending r b s) ≢ 0 = ground (arith, v.holds) in
      let e = complete_lem r b s v.valid ne in
      let (res, held, valid) = complete_refines r b s v.valid d q v.holds in
      let same : (complete s).1 ≡ completed r s = ap (λ x. x.1) e in
      let quiet : IsQuiet (completed r s) = ground (arith, v.quiet) in
      (
        ap of_complete res,
        record { valid = valid; quiet = subst IsQuiet (sym same) quiet; holds = held },
      )

  -- A ring that is set up, with no handle and no descriptor on its way, answers every sequence of
  -- enqueue, fetch_next_descriptor with at least one step, and complete as a queue of at most
  -- `r - 1` descriptors of 32-bit words does, and stands for that queue afterwards: `enqueue`
  -- appends or raises at `r - 1`, the fetch returns the oldest one without dropping it, and
  -- `complete` drops it, or raises when there is none.
  pub calls_refine :
      (cs : List Call) (q : List Descriptor) (s : RingManager)
      → AreFine cs
      → Stands q s
      → ((calls cs s).0 ≡ (spec_calls r cs q).0) × Stands (spec_calls r cs q).1 (calls cs s).1
  unfolding calls spec_calls
  calls_refine [] q s w v = (refl, v)
  calls_refine (c ∷ cs) q s w v =
      let (e, v') = call_step c q s w.0 v in
      let (rest, v'') = calls_refine cs (spec_call r c q).1 (call c s).1 w.1 v' in
      (ap₂ (λ x xs. x ∷ xs) e rest, v'')
