-- ===== src/Golden/Stalls.antt =====
-- sim/run_golden.py: calls that raise no error of the drains, and the work that the ring's calls
-- leave for the AXI master.
use mathlib.Core.Path.{subst}
use axi_dma_engine.Base.{
  ℕ, zero, suc, ◌+◌, ◌≡◌, ◌≤◌, inl, inr, refl, sym, Bool, true, false, not, [], ◌∷◌, length-append,
  arith, Option, none, some, Result, Action, ok, err, ◌>>=◌, ◌>>◌, and_then, pure, raise, raise_if,
  Bool-cases, no_progress, too_many_steps, ring_length, ◌*◌, ◌%◌, ◌==◌,
}
use axi_dma_engine.Base.Words.{mask}
use axi_dma_engine.Fifo
use axi_dma_engine.Fifo.{Fifo}
use axi_dma_engine.Csr
use axi_dma_engine.Descriptor.{Descriptor, desc_words}
use axi_dma_engine.DescriptorFetcher
use axi_dma_engine.AxiMaster
use axi_dma_engine.AxiMaster.{AxiMaster}
use axi_dma_engine.AxiMaster.Safety.{backlog, backlog-process_one}
use axi_dma_engine.SramController
use axi_dma_engine.SramController.{SramController}
use axi_dma_engine.RingManager
use axi_dma_engine.RingManager.{RingManager}
use axi_dma_engine.Golden.Calm.{calm_error, calm, axi-calm}
use axi_dma_engine.Golden.Drains.{Ends, waiting}

-- A call that returned in a state of `P`, or raised neither of the two drains' RuntimeErrors.
abbrev pub Good : {S A : Type 0} → (S → Type 0) → Result A × S → Type 0
Good P (ok a, s) = P s
Good P (err e, s) = calm_error e ≡ true

pub >>=-Good :
    {S A B : Type 0} (P Q : S → Type 0) (r : Result A × S) (f : A → Action S B)
    → Good P r
    → ((a : A) (s : S) → P s → Good Q (f a s))
    → Good Q (and_then f r)
>>=-Good P Q (ok a, s) f h k = k a s h
>>=-Good P Q (err e, s) f h k = h

pub Ends-Good :
    {S : Type 0} (idle : S → Bool) (out : Result (Unit {0}) × S)
    → Ends idle out
    → Good (λ t. idle t ≡ true) out
Ends-Good idle (ok u, t) h = ground (arith, h)
Ends-Good idle (err e, t) h = h.0

pub idle-backlog : (s : AxiMaster) → AxiMaster.idle s ≡ true → backlog s ≤ 0
unfolding AxiMaster.idle Fifo.is_empty
idle-backlog s h = ground (arith, h)

pub idle-waiting : (s : SramController) → SramController.idle s ≡ true → waiting s ≤ 0
unfolding SramController.idle Fifo.is_empty
idle-waiting s h = ground (arith, h)

-- A call on a part of the state.
pub part-Good :
    {S T A : Type 0} (put : T → S) (P : T → Type 0) (Q : S → Type 0) (out : Result A × T)
    → Good P out
    → ((t : T) → P t → Q (put t))
    → Good Q (out.0, put out.1)
part-Good put P Q (ok a, t) h k = k t h
part-Good put P Q (err e, t) h k = h

calm-Good :
    {S A : Type 0} (P : S → Type 0) (out : Result A × S) → calm out.0 ≡ true → P out.1 → Good P out
calm-Good P (ok a, t) c h = h
calm-Good P (err e, t) c h = c

abbrev pub Few : ℕ → RingManager → Type 0
Few n s = backlog s.golden ≤ n

fewer : (s : AxiMaster) → backlog (AxiMaster.process_one s).1 ≤ backlog s
fewer s = elim (backlog-process_one s) [
  | inl x ↦ rw (x.1) (omega arith)
  | inr x ↦ omega (arith, x.1)
]

must_progress :
    (n : ℕ) (progress : Bool) (t : RingManager)
    → Few n t
    → Good (Few n) (raise_if (not progress) no_progress t)
must_progress n true t q = q
must_progress n false t q = refl

fetch_step-Good : (n : ℕ) (s : RingManager) → Few n s → Good (Few n) (RingManager.fetch_step s)
unfolding RingManager.fetch_step
fetch_step-Good n s h =
    >>=-Good (Few n) (Few n) (RingManager.on_golden AxiMaster.process_one s)
      (λ progress. raise_if (not progress) no_progress)
      (part-Good (λ g. record s { golden = g }) (λ g. backlog g ≤ n) (Few n)
        (AxiMaster.process_one s.golden)
        (calm-Good (λ g. backlog g ≤ n) (AxiMaster.process_one s.golden) (axi-calm s.golden)
          (omega (arith, fewer s.golden)))
        (λ g q. q))
      (λ progress t q. must_progress n progress t q)

fetch_loop-Good : (n k : ℕ) (s : RingManager) → Few n s → Good (Few n) (RingManager.fetch_loop k s)
unfolding RingManager.fetch_loop
fetch_loop-Good n zero s h = elim (Bool-cases (RingManager.has_descriptor s)) [
  | inl y ↦
      let e : RingManager.fetch_loop zero s ≡ (ok tt, s) = ground (arith, y) in
      subst (Good (Few n)) (sym e) h
  | inr y ↦
      let go = RingManager.fetch_step >> raise too_many_steps in
      let e : RingManager.fetch_loop zero s ≡ go s = ground (arith, y) in
      subst (Good (Few n)) (sym e) (
        >>=-Good (Few n) (Few n) (RingManager.fetch_step s) (λ _. raise too_many_steps)
          (fetch_step-Good n s h) (λ _ t q. refl))
]
fetch_loop-Good n (suc k) s h = elim (Bool-cases (RingManager.has_descriptor s)) [
  | inl y ↦
      let e : RingManager.fetch_loop (suc k) s ≡ (ok tt, s) = ground (arith, y) in
      subst (Good (Few n)) (sym e) h
  | inr y ↦
      let go = RingManager.fetch_step >> RingManager.fetch_loop k in
      let e : RingManager.fetch_loop (suc k) s ≡ go s = ground (arith, y) in
      subst (Good (Few n)) (sym e) (
        >>=-Good (Few n) (Few n) (RingManager.fetch_step s) (λ _. RingManager.fetch_loop k)
          (fetch_step-Good n s h) (λ _ t q. fetch_loop-Good n k t q))
]

submit-Good :
    (n a len : ℕ) (s : RingManager)
    → Few n s
    → Good (Few (n + 1)) (RingManager.on_df (DescriptorFetcher.submit_handle a len) s)
unfolding DescriptorFetcher.submit_handle Fifo.enqueue
submit-Good n a len s h =
    ground (arith, length-append s.golden.df_in.buffer (AxiMaster.pack_handle a len ∷ []))

take-Good :
    (n : ℕ) (s : RingManager)
    → Few n s
    → Good (Few n) (RingManager.on_df DescriptorFetcher.take_descriptor s)
unfolding DescriptorFetcher.take_descriptor Fifo.dequeue
take-Good n s h = ground arith

-- `fetch_next_descriptor` behind the computation of the handle's address
abbrev asks : ℕ → ℕ → Action RingManager (Option Descriptor)
asks k a =
    RingManager.on_df (DescriptorFetcher.submit_handle a desc_words)
    >> (RingManager.fetch_loop k
        >> (RingManager.on_df DescriptorFetcher.take_descriptor >>= λ d. pure (some d)))

asks-Good : (k a : ℕ) (s : RingManager) → Few 0 s → Good (Few 1) (asks k a s)
asks-Good k a s h =
    >>=-Good (Few 1) (Few 1) (RingManager.on_df (DescriptorFetcher.submit_handle a desc_words) s)
      (λ _.
        RingManager.fetch_loop k
        >> (RingManager.on_df DescriptorFetcher.take_descriptor >>= λ d. pure (some d)))
      (submit-Good 0 a desc_words s h)
      (λ _ t q.
        >>=-Good (Few 1) (Few 1) (RingManager.fetch_loop k t)
          (λ _. RingManager.on_df DescriptorFetcher.take_descriptor >>= λ d. pure (some d))
          (fetch_loop-Good 1 k t q)
          (λ _ u p.
            >>=-Good (Few 1) (Few 1) (RingManager.on_df DescriptorFetcher.take_descriptor u)
              (λ d. pure (some d)) (take-Good 1 u p) (λ d v w. w)))

fetch_head-Good : (k : ℕ) (s : RingManager) → Few 0 s → Good (Few 1) (RingManager.fetch_head k s)
unfolding RingManager.fetch_head RingManager.slot_byte_addr RingManager.ringlen Csr.ringlen
fetch_head-Good k s h =
    let r = mask 32 (s.csr.regs Csr.reg_ringlen) in
    elim (Bool-cases (r == 0)) [
      | inl z ↦
          let e : RingManager.fetch_head k s ≡ (err ring_length, s) = ground (arith, z) in
          subst (Good (Few 1)) (sym e) refl
      | inr z ↦
          let a =
            RingManager.base s
            + RingManager.head_reg s % r % r * RingManager.descriptor_size_bytes in
          let e : RingManager.fetch_head k s ≡ asks k a s = ground (arith, z) in
          subst (Good (Few 1)) (sym e) (asks-Good k a s h)
    ]

pub fetch-Good :
    (k : ℕ) (s : RingManager) → Few 0 s → Good (Few 1) (RingManager.fetch_next_descriptor k s)
unfolding RingManager.fetch_next_descriptor
fetch-Good k s h = elim (Bool-cases (RingManager.is_empty s)) [
  | inl y ↦
      let e : RingManager.fetch_next_descriptor k s ≡ (ok none, s) = ground (arith, y) in
      subst (Good (Few 1)) (sym e) (omega (arith, h))
  | inr y ↦
      let e : RingManager.fetch_next_descriptor k s ≡ RingManager.fetch_head k s =
        ground (arith, y) in
      subst (Good (Few 1)) (sym e) (fetch_head-Good k s h)
]

pub complete-Good : (n : ℕ) (s : RingManager) → Few n s → Good (Few n) (RingManager.complete s)
unfolding RingManager.complete RingManager.ringlen
complete-Good n s h = ground (arith, h)
