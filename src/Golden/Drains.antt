-- ===== src/Golden/Drains.antt =====
-- sim/run_golden.py: how the two drains end.
use axi_dma_engine.Base.{
  ℕ, zero, suc, ◌+◌, ◌≡◌, ◌≢◌, ◌≤◌, ◌⊎◌, inl, inr, refl, ◌∙◌, Bool, true, false, length, arith,
  Result, ok, err, ◌>>◌, >>=-keeps,
}
use axi_dma_engine.Base.Words.{mask, shr}
use axi_dma_engine.Fifo
use axi_dma_engine.Fifo.{Fifo}
use axi_dma_engine.Memory.{load, store}
use axi_dma_engine.AxiMaster
use axi_dma_engine.AxiMaster.{AxiMaster}
use axi_dma_engine.AxiMaster.Safety.{backlog, backlog-process_one}
use axi_dma_engine.SramController
use axi_dma_engine.SramController.{SramController}
use axi_dma_engine.Golden.{drain_axi_dm, drain_sram_dm}
use axi_dma_engine.Golden.Calm.{calm, axi-calm, sram-calm}

-- The instructions that wait for the SRAM controller.
abbrev pub waiting : SramController → ℕ
waiting s = length s.dm_in.buffer

sram_write_loop-same :
    (w n : ℕ) (s : SramController) → (SramController.write_loop w n s).1.dm_in ≡ s.dm_in
unfolding SramController.write_loop
sram_write_loop-same w zero s = refl
sram_write_loop-same w (suc n) s =
    >>=-keeps (λ t. t.dm_in ≡ s.dm_in) (SramController.on_mid Fifo.dequeue s)
      (λ v. SramController.on_sram (store w (mask 32 v)) >> SramController.write_loop (w + 1) n)
      refl
      (λ v t e.
        >>=-keeps (λ t. t.dm_in ≡ s.dm_in) (SramController.on_sram (store w (mask 32 v)) t)
          (λ _. SramController.write_loop (w + 1) n) e
          (λ _ u e'. sram_write_loop-same (w + 1) n u ∙ e'))

sram_read_loop-same :
    (w n : ℕ) (s : SramController) → (SramController.read_loop w n s).1.dm_in ≡ s.dm_in
unfolding SramController.read_loop
sram_read_loop-same w zero s = refl
sram_read_loop-same w (suc n) s =
    >>=-keeps (λ t. t.dm_in ≡ s.dm_in) (SramController.on_sram (load w) s)
      (λ v. SramController.on_mid (Fifo.enqueue (mask 32 v)) >> SramController.read_loop (w + 1) n)
      refl
      (λ v t e.
        >>=-keeps (λ t. t.dm_in ≡ s.dm_in) (SramController.on_mid (Fifo.enqueue (mask 32 v)) t)
          (λ _. SramController.read_loop (w + 1) n) e
          (λ _ u e'. sram_read_loop-same (w + 1) n u ∙ e'))

sram_serve-same : (i : ℕ) (s : SramController) → (SramController.serve_instr i s).1.dm_in ≡ s.dm_in
unfolding SramController.serve_instr
sram_serve-same i s =
    let w = shr (mask 32 i) 2 in
    let n = mask 8 (shr i 32) in
    ground (arith, sram_write_loop-same w n s, sram_read_loop-same w n s)

waiting-process_one :
    (s : SramController)
    → ((SramController.idle s ≡ true) × (SramController.process_one s ≡ (ok false, s)))
      ⊎ ((SramController.idle s ≡ false)
          × (waiting s ≡ suc (waiting (SramController.process_one s).1))
          × ((SramController.process_one s).0 ≢ ok false))
unfolding SramController.process_one SramController.do_instruction Fifo.dequeue SramController.idle
waiting-process_one s = grind (arith, sram_serve-same)

-- How a drain ends: not by its bound, and if it returns, with nothing left to do.
abbrev pub Ends : {S : Type 0} → (S → Bool) → Result (Unit {0}) × S → Type 0
Ends idle out = (calm out.0 ≡ true) × ((out.0 ≢ ok tt) ⊎ (idle out.1 ≡ true))

axi_next :
    (n : ℕ) (s : AxiMaster) (out : Result Bool × AxiMaster)
    → AxiMaster.idle s ≡ false
    → AxiMaster.process_one s ≡ out
    → out.0 ≢ ok false
    → calm out.0 ≡ true
    → Ends AxiMaster.idle (drain_axi_dm n out.1)
    → Ends AxiMaster.idle (drain_axi_dm (suc n) s)
unfolding drain_axi_dm
axi_next n s (ok true, t) i e ne c h = ground (arith, i, e, h)
axi_next n s (ok false, t) i e ne c h = absurd (ne refl)
axi_next n s (err x, t) i e ne c h = ground (arith, i, e, c)

-- `_drain_axi_dm` from any state in which no more handles and instructions wait than it has steps
-- left ends by returning with both queues empty, or by an error of process_one: it never raises
-- that it did not drain.
pub drain_axi_dm-Ends :
    (n : ℕ) (s : AxiMaster) → backlog s ≤ n → Ends AxiMaster.idle (drain_axi_dm n s)
unfolding drain_axi_dm
drain_axi_dm-Ends zero s h = elim (backlog-process_one s) [
  | inl x ↦ ground (arith, x)
  | inr x ↦ absurd (omega (arith, x.1))
]
drain_axi_dm-Ends (suc n) s h = elim (backlog-process_one s) [
  | inl x ↦ ground (arith, x)
  | inr x ↦
      let out = AxiMaster.process_one s in
      axi_next n s out x.0 refl x.2 (axi-calm s) (drain_axi_dm-Ends n out.1 (omega (arith, x.1)))
]

sram_next :
    (n : ℕ) (s : SramController) (out : Result Bool × SramController)
    → SramController.idle s ≡ false
    → SramController.process_one s ≡ out
    → out.0 ≢ ok false
    → calm out.0 ≡ true
    → Ends SramController.idle (drain_sram_dm n out.1)
    → Ends SramController.idle (drain_sram_dm (suc n) s)
unfolding drain_sram_dm
sram_next n s (ok true, t) i e ne c h = ground (arith, i, e, h)
sram_next n s (ok false, t) i e ne c h = absurd (ne refl)
sram_next n s (err x, t) i e ne c h = ground (arith, i, e, c)

-- The same of `_drain_sram_dm` and the instructions of the SRAM controller.
pub drain_sram_dm-Ends :
    (n : ℕ) (s : SramController) → waiting s ≤ n → Ends SramController.idle (drain_sram_dm n s)
unfolding drain_sram_dm
drain_sram_dm-Ends zero s h = elim (waiting-process_one s) [
  | inl x ↦ ground (arith, x)
  | inr x ↦ absurd (omega (arith, x.1))
]
drain_sram_dm-Ends (suc n) s h = elim (waiting-process_one s) [
  | inl x ↦ ground (arith, x)
  | inr x ↦
      let out = SramController.process_one s in
      sram_next n s out x.0 refl x.2 (sram-calm s) (drain_sram_dm-Ends n out.1 (omega (arith, x.1)))
]
