-- ===== src/Golden/Legs.antt =====
-- sim/run_golden.py: the two drains, each with one instruction queued: a leg of a transfer.
use native.Mathlib.Nat.{mod-mod}
use mathlib.Core.Path.{ap₂}
use mathlib.Core.List.{append-nil}
use axi_dma_engine.Base.{
  sym, ℕ, zero, suc, ◌+◌, ◌*◌, ◌/◌, ◌%◌, ◌^◌, ◌≤◌, ◌<◌, ◌≡◌, refl, Bool, true, false, List, [], ◌∷◌,
  length, arith, ok,
}
use axi_dma_engine.Base.Words.{mask}
use axi_dma_engine.Memory.Slices.{slice, overwrite}
use axi_dma_engine.AxiMaster
use axi_dma_engine.AxiMaster.{AxiMaster, pack_instruction}
use axi_dma_engine.AxiMaster.Burst.{masked}
use axi_dma_engine.AxiMaster.Serve
use axi_dma_engine.SramController
use axi_dma_engine.SramController.{SramController}
use axi_dma_engine.SramController.Serve as SramServe
use axi_dma_engine.Golden.{drain_axi_dm, drain_sram_dm, drain_steps}

pub masked-masked : (xs : List ℕ) → masked (masked xs) ≡ masked xs
masked-masked [] = refl
masked-masked (x ∷ xs) = ap₂ ◌∷◌ (mod-mod x (2 ^ 32)) (masked-masked xs)

drain_axi_one :
    (n : ℕ) (s t : AxiMaster)
    → AxiMaster.process_one s ≡ (ok true, t)
    → AxiMaster.idle s ≡ false
    → AxiMaster.idle t ≡ true
    → drain_axi_dm (suc n) s ≡ (ok tt, t)
unfolding drain_axi_dm
drain_axi_one zero s t p busy done = ground arith
drain_axi_one (suc n) s t p busy done = ground arith

drain_sram_one :
    (n : ℕ) (s t : SramController)
    → SramController.process_one s ≡ (ok true, t)
    → SramController.idle s ≡ false
    → SramController.idle t ≡ true
    → drain_sram_dm (suc n) s ≡ (ok tt, t)
unfolding drain_sram_dm
drain_sram_one zero s t p busy done = ground arith
drain_sram_one (suc n) s t p busy done = ground arith

pack_instruction-mask :
    (a l : ℕ) (w : Bool) → pack_instruction a l w ≡ pack_instruction a (mask 8 l) w
unfolding pack_instruction
pack_instruction-mask a l w = rw (mod-mod l (2 ^ 8))

word_address : (a : ℕ) → a % 4 ≡ 0 → a / 4 * 4 ≡ a
word_address a h = omega arith

-- The AXI master with the instruction queue and MID as given.
abbrev axi_with : List ℕ → List ℕ → AxiMaster → AxiMaster
axi_with instrs words g = record g {
  dm_in = record (g.dm_in) { buffer = instrs };
  mid = record (g.mid) { buffer = words };
}

abbrev sram_with : List ℕ → List ℕ → SramController → SramController
sram_with instrs words c = record c {
  dm_in = record (c.dm_in) { buffer = instrs };
  mid = record (c.mid) { buffer = words };
}

module _ (g : AxiMaster) (no_handle : g.df_in.buffer ≡ []) (a l : ℕ) (word : a < 2 ^ 32)
    (aligned : a % 4 ≡ 0) where
  pub axi_read_leg :
      a / 4 + mask 8 l ≤ length g.memory.mem
      → mask 8 l ≤ g.mid.queue_length
      → drain_axi_dm drain_steps (axi_with (pack_instruction a l false ∷ []) [] g)
        ≡ (ok tt, axi_with [] (masked (slice (a / 4) (mask 8 l) g.memory.mem)) g)
  unfolding AxiMaster.idle
  axi_read_leg fits room =
      let s = axi_with (pack_instruction a l false ∷ []) [] g in
      let e = pack_instruction-mask a l false in
      let served =
        Serve.process_one_read s (a / 4) [] (omega arith) (mask 8 l) no_handle
          (rw (word_address a aligned, ← e) refl) (omega arith) fits (omega arith) in
      drain_axi_one 511 s (axi_with [] (masked (slice (a / 4) (mask 8 l) g.memory.mem)) g) served
        (ground arith) (ground arith)

  pub axi_write_leg :
      (vs : List ℕ)
      → length vs ≡ mask 8 l
      → a / 4 + mask 8 l ≤ length g.memory.mem
      → drain_axi_dm drain_steps (axi_with (pack_instruction a l true ∷ []) vs g) ≡ (
        ok tt,
        axi_with [] [] (record g {
          memory = record (g.memory) { mem = overwrite (a / 4) (masked vs) g.memory.mem };
        }),
      )
  unfolding AxiMaster.idle
  axi_write_leg vs len fits =
      let s = axi_with (pack_instruction a l true ∷ []) vs g in
      let e = pack_instruction-mask a l true in
      let m = overwrite (a / 4) (masked (masked vs)) g.memory.mem in
      let t : AxiMaster = axi_with [] [] (record g { memory = record (g.memory) { mem = m } }) in
      let served =
        Serve.process_one_write s (a / 4) [] (omega arith) vs [] no_handle
          (rw (word_address a aligned, len, ← e) refl) (sym (append-nil vs)) (omega arith)
          (omega arith) in
      rw (← masked-masked vs) (drain_axi_one 511 s t served (ground arith) (ground arith))

module _ (c : SramController) (a l : ℕ) (word : a < 2 ^ 32) where
  pub sram_read_leg :
      a / 4 + mask 8 l ≤ length c.sram
      → mask 8 l ≤ c.mid.queue_length
      → drain_sram_dm drain_steps (sram_with (pack_instruction a l false ∷ []) [] c)
        ≡ (ok tt, sram_with [] (masked (slice (a / 4) (mask 8 l) c.sram)) c)
  unfolding SramController.idle
  sram_read_leg fits room =
      let s = sram_with (pack_instruction a l false ∷ []) [] c in
      let e = pack_instruction-mask a l false in
      let served =
        SramServe.serve_read s a [] word (mask 8 l) (rw (← e) refl) (omega arith) fits
          (omega arith) in
      drain_sram_one 511 s (sram_with [] (masked (slice (a / 4) (mask 8 l) c.sram)) c) served
        (ground arith) (ground arith)

  pub sram_write_leg :
      (vs : List ℕ)
      → length vs ≡ mask 8 l
      → a / 4 + mask 8 l ≤ length c.sram
      → drain_sram_dm drain_steps (sram_with (pack_instruction a l true ∷ []) vs c)
        ≡ (ok tt, sram_with [] [] (record c { sram = overwrite (a / 4) (masked vs) c.sram }))
  unfolding SramController.idle
  sram_write_leg vs len fits =
      let s = sram_with (pack_instruction a l true ∷ []) vs c in
      let e = pack_instruction-mask a l true in
      let t : SramController =
        sram_with [] [] (record c { sram = overwrite (a / 4) (masked vs) c.sram }) in
      let served =
        SramServe.serve_write s a [] word vs [] (rw (len, ← e) refl) (sym (append-nil vs))
          (omega arith) (omega arith) in
      drain_sram_one 511 s t served (ground arith) (ground arith)
