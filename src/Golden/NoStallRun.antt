-- ===== src/Golden/NoStallRun.antt =====
-- sim/run_golden.py: run_scenario and the bounds of the two drains.
use mathlib.Core.Path.{subst}
use axi_dma_engine.Base.{
  ℕ, ◌≡◌, refl, sym, true, List, [], ◌∷◌, ◌++◌, arith, Result, ok, err, ◌>>=◌, pure,
}
use axi_dma_engine.Base.Words.{mask}
use axi_dma_engine.Memory.{SystemMemory, store, new_memory, new_sram}
use axi_dma_engine.Descriptor
use axi_dma_engine.Descriptor.{Descriptor}
use axi_dma_engine.RingManager
use axi_dma_engine.RingManager.{RingManager}
use axi_dma_engine.Golden.{System, max_iters}
use axi_dma_engine.Golden.Scenario.{
  Row, apply_desc, apply_row, apply_rows, build, run_enabled, run_rows, run_scenario,
}
use axi_dma_engine.Golden.Calm.{calm}
use axi_dma_engine.Golden.Stalls.{Good, >>=-Good, Few}
use axi_dma_engine.Golden.NoStall.{AtMost, Good-calm, event_loop-Good}
use axi_dma_engine.Golden.Setup.{build_inv}
use axi_dma_engine.Fifo

store-calm : (i v : ℕ) (mem : List ℕ) → calm (store i v mem).0 ≡ true
unfolding store
store-calm i v mem = ground arith

store_words-calm :
    (w : ℕ) (d : Descriptor) (mem : List ℕ) → calm (RingManager.store_words w d mem).0 ≡ true
unfolding RingManager.store_words
store_words-calm w d mem = grind (arith, store-calm)

write_desc-calm :
    (a : ℕ) (d : Descriptor) (m : SystemMemory)
    → calm (RingManager.write_desc_to_mem a d m).0 ≡ true
unfolding RingManager.write_desc_to_mem
write_desc-calm a d m = grind (arith, store_words-calm)

enqueue-Good : (d : Descriptor) (s : RingManager) → Few 0 s → Good (Few 0) (RingManager.enqueue d s)
unfolding RingManager.enqueue RingManager.ringlen RingManager.is_full RingManager.slot_byte_addr
enqueue-Good d s h = grind (arith, h, write_desc-calm)

apply_desc-Good :
    (a b c d : ℕ) (s : System) → AtMost 0 0 s → Good (AtMost 0 0) (apply_desc a b c d s)
unfolding apply_desc
apply_desc-Good a b c d s h =
    let D = Descriptor.new (mask 32 a) (mask 32 b) (mask 32 c) (mask 32 d) in
    let e = enqueue-Good D s.ring h.0 in grind (arith, e, h)

apply_row-Good :
    (m l : ℕ) (row : Row) (s : System) → AtMost 0 0 s → Good (AtMost 0 0) (apply_row m l row s)
unfolding apply_row
apply_row-Good m l Row.blank s h = h
apply_row-Good m l (Row.smem w x) s h = ground (arith, h)
apply_row-Good m l (Row.sram w x) s h = ground (arith, h)
apply_row-Good m l (Row.csr_baseaddr a) s h = h
apply_row-Good m l (Row.csr_ringlen n) s h = h
apply_row-Good m l (Row.desc a b c d) s h = apply_desc-Good a b c d s h
apply_row-Good m l Row.enable s h = h
apply_row-Good m l Row.other s h = refl

apply_rows-Good :
    (m l : ℕ) (rows : List Row) (s : System)
    → AtMost 0 0 s
    → Good (AtMost 0 0) (apply_rows m l rows s)
unfolding apply_rows
apply_rows-Good m l [] s h = h
apply_rows-Good m l (row ∷ rows) s h =
    >>=-Good (AtMost 0 0) (AtMost 0 0) (apply_row m l row s)
      (λ lines. apply_rows m l rows >>= λ rest. pure (lines ++ rest)) (apply_row-Good m l row s h)
      (λ lines t q.
        >>=-Good (AtMost 0 0) (AtMost 0 0) (apply_rows m l rows t) (λ rest. pure (lines ++ rest))
          (apply_rows-Good m l rows t q) (λ rest u p. p))

run_enabled-Good : (s : System) → AtMost 0 0 s → Good (AtMost 1 0) (run_enabled s)
unfolding run_enabled
run_enabled-Good s h = grind (arith, h, event_loop-Good max_iters s h)

run_rows-Good :
    (m l : ℕ) (rows : List Row) (s : System)
    → AtMost 0 0 s
    → Good (AtMost 1 0) (run_rows m l rows s)
unfolding run_rows
run_rows-Good m l rows s h = grind (arith, apply_rows-Good m l rows s h, run_enabled-Good)

built_scenario-calm :
    (m l : ℕ) (rows : List Row) (b : Result System)
    → (build m l tt).0 ≡ b
    → calm b ≡ true
    → calm (run_scenario rows m l) ≡ true
unfolding run_scenario
built_scenario-calm m l rows (ok s) e c =
    let quiet : AtMost 0 0 s =
      subst (AtMost 0 0) (sym (build_inv m l s e)) (omega arith, omega arith) in
    let out = run_rows m l rows s in
    ground (arith, e, Good-calm (AtMost 1 0) out (run_rows-Good m l rows s quiet))
built_scenario-calm m l rows (err x) e c = ground (arith, e, c)

build-calm : (m l : ℕ) → calm (build m l tt).0 ≡ true
unfolding build new_memory new_sram Fifo.new
build-calm m l = ground arith

-- Whatever the rows of a scenario and the sizes of the memories are, run_scenario returns or raises
-- another error than that a drain has run out of its steps: the RuntimeErrors of `_drain_axi_dm`
-- and `_drain_sram_dm` are never raised.
pub run_scenario-calm : (rows : List Row) (m l : ℕ) → calm (run_scenario rows m l) ≡ true
run_scenario-calm rows m l = built_scenario-calm m l rows (build m l tt).0 refl (build-calm m l)
