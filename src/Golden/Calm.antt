-- ===== src/Golden/Calm.antt =====
-- sim/run_golden.py: the errors of the drains, and the errors of the calls below them.
use axi_dma_engine.Base.{
  ℕ, zero, suc, ◌+◌, ◌/◌, ◌≡◌, refl, Bool, true, false, List, [], ◌∷◌, arith, Result, Error, Action,
  ok, err, ◌>>=◌, ◌>>◌, and_then, pure, axi_stalled, sram_stalled,
}
use axi_dma_engine.Base.Words.{mask, shr}
use axi_dma_engine.Fifo
use axi_dma_engine.Fifo.{Fifo}
use axi_dma_engine.Memory.{load, store}
use axi_dma_engine.AxiMaster
use axi_dma_engine.AxiMaster.{AxiMaster}
use axi_dma_engine.SramController
use axi_dma_engine.SramController.{SramController}

-- An error, and a result, that is neither of the two drains' RuntimeErrors.
abbrev pub calm_error : Error → Bool
calm_error axi_stalled = false
calm_error sram_stalled = false
calm_error e = true

abbrev pub calm : {A : Type 0} → Result A → Bool
calm (ok a) = true
calm (err e) = calm_error e

>>=-calm :
    {S A B : Type 0} (r : Result A × S) (f : A → Action S B)
    → calm r.0 ≡ true
    → ((a : A) (s : S) → calm (f a s).0 ≡ true)
    → calm (and_then f r).0 ≡ true
>>=-calm (ok a, s) f h k = k a s
>>=-calm (err e, s) f h k = h

read_loop-calm : (w n : ℕ) (mem : List ℕ) → calm (AxiMaster.read_loop w n mem).0 ≡ true
unfolding AxiMaster.read_loop load
read_loop-calm w zero mem = refl
read_loop-calm w (suc n) mem = ground (arith, read_loop-calm (w + 1) n mem)

write_loop-calm : (i : ℕ) (ws mem : List ℕ) → calm (AxiMaster.write_loop i ws mem).0 ≡ true
unfolding AxiMaster.write_loop store
write_loop-calm i [] mem = refl
write_loop-calm i (w ∷ ws) mem =
    >>=-calm (store i (mask 32 w) mem) (λ _. AxiMaster.write_loop (i + 1) ws) (ground arith)
      (λ _ m. write_loop-calm (i + 1) ws m)

dequeue-calm : (q : Fifo) → calm (Fifo.dequeue q).0 ≡ true
unfolding Fifo.dequeue
dequeue-calm q = ground arith

enqueue-calm : (v : ℕ) (q : Fifo) → calm (Fifo.enqueue v q).0 ≡ true
unfolding Fifo.enqueue
enqueue-calm v q = ground arith

pop_words-calm : (n : ℕ) (q : Fifo) → calm (AxiMaster.pop_words n q).0 ≡ true
unfolding AxiMaster.pop_words
pop_words-calm zero q = refl
pop_words-calm (suc n) q =
    >>=-calm (Fifo.dequeue q) (λ v. AxiMaster.pop_words n >>= λ vs. pure (mask 32 v ∷ vs))
      (dequeue-calm q)
      (λ v p.
        >>=-calm (AxiMaster.pop_words n p) (λ vs. pure (mask 32 v ∷ vs)) (pop_words-calm n p)
          (λ vs t. refl))

push_words-calm : (ws : List ℕ) (q : Fifo) → calm (AxiMaster.push_words ws q).0 ≡ true
unfolding AxiMaster.push_words
push_words-calm [] q = refl
push_words-calm (w ∷ ws) q =
    >>=-calm (Fifo.enqueue w q) (λ _. AxiMaster.push_words ws) (enqueue-calm w q)
      (λ _ p. push_words-calm ws p)

mem_read_words-calm : (a n : ℕ) (mem : List ℕ) → calm (AxiMaster.mem_read_words a n mem).0 ≡ true
unfolding AxiMaster.mem_read_words AxiMaster.word_index
mem_read_words-calm a n mem = ground (arith, read_loop-calm (mask 32 (a / 4)) n mem)

mem_write_words-calm :
    (a : ℕ) (ws mem : List ℕ) → calm (AxiMaster.mem_write_words a ws mem).0 ≡ true
unfolding AxiMaster.mem_write_words AxiMaster.word_index
mem_write_words-calm a ws mem = ground (arith, write_loop-calm (mask 32 (a / 4)) ws mem)

serve_handle-calm : (h : ℕ) (s : AxiMaster) → calm (AxiMaster.serve_handle h s).0 ≡ true
unfolding AxiMaster.serve_handle
serve_handle-calm h s = grind (arith, mem_read_words-calm, enqueue-calm)

do_read-calm : (a n : ℕ) (s : AxiMaster) → calm (AxiMaster.do_read a n s).0 ≡ true
unfolding AxiMaster.do_read
do_read-calm a n s = grind (arith, mem_read_words-calm, push_words-calm)

do_write-calm : (a n : ℕ) (s : AxiMaster) → calm (AxiMaster.do_write a n s).0 ≡ true
unfolding AxiMaster.do_write
do_write-calm a n s = grind (arith, mem_write_words-calm, pop_words-calm)

serve_instr-calm : (i : ℕ) (s : AxiMaster) → calm (AxiMaster.serve_instr i s).0 ≡ true
unfolding AxiMaster.serve_instr
serve_instr-calm i s =
    let a = mask 32 i in
    let n = mask 8 (shr i 32) in ground (arith, do_read-calm a n s, do_write-calm a n s)

pub axi-calm : (s : AxiMaster) → calm (AxiMaster.process_one s).0 ≡ true
unfolding AxiMaster.process_one AxiMaster.do_descriptor_fetch AxiMaster.do_instruction
axi-calm s = grind (arith, dequeue-calm, serve_handle-calm, serve_instr-calm)

sram_write_loop-calm :
    (w n : ℕ) (s : SramController) → calm (SramController.write_loop w n s).0 ≡ true
unfolding SramController.write_loop store
sram_write_loop-calm w zero s = refl
sram_write_loop-calm w (suc n) s =
    >>=-calm (SramController.on_mid Fifo.dequeue s)
      (λ v. SramController.on_sram (store w (mask 32 v)) >> SramController.write_loop (w + 1) n)
      (dequeue-calm s.mid)
      (λ v t.
        >>=-calm (SramController.on_sram (store w (mask 32 v)) t)
          (λ _. SramController.write_loop (w + 1) n) (ground arith)
          (λ _ u. sram_write_loop-calm (w + 1) n u))

sram_read_loop-calm :
    (w n : ℕ) (s : SramController) → calm (SramController.read_loop w n s).0 ≡ true
unfolding SramController.read_loop load
sram_read_loop-calm w zero s = refl
sram_read_loop-calm w (suc n) s =
    grind (arith, enqueue-calm, λ (t : SramController). sram_read_loop-calm (w + 1) n t)

sram_serve-calm : (i : ℕ) (s : SramController) → calm (SramController.serve_instr i s).0 ≡ true
unfolding SramController.serve_instr
sram_serve-calm i s =
    let w = shr (mask 32 i) 2 in
    let n = mask 8 (shr i 32) in
    ground (arith, sram_write_loop-calm w n s, sram_read_loop-calm w n s)

pub sram-calm : (s : SramController) → calm (SramController.process_one s).0 ≡ true
unfolding SramController.process_one SramController.do_instruction
sram-calm s = grind (arith, dequeue-calm, sram_serve-calm)
