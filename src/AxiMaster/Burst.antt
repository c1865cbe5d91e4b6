-- ===== src/AxiMaster/Burst.antt =====
-- source/axi_4_master.py: the bursts between the system memory and a list of words.
use mathlib.Core.List.{append_assoc, append-nil}
use axi_dma_engine.Base.{
  length-append, ℕ, zero, suc, ◌+◌, ◌*◌, ◌^◌, ◌≤◌, ◌<◌, ◌≡◌, refl, ap, List, [], ◌∷◌, ◌++◌, map,
  length, set, length-set, arith, ok,
}
use axi_dma_engine.Base.Words.{mask}
use axi_dma_engine.Fifo.{Fifo}
use axi_dma_engine.Fifo.Order.{dequeue_front, enqueue_room}
use axi_dma_engine.Memory.Slices.{
  slice, overwrite, overwrite-nil, overwrite-set, load_lem, store_lem,
}
use axi_dma_engine.AxiMaster.{
  read_loop, write_loop, mem_read_words, mem_write_words, pop_words, push_words,
}

abbrev pub masked : List ℕ → List ℕ
masked = map (mask 32)

pub read_loop_lem :
    (w n : ℕ) (mem : List ℕ)
    → w + n ≤ length mem
    → read_loop w n mem ≡ (ok (masked (slice w n mem)), mem)
unfolding read_loop
read_loop_lem w zero mem h = refl
read_loop_lem w (suc n) mem h =
    ground (arith, load_lem w mem (omega arith), read_loop_lem (w + 1) n mem (omega arith))

pub write_loop_lem :
    (i : ℕ) (ws mem : List ℕ)
    → i + length ws ≤ length mem
    → write_loop i ws mem ≡ (ok tt, overwrite i (masked ws) mem)
unfolding write_loop
write_loop_lem i [] mem h = rw overwrite-nil
write_loop_lem i (w ∷ ws) mem h =
    let v = mask 32 w in
    ground (
      arith,
      store_lem i v mem (omega arith),
      write_loop_lem (i + 1) ws (set mem i v) (omega (arith, length-set mem i v)),
      overwrite-set i v (masked ws) mem (omega arith),
    )

-- The words of the memory at an aligned byte address.
pub mem_read_words_lem :
    (w n : ℕ) (mem : List ℕ)
    → w < 2 ^ 30
    → w + n ≤ length mem
    → mem_read_words (w * 4) n mem ≡ (ok (masked (slice w n mem)), mem)
unfolding mem_read_words
mem_read_words_lem w n mem hw h = ground (arith, read_loop_lem w n mem h)

pub mem_write_words_lem :
    (w : ℕ) (ws mem : List ℕ)
    → w < 2 ^ 30
    → w + length ws ≤ length mem
    → mem_write_words (w * 4) ws mem ≡ (ok tt, overwrite w (masked ws) mem)
unfolding mem_write_words
mem_write_words_lem w ws mem hw h = ground (arith, write_loop_lem w ws mem h)

pub pop_words_lem :
    (vs ws : List ℕ) (n : ℕ)
    → pop_words (length vs) (record { queue_length = n; buffer = vs ++ ws })
      ≡ (ok (masked vs), record { queue_length = n; buffer = ws })
unfolding pop_words
pop_words_lem [] ws n = refl
pop_words_lem (v ∷ vs) ws n = ground (arith, dequeue_front v (vs ++ ws) n, pop_words_lem vs ws n)

pub push_words_lem :
    (vs : List ℕ) (q : Fifo)
    → length q.buffer + length vs ≤ q.queue_length
    → push_words vs q ≡ (ok tt, record q { buffer = q.buffer ++ vs })
unfolding push_words
push_words_lem [] q h = rw append-nil
push_words_lem (v ∷ vs) q h =
    let q' : Fifo = record q { buffer = q.buffer ++ v ∷ [] } in
    let room : length q'.buffer + length vs ≤ q.queue_length =
      omega (arith, length-append q.buffer (v ∷ [])) in
    ground (
      arith,
      enqueue_room v q (omega arith),
      push_words_lem vs q' room,
      append_assoc q.buffer (v ∷ []) vs,
    )

pub length-masked : (xs : List ℕ) → length (masked xs) ≡ length xs
length-masked [] = refl
length-masked (x ∷ xs) = ap suc (length-masked xs)
