-- ===== src/SramController/Serve.antt =====
-- source/sram_controller.py: what one `process_one` does with an instruction.
use mathlib.Core.List.{append-nil, append_assoc}
use native.Mathlib.Decide.{dec_lt}
use axi_dma_engine.Base.{
  ℕ, zero, suc, ◌+◌, ◌/◌, ◌^◌, ◌≤◌, ◌<◌, ◌≡◌, refl, true, false, List, [], ◌∷◌, ◌++◌, length,
  length-append, length-set, set, get_or, arith, ok, err, index_error, ◌∙◌, sym,
}
use axi_dma_engine.Base.Words.{mask}
use axi_dma_engine.Fifo
use axi_dma_engine.Fifo.{Fifo}
use axi_dma_engine.Fifo.Order.{enqueue_room, dequeue_front}
use axi_dma_engine.Memory.Slices.{
  slice, overwrite, overwrite-nil, overwrite-set, load_lem, store_lem, store_out, overwrite-beyond,
}
use axi_dma_engine.AxiMaster.{pack_instruction}
use axi_dma_engine.AxiMaster.Burst.{masked}
use axi_dma_engine.AxiMaster.Codec.{pack_instruction_fields}
use axi_dma_engine.SramController.{
  SramController, write_loop, read_loop, serve_instr, do_instruction, process_one,
}

read_loop_lem :
    (w n : ℕ) (s : SramController)
    → w + n ≤ length s.sram
    → length s.mid.buffer + n ≤ s.mid.queue_length
    → read_loop w n s ≡ (
      ok tt,
      record s { mid = record (s.mid) { buffer = s.mid.buffer ++ masked (slice w n s.sram) } },
    )
unfolding read_loop
read_loop_lem w zero s fits room = rw append-nil
read_loop_lem w (suc n) s fits room =
    let v = mask 32 (get_or s.sram w 0) in
    let q : Fifo = record (s.mid) { buffer = s.mid.buffer ++ v ∷ [] } in
    let s' : SramController = record s { mid = q } in
    ground (
      arith,
      load_lem w s.sram (omega arith),
      enqueue_room v s.mid (omega arith),
      read_loop_lem (w + 1) n s' (omega arith) (omega (arith, length-append s.mid.buffer (v ∷ []))),
      append_assoc s.mid.buffer (v ∷ []) (masked (slice (w + 1) n s.sram)),
    )

write_loop_lem :
    (w : ℕ) (vs rest : List ℕ) (s : SramController)
    → s.mid.buffer ≡ vs ++ rest
    → w + length vs ≤ length s.sram
    → write_loop w (length vs) s ≡ (
      ok tt,
      record s { mid = record (s.mid) { buffer = rest }; sram = overwrite w (masked vs) s.sram },
    )
unfolding write_loop
write_loop_lem w [] rest s h fits = ground (arith, overwrite-nil w s.sram)
write_loop_lem w (v ∷ vs) rest s h fits =
    let x = mask 32 v in
    let q : Fifo = record (s.mid) { buffer = vs ++ rest } in
    let s' : SramController = record s { mid = q; sram = set s.sram w x } in
    ground (
      arith,
      dequeue_front v (vs ++ rest) s.mid.queue_length,
      store_lem w x s.sram (omega arith),
      write_loop_lem (w + 1) vs rest s' refl (omega (arith, length-set s.sram w x)),
      overwrite-set w x (masked vs) s.sram (omega arith),
    )

module _ (w v : ℕ) (vs : List ℕ) (n : ℕ) (s : SramController) (h : s.mid.buffer ≡ v ∷ vs) where
  stored : SramController
  stored = record s { mid = record (s.mid) { buffer = vs }; sram = set s.sram w (mask 32 v) }

  write_loop_step : w < length s.sram → write_loop w (suc n) s ≡ write_loop (w + 1) n stored
  unfolding write_loop Fifo.dequeue stored
  write_loop_step p = ground (arith, store_lem w (mask 32 v) s.sram p)

  write_loop_stop :
      length s.sram ≤ w
      → write_loop w (suc n) s
        ≡ (err index_error, record s { mid = record (s.mid) { buffer = vs } })
  unfolding write_loop Fifo.dequeue
  write_loop_stop p = ground (arith, store_out w (mask 32 v) s.sram p)

-- A write that runs past the end of the SRAM.
abbrev Overruns : ℕ → List ℕ → SramController → Type 0
Overruns w vs s =
    ((write_loop w (length vs) s).0 ≡ err index_error)
    × ((write_loop w (length vs) s).1.sram ≡ overwrite w (masked vs) s.sram)

write_loop_overrun :
    (w : ℕ) (vs rest : List ℕ) (s : SramController)
    → s.mid.buffer ≡ vs ++ rest
    → length s.sram < w + length vs
    → w ≤ length s.sram
    → Overruns w vs s
unfolding stored
write_loop_overrun w [] rest s h over start = absurd (omega arith)
write_loop_overrun w (v ∷ vs) rest s h over start = elim (dec_lt w (length s.sram)) [
  | yes p ↦
      let e = length-set s.sram w (mask 32 v) in
      let ih =
        write_loop_overrun (w + 1) vs rest (stored w v (vs ++ rest) (length vs) s h) refl
          (omega arith) (omega arith) in
      rw (write_loop_step w v (vs ++ rest) (length vs) s h p)
        (ih.0, ih.1 ∙ overwrite-set w (mask 32 v) (masked vs) s.sram p)
  | no p ↦
      rw (write_loop_stop w v (vs ++ rest) (length vs) s h (omega arith))
        (refl, sym (overwrite-beyond w (masked (v ∷ vs)) s.sram (omega arith)))
]

module _ (s : SramController) (a : ℕ) (rest : List ℕ) (word : a < 2 ^ 32) where
  -- A read instruction of a 32-bit address, with its burst inside the SRAM and room in MID, appends
  -- the words of its burst to MID, and nothing else changes; the address is cut to a word.
  pub serve_read :
      (n : ℕ)
      → s.dm_in.buffer ≡ pack_instruction a n false ∷ rest
      → n < 256
      → a / 4 + n ≤ length s.sram
      → length s.mid.buffer + n ≤ s.mid.queue_length
      → process_one s ≡ (
        ok true,
        record s {
          dm_in = record (s.dm_in) { buffer = rest };
          mid = record (s.mid) { buffer = s.mid.buffer ++ masked (slice (a / 4) n s.sram) };
        },
      )
  unfolding process_one do_instruction serve_instr Fifo.dequeue
  serve_read n e hn fits room =
      let s' : SramController = record s { dm_in = record (s.dm_in) { buffer = rest } } in
      ground (arith, pack_instruction_fields a n false, read_loop_lem (a / 4) n s' fits room)

  -- A write instruction of a 32-bit address, with its words at the front of MID and its burst
  -- inside the SRAM, takes those words and lays them over its burst, and nothing else changes; the
  -- address is cut to a word.
  pub serve_write :
      (vs left : List ℕ)
      → s.dm_in.buffer ≡ pack_instruction a (length vs) true ∷ rest
      → s.mid.buffer ≡ vs ++ left
      → length vs < 256
      → a / 4 + length vs ≤ length s.sram
      → process_one s ≡ (
        ok true,
        record s {
          dm_in = record (s.dm_in) { buffer = rest };
          mid = record (s.mid) { buffer = left };
          sram = overwrite (a / 4) (masked vs) s.sram;
        },
      )
  unfolding process_one do_instruction serve_instr Fifo.dequeue
  serve_write vs left e m hn fits =
      let s' : SramController = record s { dm_in = record (s.dm_in) { buffer = rest } } in
      ground (
        arith,
        pack_instruction_fields a (length vs) true,
        write_loop_lem (a / 4) vs left s' m fits,
      )

  -- A write of words at the front of MID that starts in the SRAM or at its end, and runs past its
  -- end, raises IndexError after it has stored the words that fit.
  pub serve_overrun :
      (vs left : List ℕ)
      → s.dm_in.buffer ≡ pack_instruction a (length vs) true ∷ rest
      → s.mid.buffer ≡ vs ++ left
      → length vs < 256
      → a / 4 ≤ length s.sram
      → length s.sram < a / 4 + length vs
      → ((process_one s).0 ≡ err index_error)
        × ((process_one s).1.sram ≡ overwrite (a / 4) (masked vs) s.sram)
  unfolding process_one do_instruction serve_instr Fifo.dequeue
  serve_overrun vs left e m hn start over =
      let s' : SramController = record s { dm_in = record (s.dm_in) { buffer = rest } } in
      ground (
        arith,
        pack_instruction_fields a (length vs) true,
        write_loop_overrun (a / 4) vs left s' m over start,
      )
