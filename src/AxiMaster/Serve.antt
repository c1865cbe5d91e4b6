-- ===== src/AxiMaster/Serve.antt =====
-- source/axi_4_master.py: what one `process_one` does with a handle or an instruction that fits.
use mathlib.Core.List.{append-nil}
use axi_dma_engine.Base.{
  ℕ, ◌+◌, ◌*◌, ◌^◌, ◌≤◌, ◌<◌, ◌≡◌, true, false, List, [], ◌∷◌, ◌++◌, length, length-append, arith,
  ok,
}
use axi_dma_engine.Fifo
use axi_dma_engine.Fifo.{Fifo}
use axi_dma_engine.Fifo.Order.{enqueue_room}
use axi_dma_engine.Memory.Slices.{slice, overwrite, overwrite-nil, length-slice}
use axi_dma_engine.AxiMaster.{
  AxiMaster, pack_handle, pack_instruction, pack_descriptor_words, do_descriptor_fetch,
  serve_handle, serve_instr, do_instruction, do_read, do_write, process_one,
}
use axi_dma_engine.AxiMaster.Codec.{pack_handle_fields, pack_instruction_fields}
use axi_dma_engine.AxiMaster.Burst.{
  masked, mem_read_words_lem, mem_write_words_lem, pop_words_lem, push_words_lem, length-masked,
}

do_descriptor_fetch_lem :
    (s : AxiMaster) (w n : ℕ) (rest : List ℕ)
    → s.df_in.buffer ≡ pack_handle (w * 4) n ∷ rest
    → n ≤ 4
    → w < 2 ^ 30
    → w + n ≤ length s.memory.mem
    → length s.df_out.buffer < s.df_out.queue_length
    → do_descriptor_fetch s ≡ (
      ok tt,
      record s {
        df_in = record (s.df_in) { buffer = rest };
        df_out = record (s.df_out) {
          buffer = s.df_out.buffer ++ pack_descriptor_words (masked (slice w n s.memory.mem)) ∷ [];
        };
      },
    )
unfolding do_descriptor_fetch serve_handle Fifo.dequeue
do_descriptor_fetch_lem s w n rest h hn hw fits room = ground (
  arith,
  pack_handle_fields (w * 4) n,
  mem_read_words_lem w n s.memory.mem hw fits,
  enqueue_room (pack_descriptor_words (masked (slice w n s.memory.mem))) s.df_out room,
)

do_read_lem :
    (s : AxiMaster) (w n : ℕ)
    → w < 2 ^ 30
    → w + n ≤ length s.memory.mem
    → length s.mid.buffer + n ≤ s.mid.queue_length
    → do_read (w * 4) n s ≡ (
      ok tt,
      record s {
        mid = record (s.mid) { buffer = s.mid.buffer ++ masked (slice w n s.memory.mem) };
      },
    )
unfolding do_read
do_read_lem s w n hw fits room =
    let words = masked (slice w n s.memory.mem) in
    ground (
      arith,
      mem_read_words_lem w n s.memory.mem hw fits,
      push_words_lem words s.mid
          (omega (arith, length-masked (slice w n s.memory.mem), length-slice w n s.memory.mem)),
    )

do_write_lem :
    (s : AxiMaster) (w : ℕ) (vs rest : List ℕ)
    → s.mid.buffer ≡ vs ++ rest
    → w < 2 ^ 30
    → w + length vs ≤ length s.memory.mem
    → do_write (w * 4) (length vs) s ≡ (
      ok tt,
      record s {
        mid = record (s.mid) { buffer = rest };
        memory = record (s.memory) { mem = overwrite w (masked (masked vs)) s.memory.mem };
      },
    )
unfolding do_write
do_write_lem s w vs rest h hw fits = ground (
  arith,
  length-append vs rest,
  pop_words_lem vs rest s.mid.queue_length,
  length-masked vs,
  mem_write_words_lem w (masked vs) s.memory.mem hw (omega (arith, length-masked vs)),
)

module _ (s : AxiMaster) (w : ℕ) (rest : List ℕ) (aligned : w < 2 ^ 30) where
  -- A descriptor handle of an aligned address and at most four words at the front of `df_in`, with
  -- its burst inside the memory and room in `df_out`, is served: the words of the burst go packed
  -- to `df_out`, and nothing else changes, whatever waits in `dm_in`.
  pub process_one_handle :
      (n : ℕ)
      → s.df_in.buffer ≡ pack_handle (w * 4) n ∷ rest
      → n ≤ 4
      → w + n ≤ length s.memory.mem
      → length s.df_out.buffer < s.df_out.queue_length
      → process_one s ≡ (
        ok true,
        record s {
          df_in = record (s.df_in) { buffer = rest };
          df_out = record (s.df_out) {
            buffer =
                s.df_out.buffer ++ pack_descriptor_words (masked (slice w n s.memory.mem)) ∷ [];
          };
        },
      )
  unfolding process_one
  process_one_handle n h hn fits room =
      ground (arith, do_descriptor_fetch_lem s w n rest h hn aligned fits room)

  -- With no handle waiting, a read instruction of an aligned address, with its burst inside the
  -- memory and room in MID, appends the words of its burst to MID, and nothing else changes.
  pub process_one_read :
      (n : ℕ)
      → s.df_in.buffer ≡ []
      → s.dm_in.buffer ≡ pack_instruction (w * 4) n false ∷ rest
      → n < 256
      → w + n ≤ length s.memory.mem
      → length s.mid.buffer + n ≤ s.mid.queue_length
      → process_one s ≡ (
        ok true,
        record s {
          dm_in = record (s.dm_in) { buffer = rest };
          mid = record (s.mid) { buffer = s.mid.buffer ++ masked (slice w n s.memory.mem) };
        },
      )
  unfolding process_one do_instruction serve_instr Fifo.dequeue
  process_one_read n h e hn fits room =
      let s' : AxiMaster = record s { dm_in = record (s.dm_in) { buffer = rest } } in
      ground (
        arith,
        pack_instruction_fields (w * 4) n false,
        do_read_lem s' w n aligned fits room,
        append-nil s.mid.buffer,
      )

  -- With no handle waiting, a write instruction of an aligned address, with its words at the front
  -- of MID and its burst inside the memory, takes those words and lays them over its burst, and
  -- nothing else changes.
  pub process_one_write :
      (vs left : List ℕ)
      → s.df_in.buffer ≡ []
      → s.dm_in.buffer ≡ pack_instruction (w * 4) (length vs) true ∷ rest
      → s.mid.buffer ≡ vs ++ left
      → length vs < 256
      → w + length vs ≤ length s.memory.mem
      → process_one s ≡ (
        ok true,
        record s {
          dm_in = record (s.dm_in) { buffer = rest };
          mid = record (s.mid) { buffer = left };
          memory = record (s.memory) { mem = overwrite w (masked (masked vs)) s.memory.mem };
        },
      )
  unfolding process_one do_instruction serve_instr Fifo.dequeue
  process_one_write [] left h e m hn fits =
      ground (arith, pack_instruction_fields (w * 4) 0 true, overwrite-nil w s.memory.mem)
  process_one_write (v ∷ vs) left h e m hn fits =
      let s' : AxiMaster = record s { dm_in = record (s.dm_in) { buffer = rest } } in
      ground (
        arith,
        pack_instruction_fields (w * 4) (length (v ∷ vs)) true,
        do_write_lem s' w (v ∷ vs) left m aligned fits,
      )
