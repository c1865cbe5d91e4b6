-- ===== src/AxiMaster/Safety.antt =====
-- source/axi_4_master.py: what holds of every `process_one`, whether it returns or raises.
use axi_dma_engine.Base.{
  ℕ, zero, suc, ◌+◌, ◌≡◌, ◌≢◌, refl, true, false, List, [], ◌∷◌, length, length-set, arith, ok, ◌⊎◌,
  ◌∙◌, >>=-keeps, ◌>>=◌, pure, ◌/◌,
}
use axi_dma_engine.Base.Words.{mask, shr}
use axi_dma_engine.Fifo
use axi_dma_engine.Fifo.{Fifo}
use axi_dma_engine.Fifo.Order
use axi_dma_engine.Memory.{store}
use axi_dma_engine.AxiMaster.{
  AxiMaster, idle, read_loop, write_loop, mem_read_words, mem_write_words, pop_words, push_words,
  on_df_in, on_dm_in, word_index, do_descriptor_fetch, serve_handle, serve_instr, do_instruction,
  do_read, do_write, process_one,
}

-- The size that the memory reports is its length, and every FIFO is valid.
pub record IsValid (s : AxiMaster) : Type 0 where
  pub sized : length s.memory.mem ≡ s.memory.size
  pub df_in_valid : Order.IsValid s.df_in
  pub df_out_valid : Order.IsValid s.df_out
  pub dm_in_valid : Order.IsValid s.dm_in
  pub mid_valid : Order.IsValid s.mid

read_loop_frame : (w n : ℕ) (mem : List ℕ) → (read_loop w n mem).1 ≡ mem
unfolding read_loop
read_loop_frame w zero mem = refl
read_loop_frame w (suc n) mem = ground (arith, read_loop_frame (w + 1) n mem)

mem_read_words_frame : (a n : ℕ) (mem : List ℕ) → (mem_read_words a n mem).1 ≡ mem
unfolding mem_read_words word_index
mem_read_words_frame a n mem = ground (arith, read_loop_frame (mask 32 (a / 4)) n mem)

length-store : (i v : ℕ) (mem : List ℕ) → length (store i v mem).1 ≡ length mem
unfolding store
length-store i v mem = ground (arith, length-set mem i v)

length-write_loop : (i : ℕ) (ws mem : List ℕ) → length (write_loop i ws mem).1 ≡ length mem
unfolding write_loop
length-write_loop i [] mem = refl
length-write_loop i (w ∷ ws) mem =
    >>=-keeps (λ m. length m ≡ length mem) (store i (mask 32 w) mem) (λ _. write_loop (i + 1) ws)
      (length-store i (mask 32 w) mem) (λ _ m h. length-write_loop (i + 1) ws m ∙ h)

length-mem_write_words :
    (a : ℕ) (ws mem : List ℕ) → length (mem_write_words a ws mem).1 ≡ length mem
unfolding mem_write_words word_index
length-mem_write_words a ws mem = ground (arith, length-write_loop (mask 32 (a / 4)) ws mem)

pop_words-IsValid : (n : ℕ) (q : Fifo) → Order.IsValid q → Order.IsValid (pop_words n q).1
unfolding pop_words
pop_words-IsValid zero q v = v
pop_words-IsValid (suc n) q v =
    >>=-keeps Order.IsValid (Fifo.dequeue q) (λ a. pop_words n >>= λ ws. pure (mask 32 a ∷ ws))
      (Order.dequeue-IsValid q v)
      (λ a q' v'.
        >>=-keeps Order.IsValid (pop_words n q') (λ ws. pure (mask 32 a ∷ ws))
          (pop_words-IsValid n q' v') (λ ws q'' v''. v''))

push_words-IsValid : (vs : List ℕ) (q : Fifo) → Order.IsValid q → Order.IsValid (push_words vs q).1
unfolding push_words
push_words-IsValid [] q v = v
push_words-IsValid (w ∷ vs) q v =
    >>=-keeps Order.IsValid (Fifo.enqueue w q) (λ _. push_words vs) (Order.enqueue-IsValid w q v)
      (λ _ q' v'. push_words-IsValid vs q' v')

-- Once its handle is taken, a fetch touches `df_out` alone.
record Fetched (s t : AxiMaster) : Type 0 where
  memory_same : t.memory ≡ s.memory
  df_in_same : t.df_in ≡ s.df_in
  dm_in_same : t.dm_in ≡ s.dm_in
  mid_same : t.mid ≡ s.mid
  valid : Order.IsValid s.df_out → Order.IsValid t.df_out

serve_handle-Fetched : (h : ℕ) (s : AxiMaster) → Fetched s (serve_handle h s).1
unfolding serve_handle
serve_handle-Fetched h s = grind (arith, mem_read_words_frame, Order.enqueue-IsValid)

-- Once its instruction is taken, a burst touches the memory's words and MID alone.
record Moved (s t : AxiMaster) : Type 0 where
  size_same : t.memory.size ≡ s.memory.size
  length_same : length t.memory.mem ≡ length s.memory.mem
  df_in_same : t.df_in ≡ s.df_in
  df_out_same : t.df_out ≡ s.df_out
  dm_in_same : t.dm_in ≡ s.dm_in
  valid : Order.IsValid s.mid → Order.IsValid t.mid

do_read-Moved : (a n : ℕ) (s : AxiMaster) → Moved s (do_read a n s).1
unfolding do_read
do_read-Moved a n s = grind (arith, mem_read_words_frame, push_words-IsValid)

do_write-Moved : (a n : ℕ) (s : AxiMaster) → Moved s (do_write a n s).1
unfolding do_write
do_write-Moved a n s = grind (arith, length-mem_write_words, pop_words-IsValid)

serve_instr-Moved : (i : ℕ) (s : AxiMaster) → Moved s (serve_instr i s).1
unfolding serve_instr
serve_instr-Moved i s =
    let a = mask 32 i in
    let n = mask 8 (shr i 32) in ground (arith, do_read-Moved a n s, do_write-Moved a n s)

-- The work that waits: handles and instructions.
abbrev pub backlog : AxiMaster → ℕ
backlog s = length s.df_in.buffer + length s.dm_in.buffer

do_descriptor_fetch-IsValid : (s : AxiMaster) → IsValid s → IsValid (do_descriptor_fetch s).1
unfolding do_descriptor_fetch
do_descriptor_fetch-IsValid s v =
    >>=-keeps IsValid (on_df_in Fifo.dequeue s) serve_handle
      (ground (arith, Order.dequeue-IsValid s.df_in))
      (λ h t w. ground (arith, serve_handle-Fetched h t))

do_instruction-IsValid : (s : AxiMaster) → IsValid s → IsValid (do_instruction s).1
unfolding do_instruction
do_instruction-IsValid s v =
    >>=-keeps IsValid (on_dm_in Fifo.dequeue s) serve_instr
      (ground (arith, Order.dequeue-IsValid s.dm_in))
      (λ i t w. ground (arith, serve_instr-Moved i t))

-- `process_one` keeps the state valid, whether it returns or raises.
pub process_one-IsValid : (s : AxiMaster) → IsValid s → IsValid (process_one s).1
unfolding process_one
process_one-IsValid s v =
    ground (arith, do_descriptor_fetch-IsValid s v, do_instruction-IsValid s v)

take_handle :
    (s : AxiMaster) (h : ℕ) (hs : List ℕ)
    → s.df_in.buffer ≡ h ∷ hs
    → (process_one s).1 ≡ (serve_handle h (record s { df_in = record (s.df_in) { buffer = hs } })).1
unfolding process_one do_descriptor_fetch Fifo.dequeue
take_handle s h hs e = ground arith

-- While a handle waits, one `process_one` takes exactly that handle; memory, MID and the
-- instruction queue stay as they are, also if the handle is refused.
pub process_one_handle_first :
    (s : AxiMaster) (h : ℕ) (hs : List ℕ)
    → s.df_in.buffer ≡ h ∷ hs
    → let t = (process_one s).1 in
      (t.df_in.buffer ≡ hs) × (t.dm_in ≡ s.dm_in) × (t.mid ≡ s.mid) × (t.memory ≡ s.memory)
process_one_handle_first s h hs e =
    let s' : AxiMaster = record s { df_in = record (s.df_in) { buffer = hs } } in
    ground (arith, take_handle s h hs e, serve_handle-Fetched h s')

-- A `process_one` takes one piece of work off the queues, also if it raises; without work it
-- returns False and changes nothing.
pub backlog-process_one :
    (s : AxiMaster)
    → ((idle s ≡ true) × (process_one s ≡ (ok false, s)))
      ⊎ ((idle s ≡ false)
          × (backlog s ≡ suc (backlog (process_one s).1))
          × ((process_one s).0 ≢ ok false))
unfolding process_one do_descriptor_fetch do_instruction Fifo.dequeue idle
backlog-process_one s = grind (arith, serve_handle-Fetched, serve_instr-Moved)
