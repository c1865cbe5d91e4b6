-- ===== src/AxiMaster.antt =====
-- source/axi_4_master.py: the functional model of the AXI master. One `process_one` serves a
-- descriptor handle from `df_in`, or else an instruction from `dm_in`.
use Prim.Native.Nat.{bit_or}
use axi_dma_engine.Base.{
  ℕ, zero, suc, ◌+◌, ◌-◌, ◌*◌, Bool, true, false, not, ◌&&◌, List, [], ◌∷◌, length, ltb, leb, ◌==◌,
  if◌then◌else◌, Result, ok, err, Action, pure, raise, gets, raise_if, ◌>>=◌, ◌>>◌, zoom, unaligned,
  read_out_of_bounds, write_out_of_bounds, fetch_too_long, df_out_full, mid_short, mid_full,
}
use axi_dma_engine.Base.Words.{mask, shr, shl, bit}
use axi_dma_engine.Fifo
use axi_dma_engine.Fifo.{Fifo}
use axi_dma_engine.Memory.{SystemMemory, load, store}
pub mod Codec
pub mod Burst
pub mod Serve
pub mod Safety

abbrev pub desc_words : ℕ
desc_words = 4

abbrev desc_width : ℕ
desc_width = 128

abbrev pub rw_bit : ℕ
rw_bit = 40

abbrev pub len_lsb : ℕ
len_lsb = 32

unfoldable pub pack_handle : ℕ → ℕ → ℕ
pack_handle addr len_beats = bit_or (mask 32 addr) (shl (mask 8 len_beats) 32)

unfoldable pub pack_instruction : ℕ → ℕ → Bool → ℕ
pack_instruction addr len_beats is_write =
    let rw = if is_write then 1 else 0 in
    bit_or (bit_or (mask 32 addr) (shl (mask 8 len_beats) 32)) (shl rw 40)

-- `_word_index`
unfoldable pub word_index : ℕ → Result ℕ
word_index byte_addr =
    if mask 2 byte_addr == 0 then ok (mask 32 (shr byte_addr 2)) else err unaligned

-- The loop of `_pack_descriptor_words` from word `i`, with `p` packed so far.
pack_words_from : ℕ → ℕ → List ℕ → ℕ
pack_words_from i p [] = p
pack_words_from i p (w ∷ ws) =
    let rest = pack_words_from (i + 1) (bit_or p (shl (mask 32 w) (32 * i))) ws in
    if leb desc_words i then p else rest

-- `_pack_descriptor_words`
unfoldable pub pack_descriptor_words : List ℕ → ℕ
unfolding pack_words_from
pack_descriptor_words words = mask desc_width (pack_words_from 0 0 words)

pub record AxiMaster : Type 0 where
  pub memory : SystemMemory
  pub df_in : Fifo
  pub df_out : Fifo
  pub dm_in : Fifo
  pub mid : Fifo

module _ {A : Type 0} where
  abbrev pub on_mem : Action (List ℕ) A → Action AxiMaster A
  on_mem = zoom (λ s. s.memory.mem) (λ l s. record s { memory = record (s.memory) { mem = l } })

  abbrev pub on_df_in : Action Fifo A → Action AxiMaster A
  on_df_in = zoom (λ s. s.df_in) (λ q s. record s { df_in = q })

  abbrev on_df_out : Action Fifo A → Action AxiMaster A
  on_df_out = zoom (λ s. s.df_out) (λ q s. record s { df_out = q })

  abbrev pub on_dm_in : Action Fifo A → Action AxiMaster A
  on_dm_in = zoom (λ s. s.dm_in) (λ q s. record s { dm_in = q })

  abbrev pub on_mid : Action Fifo A → Action AxiMaster A
  on_mid = zoom (λ s. s.mid) (λ q s. record s { mid = q })

unfoldable pub idle : AxiMaster → Bool
unfolding Fifo.is_empty
idle s = Fifo.is_empty s.df_in && Fifo.is_empty s.dm_in

-- `for i in range(num_beats): out.append(mem[w0 + i] & 0xFFFFFFFF)`, from word `w` on
unfoldable pub read_loop : ℕ → ℕ → Action (List ℕ) (List ℕ)
unfolding load
read_loop w zero = pure []
read_loop w (suc n) = do x ← load w; xs ← read_loop (w + 1) n; pure (mask 32 x ∷ xs)

-- `for i, w in enumerate(words): mem[w0 + i] = w & 0xFFFFFFFF`, from word `i` on
unfoldable pub write_loop : ℕ → List ℕ → Action (List ℕ) (Unit {0})
unfolding store
write_loop i [] = pure tt
write_loop i (w ∷ ws) = do store i (mask 32 w); write_loop (i + 1) ws

-- `_mem_read_words`
unfoldable pub mem_read_words : ℕ → ℕ → Action (List ℕ) (List ℕ)
unfolding word_index read_loop
mem_read_words byte_addr num_beats = do
  w0 ← λ mem. (word_index byte_addr, mem)
  size ← gets length
  if num_beats == 0
      then pure []
      else (if ltb size (w0 + num_beats) then raise read_out_of_bounds else read_loop w0 num_beats)

-- `_mem_write_words`
unfoldable pub mem_write_words : ℕ → List ℕ → Action (List ℕ) (Unit {0})
unfolding word_index write_loop
mem_write_words byte_addr words = do
  w0 ← λ mem. (word_index byte_addr, mem)
  size ← gets length
  if ltb size (w0 + length words) then raise write_out_of_bounds else write_loop w0 words

-- `[self.mid.dequeue() & 0xFFFFFFFF for _ in range(num_beats)]`
unfoldable pub pop_words : ℕ → Action Fifo (List ℕ)
unfolding Fifo.dequeue
pop_words zero = pure []
pop_words (suc n) = do v ← Fifo.dequeue; vs ← pop_words n; pure (mask 32 v ∷ vs)

-- `for w in words: self.mid.enqueue(w)`
unfoldable pub push_words : List ℕ → Action Fifo (Unit {0})
unfolding Fifo.enqueue
push_words [] = pure tt
push_words (w ∷ ws) = do Fifo.enqueue w; push_words ws

-- `_do_descriptor_fetch` behind its first line
unfoldable pub serve_handle : ℕ → Action AxiMaster (Unit {0})
unfolding Fifo.is_full
serve_handle handle = do
  let byte_addr = mask 32 handle
  let num_beats = mask 8 (shr handle len_lsb)
  raise_if (ltb desc_words num_beats) fetch_too_long
  words ← on_mem (mem_read_words byte_addr num_beats)
  raise_if (← gets (λ s. Fifo.is_full s.df_out)) df_out_full
  on_df_out (Fifo.enqueue (pack_descriptor_words words))

-- `_do_descriptor_fetch`
unfoldable pub do_descriptor_fetch : Action AxiMaster (Unit {0})
do_descriptor_fetch = do handle ← on_df_in Fifo.dequeue; serve_handle handle

-- the write branch of `_do_instruction`
unfoldable pub do_write : ℕ → ℕ → Action AxiMaster (Unit {0})
unfolding Fifo.len
do_write byte_addr num_beats = do
  have ← gets (λ s. Fifo.len s.mid)
  raise_if (ltb have num_beats) mid_short
  words ← on_mid (pop_words num_beats)
  on_mem (mem_write_words byte_addr words)

-- the read branch of `_do_instruction`; `queue_length - len(mid)` is compared as an integer
unfoldable pub do_read : ℕ → ℕ → Action AxiMaster (Unit {0})
unfolding Fifo.len
do_read byte_addr num_beats = do
  have ← gets (λ s. Fifo.len s.mid)
  room ← gets (λ s. s.mid.queue_length)
  raise_if (ltb room (have + num_beats)) mid_full
  words ← on_mem (mem_read_words byte_addr num_beats)
  on_mid (push_words words)

-- `_do_instruction` behind its first line
unfoldable pub serve_instr : ℕ → Action AxiMaster (Unit {0})
serve_instr instr = do
  let byte_addr = mask 32 instr
  let num_beats = mask 8 (shr instr len_lsb)
  let is_write = bit instr rw_bit == 1
  if num_beats == 0
      then pure tt
      else (if is_write then do_write byte_addr num_beats else do_read byte_addr num_beats)

-- `_do_instruction`
unfoldable pub do_instruction : Action AxiMaster (Unit {0})
do_instruction = do instr ← on_dm_in Fifo.dequeue; serve_instr instr

unfoldable pub process_one : Action AxiMaster Bool
unfolding Fifo.is_empty
process_one = do
  no_handle ← gets (λ s. Fifo.is_empty s.df_in)
  no_instr ← gets (λ s. Fifo.is_empty s.dm_in)
  if not no_handle
      then do_descriptor_fetch >> pure true
      else (if not no_instr then do_instruction >> pure true else pure false)
