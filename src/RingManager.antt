-- ===== src/RingManager.antt =====
-- source/ringManager.py: the descriptor ring. The memory and the two descriptor FIFOs are the ones
-- of the AXI master that the ring holds, as run_golden.py wires them, so they stand here once.
use axi_dma_engine.Base.{
  ℕ, zero, suc, List, not, ◌+◌, ◌-◌, ◌*◌, ◌%◌, Bool, true, false, Option, none, some, ltb, ◌==◌,
  if◌then◌else◌, Result, ok, err, Action, pure, raise, gets, modify, raise_if, ◌>>=◌, ◌>>◌, zoom,
  ring_length, desc_out_of_bounds, ring_full, no_progress, too_many_steps, nothing_pending,
}
use axi_dma_engine.Base.Words.{mask, shr}
use axi_dma_engine.Csr
use axi_dma_engine.Csr.{Csr}
use axi_dma_engine.Memory.{SystemMemory, store}
use axi_dma_engine.Descriptor.{Descriptor, desc_words}
use axi_dma_engine.DescriptorFetcher
use axi_dma_engine.DescriptorFetcher.{DescriptorFetcher}
use axi_dma_engine.AxiMaster
use axi_dma_engine.AxiMaster.{AxiMaster}
pub mod Indices
pub mod Slots
pub mod Refine
pub mod Enqueue
pub mod Fetch
pub mod Sequence

abbrev pub descriptor_size_bytes : ℕ
descriptor_size_bytes = 16

pub record RingManager : Type 0 where
  pub csr : Csr
  pub golden : AxiMaster

-- `self.csr.read(self.csr.REG_HEAD) & 0xFFFFFFFF`, and the same of REG_TAIL
abbrev pub head_reg : RingManager → ℕ
head_reg s = mask 32 (s.csr.regs Csr.reg_head)

abbrev pub tail_reg : RingManager → ℕ
tail_reg s = mask 32 (s.csr.regs Csr.reg_tail)

module _ {A : Type 0} where
  abbrev pub on_mem : Action SystemMemory A → Action RingManager A
  on_mem =
      zoom (λ s. s.golden.memory) (λ m s. record s { golden = record (s.golden) { memory = m } })

  abbrev pub on_golden : Action AxiMaster A → Action RingManager A
  on_golden = zoom (λ s. s.golden) (λ g s. record s { golden = g })

  abbrev pub on_df : Action DescriptorFetcher A → Action RingManager A
  on_df =
      zoom
        (λ s. record { fifo_handle_to_axi = s.golden.df_in; fifo_desc_from_axi = s.golden.df_out })
        (λ f s. record s {
          golden = record (s.golden) {
            df_in = f.fifo_handle_to_axi;
            df_out = f.fifo_desc_from_axi;
          };
        })

-- `_ringlen`
unfoldable pub ringlen : RingManager → Result ℕ
unfolding Csr.ringlen
ringlen s = let r = mask 32 (Csr.ringlen s.csr) in if r == 0 then err ring_length else ok r

-- `_base`
unfoldable pub base : RingManager → ℕ
unfolding Csr.baseaddr
base s = mask 32 (Csr.baseaddr s.csr)

-- `_ringlen` as a call
abbrev get_ringlen : Action RingManager ℕ
get_ringlen s = (ringlen s, s)

-- `_slot_byte_addr`
unfoldable pub slot_byte_addr : ℕ → Action RingManager ℕ
slot_byte_addr slot_index = do
  b ← gets base
  rlen ← get_ringlen
  pure (b + slot_index % rlen * descriptor_size_bytes)

-- four assignments to `self.mem.mem`
unfoldable pub store_words : ℕ → Descriptor → Action (List ℕ) (Unit {0})
unfolding store
store_words w d = do store (w + 0) d.w0; store (w + 1) d.w1; store (w + 2) d.w2; store (w + 3) d.w3

-- `_write_desc_to_mem`
unfoldable pub write_desc_to_mem : ℕ → Descriptor → Action SystemMemory (Unit {0})
write_desc_to_mem byte_addr d = do
  let w = mask 32 (shr byte_addr 2)
  size ← gets (λ m. m.size)
  raise_if (ltb size (w + desc_words)) desc_out_of_bounds
  zoom (λ m. m.mem) (λ l m. record m { mem = l }) (store_words w d)

unfoldable pub is_empty : RingManager → Bool
unfolding Csr.read
is_empty s = head_reg s == tail_reg s

unfoldable pub is_full : Action RingManager Bool
is_full = do
  rlen ← get_ringlen
  head ← gets head_reg
  tail ← gets tail_reg
  pure ((tail % rlen + 1) % rlen == head % rlen)

-- `(ti - hi) % rlen` of Python is never negative.
pub pending_count : Action RingManager ℕ
pending_count = do
  rlen ← get_ringlen
  head ← gets head_reg
  tail ← gets tail_reg
  pure ((tail % rlen + rlen - head % rlen) % rlen)

unfoldable pub enqueue : Descriptor → Action RingManager Descriptor
enqueue d = do
  rlen ← get_ringlen
  full ← is_full
  raise_if full ring_full
  tail ← gets tail_reg
  byte_addr ← slot_byte_addr (tail % rlen)
  on_mem (write_desc_to_mem byte_addr d)
  modify (λ s. record s { csr = Csr.write Csr.reg_tail ((tail + 1) % rlen) s.csr })
  pure d

-- `self.df.has_descriptor()`
unfoldable pub has_descriptor : RingManager → Bool
unfolding DescriptorFetcher.has_descriptor
has_descriptor s =
    DescriptorFetcher.has_descriptor
      (record { fifo_handle_to_axi = s.golden.df_in; fifo_desc_from_axi = s.golden.df_out })

-- One step of the AXI master, which must find work.
unfoldable pub fetch_step : Action RingManager (Unit {0})
fetch_step = do progress ← on_golden AxiMaster.process_one; raise_if (not progress) no_progress

-- The `while` of `fetch_next_descriptor`, where `n` is `max_steps - steps`.
unfoldable pub fetch_loop : ℕ → Action RingManager (Unit {0})
fetch_loop zero s = elim (has_descriptor s) [
  | true ↦ (ok tt, s)
  | false ↦ (fetch_step >> raise too_many_steps) s
]
fetch_loop (suc n) s = elim (has_descriptor s) [
  | true ↦ (ok tt, s)
  | false ↦ (fetch_step >> fetch_loop n) s
]

abbrev pub default_max_steps : ℕ
default_max_steps = 256

-- `fetch_next_descriptor` on a ring that is not empty
unfoldable pub fetch_head : ℕ → Action RingManager (Option Descriptor)
fetch_head max_steps = do
  head ← gets head_reg
  rlen ← get_ringlen
  byte_addr ← slot_byte_addr (head % rlen)
  on_df (DescriptorFetcher.submit_handle byte_addr desc_words)
  fetch_loop max_steps
  d ← on_df DescriptorFetcher.take_descriptor
  pure (some d)

unfoldable pub fetch_next_descriptor : ℕ → Action RingManager (Option Descriptor)
fetch_next_descriptor max_steps s = if is_empty s then (ok none, s) else fetch_head max_steps s

unfoldable pub complete : Action RingManager (Unit {0})
complete = do
  raise_if (← gets is_empty) nothing_pending
  head ← gets head_reg
  rlen ← get_ringlen
  modify (λ s. record s { csr = Csr.hw_set_head ((head % rlen + 1) % rlen) s.csr })

-- `next_fetch_byte_addr` on a ring that is not empty
unfoldable head_byte_addr : Action RingManager (Option ℕ)
head_byte_addr = do
  head ← gets head_reg
  rlen ← get_ringlen
  a ← slot_byte_addr (head % rlen)
  pure (some a)

unfoldable next_fetch_byte_addr : Action RingManager (Option ℕ)
next_fetch_byte_addr s = if is_empty s then (ok none, s) else head_byte_addr s
