-- ===== src/RingManager/Fetch.antt =====
-- source/ringManager.py: `fetch_next_descriptor` through the descriptor fetcher and the AXI master.
use axi_dma_engine.Base.{
  ℕ, zero, suc, ◌+◌, ◌*◌, ◌^◌, ◌≤◌, ◌<◌, ◌≡◌, refl, none, some, List, [], ◌∷◌, length, get_or,
  arith, ok,
}
use native.Mathlib.Nat.{mod-eq_of_lt, add_assoc}
use axi_dma_engine.Csr
use axi_dma_engine.Fifo
use axi_dma_engine.Fifo.{Fifo}
use axi_dma_engine.Fifo.Order.{enqueue_room}
use axi_dma_engine.Memory.Slices.{slice}
use axi_dma_engine.Descriptor
use axi_dma_engine.Descriptor.{Descriptor}
use axi_dma_engine.Descriptor.RoundTrip
use axi_dma_engine.Descriptor.RoundTrip.{new-IsValid, from_packed-pack}
use axi_dma_engine.DescriptorFetcher
use axi_dma_engine.AxiMaster.{pack_handle, pack_descriptor_words}
use axi_dma_engine.AxiMaster.Codec.{pack_descriptor_words-pack}
use axi_dma_engine.AxiMaster.Burst.{masked}
use axi_dma_engine.AxiMaster.Serve.{process_one_handle}
use axi_dma_engine.RingManager.{
  RingManager, fetch_step, fetch_loop, fetch_head, fetch_next_descriptor, has_descriptor,
}
use axi_dma_engine.RingManager.Indices.{desc_at}
use axi_dma_engine.RingManager.Refine.{
  IsValid, pending, is_empty_lem, ringlen_lem, head_reg_lem, slot_byte_addr_lem, pending-cons,
}

pub desc_at-IsValid : (mem : List ℕ) (w : ℕ) → RoundTrip.IsValid (desc_at mem w)
desc_at-IsValid mem w =
    new-IsValid (get_or mem w 0) (get_or mem (w + 1) 0) (get_or mem (w + 2) 0)
      (get_or mem (w + 3) 0)

-- The four words of a slot, packed by the AXI master, are the packed descriptor of the slot.
pack_slot :
    (w : ℕ) (mem : List ℕ)
    → pack_descriptor_words (masked (slice w 4 mem)) ≡ Descriptor.pack (desc_at mem w)
unfolding Descriptor.new
pack_slot w mem =
    let d = desc_at mem w in simp add_assoc (pack_descriptor_words-pack d (desc_at-IsValid mem w))

-- The ring with a handle in `df_in`, and with a packed descriptor in `df_out`.
abbrev asked : ℕ → RingManager → RingManager
asked handle s = record s {
  golden = record (s.golden) { df_in = record (s.golden.df_in) { buffer = handle ∷ [] } };
}

abbrev answered : ℕ → RingManager → RingManager
answered packed s = record s {
  golden = record (s.golden) { df_out = record (s.golden.df_out) { buffer = packed ∷ [] } };
}

-- No handle and no descriptor is on its way.
pub record IsQuiet (s : RingManager) : Type 0 where
  pub no_handle : s.golden.df_in.buffer ≡ []
  pub no_desc : s.golden.df_out.buffer ≡ []
  pub handle_room : 0 < s.golden.df_in.queue_length
  pub desc_room : 0 < s.golden.df_out.queue_length

module _ (s : RingManager) (q : IsQuiet s) (w : ℕ) (hw : w < 2 ^ 30)
    (fits : w + 4 ≤ length s.golden.memory.mem) where
  fetch_step_lem :
      fetch_step (asked (pack_handle (w * 4) 4) s)
      ≡ (ok tt, answered (Descriptor.pack (desc_at s.golden.memory.mem w)) s)
  unfolding fetch_step
  fetch_step_lem = ground (
    arith,
    pack_slot w s.golden.memory.mem,
    process_one_handle (asked (pack_handle (w * 4) 4) s).golden w [] hw 4 refl (omega arith) fits
        (ground arith),
  )

  fetch_loop_lem :
      (n : ℕ)
      → fetch_loop (suc n) (asked (pack_handle (w * 4) 4) s)
        ≡ (ok tt, answered (Descriptor.pack (desc_at s.golden.memory.mem w)) s)
  unfolding fetch_loop has_descriptor DescriptorFetcher.has_descriptor Fifo.is_empty
  fetch_loop_lem zero = ground (arith, fetch_step_lem)
  fetch_loop_lem (suc n) = ground (arith, fetch_step_lem)

module _ (r b : ℕ) (s : RingManager) (v : IsValid r b s) (q : IsQuiet s) where
  head_word : b + s.csr.regs Csr.reg_head * 4 + 4 ≤ length s.golden.memory.mem
  head_word = omega (arith, v.ring_in, v.head_in)

  -- On a ring that is set up, with no handle and no descriptor on its way, a descriptor pending,
  -- and a bound of at least one step, `fetch_next_descriptor` returns the oldest pending
  -- descriptor, and leaves everything as it was.
  pub fetch_refines :
      (n : ℕ) (d : Descriptor) (ds : List Descriptor)
      → pending r b s ≡ d ∷ ds
      → fetch_next_descriptor (suc n) s ≡ (ok (some d), s)
  unfolding fetch_next_descriptor fetch_head DescriptorFetcher.submit_handle
      DescriptorFetcher.take_descriptor Fifo.dequeue
  fetch_refines n d ds e =
      let h = s.csr.regs Csr.reg_head in
      let w = b + h * 4 in
      let x = desc_at s.golden.memory.mem w in
      let front : x ≡ d = cc (e, pending-cons r b s v (ground arith)) in
      ground (
        arith,
        is_empty_lem r b s v,
        ringlen_lem r b s v,
        head_reg_lem r b s v,
        mod-eq_of_lt v.head_in,
        slot_byte_addr_lem r b s v h v.head_in,
        enqueue_room (pack_handle (w * 4) 4) s.golden.df_in (ground arith),
        fetch_loop_lem s q w (omega (arith, v.addressable, head_word)) head_word n,
        from_packed-pack x (desc_at-IsValid s.golden.memory.mem w),
      )

  -- Without one it returns None.
  pub fetch_empty : (n : ℕ) → pending r b s ≡ [] → fetch_next_descriptor n s ≡ (ok none, s)
  unfolding fetch_next_descriptor
  fetch_empty n e = ground (arith, is_empty_lem r b s v)
