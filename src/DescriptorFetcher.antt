-- ===== src/DescriptorFetcher.antt =====
-- source/descriptor_fetcher.py: handles to the AXI master, packed descriptors back.
use axi_dma_engine.Base.{ℕ, Bool, not, Action, pure, ◌>>=◌, zoom}
use axi_dma_engine.Fifo
use axi_dma_engine.Fifo.{Fifo}
use axi_dma_engine.Descriptor
use axi_dma_engine.Descriptor.{Descriptor}
use axi_dma_engine.AxiMaster.{pack_handle}

pub record DescriptorFetcher : Type 0 where
  pub fifo_handle_to_axi : Fifo
  pub fifo_desc_from_axi : Fifo

module _ {A : Type 0} where
  abbrev on_handles : Action Fifo A → Action DescriptorFetcher A
  on_handles = zoom (λ s. s.fifo_handle_to_axi) (λ q s. record s { fifo_handle_to_axi = q })

  abbrev on_descs : Action Fifo A → Action DescriptorFetcher A
  on_descs = zoom (λ s. s.fifo_desc_from_axi) (λ q s. record s { fifo_desc_from_axi = q })

unfoldable pub submit_handle : ℕ → ℕ → Action DescriptorFetcher (Unit {0})
unfolding Fifo.enqueue pack_handle
submit_handle byte_addr len_beats = on_handles (Fifo.enqueue (pack_handle byte_addr len_beats))

unfoldable pub has_descriptor : DescriptorFetcher → Bool
unfolding Fifo.is_empty
has_descriptor s = not (Fifo.is_empty s.fifo_desc_from_axi)

unfoldable pub take_descriptor : Action DescriptorFetcher Descriptor
unfolding Fifo.dequeue Descriptor.from_packed
take_descriptor = do packed ← on_descs Fifo.dequeue; pure (Descriptor.from_packed packed)
