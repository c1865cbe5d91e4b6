-- ===== src/Tests/Witnesses.antt =====
-- The theorems on the ring and the event loop, at the demo system.
use axi_dma_engine.Base.{ℕ, ◌<◌, ◌≡◌, refl, [], ◌∷◌, arith, ok, err, ring_full}
use axi_dma_engine.Descriptor
use axi_dma_engine.Descriptor.RoundTrip
use axi_dma_engine.RingManager.{enqueue}
use axi_dma_engine.RingManager.Refine
use axi_dma_engine.RingManager.Refine.{
  pending, enqueue_refines, complete_refines, enqueue_full, is_full_lem, pending_count_lem,
}
use axi_dma_engine.RingManager.Fetch
use axi_dma_engine.RingManager.Fetch.{fetch_refines}
use axi_dma_engine.Golden.{event_loop, move}
use axi_dma_engine.Golden.Move.{Fits, IsQuiet, with_memories, move_refines}
use axi_dma_engine.Golden.Loop.{IsReady, Replayed, spec_of, event_loop_replays}
use axi_dma_engine.Tests.Demo

pub ring-IsValid : (tail : ℕ) → tail < 3 → Refine.IsValid 3 0 (Demo.ring tail)
ring-IsValid tail h = record {
  ringlen_reg = refl;
  baseaddr_reg = refl;
  head_in = omega arith;
  tail_in = h;
  ring_in = omega arith;
  sized = refl;
  addressable = omega arith;
}

pub ring-IsQuiet : Fetch.IsQuiet (Demo.ring 2)
ring-IsQuiet = record {
  no_handle = refl;
  no_desc = refl;
  handle_room = omega arith;
  desc_room = omega arith;
}

pub system-IsQuiet : IsQuiet Demo.system
system-IsQuiet = record {
  no_handle = refl;
  no_axi_instr = refl;
  no_sram_instr = refl;
  no_word = refl;
  axi_room = omega arith;
  sram_room = omega arith;
}

system-IsReady : IsReady 3 0 Demo.system
system-IsReady = record {
  ring_valid = ring-IsValid 2 (omega arith);
  df_quiet = ring-IsQuiet;
  quiet = system-IsQuiet;
}

pub out-Fits : Fits Demo.desc_out 8 16 4
out-Fits = record { mid_fits = omega arith; src_fits = omega arith; dst_fits = omega arith }

back-Fits : Fits Demo.desc_back 8 4 16
back-Fits = record { mid_fits = omega arith; src_fits = omega arith; dst_fits = omega arith }

pub out-IsValid : RoundTrip.IsValid Demo.desc_out
out-IsValid = record {
  w0_word = omega arith;
  w1_word = omega arith;
  w2_word = omega arith;
  w3_word = omega arith;
}

event_loop_replays_example :
    Replayed 3 0 Demo.system (spec_of 3 0 2 Demo.system) (event_loop 3 Demo.system)
unfolding Descriptor.new
event_loop_replays_example =
    event_loop_replays 3 0 3 Demo.system system-IsReady (omega arith)
      ((refl, out-Fits), ((refl, back-Fits), tt))

move_refines_example :
    move Demo.desc_out Demo.system
    ≡ (ok tt, with_memories (Demo.words, 0 ∷ 71 ∷ 72 ∷ 0 ∷ []) Demo.system)
move_refines_example =
    move_refines Demo.desc_out Demo.system out-IsValid system-IsQuiet (refl, out-Fits)

enqueue_full_example : enqueue Demo.desc_out (Demo.ring 2) ≡ (err ring_full, Demo.ring 2)
enqueue_full_example =
    enqueue_full 3 0 (Demo.ring 2) (ring-IsValid 2 (omega arith)) Demo.desc_out refl
