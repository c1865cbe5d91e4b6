-- ===== src/Golden/Move.antt =====
-- sim/run_golden.py: one descriptor moved by the two controllers through MID.
use mathlib.Core.Path.{subst}
use axi_dma_engine.Base.{
  Bool-cases, inl, inr, ℕ, ◌+◌, ◌/◌, ◌%◌, ◌≤◌, ◌<◌, ◌≡◌, ◌∙◌, Bool, true, false, List, [], length,
  arith, ok, if◌then◌else◌,
}
use axi_dma_engine.Base.Words.{mask}
use axi_dma_engine.Fifo.Order.{enqueue_room}
use axi_dma_engine.Memory.Slices.{slice, overwrite, length-slice}
use axi_dma_engine.Descriptor.{Descriptor}
use axi_dma_engine.Descriptor.RoundTrip
use axi_dma_engine.AxiMaster.{pack_instruction}
use axi_dma_engine.AxiMaster.Burst.{masked, length-masked}
use axi_dma_engine.SramController.{SramController}
use axi_dma_engine.Golden.{System, dir_bit, move}
use axi_dma_engine.Golden.Instr.{desc_to_instr_pair_lem}
use axi_dma_engine.Golden.Legs.{
  axi_read_leg, axi_write_leg, sram_read_leg, sram_write_leg, masked-masked,
}

-- Nothing is on its way between the components.
pub record IsQuiet (s : System) : Type 0 where
  pub no_handle : s.ring.golden.df_in.buffer ≡ []
  pub no_axi_instr : s.ring.golden.dm_in.buffer ≡ []
  pub no_sram_instr : s.dm_sram.buffer ≡ []
  pub no_word : s.ring.golden.mid.buffer ≡ []
  pub axi_room : 0 < s.ring.golden.dm_in.queue_length
  pub sram_room : 0 < s.dm_sram.queue_length

abbrev pub smem : System → List ℕ
smem s = s.ring.golden.memory.mem

-- The number of words that a descriptor moves.
abbrev pub beats : Descriptor → ℕ
beats d = mask 8 d.w2

-- The bursts of `d` from word `src` to word `dst`, between memories of `from` and `into` words,
-- lie in their memories, and fit MID.
pub record Fits (d : Descriptor) (room from into : ℕ) : Type 0 where
  pub mid_fits : beats d ≤ room
  pub src_fits : d.w0 / 4 + beats d ≤ from
  pub dst_fits : d.w1 / 4 + beats d ≤ into

-- The words of `from` that `d` moves, laid over `into`.
abbrev transfer : Descriptor → List ℕ → List ℕ → List ℕ
transfer d from into = overwrite (d.w1 / 4) (masked (slice (d.w0 / 4) (beats d) from)) into

abbrev with_smem : List ℕ → System → System
with_smem l s = record s {
  ring = record (s.ring) {
    golden = record (s.ring.golden) { memory = record (s.ring.golden.memory) { mem = l } };
  };
}

abbrev with_sram : List ℕ → System → System
with_sram l s = record s { sram = record (s.sram) { mem = l } }

-- The view of the SRAM controller.
abbrev ctrl : System → SramController
ctrl s = record { sram = s.sram.mem; dm_in = s.dm_sram; mid = s.ring.golden.mid }

module _ (d : Descriptor) (s : System) (v : RoundTrip.IsValid d) (q : IsQuiet s) where
  words_of : List ℕ → List ℕ
  words_of from = masked (slice (d.w0 / 4) (beats d) from)

  length-words_of : (from : List ℕ) → length (words_of from) ≡ beats d
  unfolding words_of
  length-words_of from =
      length-masked (slice (d.w0 / 4) (beats d) from) ∙ length-slice (d.w0 / 4) (beats d) from

  -- DIR = 1: the words go from the system memory to the SRAM, and nothing else changes.
  move_to_sram :
      dir_bit d ≡ true
      → d.w0 % 4 ≡ 0
      → Fits d s.ring.golden.mid.queue_length (length (smem s)) (length s.sram.mem)
      → move d s ≡ (ok tt, with_sram (transfer d (smem s) s.sram.mem) s)
  unfolding move words_of
  move_to_sram dir aligned f =
      let g = s.ring.golden in
      let vs = words_of (smem s) in
      ground (
        arith,
        desc_to_instr_pair_lem d v,
        enqueue_room (pack_instruction d.w0 d.w2 false) g.dm_in (ground arith),
        enqueue_room (pack_instruction d.w1 d.w2 true) s.dm_sram (ground arith),
        axi_read_leg g q.no_handle d.w0 d.w2 v.w0_word aligned f.src_fits f.mid_fits,
        sram_write_leg (ctrl s) d.w1 d.w2 v.w1_word vs (length-words_of (smem s)) f.dst_fits,
        masked-masked (slice (d.w0 / 4) (beats d) (smem s)),
      )

  -- DIR = 0: the words go from the SRAM to the system memory, and nothing else changes.
  move_to_smem :
      dir_bit d ≡ false
      → d.w1 % 4 ≡ 0
      → Fits d s.ring.golden.mid.queue_length (length s.sram.mem) (length (smem s))
      → move d s ≡ (ok tt, with_smem (transfer d s.sram.mem (smem s)) s)
  unfolding move words_of
  move_to_smem dir aligned f =
      let g = s.ring.golden in
      let vs = words_of s.sram.mem in
      ground (
        arith,
        desc_to_instr_pair_lem d v,
        enqueue_room (pack_instruction d.w1 d.w2 true) g.dm_in (ground arith),
        enqueue_room (pack_instruction d.w0 d.w2 false) s.dm_sram (ground arith),
        sram_read_leg (ctrl s) d.w0 d.w2 v.w0_word f.src_fits f.mid_fits,
        axi_write_leg g q.no_handle d.w1 d.w2 v.w1_word aligned vs (length-words_of s.sram.mem)
            f.dst_fits,
        masked-masked (slice (d.w0 / 4) (beats d) s.sram.mem),
      )

-- What a descriptor does to the system memory and the SRAM.
abbrev pub transferred : Descriptor → List ℕ → List ℕ → List ℕ × List ℕ
transferred d m l = if dir_bit d then (m, transfer d m l) else (transfer d l m, l)

-- A descriptor that can be moved, by its direction: the side of the system memory is aligned, and
-- the bursts fit memories of `m` and `l` words and a MID of `room` words.
abbrev pub CanMove : Bool → Descriptor → ℕ → ℕ → ℕ → Type 0
CanMove true d room m l = (d.w0 % 4 ≡ 0) × Fits d room m l
CanMove false d room m l = (d.w1 % 4 ≡ 0) × Fits d room l m

abbrev pub Movable : Descriptor → ℕ → ℕ → ℕ → Type 0
Movable d = CanMove (dir_bit d) d

abbrev pub with_memories : List ℕ × List ℕ → System → System
with_memories ml s = with_smem ml.0 (with_sram ml.1 s)

-- `move` of a descriptor of 32-bit words that can be moved (aligned on the side of the system
-- memory, its bursts inside the memories and MID), with nothing on its way, returns, changes the
-- two memories as the transfer says, and leaves everything else as it was.
pub move_refines :
    (d : Descriptor) (s : System)
    → RoundTrip.IsValid d
    → IsQuiet s
    → Movable d s.ring.golden.mid.queue_length (length (smem s)) (length s.sram.mem)
    → move d s ≡ (ok tt, with_memories (transferred d (smem s) s.sram.mem) s)
move_refines d s v q can = elim (Bool-cases (dir_bit d)) [
  | inl e ↦
      let c : CanMove true d s.ring.golden.mid.queue_length (length (smem s)) (length s.sram.mem) =
        subst
          (λ x. CanMove x d s.ring.golden.mid.queue_length (length (smem s)) (length s.sram.mem)) e
          can in
      move_to_sram d s v q e c.0 c.1 ∙ ground arith
  | inr e ↦
      let c : CanMove false d s.ring.golden.mid.queue_length (length (smem s)) (length s.sram.mem) =
        subst
          (λ x. CanMove x d s.ring.golden.mid.queue_length (length (smem s)) (length s.sram.mem)) e
          can in
      move_to_smem d s v q e c.0 c.1 ∙ ground arith
]
