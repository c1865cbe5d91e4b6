-- ===== src/Golden.antt =====
-- sim/run_golden.py: the whole software model, run on a scenario. One `System` holds each shared
-- object once; a component's call acts on its own view of it.
use Prim.Native.Nat.{bit_or}
use axi_dma_engine.Base.{
  ℕ, zero, suc, ◌+◌, ◌*◌, ◌%◌, Bool, true, false, not, ◌&&◌, Option, none, some, List, [], ◌∷◌,
  ◌++◌, ◌==◌, if◌then◌else◌, Result, ok, err, Action, pure, raise, gets, modify, ◌>>=◌, ◌>>◌, zoom,
  axi_stalled, sram_stalled, too_many_iterations,
}
use axi_dma_engine.Base.Words.{mask, shr, shl, bit}
use axi_dma_engine.Fifo
use axi_dma_engine.Fifo.{Fifo}
use axi_dma_engine.Memory.{Sram}
use axi_dma_engine.Descriptor
use axi_dma_engine.Descriptor.{Descriptor}
use axi_dma_engine.AxiMaster
use axi_dma_engine.AxiMaster.{AxiMaster}
use axi_dma_engine.SramController
use axi_dma_engine.SramController.{SramController}
use axi_dma_engine.RingManager
use axi_dma_engine.RingManager.{RingManager}
pub mod Scenario
pub mod Instr
pub mod Legs
pub mod Move
pub mod Loop
pub mod Setup
pub mod Load
pub mod Run
pub mod Files
pub mod Table
pub mod Copied
pub mod Apart
pub mod Clean
pub mod Calm
pub mod Drains
pub mod Stalls
pub mod NoStall
pub mod NoStallRun

abbrev pub smem_words : ℕ
smem_words = 1024

abbrev pub fifo_depth : ℕ
fifo_depth = 64

abbrev pub dm_depth : ℕ
dm_depth = 16

abbrev pub mid_depth : ℕ
mid_depth = 128

-- `_build_65`; `rw & 1` of the 0 or 1 that is passed
unfoldable pub build_65 : ℕ → ℕ → ℕ → ℕ
build_65 addr len32 rw =
    bit_or (bit_or (mask 32 addr) (shl (mask 32 len32) 32)) (shl (mask 1 rw) 64)

-- `_narrow65_to_41`
unfoldable pub narrow65_to_41 : ℕ → ℕ
narrow65_to_41 w65 =
    bit_or (bit_or (mask 32 w65) (shl (mask 8 (shr w65 32)) 32)) (shl (mask 1 (shr w65 64)) 40)

-- `desc.w3 & 1`, as a test
abbrev pub dir_bit : Descriptor → Bool
dir_bit d = bit d.w3 0 == 1

-- `_desc_to_instr_pair`: the instruction of the AXI master, and that of the SRAM controller
unfoldable pub desc_to_instr_pair : Descriptor → ℕ × ℕ
desc_to_instr_pair d =
    let src = mask 32 d.w0 in
    let dst = mask 32 d.w1 in
    let len32 = mask 32 d.w2 in
    if dir_bit d
    then (narrow65_to_41 (build_65 src len32 0), narrow65_to_41 (build_65 dst len32 1))
    else (narrow65_to_41 (build_65 dst len32 1), narrow65_to_41 (build_65 src len32 0))

-- `_drain_axi_dm`, where `n` is `max_steps - steps`
unfoldable pub drain_axi_dm : ℕ → Action AxiMaster (Unit {0})
drain_axi_dm zero s = elim (AxiMaster.idle s) [
  | true ↦ (ok tt, s)
  | false ↦ (AxiMaster.process_one >>= λ ran. if ran then raise axi_stalled else pure tt) s
]
drain_axi_dm (suc n) s = elim (AxiMaster.idle s) [
  | true ↦ (ok tt, s)
  | false ↦ (AxiMaster.process_one >>= λ ran. if ran then drain_axi_dm n else pure tt) s
]

-- `_drain_sram_dm`, where `n` is `max_steps - steps`
unfoldable pub drain_sram_dm : ℕ → Action SramController (Unit {0})
drain_sram_dm zero s = elim (SramController.idle s) [
  | true ↦ (ok tt, s)
  | false ↦ (SramController.process_one >>= λ ran. if ran then raise sram_stalled else pure tt) s
]
drain_sram_dm (suc n) s = elim (SramController.idle s) [
  | true ↦ (ok tt, s)
  | false ↦ (SramController.process_one >>= λ ran. if ran then drain_sram_dm n else pure tt) s
]

abbrev pub drain_steps : ℕ
drain_steps = 512

pub record System : Type 0 where
  pub ring : RingManager
  pub sram : Sram
  pub dm_sram : Fifo

module _ {A : Type 0} where
  abbrev pub on_ring : Action RingManager A → Action System A
  on_ring = zoom (λ s. s.ring) (λ r s. record s { ring = r })

  -- `axi_golden`, the same object that the ring holds
  abbrev on_axi : Action AxiMaster A → Action System A
  on_axi = zoom (λ s. s.ring.golden) (λ g s. record s { ring = record (s.ring) { golden = g } })

  -- `SRAMController(sram.mem, dm_sram, mid)`
  abbrev on_sram_ctrl : Action SramController A → Action System A
  on_sram_ctrl =
      zoom (λ s. record { sram = s.sram.mem; dm_in = s.dm_sram; mid = s.ring.golden.mid })
        (λ c s. record {
          ring = record (s.ring) { golden = record (s.ring.golden) { mid = c.mid } };
          sram = record (s.sram) { mem = c.sram };
          dm_sram = c.dm_in;
        })

  -- `dm_axi`, the instruction queue of the AXI master
  abbrev on_dm_axi : Action Fifo A → Action System A
  on_dm_axi =
      zoom (λ s. s.ring.golden.dm_in)
        (λ q s. record s {
          ring = record (s.ring) { golden = record (s.ring.golden) { dm_in = q } };
        })

  abbrev on_dm_sram : Action Fifo A → Action System A
  on_dm_sram = zoom (λ s. s.dm_sram) (λ q s. record s { dm_sram = q })

-- Steps 2 to 4 of the event loop: both instructions are queued, and drained in MID-safe order.
unfoldable pub move : Descriptor → Action System (Unit {0})
move d = do
  let instrs = desc_to_instr_pair d
  on_dm_axi (Fifo.enqueue instrs.0)
  on_dm_sram (Fifo.enqueue instrs.1)
  if dir_bit d
      then on_axi (drain_axi_dm drain_steps) >> on_sram_ctrl (drain_sram_dm drain_steps)
      else on_sram_ctrl (drain_sram_dm drain_steps) >> on_axi (drain_axi_dm drain_steps)

-- What follows the fetch of a descriptor in one round; the result is the packed descriptor.
unfoldable pub serve : Option Descriptor → Action System (Option ℕ)
serve none = pure none
serve (some d) = do move d; on_ring RingManager.complete; pure (some (Descriptor.pack d))

-- The event loop with `n` rounds left; the result is `descs_fetched`.
unfoldable pub event_loop : ℕ → Action System (List ℕ)
event_loop zero = raise too_many_iterations
event_loop (suc n) = λ s. elim (RingManager.is_empty s.ring) [
  | true ↦ (ok [], s)
  | false ↦
      (do
        o ← on_ring (RingManager.fetch_next_descriptor RingManager.default_max_steps)
        served ← serve o
        elim served [
          | none ↦ pure []
          | some packed ↦ event_loop n >>= λ rest. pure (packed ∷ rest)
        ])
        s
]

abbrev pub max_iters : ℕ
max_iters = 1000
