-- ===== src/HostRunner.antt =====
-- firmware&local/host_runner.py: packets, acknowledgements and reads over the serial link;
-- HostRunner/Session has the stimulus and the checks of the transfers. The loop of wait_for_ack has
-- no bound of its own, so it counts the reads on the argument `reads`.
pub mod Link
pub mod Session
pub mod FarSide
pub mod Device
pub mod Verify
pub mod Load
pub mod Files
pub mod Within
pub mod Scenario
pub mod Predicted
pub mod Outcome
pub mod Table
pub mod Shown
use axi_dma_engine.Base.{
  ℕ, zero, suc, ◌+◌, ◌*◌, ◌^◌, ◌&&◌, ◌||◌, Bool, true, false, Option, none, some, List, [], ◌∷◌,
  ◌++◌, length, leb, ◌==◌, if◌then◌else◌, Result, ok, err, Action, pure, raise, lift, modify,
  raise_if, not, ◌>>=◌, ◌>>◌, struct_error, index_error, out_of_reads, exited, type_error,
}
use axi_dma_engine.Base.Words.{bit}
use axi_dma_engine.Csr
use axi_dma_engine.Golden.Scenario.{StimLine}
use axi_dma_engine.Viz.{Region, Event}
use axi_dma_engine.Host.{
  Serial, sync_word, cmd_write_sram, cmd_write_sysmem, cmd_write_csr, cmd_run_dma, cmd_read_sram,
  cmd_read_sysmem, cmd_crc_sram, cmd_crc_sysmem, cmd_read_csr, cmd_ack, le32, next_sync,
}
use axi_dma_engine.Host.Transfers.{Images, Transfer, no_images, note_line, transfers}

abbrev pub csr_base : ℕ
csr_base = 0x80000000

-- `build_packet`
unfoldable pub build_packet : ℕ → ℕ → List ℕ → Result (List ℕ)
build_packet opcode address payload =
    if leb (2 ^ 8) opcode || leb (2 ^ 32) address || leb (2 ^ 32) (length payload)
    then err struct_error
    else ok (le32 sync_word ++ opcode ∷ le32 address ++ le32 (length payload) ++ payload)

-- `struct.pack('<I', v)`
abbrev pub pack_word : ℕ → Result (List ℕ)
pack_word v = if leb (2 ^ 32) v then err struct_error else ok (le32 v)

-- the four bytes that a word is unpacked from, if there are four
abbrev pub unpack : List ℕ → Option ℕ
unpack (a ∷ b ∷ c ∷ d ∷ []) = some (a + b * 2 ^ 8 + c * 2 ^ 16 + d * 2 ^ 24)
unpack bytes = none

-- the bits that `dump_csr_status` prints
pub record Flags : Type 0 where
  busy : ℕ
  empty : ℕ
  error : ℕ
  irq_empty : ℕ
  irq_error : ℕ

module _ {P : Type 0} (ser : Serial P) (reads : ℕ) where
  -- `ser.read(1)[0]` behind the sync word
  pub acknowledged : Action P Bool
  acknowledged p = elim (ser.read 1 p).0 [
    | [] ↦ (err index_error, (ser.read 1 p).1)
    | ack ∷ more ↦ (ok (ack == cmd_ack), (ser.read 1 p).1)
  ]

  -- The loop of `wait_for_ack`, with `n` reads left.
  unfoldable pub scan : ℕ → ℕ → Action P Bool
  unfolding acknowledged
  scan zero sync_val p = (err out_of_reads, p)
  scan (suc n) sync_val p = elim (ser.read 1 p).0 [
    | [] ↦ (ok false, (ser.read 1 p).1)
    | b ∷ more ↦ elim (next_sync sync_val b == sync_word) [
      | true ↦ acknowledged (ser.read 1 p).1
      | false ↦ scan n (next_sync sync_val b) (ser.read 1 p).1
    ]
  ]

  unfoldable pub wait_for_ack : Action P Bool
  wait_for_ack = scan reads 0

  -- `ser.write(build_packet(...))`
  pub send : ℕ → ℕ → List ℕ → Action P (Unit {0})
  send opcode address payload = do
    packet ← lift (build_packet opcode address payload)
    modify (ser.write packet)

  -- `ser.read(4)` and its unpacking
  pub read_reply : Action P (Option ℕ)
  read_reply p = (ok (unpack (ser.read 4 p).0), (ser.read 4 p).1)

  pub read_memory : ℕ → ℕ → Action P (Option ℕ)
  read_memory opcode addr = do
    send opcode addr []
    acked ← wait_for_ack
    if acked then read_reply else pure none

  pub request_crc : ℕ → ℕ → ℕ → Action P (Option ℕ)
  request_crc opcode addr byte_len = do
    payload ← lift (pack_word byte_len)
    send opcode addr payload
    acked ← wait_for_ack
    if acked then read_reply else pure none

  unfoldable pub csr_read : ℕ → Action P (Option ℕ)
  csr_read offset = read_memory cmd_read_csr (csr_base + offset)

  -- What `dump_csr_status` prints of the two words: `hex` raises on a word that was not read.
  unfoldable pub flags : Option ℕ → Option ℕ → Result (Option Flags)
  flags none irq = ok none
  flags (some status) none = err type_error
  flags (some status) (some irq) = ok (
      some (record {
        busy = bit status 0;
        empty = bit status 1;
        error = bit status 2;
        irq_empty = bit irq 0;
        irq_error = bit irq 1;
      }))

  unfoldable pub dump_csr_status : Action P (Option Flags)
  dump_csr_status = do
    status ← csr_read Csr.reg_status
    irq_status ← csr_read Csr.reg_irq_status
    head ← csr_read Csr.reg_head
    tail ← csr_read Csr.reg_tail
    lift (flags status irq_status)
