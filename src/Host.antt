-- ===== src/Host.antt =====
-- firmware&local/serial_host.py: the serial protocol on the host's side. The port itself is
-- pyserial's, so its two calls are the argument `ser`. A wait that the source ends by the clock
-- has the number of reads that begin before its deadline as the argument `polls`.
use Prim.Native.Nat.{bit_or}
use axi_dma_engine.Base.{
  ℕ, zero, suc, ◌+◌, ◌*◌, ◌%◌, ◌/◌, ◌^◌, ◌&&◌, ◌||◌, not, true, false, List, [], ◌∷◌, ◌++◌, length,
  ltb, leb, ◌==◌, if◌then◌else◌, Result, ok, err, Action, pure, raise, lift, modify, raise_if,
  ◌>>=◌, ◌>>◌, struct_error, ack_timeout, ack_cut, nack, read_timeout, crc_mismatch,
}
use axi_dma_engine.Base.Words.{mask, shr, shl}
use axi_dma_engine.Csr
use axi_dma_engine.Golden.Scenario.{StimLine}
pub mod Packet
pub mod Ack
pub mod Access
pub mod DryRun
pub mod Transfers
pub mod Follows
pub mod Mirror
pub mod Expect
pub mod Session
pub mod Regions
pub mod Files
pub mod Requests
pub mod Held
pub mod Checks
pub mod Compares
pub mod Main

-- `serial.Serial`: `read n` returns up to `n` bytes, fewer at its timeout.
pub record Serial (P : Type 0) : Type 0 where
  pub read : ℕ → P → List ℕ × P
  pub write : List ℕ → P → P

abbrev pub sync_word : ℕ
sync_word = 0xdeadbeef

abbrev pub cmd_write_sram : ℕ
cmd_write_sram = 0x01

abbrev pub cmd_write_sysmem : ℕ
cmd_write_sysmem = 0x02

abbrev pub cmd_write_csr : ℕ
cmd_write_csr = 0x03

abbrev pub cmd_run_dma : ℕ
cmd_run_dma = 0x04

abbrev pub cmd_read_sram : ℕ
cmd_read_sram = 0x06

abbrev pub cmd_read_sysmem : ℕ
cmd_read_sysmem = 0x07

abbrev pub cmd_crc_sram : ℕ
cmd_crc_sram = 0x08

abbrev pub cmd_crc_sysmem : ℕ
cmd_crc_sysmem = 0x09

abbrev pub cmd_read_csr : ℕ
cmd_read_csr = 0x0a

abbrev pub cmd_ack : ℕ
cmd_ack = 0xaa

-- the four bytes of `struct.pack("<I", v)`
abbrev pub le32 : ℕ → List ℕ
le32 v = v % 2 ^ 8 ∷ v / 2 ^ 8 % 2 ^ 8 ∷ v / 2 ^ 16 % 2 ^ 8 ∷ v / 2 ^ 24 % 2 ^ 8 ∷ []

-- `_build_packet`; `struct.pack` raises where a field is out of its range
unfoldable pub build_packet : ℕ → ℕ → List ℕ → Result (List ℕ)
build_packet opcode address payload =
    if leb (2 ^ 8) opcode || leb (2 ^ 32) address || leb (2 ^ 32) (length payload)
    then err struct_error
    else ok (le32 sync_word ++ opcode ∷ le32 address ++ le32 (length payload) ++ payload)

-- `((sync_val >> 8) | (b[0] << 24)) & 0xFFFFFFFF`
abbrev pub next_sync : ℕ → ℕ → ℕ
next_sync sync_val b = mask 32 (bit_or (shr sync_val 8) (shl b 24))

-- `struct.unpack("<I", data)[0]` of four bytes, after the test of their number
abbrev pub unpack_word : List ℕ → Result ℕ
unpack_word (a ∷ b ∷ c ∷ d ∷ []) = ok (a + b * 2 ^ 8 + c * 2 ^ 16 + d * 2 ^ 24)
unpack_word bytes = err read_timeout

-- `csr_base_addr`, `smem_base_addr` and `sram_base_addr`
pub record Bases : Type 0 where
  pub csr_base_addr : ℕ
  pub smem_base_addr : ℕ
  pub sram_base_addr : ℕ

module _ {P : Type 0} (ser : Serial P) where
  -- `_send_packet`
  pub send_packet : ℕ → ℕ → List ℕ → Action P (Unit {0})
  send_packet opcode address payload = do
    packet ← lift (build_packet opcode address payload)
    modify (ser.write packet)

  -- the byte behind the sync word
  unfoldable pub read_ack : Action P (Unit {0})
  read_ack p = elim (ser.read 1 p).0 [
    | [] ↦ (err ack_cut, (ser.read 1 p).1)
    | resp ∷ more ↦ ((if resp == cmd_ack then ok tt else err nack), (ser.read 1 p).1)
  ]

  -- The loop of `_wait_for_ack`.
  unfoldable pub scan : ℕ → ℕ → Action P (Unit {0})
  scan zero sync_val p = (err ack_timeout, p)
  scan (suc polls) sync_val p = elim (ser.read 1 p).0 [
    | [] ↦ scan polls sync_val (ser.read 1 p).1
    | b ∷ more ↦ elim (next_sync sync_val b == sync_word) [
      | true ↦ read_ack (ser.read 1 p).1
      | false ↦ scan polls (next_sync sync_val b) (ser.read 1 p).1
    ]
  ]

  -- `_wait_for_ack`
  unfoldable pub wait_for_ack : ℕ → Action P (Unit {0})
  wait_for_ack polls = scan polls 0

  -- `data = self.ser.read(4)` and what follows it
  pub read_word : Action P ℕ
  read_word p = (unpack_word (ser.read 4 p).0, (ser.read 4 p).1)

  module _ (bases : Bases) (polls : ℕ) where
    pub csr_write : ℕ → ℕ → Action P (Unit {0})
    csr_write byte_offset v = do
      send_packet cmd_write_csr (mask 32 (bases.csr_base_addr + byte_offset)) (le32 (mask 32 v))
      wait_for_ack polls

    pub csr_read : ℕ → Action P ℕ
    csr_read byte_offset = do
      send_packet cmd_read_csr (mask 32 (bases.csr_base_addr + byte_offset)) []
      wait_for_ack polls
      read_word

    pub smem_write : ℕ → ℕ → Action P (Unit {0})
    smem_write byte_addr v = do
      send_packet cmd_write_sysmem (mask 32 (bases.smem_base_addr + byte_addr)) (le32 (mask 32 v))
      wait_for_ack polls

    pub sram_write : ℕ → ℕ → Action P (Unit {0})
    sram_write byte_addr v = do
      send_packet cmd_write_sram (mask 32 (bases.sram_base_addr + byte_addr)) (le32 (mask 32 v))
      wait_for_ack polls

    pub read_smem : ℕ → Action P ℕ
    read_smem byte_addr = do
      send_packet cmd_read_sysmem (mask 32 (bases.smem_base_addr + byte_addr)) []
      wait_for_ack polls
      read_word

    pub read_sram : ℕ → Action P ℕ
    read_sram byte_addr = do
      send_packet cmd_read_sram (mask 32 (bases.sram_base_addr + byte_addr)) []
      wait_for_ack polls
      read_word

    -- `run_dma`, with the reads that begin before its own, longer deadline
    abbrev pub run_dma : ℕ → Action P (Unit {0})
    run_dma dma_polls = do send_packet cmd_run_dma 0 []; wait_for_ack dma_polls

    pub smem_crc : ℕ → ℕ → Action P ℕ
    smem_crc byte_addr byte_length = do
      send_packet cmd_crc_sysmem (mask 32 (bases.smem_base_addr + byte_addr))
          (le32 (mask 32 byte_length))
      wait_for_ack polls
      read_word

    pub sram_crc : ℕ → ℕ → Action P ℕ
    sram_crc byte_addr byte_length = do
      send_packet cmd_crc_sram (mask 32 (bases.sram_base_addr + byte_addr))
          (le32 (mask 32 byte_length))
      wait_for_ack polls
      read_word

    -- One line of `send_stim` behind its parsing; the result is what it adds to `count`.
    pub send_line : StimLine → Action P ℕ
    send_line (StimLine.sysmem_write addr v) = smem_write addr v >> pure 1
    send_line (StimLine.sram_write addr v) = sram_write addr v >> pure 1
    send_line (StimLine.csr_write addr v) =
        if addr == Csr.reg_ctrl then pure 0 else csr_write addr v >> pure 1

    pub send_stim : List StimLine → Action P ℕ
    send_stim [] = pure 0
    send_stim (l ∷ ls) = do n ← send_line l; m ← send_stim ls; pure (n + m)

    -- `send_initial_smem` and `send_initial_sram` from word `i` on, with the words of the file
    unfoldable send_initial_smem : ℕ → List ℕ → Action P ℕ
    send_initial_smem i [] = pure 0
    send_initial_smem i (w ∷ ws) = do
      n ← if w == 0 then pure 0 else smem_write (i * 4) w >> pure 1
      m ← send_initial_smem (i + 1) ws
      pure (n + m)

    unfoldable send_initial_sram : ℕ → List ℕ → Action P ℕ
    send_initial_sram i [] = pure 0
    send_initial_sram i (w ∷ ws) = do
      n ← if w == 0 then pure 0 else sram_write (i * 4) w >> pure 1
      m ← send_initial_sram (i + 1) ws
      pure (n + m)

    -- `verify_smem_crc` and `verify_sram_crc`; `crc32` is `_crc32_words`, by zlib
    module _ (crc32 : List ℕ → ℕ) where
      pub verify_smem_crc : List ℕ → Action P (Unit {0})
      verify_smem_crc words = do
        got ← smem_crc 0 (length words * 4)
        raise_if (not (got == crc32 words)) crc_mismatch

      unfoldable verify_sram_crc : List ℕ → Action P (Unit {0})
      verify_sram_crc words = do
        got ← sram_crc 0 (length words * 4)
        raise_if (not (got == crc32 words)) crc_mismatch
