-- ===== src/HostRunner/FarSide.antt =====
-- What the theorems on firmware&local/host_runner.py and serial_host.py ask of the far side.
use axi_dma_engine.Base.{
  ℕ, ◌*◌, ◌^◌, ◌+◌, ◌%◌, ◌/◌, ◌⊎◌, ◌<◌, ◌≤◌, ◌≡◌, List, [], ◌∷◌, ◌++◌, length, ◌==◌, if◌then◌else◌,
}
use axi_dma_engine.Host.{
  Serial, le32, sync_word, cmd_ack, cmd_write_sram, cmd_write_sysmem, cmd_write_csr,
}
use axi_dma_engine.Host.Ack.{IsSerial, IsNoise}
use axi_dma_engine.Host.Access.{packet}
use axi_dma_engine.Host.Transfers.{expected}
use axi_dma_engine.Viz.{Region}
use axi_dma_engine.HostRunner.Session.{read_op, crc_op}
use axi_dma_engine.Csr
use axi_dma_engine.HostRunner.{csr_base}

-- an acknowledgement and a word
abbrev pub reply : ℕ → List ℕ
reply v = le32 sync_word ++ cmd_ack ∷ le32 v

abbrev pub ack : List ℕ
ack = le32 sync_word ++ cmd_ack ∷ []

-- The memories of a far side, by region and byte address.
abbrev pub poke : Region → ℕ → ℕ → (Region → ℕ → ℕ) → Region → ℕ → ℕ
poke Region.sram a v m Region.sram k = if k == a then v else m Region.sram k
poke Region.smem a v m Region.smem k = if k == a then v else m Region.smem k
poke r a v m q k = m q k

-- the command that writes a word of a memory
abbrev pub write_op : Region → ℕ
write_op Region.sram = cmd_write_sram
write_op Region.smem = cmd_write_sysmem

-- What comes out of the far side: text that holds no last byte of the sync word, and then `bytes`.
pub record Spoken (longest : ℕ) (out bytes : List ℕ) : Type 0 where
  pub text : List ℕ
  pub is_noise : IsNoise text
  pub short : length text ≤ longest
  pub whole : out ≡ text ++ bytes

-- `n` words from byte address `a` on, in a memory of `size` words.
abbrev pub Inside : ℕ → ℕ → ℕ → Type 0
Inside size a n = (a % 4 ≡ 0) × (a / 4 + n ≤ size)

-- The registers that a scenario's lines write: BASEADDR, RINGLEN and TAIL.
abbrev pub IsSetting : ℕ → Type 0
IsSetting o = (o ≡ Csr.reg_baseaddr) ⊎ ((o ≡ Csr.reg_ringlen) ⊎ (o ≡ Csr.reg_tail))

-- A far side that serves the commands of protocol.h one after the other, when the reply to the one
-- before has been read, and prints at most `longest` bytes of text in front of each
-- acknowledgement. What it promises of the memories is about whole words inside them, `words` in
-- each: a read is answered with the word, a request for the checksum of `n` words with that of the
-- words, and only a write of a word changes the memories. Firmware/Serves is
-- about firmware&local/uart_read_write.c as one.
pub record IsDevice {P : Type 0} (ser : Serial P) (arriving : P → List ℕ) (crc32 : List ℕ → ℕ)
    (memory : P → Region → ℕ → ℕ) : Type 0 where
  pub longest : ℕ
  pub words : Region → ℕ
  pub serial : IsSerial ser arriving
  pub read_keeps : (n : ℕ) (p : P) → memory (ser.read n p).1 ≡ memory p
  pub word_size : (r : Region) (a : ℕ) (p : P) → memory p r a < 2 ^ 32
  pub crc_size : (ws : List ℕ) → crc32 ws < 2 ^ 32
  pub on_read :
      (r : Region) (a : ℕ) (p : P)
      → a < 2 ^ 32
      → Inside (words r) a 1
      → arriving p ≡ []
      → let q = ser.write (packet (read_op r) a []) p in
        Spoken longest (arriving q) (reply (memory p r a)) × (memory q ≡ memory p)
  pub on_crc :
      (r : Region) (a n : ℕ) (p : P)
      → a < 2 ^ 32
      → n * 4 < 2 ^ 32
      → Inside (words r) a n
      → arriving p ≡ []
      → let q = ser.write (packet (crc_op r) a (le32 (n * 4))) p in
        Spoken longest (arriving q) (reply (crc32 (expected (memory p r) a n)))
        × (memory q ≡ memory p)
  pub on_write :
      (r : Region) (a v : ℕ) (p : P)
      → a < 2 ^ 32
      → v < 2 ^ 32
      → Inside (words r) a 1
      → arriving p ≡ []
      → let q = ser.write (packet (write_op r) a (le32 v)) p in
        Spoken longest (arriving q) ack × (memory q ≡ poke r a v (memory p))
  pub on_csr_write :
      (o v : ℕ) (p : P)
      → IsSetting o
      → v < 2 ^ 32
      → arriving p ≡ []
      → let q = ser.write (packet cmd_write_csr (csr_base + o) (le32 v)) p in
        Spoken longest (arriving q) ack × (memory q ≡ memory p)
