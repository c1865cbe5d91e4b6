-- ===== src/Firmware.antt =====
-- firmware&local/uart_read_write.c: the loop on the MicroBlaze that serves the hosts' commands. A host
-- writes whole packets, so the loop is modelled on the bytes of one write, from STATE_WAIT_SYNC on.
-- What it works on is a parameter, as is what is not its own code: `print` is the text of
-- xil_printf, `out32` and `in32` are the bus behind the registers, and `engine` is what CMD_RUN_DMA
-- sends and leaves, which the polled engine decides.
use axi_dma_engine.Base.{
  ℕ, zero, suc, ◌+◌, ◌*◌, ◌/◌, ◌%◌, ◌^◌, List, [], ◌∷◌, ◌++◌, length, ltb, leb, ◌==◌, if◌then◌else◌,
}
use axi_dma_engine.Base.Words.{mask}
use axi_dma_engine.Host.{le32, sync_word, next_sync, cmd_ack}
use axi_dma_engine.Viz.{Region}
pub mod Serves

abbrev pub cmd_nack : ℕ
cmd_nack = 0xee

-- The two memories by word index, and the rest of the hardware.
pub record Hardware (C : Type 0) : Type 0 where
  pub ram : Region → ℕ → ℕ
  pub rest : C

-- The texts that the loop prints in front of an acknowledgement.
pub data Message : Type 0 where
  wrote : Region → ℕ → ℕ → Message
  wrote_csr : ℕ → ℕ → Message
  was_read : Region → ℕ → ℕ → Message
  read_csr : ℕ → ℕ → Message
  summed : Region → ℕ → ℕ → ℕ → Message

-- `ParserState`, with what has been read of the packet
pub data Parser : Type 0 where
  wait_sync : ℕ → Parser
  read_header : List ℕ → Parser
  read_payload : ℕ → ℕ → ℕ → List ℕ → Parser

-- `payload_word`, and `uart_read_u32_le`
abbrev pub payload_word : List ℕ → ℕ
payload_word (a ∷ b ∷ c ∷ d ∷ bytes) = a + b * 2 ^ 8 + c * 2 ^ 16 + d * 2 ^ 24
payload_word bytes = 0

-- `send_ack`
abbrev pub send_ack : ℕ → List ℕ
send_ack ack_type = le32 sync_word ++ ack_type ∷ []

-- The word that a byte address picks: mem_access_ctrl.sv and sys_mem.sv take its bits from 2 on,
-- as many as the memory's size has, a power of 2.
abbrev pub index : (Region → ℕ) → Region → ℕ → ℕ
index size r byte_addr = byte_addr / 4 % size r

abbrev put : Region → ℕ → ℕ → (Region → ℕ → ℕ) → Region → ℕ → ℕ
put Region.sram i v m Region.sram k = if k == i then v else m Region.sram k
put Region.smem i v m Region.smem k = if k == i then v else m Region.smem k
put r i v m q k = m q k

module _ {C : Type 0} (size : Region → ℕ) where
  -- `sram_read` and `sysmem_read`, of words of 32 bits
  abbrev pub read : Region → ℕ → Hardware C → ℕ
  read r byte_addr h = mask 32 (h.ram r (index size r byte_addr))

  -- `sram_write` and `sysmem_write`
  abbrev pub write : Region → ℕ → ℕ → Hardware C → Hardware C
  write r byte_addr v h = record h { ram = put r (index size r byte_addr) v h.ram }

  -- the words that `crc32_sram_range` and `crc32_sysmem_range` read, from word `w` on
  pub range : Region → ℕ → ℕ → ℕ → Hardware C → List ℕ
  range r start w zero h = []
  range r start w (suc n) h = read r (mask 32 (start + w * 4)) h ∷ range r start (w + 1) n h

module _ {C : Type 0} (size : Region → ℕ) (crc32 : List ℕ → ℕ) (print : Message → List ℕ)
    (out32 : ℕ → ℕ → Hardware C → Hardware C) (in32 : ℕ → Hardware C → ℕ)
    (engine : Hardware C → List ℕ × Hardware C) where
  -- STATE_PROCESS by the kind of command: the bytes that are sent, and the hardware behind it.
  abbrev on_write : Region → ℕ → List ℕ → Hardware C → List ℕ × Hardware C
  on_write r a payload h =
      if leb 4 (length payload)
      then (
        print (Message.wrote r (payload_word payload) a) ++ send_ack cmd_ack,
        write size r a (payload_word payload) h,
      )
      else (send_ack cmd_nack, h)

  abbrev on_write_csr : ℕ → List ℕ → Hardware C → List ℕ × Hardware C
  on_write_csr a payload h =
      if leb 4 (length payload)
      then (
        print (Message.wrote_csr (payload_word payload) a) ++ send_ack cmd_ack,
        out32 a (payload_word payload) h,
      )
      else (send_ack cmd_nack, h)

  abbrev on_read : Region → ℕ → Hardware C → List ℕ × Hardware C
  on_read r a h = (
    print (Message.was_read r (read size r a h) a) ++ (send_ack cmd_ack ++ le32 (read size r a h)),
    h,
  )

  abbrev on_read_csr : ℕ → Hardware C → List ℕ × Hardware C
  on_read_csr a h =
      (print (Message.read_csr a (in32 a h)) ++ (send_ack cmd_ack ++ le32 (in32 a h)), h)

  abbrev on_crc : Region → ℕ → List ℕ → Hardware C → List ℕ × Hardware C
  on_crc r a payload h =
      if leb 4 (length payload)
      then (
        let crc = crc32 (range size r a 0 (payload_word payload / 4) h) in
            print (Message.summed r a (payload_word payload) crc) ++ (send_ack cmd_ack ++ le32 crc),
        h,
      )
      else (send_ack cmd_nack, h)

  pub process : ℕ → ℕ → List ℕ → Hardware C → List ℕ × Hardware C
  process opcode a payload h =
      if opcode == 1
      then on_write Region.sram a payload h
      else if opcode == 2
      then on_write Region.smem a payload h
      else if opcode == 3
      then on_write_csr a payload h
      else if opcode == 4
      then engine h
      else if opcode == 6
      then on_read Region.sram a h
      else if opcode == 7
      then on_read Region.smem a h
      else if opcode == 8
      then on_crc Region.sram a payload h
      else if opcode == 9
      then on_crc Region.smem a payload h
      else if opcode == 10
      then on_read_csr a h
      else (send_ack cmd_nack, h)

  -- What a command leaves: its bytes, and the parser, which waits for a sync word again.
  abbrev done : List ℕ × Hardware C → List ℕ × Parser × Hardware C
  done (bytes, h) = (bytes, Parser.wait_sync 0, h)

  -- STATE_READ_HEADER behind its last byte
  abbrev header_read : List ℕ → Hardware C → List ℕ × Parser × Hardware C
  header_read (opcode ∷ a ∷ b ∷ c ∷ d ∷ len) h =
      if payload_word len == 0
      then done (process opcode (payload_word (a ∷ b ∷ c ∷ d ∷ [])) [] h)
      else (
        [],
        Parser.read_payload opcode (payload_word (a ∷ b ∷ c ∷ d ∷ [])) (payload_word len) [],
        h,
      )
  header_read bytes h = ([], Parser.read_header bytes, h)

  -- One byte.
  abbrev step : Parser → ℕ → Hardware C → List ℕ × Parser × Hardware C
  step (Parser.wait_sync sync_buffer) b h =
      if next_sync sync_buffer b == sync_word
      then ([], Parser.read_header [], h)
      else ([], Parser.wait_sync (next_sync sync_buffer b), h)
  step (Parser.read_header bytes) b h =
      if length bytes == 8
      then header_read (bytes ++ b ∷ []) h
      else ([], Parser.read_header (bytes ++ b ∷ []), h)
  step (Parser.read_payload opcode a len bytes) b h =
      if length bytes + 1 == len
      then done (process opcode a (bytes ++ b ∷ []) h)
      else ([], Parser.read_payload opcode a len (bytes ++ b ∷ []), h)

  -- The loop over the bytes of a write; the result is what is sent, and the hardware.
  abbrev pub serve : Parser → List ℕ → Hardware C → List ℕ × Hardware C
  serve state [] h = ([], h)
  serve state (b ∷ bytes) h =
      let (sent, state', h') = step state b h in
      let rest = serve state' bytes h' in (sent ++ rest.0, rest.1)
