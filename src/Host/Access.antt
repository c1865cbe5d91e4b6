-- ===== src/Host/Access.antt =====
-- firmware&local/serial_host.py: reads and writes of registers and memories over the link.
use axi_dma_engine.Base.{
  ℕ, ◌+◌, ◌*◌, ◌^◌, ◌<◌, ◌≤◌, ◌≡◌, List, [], ◌∷◌, ◌++◌, length, arith, ok, err, ◌==◌, if◌then◌else◌,
  crc_mismatch,
}
use axi_dma_engine.Base.Words.{mask}
use axi_dma_engine.Host.{
  Serial, Bases, le32, sync_word, cmd_ack, cmd_read_csr, cmd_crc_sysmem, send_packet, wait_for_ack,
  read_word, csr_read, smem_crc, verify_smem_crc,
}
use axi_dma_engine.Host.Packet.{build_packet_lem, unpack_word-le32, take-append}
use axi_dma_engine.Host.Ack.{IsSerial, IsNoise, wait_for_ack-answers}

-- The bytes of a packet whose fields are in range.
abbrev pub packet : ℕ → ℕ → List ℕ → List ℕ
packet opcode address payload =
    le32 sync_word ++ opcode ∷ le32 address ++ le32 (length payload) ++ payload

module _ {P : Type 0} (ser : Serial P) (arriving : P → List ℕ) (h : IsSerial ser arriving) where
  pub send_packet_lem :
      (opcode address : ℕ) (payload : List ℕ) (p : P)
      → opcode < 2 ^ 8
      → address < 2 ^ 32
      → length payload < 2 ^ 32
      → send_packet ser opcode address payload p
        ≡ (ok tt, ser.write (packet opcode address payload) p)
  unfolding send_packet
  send_packet_lem opcode address payload p ho ha hp =
      ground (arith, build_packet_lem opcode address payload ho ha hp)

  pub read_word_lem :
      (v : ℕ) (rest : List ℕ) (p : P)
      → v < 2 ^ 32
      → arriving p ≡ le32 v ++ rest
      → ((read_word ser p).0 ≡ ok v)
  unfolding read_word
  read_word_lem v rest p hv e =
      ground (arith, h.read_front 4 p, take-append (le32 v) rest, unpack_word-le32 v hv)

  -- What arrives when the far side answers a packet with an acknowledgement and then `bytes`.
  module _ (polls : ℕ) (noise : List ℕ) (q : IsNoise noise)
      (enough : length noise + 4 ≤ polls) where
    abbrev Acknowledged : List ℕ → P → Type 0
    Acknowledged bytes p = arriving p ≡ noise ++ le32 sync_word ++ cmd_ack ∷ bytes

    acked :
        (bytes : List ℕ) (p : P)
        → Acknowledged bytes p
        → ((wait_for_ack ser polls p).0 ≡ ok tt) × (arriving (wait_for_ack ser polls p).1 ≡ bytes)
    acked bytes p e = wait_for_ack-answers ser arriving h polls cmd_ack noise bytes p q e enough

    -- On a port that reads the bytes in the order in which they arrive, when noise, an
    -- acknowledgement and a 32-bit word arrive after the packet of the register's address is
    -- written, a register read returns that word, given a read for each byte of the noise and the
    -- sync word.
    csr_read-answers :
        (bases : Bases) (byte_offset v : ℕ) (rest : List ℕ) (p : P)
        → v < 2 ^ 32
        → arriving
            (ser.write (packet cmd_read_csr (mask 32 (bases.csr_base_addr + byte_offset)) []) p)
          ≡ noise ++ le32 sync_word ++ cmd_ack ∷ (le32 v ++ rest)
        → (csr_read ser bases polls byte_offset p).0 ≡ ok v
    unfolding csr_read
    csr_read-answers bases byte_offset v rest p hv e =
        let a = mask 32 (bases.csr_base_addr + byte_offset) in
        let sent = ser.write (packet cmd_read_csr a []) p in
        let w = acked (le32 v ++ rest) sent e in
        ground (
          arith,
          send_packet_lem cmd_read_csr a [] p (omega arith) (omega arith) (omega arith),
          w,
          read_word_lem v rest (wait_for_ack ser polls sent).1 hv w.1,
        )

    -- On a port that reads the bytes in the order in which they arrive, when noise, an
    -- acknowledgement and a 32-bit checksum arrive after the packet of the request is written,
    -- `verify_smem_crc` returns if the checksum is that of the words and raises if it is another,
    -- given a read for each byte of the noise and the sync word.
    verify_smem_crc-answers :
        (bases : Bases) (crc32 : List ℕ → ℕ) (words : List ℕ) (v : ℕ) (rest : List ℕ) (p : P)
        → v < 2 ^ 32
        → arriving (
            ser.write
              (packet cmd_crc_sysmem
                (mask 32 (bases.smem_base_addr + 0))
                (le32 (mask 32 (length words * 4))))
              p)
          ≡ noise ++ le32 sync_word ++ cmd_ack ∷ (le32 v ++ rest)
        → (verify_smem_crc ser bases polls crc32 words p).0
          ≡ (if v == crc32 words then ok tt else err crc_mismatch)
    unfolding verify_smem_crc smem_crc
    verify_smem_crc-answers bases crc32 words v rest p hv e =
        let a = mask 32 (bases.smem_base_addr + 0) in
        let len = le32 (mask 32 (length words * 4)) in
        let sent = ser.write (packet cmd_crc_sysmem a len) p in
        let w = acked (le32 v ++ rest) sent e in
        ground (
          arith,
          send_packet_lem cmd_crc_sysmem a len p (omega arith) (omega arith) (omega arith),
          w,
          read_word_lem v rest (wait_for_ack ser polls sent).1 hv w.1,
        )
