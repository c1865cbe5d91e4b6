-- ===== src/HostRunner/Session.antt =====
-- firmware&local/host_runner.py: the stimulus sent over the serial link, and the check of what the
-- transfers have left on the far side. A line stands here as `split` and `int` have read it.
use axi_dma_engine.Base.{
  ℕ, zero, suc, ◌+◌, ◌*◌, ◌&&◌, Bool, true, false, Option, none, some, List, [], ◌∷◌, ◌++◌, ◌==◌,
  if◌then◌else◌, Result, ok, err, Action, pure, raise, lift, raise_if, not, ◌>>=◌, ◌>>◌,
  index_error, exited,
}
use axi_dma_engine.Golden.Scenario.{StimLine}
use axi_dma_engine.Text.{Chars, codes, number, decimal}
use axi_dma_engine.Viz.{Region, Event}
use axi_dma_engine.Host.{
  Serial, cmd_write_sram, cmd_write_sysmem, cmd_write_csr, cmd_run_dma, cmd_read_sram,
  cmd_read_sysmem, cmd_crc_sram, cmd_crc_sysmem,
}
use axi_dma_engine.Host.Transfers.{Images, Transfer, no_images, note_line, transfers}
use axi_dma_engine.HostRunner.{
  csr_base, pack_word, wait_for_ack, send, read_memory, request_crc, dump_csr_status,
}

-- a line of the file: a write, a read, or one that is passed over
pub data Directive : Type 0 where
  written : StimLine → Directive
  sysmem_read sram_read : ℕ → Directive
  skipped : Directive

-- The commands that read a word of a memory and its checksum.
abbrev pub read_op : Region → ℕ
read_op Region.sram = cmd_read_sram
read_op Region.smem = cmd_read_sysmem

abbrev pub crc_op : Region → ℕ
crc_op Region.sram = cmd_crc_sram
crc_op Region.smem = cmd_crc_sysmem

abbrev pub dst_region : ℕ → Region
dst_region direction = if direction == 1 then Region.sram else Region.smem

abbrev pub src_region : ℕ → Region
src_region direction = if direction == 1 then Region.smem else Region.sram

-- `val == expected_words[0]`, where a read failed or not
unfoldable pub first_matches : Option ℕ → List ℕ → Result Bool
first_matches none words = ok false
first_matches (some v) [] = err index_error
first_matches (some v) (w ∷ ws) = ok (v == w)

-- `(fw_crc is not None) and (fw_crc == expected_crc)`
unfoldable pub crc_ok : Option ℕ → ℕ → Bool
crc_ok none crc = false
crc_ok (some v) crc = v == crc

-- `[[addr + j * 4, expected_words[j]] for j in range(len_words)]`
unfoldable pub cells_at : ℕ → ℕ → List ℕ → Result (List (ℕ × ℕ))
cells_at addr zero words = ok []
cells_at addr (suc n) [] = err index_error
cells_at addr (suc n) (w ∷ ws) = elim (cells_at (addr + 4) n ws) [
  | ok cells ↦ ok ((addr, w) ∷ cells)
  | err e ↦ err e
]

abbrev value_or_zero : Option ℕ → ℕ
value_or_zero none = 0
value_or_zero (some v) = v

-- the sweep of `n` cells from `addr` on
unfoldable pub sweep : Bool → Region → ℕ → ℕ → List Event
sweep matched r addr zero = []
sweep matched r addr (suc n) =
    (if matched then Event.match_cell r addr else Event.fail_cell r addr)
    ∷ sweep matched r (addr + 4) n

abbrev name_of : Region → Chars
name_of Region.sram = codes "SRAM["
name_of Region.smem = codes "SYSMEM["

-- `dst_label` and `src_label`, with Python's `hex`
abbrev place : Region → ℕ → Chars
place r addr = name_of r ++ codes "0x" ++ number 16 addr ++ codes "]"

abbrev pub label : ℕ → Transfer → Chars
label idx t =
    codes "Desc "
    ++ decimal idx
    ++ codes "  ·  "
    ++ place (src_region t.dir) t.src_addr
    ++ codes " -> "
    ++ place (dst_region t.dir) t.dst_addr
    ++ codes "  ·  "
    ++ decimal t.len_words
    ++ codes " word(s)"

module _ {P : Type 0} (ser : Serial P) (reads : ℕ) where
  -- `if not wait_for_ack(ser): sys.exit(1)`
  abbrev pub ack_or_exit : Action P (Unit {0})
  ack_or_exit = wait_for_ack ser reads >>= λ acked. raise_if (not acked) exited

  -- The bytes of one write of the stimulus.
  unfoldable pub send_write : StimLine → Action P (Unit {0})
  send_write (StimLine.csr_write offset v) = do
    payload ← lift (pack_word v)
    send ser reads cmd_write_csr (csr_base + offset) payload
    ack_or_exit
  send_write (StimLine.sysmem_write addr v) = do
    payload ← lift (pack_word v)
    send ser reads cmd_write_sysmem addr payload
    ack_or_exit
  send_write (StimLine.sram_write addr v) = do
    payload ← lift (pack_word v)
    send ser reads cmd_write_sram addr payload
    ack_or_exit

  -- The body of the loop over the lines of the file.
  unfoldable pub send_directive : Directive → Images → Action P Images
  send_directive (written l) i = send_write l >> pure (note_line l i)
  send_directive (sysmem_read addr) i = do
    val ← read_memory ser reads cmd_read_sysmem addr
    elim val [ none ↦ raise exited | some v ↦ pure i ]
  send_directive (sram_read addr) i = do
    val ← read_memory ser reads cmd_read_sram addr
    elim val [ none ↦ raise exited | some v ↦ pure i ]
  send_directive skipped i = pure i

  unfoldable pub send_directives : List Directive → Images → Action P Images
  send_directives [] i = pure i
  send_directives (d ∷ ds) i = send_directive d i >>= λ j. send_directives ds j

  unfoldable pub parse_stimulus : List Directive → Action P (List Transfer)
  parse_stimulus ds = send_directives ds no_images >>= λ i. pure (transfers i)

  -- The loop that reads `n` cells of a region, from `addr` on, and the events that it sends.
  unfoldable pub read_cells : Region → ℕ → ℕ → Action P (List Event)
  read_cells r addr zero = pure []
  read_cells r addr (suc n) = do
    v ← read_memory ser reads (read_op r) addr
    rest ← read_cells r (addr + 4) n
    pure (Event.actual_cell r addr (some (value_or_zero v)) ∷ rest)

  -- what is sent to the table before the checks of transfer `idx`
  unfoldable pub announce : ℕ → Transfer → Action P (List Event)
  announce idx t = do
    exp_dst ← lift (cells_at t.dst_addr t.len_words t.expected_words)
    exp_src ← lift (cells_at t.src_addr t.len_words t.expected_words)
    dst ← read_cells (dst_region t.dir) t.dst_addr t.len_words
    src ← read_cells (src_region t.dir) t.src_addr t.len_words
    pure (
        Event.header_label (some (label idx t))
        ∷ Event.expected_cells (dst_region t.dir) exp_dst
        ∷ Event.expected_cells (src_region t.dir) exp_src
        ∷ (dst ++ src))

  -- `viz and viz.enabled` is the argument `viz`; `crc32` is `zlib.crc32` of the words' bytes. The
  -- result is what is returned, and the events that are sent.
  module _ (crc32 : List ℕ → ℕ) (viz : Bool) where
    -- the three checks: the first word, the destination's checksum, the source's
    unfoldable pub checks : Transfer → Action P (Bool × Bool × Bool)
    checks t = do
      let byte_len = t.len_words * 4
      val ← read_memory ser reads (read_op (dst_region t.dir)) t.dst_addr
      first ← lift (first_matches val t.expected_words)
      fw_crc_dst ← request_crc ser reads (crc_op (dst_region t.dir)) t.dst_addr byte_len
      fw_crc_src ← request_crc ser reads (crc_op (src_region t.dir)) t.src_addr byte_len
      pure (
        first,
        crc_ok fw_crc_dst (crc32 t.expected_words),
        crc_ok fw_crc_src (crc32 t.expected_words),
      )

    unfoldable pub verify_one_transfer : ℕ → Transfer → Action P (Bool × List Event)
    verify_one_transfer idx t = if t.len_words == 0 then pure (true, []) else (do
      before ← if viz then announce idx t else pure []
      result ← checks t
      let after =
          if viz
          then sweep result.1 (dst_region t.dir) t.dst_addr t.len_words
            ++ sweep result.2 (src_region t.dir) t.src_addr t.len_words
          else []
      pure (result.0 && (result.1 && result.2), before ++ after))

    -- The loop of `verify_dma_result`.
    unfoldable pub verify_all : ℕ → List Transfer → Action P (Bool × List Event)
    verify_all idx [] = pure (true, [])
    verify_all idx (t ∷ ts) = do
      one ← verify_one_transfer idx t
      rest ← verify_all (idx + 1) ts
      pure (one.0 && rest.0, one.1 ++ rest.1)

    unfoldable pub verify_dma_result : List Transfer → Action P (Bool × List Event)
    verify_dma_result [] = pure (false, [])
    verify_dma_result (t ∷ ts) = verify_all 0 (t ∷ ts)

    -- The calls of `main` on the port, between opening and closing it; the result is `dma_ok`.
    unfoldable pub run : List Directive → Action P (Bool × List Event)
    run ds = do
      ts ← parse_stimulus ds
      send ser reads cmd_run_dma 0 []
      dma_ok ← wait_for_ack ser reads
      snapshot ← dump_csr_status ser reads
      checked ← if dma_ok then verify_dma_result ts else pure (true, [])
      pure (dma_ok, checked.1)
