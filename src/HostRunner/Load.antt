-- ===== src/HostRunner/Load.antt =====
-- firmware&local/host_runner.py: parse_stimulus and the memories of the far side.
use mathlib.Core.Path.{fun_ext}
use axi_dma_engine.Base.{ℕ, ◌+◌, ◌^◌, ◌<◌, ◌≤◌, ◌≡◌, List, [], ◌∷◌, map, arith, refl, ap, ◌∙◌, ◌>>◌}
use axi_dma_engine.Host.{Serial, le32, cmd_write_sram, cmd_write_sysmem, cmd_write_csr}
use axi_dma_engine.Host.Access.{packet}
use axi_dma_engine.Host.Transfers.{Images, no_images, note_line, note_lines, transfers}
use axi_dma_engine.Golden.Scenario.{StimLine}
use axi_dma_engine.Viz.{Region}
use axi_dma_engine.HostRunner.Session.{
  written, ack_or_exit, send_write, send_directive, send_directives, parse_stimulus,
}
use axi_dma_engine.HostRunner.{csr_base, send}
use axi_dma_engine.HostRunner.FarSide.{ack, IsDevice, Spoken, Inside, IsSetting, poke}
use axi_dma_engine.HostRunner.Device.{Answered, send_lem, acked, wait_keeps}

-- Each number of a line goes into a field of 32 bits.
abbrev IsSmall : StimLine → Type 0
IsSmall (StimLine.sysmem_write a v) = (a < 2 ^ 32) × (v < 2 ^ 32)
IsSmall (StimLine.sram_write a v) = (a < 2 ^ 32) × (v < 2 ^ 32)
IsSmall (StimLine.csr_write o v) = (csr_base + o < 2 ^ 32) × (v < 2 ^ 32)

abbrev pub AreSmall : List StimLine → Type 0
AreSmall [] = Unit {0}
AreSmall (l ∷ ls) = IsSmall l × AreSmall ls

-- Each word that a line writes lies inside its memory, and each register is one of a scenario's.
abbrev IsInside : (Region → ℕ) → StimLine → Type 0
IsInside words (StimLine.sysmem_write a v) = Inside (words Region.smem) a 1
IsInside words (StimLine.sram_write a v) = Inside (words Region.sram) a 1
IsInside words (StimLine.csr_write o v) = IsSetting o

abbrev pub AreInside : (Region → ℕ) → List StimLine → Type 0
AreInside words [] = Unit {0}
AreInside words (l ∷ ls) = IsInside words l × AreInside words ls

-- the memories that the dictionaries describe
abbrev pub held : Images → Region → ℕ → ℕ
held i Region.smem = i.sysmem_image
held i Region.sram = i.sram_image

held-smem :
    (a v : ℕ) (i : Images)
    → poke Region.smem a v (held i) ≡ held (note_line (StimLine.sysmem_write a v) i)
unfolding note_line
held-smem a v i = fun_ext (elim [ Region.smem ↦ refl | Region.sram ↦ refl ])

held-sram :
    (a v : ℕ) (i : Images)
    → poke Region.sram a v (held i) ≡ held (note_line (StimLine.sram_write a v) i)
unfolding note_line
held-sram a v i = fun_ext (elim [ Region.smem ↦ refl | Region.sram ↦ refl ])

held-csr : (a v : ℕ) (i : Images) → held i ≡ held (note_line (StimLine.csr_write a v) i)
unfolding note_line
held-csr a v i = fun_ext (elim [ Region.smem ↦ refl | Region.sram ↦ refl ])

module _ {P : Type 0} (ser : Serial P) (arriving : P → List ℕ) (crc32 : List ℕ → ℕ)
    (memory : P → Region → ℕ → ℕ) (d : IsDevice ser arriving crc32 memory) (reads : ℕ)
    (enough : d.longest + 4 ≤ reads) where
  -- A write whose packet is answered.
  send_acked :
      (op a v : ℕ) (m k : Region → ℕ → ℕ) (p : P)
      → op < 2 ^ 8
      → a < 2 ^ 32
      → Spoken d.longest (arriving (ser.write (packet op a (le32 v)) p)) ack
      → (memory (ser.write (packet op a (le32 v)) p) ≡ k)
      → Answered arriving memory ((send ser reads op a (le32 v) >> ack_or_exit ser reads) p) tt k
  send_acked op a v m k p ho ha e1 e2 =
      let h = d.serial in
      let sent = send_lem ser arriving h reads op a (le32 v) p ho ha (omega arith) in
      let q = ser.write (packet op a (le32 v)) p in
      let w = acked ser arriving h reads d.longest [] q enough e1 in
      let kept = wait_keeps ser arriving crc32 memory d reads enough q ∙ e2 in
      ground (arith, sent, w, kept)

  -- the dictionaries before and after one line, held by the far side
  Holds : Images → P → Type 0
  Holds i p = (arriving p ≡ []) × (memory p ≡ held i)

  send_write_lem :
      (l : StimLine) (i : Images) (p : P)
      → IsSmall l
      → IsInside d.words l
      → Holds i p
      → Answered arriving memory (send_write ser reads l p) tt (held (note_line l i))
  unfolding send_write Holds
  send_write_lem (StimLine.sysmem_write a v) i p small inside h =
      let (e1, e2) = d.on_write Region.smem a v p small.0 small.1 inside h.0 in
      let k = e2 ∙ ap (poke Region.smem a v) h.1 ∙ held-smem a v i in
      let w =
        send_acked cmd_write_sysmem a v (held i) (held (note_line (StimLine.sysmem_write a v) i)) p
          (omega arith) small.0 e1 k in
      ground (arith, w)
  send_write_lem (StimLine.sram_write a v) i p small inside h =
      let (e1, e2) = d.on_write Region.sram a v p small.0 small.1 inside h.0 in
      let k = e2 ∙ ap (poke Region.sram a v) h.1 ∙ held-sram a v i in
      let w =
        send_acked cmd_write_sram a v (held i) (held (note_line (StimLine.sram_write a v) i)) p
          (omega arith) small.0 e1 k in
      ground (arith, w)
  send_write_lem (StimLine.csr_write o v) i p small inside h =
      let (e1, e2) = d.on_csr_write o v p inside small.1 h.0 in
      let k = e2 ∙ h.1 ∙ held-csr o v i in
      let w =
        send_acked cmd_write_csr (csr_base + o) v (held i)
          (held (note_line (StimLine.csr_write o v) i)) p (omega arith) small.0 e1 k in
      ground (arith, w)

  send_directives_lem :
      (ls : List StimLine) (i : Images) (p : P)
      → AreSmall ls
      → AreInside d.words ls
      → Holds i p
      → Answered arriving memory
          (send_directives ser reads (map written ls) i p)
          (note_lines ls i)
          (held (note_lines ls i))
  unfolding send_directives send_directive note_lines Holds
  send_directives_lem [] i p small inside h = (refl, h.0, h.1)
  send_directives_lem (l ∷ ls) i p small inside h =
      let a = send_write_lem l i p small.0 inside.0 h in
      let ih =
        send_directives_lem ls (note_line l i) (send_write ser reads l p).1 small.1 inside.1
          (a.1, a.2) in
      ground (arith, a.0, ih)

  -- Against a far side that serves the commands, starts with memories of zeros and is ready, with
  -- reads for its longest text and a sync word: parse_stimulus on lines of 32-bit numbers that
  -- write whole words inside the memories, and the registers BASEADDR, RINGLEN and TAIL, returns
  -- the transfers of its dictionaries, and leaves the far side ready with its memories equal to
  -- them.
  pub parse_stimulus-loads :
      (ls : List StimLine) (p : P)
      → AreSmall ls
      → AreInside d.words ls
      → arriving p ≡ []
      → memory p ≡ held no_images
      → let i = note_lines ls no_images in
        Answered arriving memory
          (parse_stimulus ser reads (map written ls) p)
          (transfers i)
          (held i)
  unfolding parse_stimulus Holds
  parse_stimulus-loads ls p small inside quiet zeros =
      let a = send_directives_lem ls no_images p small inside (quiet, zeros) in ground (arith, a)
