-- ===== src/Host/Requests.antt =====
-- firmware&local/serial_host.py: its requests to a far side that answers them from its memories.
use axi_dma_engine.Base.{
  ℕ, zero, suc, ◌+◌, ◌*◌, ◌^◌, ◌<◌, ◌≤◌, ◌≡◌, refl, ap, ◌∙◌, sym, List, [], ◌∷◌, length, arith,
  drop, Action, ◌>>◌,
}
use mathlib.Core.Path.{subst}
use axi_dma_engine.HostRunner.Session.{crc_op}
use mathlib.Core.List.{append-nil, append_assoc}
use axi_dma_engine.Base.Words.{mask}
use axi_dma_engine.Host.{
  Serial, Bases, le32, sync_word, cmd_ack, next_sync, scan, read_ack, wait_for_ack, send_packet,
  read_word, read_smem, read_sram, smem_crc, sram_crc, cmd_read_sram, cmd_read_sysmem,
}
use axi_dma_engine.Host.Ack.{wait_for_ack-answers}
use axi_dma_engine.Host.Access.{packet, send_packet_lem, read_word_lem}
use axi_dma_engine.Host.Transfers.{expected}
use axi_dma_engine.Viz.{Region}
use axi_dma_engine.HostRunner.FarSide.{reply, Spoken, Inside, IsDevice}
use axi_dma_engine.HostRunner.Device.{Answered}

-- a port that is quiet, with the memories `m` behind it
abbrev pub Quiet :
    {P : Type 0} → (P → List ℕ) → (P → Region → ℕ → ℕ) → (Region → ℕ → ℕ) → P → Type 0
Quiet arriving memory m p = (arriving p ≡ []) × (memory p ≡ m)

module _ {P : Type 0} (ser : Serial P) (arriving : P → List ℕ) (crc32 : List ℕ → ℕ)
    (memory : P → Region → ℕ → ℕ) (d : IsDevice ser arriving crc32 memory) (polls : ℕ)
    (enough : d.longest + 4 ≤ polls) where
  ack_keeps : (bs : List ℕ) (p : P) → (ser.read 1 p).0 ≡ bs → memory (read_ack ser p).1 ≡ memory p
  unfolding read_ack
  ack_keeps [] p e = ground (arith, e, d.read_keeps 1 p)
  ack_keeps (b ∷ bs) p e = ground (arith, e, d.read_keeps 1 p)

  scan_keeps :
      (n s : ℕ) (bs : List ℕ) (p : P) → (ser.read 1 p).0 ≡ bs → memory (scan ser n s p).1 ≡ memory p
  unfolding scan
  scan_keeps zero s bs p e = refl
  scan_keeps (suc n) s [] p e =
      let p1 = (ser.read 1 p).1 in
      let ih = scan_keeps n s (ser.read 1 p1).0 p1 refl in ground (arith, e, d.read_keeps 1 p, ih)
  scan_keeps (suc n) s (b ∷ bs) p e =
      let p1 = (ser.read 1 p).1 in
      let ih = scan_keeps n (next_sync s b) (ser.read 1 p1).0 p1 refl in
      let last = ack_keeps (ser.read 1 p1).0 p1 refl in
      ground (arith, e, d.read_keeps 1 p, last, ih)

  pub wait_keeps : (p : P) → memory (wait_for_ack ser polls p).1 ≡ memory p
  unfolding wait_for_ack
  wait_keeps p = scan_keeps polls 0 (ser.read 1 p).0 p refl

  -- A request that is answered with a word.
  abbrev ask : ℕ → ℕ → List ℕ → Action P ℕ
  ask op a payload = do send_packet ser op a payload; wait_for_ack ser polls; read_word ser

  ask_lem :
      (op a v : ℕ) (payload : List ℕ) (m : Region → ℕ → ℕ) (p : P)
      → op < 2 ^ 8
      → a < 2 ^ 32
      → length payload < 2 ^ 32
      → v < 2 ^ 32
      → Spoken d.longest (arriving (ser.write (packet op a payload) p)) (reply v)
      → memory (ser.write (packet op a payload) p) ≡ m
      → Answered arriving memory (ask op a payload p) v m
  unfolding read_word
  ask_lem op a v payload m p ho ha hp hv e1 e2 =
      let h = d.serial in
      let q = ser.write (packet op a payload) p in
      let sent = send_packet_lem ser arriving h op a payload p ho ha hp in
      let w =
        wait_for_ack-answers ser arriving h polls cmd_ack e1.text (le32 v) q e1.is_noise
          (e1.whole ∙ sym (append_assoc e1.text (le32 sync_word) (cmd_ack ∷ le32 v)))
          (omega (arith, e1.short, enough)) in
      let u = (wait_for_ack ser polls q).1 in
      let word = read_word_lem ser arriving h v [] u hv (w.1 ∙ sym (append-nil (le32 v))) in
      let rest : arriving (ser.read 4 u).1 ≡ [] = h.read_rest 4 u ∙ ap (drop 4) w.1 in
      let kept = d.read_keeps 4 u ∙ wait_keeps q ∙ e2 in ground (arith, sent, w.0, word, rest, kept)

  -- A word and a checksum, by the address on the bus.
  pub read_smem-Answered :
      (bases : Bases) (off : ℕ) (m : Region → ℕ → ℕ) (p : P)
      → Inside (d.words Region.smem) (mask 32 (bases.smem_base_addr + off)) 1
      → Quiet arriving memory m p
      → Answered arriving memory
          (read_smem ser bases polls off p)
          (m Region.smem (mask 32 (bases.smem_base_addr + off)))
          m
  unfolding read_smem
  read_smem-Answered bases off m p inside q =
      let a = mask 32 (bases.smem_base_addr + off) in
      let (e1, e2) = d.on_read Region.smem a p (omega arith) inside q.0 in
      let same = ap (λ k. k Region.smem a) q.1 in
      let small = subst (λ v. v < 2 ^ 32) same (d.word_size Region.smem a p) in
      ask_lem cmd_read_sysmem a (m Region.smem a) [] m p (omega arith) (omega arith) (omega arith)
        small
        (subst
          (λ v. Spoken d.longest (arriving (ser.write (packet cmd_read_sysmem a []) p)) (reply v))
          same e1)
        (e2 ∙ q.1)

  pub read_sram-Answered :
      (bases : Bases) (off : ℕ) (m : Region → ℕ → ℕ) (p : P)
      → Inside (d.words Region.sram) (mask 32 (bases.sram_base_addr + off)) 1
      → Quiet arriving memory m p
      → Answered arriving memory
          (read_sram ser bases polls off p)
          (m Region.sram (mask 32 (bases.sram_base_addr + off)))
          m
  unfolding read_sram
  read_sram-Answered bases off m p inside q =
      let a = mask 32 (bases.sram_base_addr + off) in
      let (e1, e2) = d.on_read Region.sram a p (omega arith) inside q.0 in
      let same = ap (λ k. k Region.sram a) q.1 in
      let small = subst (λ v. v < 2 ^ 32) same (d.word_size Region.sram a p) in
      ask_lem cmd_read_sram a (m Region.sram a) [] m p (omega arith) (omega arith) (omega arith)
        small
        (subst
          (λ v. Spoken d.longest (arriving (ser.write (packet cmd_read_sram a []) p)) (reply v))
          same e1)
        (e2 ∙ q.1)

  crc_lem :
      (r : Region) (a n : ℕ) (m : Region → ℕ → ℕ) (p : P)
      → crc_op r < 2 ^ 8
      → a < 2 ^ 32
      → n * 4 < 2 ^ 32
      → Inside (d.words r) a n
      → Quiet arriving memory m p
      → Answered arriving memory
          (ask (crc_op r) a (le32 (mask 32 (n * 4))) p)
          (crc32 (expected (m r) a n))
          m
  crc_lem r a n m p ho ha short inside q =
      let (e1, e2) = d.on_crc r a n p ha short inside q.0 in
      let same = ap (λ k. crc32 (expected (k r) a n)) q.1 in
      let whole : mask 32 (n * 4) ≡ n * 4 = omega (arith, short) in
      rw whole (
        ask_lem (crc_op r) a (crc32 (expected (m r) a n)) (le32 (n * 4)) m p ho ha (omega arith)
          (d.crc_size (expected (m r) a n))
          (subst
            (λ v.
              Spoken d.longest (arriving (ser.write (packet (crc_op r) a (le32 (n * 4))) p))
                (reply v))
            same e1)
          (e2 ∙ q.1))

  pub smem_crc-Answered :
      (bases : Bases) (off n : ℕ) (m : Region → ℕ → ℕ) (p : P)
      → n * 4 < 2 ^ 32
      → Inside (d.words Region.smem) (mask 32 (bases.smem_base_addr + off)) n
      → Quiet arriving memory m p
      → Answered arriving memory
          (smem_crc ser bases polls off (n * 4) p)
          (crc32 (expected (m Region.smem) (mask 32 (bases.smem_base_addr + off)) n))
          m
  unfolding smem_crc
  smem_crc-Answered bases off n m p short inside q =
      crc_lem Region.smem (mask 32 (bases.smem_base_addr + off)) n m p (omega arith) (omega arith)
        short inside q

  pub sram_crc-Answered :
      (bases : Bases) (off n : ℕ) (m : Region → ℕ → ℕ) (p : P)
      → n * 4 < 2 ^ 32
      → Inside (d.words Region.sram) (mask 32 (bases.sram_base_addr + off)) n
      → Quiet arriving memory m p
      → Answered arriving memory
          (sram_crc ser bases polls off (n * 4) p)
          (crc32 (expected (m Region.sram) (mask 32 (bases.sram_base_addr + off)) n))
          m
  unfolding sram_crc
  sram_crc-Answered bases off n m p short inside q =
      crc_lem Region.sram (mask 32 (bases.sram_base_addr + off)) n m p (omega arith) (omega arith)
        short inside q
