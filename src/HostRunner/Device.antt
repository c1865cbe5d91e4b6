-- ===== src/HostRunner/Device.antt =====
-- firmware&local/host_runner.py: its requests to a far side that answers them from its memories.
use mathlib.Core.Path.{subst}
use mathlib.Core.List.{append_assoc}
use axi_dma_engine.Base.{
  ℕ, ◌*◌, ◌^◌, ◌+◌, ◌<◌, ◌≤◌, ◌≡◌, List, [], ◌∷◌, ◌++◌, length, length-append, take, drop, arith,
  zero, suc, some, Result, ok, refl, ap, sym, ◌∙◌, true,
}
use axi_dma_engine.Host.{Serial, le32, sync_word, cmd_ack, next_sync}
use axi_dma_engine.Host.Ack.{IsSerial, wait_for_ack-answers}
use axi_dma_engine.Host.Access.{packet}
use axi_dma_engine.Host.Transfers.{expected}
use axi_dma_engine.Viz.{Region}
use axi_dma_engine.HostRunner.Session.{read_op, crc_op}
use axi_dma_engine.HostRunner.{
  build_packet, unpack, scan, acknowledged, wait_for_ack, send, read_reply, read_memory,
  request_crc,
}
use axi_dma_engine.HostRunner.Link.{as_bool, wait_for_ack-same}
use axi_dma_engine.HostRunner.FarSide.{Inside, IsDevice, Spoken}

module _ {P : Type 0} (ser : Serial P) (arriving : P → List ℕ) (h : IsSerial ser arriving)
    (reads : ℕ) where
  pub send_lem :
      (opcode address : ℕ) (payload : List ℕ) (p : P)
      → opcode < 2 ^ 8
      → address < 2 ^ 32
      → length payload < 2 ^ 32
      → send ser reads opcode address payload p
        ≡ (ok tt, ser.write (packet opcode address payload) p)
  unfolding send build_packet
  send_lem opcode address payload p ho ha hp = ground arith

  pub acked :
      (longest : ℕ) (rest : List ℕ) (p : P)
      → longest + 4 ≤ reads
      → Spoken longest (arriving p) (le32 sync_word ++ cmd_ack ∷ rest)
      → ((wait_for_ack ser reads p).0 ≡ ok true) × (arriving (wait_for_ack ser reads p).1 ≡ rest)
  acked longest rest p more v =
      let n = length v.text + 4 in
      let a =
        wait_for_ack-answers ser arriving h n cmd_ack v.text rest p v.is_noise
          (v.whole ∙ sym (append_assoc v.text (le32 sync_word) (cmd_ack ∷ rest))) (omega arith) in
      let total = length-append v.text (le32 sync_word ++ cmd_ack ∷ rest) in
      let long : n ≤ length (arriving p) = omega (arith, ap length v.whole, total) in
      let w =
        wait_for_ack-same ser arriving h reads n p long (omega (arith, v.short)) true
          (ap as_bool a.0) in
      (ap (λ x. x.0) w, ap (λ x. arriving x.1) w ∙ a.1)

  reply_lem :
      (v : ℕ) (p : P)
      → v < 2 ^ 32
      → arriving p ≡ le32 v
      → (read_reply ser reads p ≡ (ok (some v), (ser.read 4 p).1))
        × (arriving (ser.read 4 p).1 ≡ [])
  unfolding read_reply
  reply_lem v p small e =
      let front : (ser.read 4 p).0 ≡ le32 v = h.read_front 4 p ∙ ap (take 4) e in
      let rest : arriving (ser.read 4 p).1 ≡ [] = h.read_rest 4 p ∙ ap (drop 4) e in
      let whole : unpack (le32 v) ≡ some v = ap some (omega arith) in
      (
        ap (λ bs. (ok (unpack bs), (ser.read 4 p).1)) front
            ∙ ap (λ o. (ok o, (ser.read 4 p).1)) whole,
        rest,
      )

op_small : (r : Region) → read_op r < 2 ^ 8
op_small Region.sram = omega arith
op_small Region.smem = omega arith

crc_small : (r : Region) → crc_op r < 2 ^ 8
crc_small Region.sram = omega arith
crc_small Region.smem = omega arith

-- The outcome of a request: the far side is ready for the next, with the memories as they were.
abbrev pub Answered :
    {P : Type 0} {A : Type 0}
    → (P → List ℕ)
    → (P → Region → ℕ → ℕ)
    → Result A × P
    → A
    → (Region → ℕ → ℕ)
    → Type 0
Answered arriving memory out v m = (out.0 ≡ ok v) × (arriving out.1 ≡ []) × (memory out.1 ≡ m)

module _ {P : Type 0} (ser : Serial P) (arriving : P → List ℕ) (crc32 : List ℕ → ℕ)
    (memory : P → Region → ℕ → ℕ) (d : IsDevice ser arriving crc32 memory) (reads : ℕ)
    (enough : d.longest + 4 ≤ reads) where
  scan_keeps :
      (n s : ℕ) (bs : List ℕ) (p : P)
      → (ser.read 1 p).0 ≡ bs
      → memory (scan ser reads n s p).1 ≡ memory p
  unfolding scan acknowledged
  scan_keeps zero s bs p e = refl
  scan_keeps (suc n) s [] p e = ground (arith, e, d.read_keeps 1 p)
  scan_keeps (suc n) s (b ∷ bs) p e =
      let p1 = (ser.read 1 p).1 in
      let ih = scan_keeps n (next_sync s b) (ser.read 1 p1).0 p1 refl in
      ground (arith, e, d.read_keeps 1 p, d.read_keeps 1 p1, ih)

  pub wait_keeps : (p : P) → memory (wait_for_ack ser reads p).1 ≡ memory p
  unfolding wait_for_ack
  wait_keeps p = scan_keeps reads 0 (ser.read 1 p).0 p refl

  read_memory_lem :
      (r : Region) (a : ℕ) (p : P)
      → a < 2 ^ 32
      → Inside (d.words r) a 1
      → arriving p ≡ []
      → Answered arriving memory
          (read_memory ser reads (read_op r) a p)
          (some (memory p r a))
          (memory p)
  unfolding read_memory
  read_memory_lem r a p small inside quiet =
      let h = d.serial in
      let sent =
        send_lem ser arriving h reads (read_op r) a [] p (op_small r) small (omega arith) in
      let q = ser.write (packet (read_op r) a []) p in
      let (e1, e2) = d.on_read r a p small inside quiet in
      let w = acked ser arriving h reads d.longest (le32 (memory p r a)) q enough e1 in
      let u = (wait_for_ack ser reads q).1 in
      let (e3, e4) = reply_lem ser arriving h reads (memory p r a) u (d.word_size r a p) w.1 in
      let kept = d.read_keeps 4 u ∙ wait_keeps q ∙ e2 in ground (arith, sent, w, e3, e4, kept)

  request_crc_lem :
      (r : Region) (a n : ℕ) (p : P)
      → a < 2 ^ 32
      → n * 4 < 2 ^ 32
      → Inside (d.words r) a n
      → arriving p ≡ []
      → Answered arriving memory
          (request_crc ser reads (crc_op r) a (n * 4) p)
          (some (crc32 (expected (memory p r) a n)))
          (memory p)
  unfolding request_crc
  request_crc_lem r a n p small short inside quiet =
      let h = d.serial in
      let v = crc32 (expected (memory p r) a n) in
      let sent =
        send_lem ser arriving h reads (crc_op r) a (le32 (n * 4)) p (crc_small r) small
          (omega arith) in
      let q = ser.write (packet (crc_op r) a (le32 (n * 4))) p in
      let (e1, e2) = d.on_crc r a n p small short inside quiet in
      let w = acked ser arriving h reads d.longest (le32 v) q enough e1 in
      let u = (wait_for_ack ser reads q).1 in
      let (e3, e4) =
        reply_lem ser arriving h reads v u (d.crc_size (expected (memory p r) a n)) w.1 in
      let kept = d.read_keeps 4 u ∙ wait_keeps q ∙ e2 in ground (arith, sent, w, e3, e4, kept)

  -- The same at a port that is quiet with the memories `m`.
  abbrev Quiet : (Region → ℕ → ℕ) → P → Type 0
  Quiet m p = (arriving p ≡ []) × (memory p ≡ m)

  pub read_memory-Answered :
      (r : Region) (a : ℕ) (m : Region → ℕ → ℕ) (p : P)
      → a < 2 ^ 32
      → Inside (d.words r) a 1
      → Quiet m p
      → Answered arriving memory (read_memory ser reads (read_op r) a p) (some (m r a)) m
  read_memory-Answered r a m p small inside q =
      subst (λ k. Answered arriving memory (read_memory ser reads (read_op r) a p) (some (k r a)) k)
        q.1 (read_memory_lem r a p small inside q.0)

  pub request_crc-Answered :
      (r : Region) (a n : ℕ) (m : Region → ℕ → ℕ) (p : P)
      → a < 2 ^ 32
      → n * 4 < 2 ^ 32
      → Inside (d.words r) a n
      → Quiet m p
      → Answered arriving memory
          (request_crc ser reads (crc_op r) a (n * 4) p)
          (some (crc32 (expected (m r) a n)))
          m
  request_crc-Answered r a n m p small short inside q =
      subst
        (λ k.
          Answered arriving memory (request_crc ser reads (crc_op r) a (n * 4) p)
            (some (crc32 (expected (k r) a n))) k)
        q.1 (request_crc_lem r a n p small short inside q.0)
