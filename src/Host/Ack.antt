-- ===== src/Host/Ack.antt =====
-- firmware&local/serial_host.py: the wait for an acknowledgement, and a register read.
use axi_dma_engine.Base.{
  ℕ, suc, ◌+◌, ◌*◌, ◌/◌, ◌^◌, ◌<◌, ◌≤◌, ◌≡◌, ◌≢◌, List, [], ◌∷◌, ◌++◌, length, take, drop, arith,
  ok, err, true, false, ◌==◌, if◌then◌else◌, nack,
}
use axi_dma_engine.Base.Words.Bits.{bit_or-shl}
use axi_dma_engine.Host.{Serial, le32, sync_word, next_sync, cmd_ack, read_ack, scan, wait_for_ack}

-- What pyserial documents of `read`: it returns the bytes that arrive next, at most as many as
-- asked for, and takes them off. `arriving` is what arrives before the timeouts.
pub record IsSerial {P : Type 0} (ser : Serial P) (arriving : P → List ℕ) : Type 0 where
  pub read_front : (n : ℕ) (p : P) → (ser.read n p).0 ≡ take n (arriving p)
  pub read_rest : (n : ℕ) (p : P) → arriving (ser.read n p).1 ≡ drop n (arriving p)

next_sync_sum : (s b : ℕ) → s < 2 ^ 32 → b < 2 ^ 8 → next_sync s b ≡ s / 2 ^ 8 + b * 2 ^ 24
next_sync_sum s b hs hb = omega (arith, bit_or-shl 24 (s / 2 ^ 8) b (omega arith))

-- Bytes none of which can end a sync word.
abbrev pub IsNoise : List ℕ → Type 0
IsNoise [] = Unit {0}
IsNoise (b ∷ bs) = ((b < 2 ^ 8) × (b ≢ 0xde)) × IsNoise bs

module _ {P : Type 0} (ser : Serial P) (arriving : P → List ℕ) (h : IsSerial ser arriving) where
  -- One byte that does not complete the sync word.
  scan_byte :
      (n s b : ℕ) (bs : List ℕ) (p : P)
      → arriving p ≡ b ∷ bs
      → (next_sync s b == sync_word) ≡ false
      → (scan ser (suc n) s p ≡ scan ser n (next_sync s b) (ser.read 1 p).1)
        × (arriving (ser.read 1 p).1 ≡ bs)
  unfolding scan
  scan_byte n s b bs p e ne = ground (arith, h.read_front 1 p, h.read_rest 1 p)

  scan_last :
      (n s b : ℕ) (bs : List ℕ) (p : P)
      → arriving p ≡ b ∷ bs
      → (next_sync s b == sync_word) ≡ true
      → (scan ser (suc n) s p ≡ read_ack ser (ser.read 1 p).1) × (arriving (ser.read 1 p).1 ≡ bs)
  unfolding scan
  scan_last n s b bs p e ne = ground (arith, h.read_front 1 p, h.read_rest 1 p)

  read_ack_lem :
      (resp : ℕ) (rest : List ℕ) (p : P)
      → arriving p ≡ resp ∷ rest
      → ((read_ack ser p).0 ≡ (if resp == cmd_ack then ok tt else err nack))
        × (arriving (read_ack ser p).1 ≡ rest)
  unfolding read_ack
  read_ack_lem resp rest p e = ground (arith, h.read_front 1 p, h.read_rest 1 p)

  -- What `scan` does with the response of the far side, and leaves behind.
  abbrev Answers : ℕ → List ℕ → ℕ → ℕ → P → Type 0
  Answers resp rest n s p =
      ((scan ser n s p).0 ≡ (if resp == cmd_ack then ok tt else err nack))
      × (arriving (scan ser n s p).1 ≡ rest)

  scan_skip :
      (resp : ℕ) (rest : List ℕ) (n s b : ℕ) (bs : List ℕ) (p : P)
      → arriving p ≡ b ∷ bs
      → (next_sync s b == sync_word) ≡ false
      → Answers resp rest n (next_sync s b) (ser.read 1 p).1
      → Answers resp rest (suc n) s p
  scan_skip resp rest n s b bs p e ne a = rw ((scan_byte n s b bs p e ne).0) a

  scan_sync :
      (resp : ℕ) (rest : List ℕ) (n s : ℕ) (p : P)
      → s < 2 ^ 32
      → arriving p ≡ le32 sync_word ++ resp ∷ rest
      → Answers resp rest (suc (suc (suc (suc n)))) s p
  scan_sync resp rest n s p hs e =
      let p1 = (ser.read 1 p).1 in
      let p2 = (ser.read 1 p1).1 in
      let p3 = (ser.read 1 p2).1 in
      let s1 = next_sync s 0xef in
      let s2 = next_sync s1 0xbe in
      let s3 = next_sync s2 0xad in
      let e1 = next_sync_sum s 0xef hs (omega arith) in
      let e2 = next_sync_sum s1 0xbe (omega arith) (omega arith) in
      let e3 = next_sync_sum s2 0xad (omega arith) (omega arith) in
      let e4 = next_sync_sum s3 0xde (omega arith) (omega arith) in
      let a1 =
        scan_byte (suc (suc (suc n))) s 0xef (0xbe ∷ 0xad ∷ 0xde ∷ resp ∷ rest) p e
          (ground (arith, e1)) in
      let a2 =
        scan_byte (suc (suc n)) s1 0xbe (0xad ∷ 0xde ∷ resp ∷ rest) p1 a1.1 (ground (arith, e2)) in
      let a3 = scan_byte (suc n) s2 0xad (0xde ∷ resp ∷ rest) p2 a2.1 (ground (arith, e3)) in
      let a4 = scan_last n s3 0xde (resp ∷ rest) p3 a3.1 (ground (arith, e1, e2, e3, e4)) in
      rw (a1.0, a2.0, a3.0, a4.0) (read_ack_lem resp rest (ser.read 1 p3).1 a4.1)

  scan_noise :
      (resp : ℕ) (rest noise : List ℕ) (n s : ℕ) (p : P)
      → IsNoise noise
      → s < 2 ^ 32
      → arriving p ≡ noise ++ le32 sync_word ++ resp ∷ rest
      → length noise + 4 ≤ n
      → Answers resp rest n s p
  scan_noise resp rest [] (suc (suc (suc (suc n)))) s p q hs e enough =
      scan_sync resp rest n s p hs e
  scan_noise resp rest (b ∷ noise) (suc n) s p q hs e enough =
      let bs = noise ++ le32 sync_word ++ resp ∷ rest in
      let sum = next_sync_sum s b hs q.0.0 in
      let ne : (next_sync s b == sync_word) ≡ false = ground (arith, sum, q.0.1) in
      let a = scan_byte n s b bs p e ne in
      scan_skip resp rest n s b bs p e ne (
        scan_noise resp rest noise n (next_sync s b) (ser.read 1 p).1 q.1 (omega arith) a.1
          (omega arith))
  scan_noise resp rest noise n s p q hs e enough = absurd (omega arith)

  -- On a port that reads the bytes in the order in which they arrive, the wait for an
  -- acknowledgement skips noise that holds no last byte of the sync word, finds the sync word
  -- behind it, and returns if an acknowledgement byte follows and raises on any other byte, given a
  -- read for each byte of the noise and the sync word; the bytes behind the response are left to be
  -- read.
  pub wait_for_ack-answers :
      (polls resp : ℕ) (noise rest : List ℕ) (p : P)
      → IsNoise noise
      → arriving p ≡ noise ++ le32 sync_word ++ resp ∷ rest
      → length noise + 4 ≤ polls
      → ((wait_for_ack ser polls p).0 ≡ (if resp == cmd_ack then ok tt else err nack))
        × (arriving (wait_for_ack ser polls p).1 ≡ rest)
  unfolding wait_for_ack
  wait_for_ack-answers polls resp noise rest p q e enough =
      scan_noise resp rest noise polls 0 p q (omega arith) e enough
