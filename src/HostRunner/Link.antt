-- ===== src/HostRunner/Link.antt =====
-- firmware&local/host_runner.py: its wait for an acknowledgement, beside that of
-- firmware&local/serial_host.py.
use axi_dma_engine.Base.{
  ℕ, zero, suc, ◌+◌, ◌-◌, ◌<◌, ◌≤◌, ◌≡◌, ◌≢◌, List, [], ◌∷◌, length, drop, arith, Bool, Bool-cases,
  inl, inr, ok, err, true, false, ◌==◌, nack, ack_timeout, ack_cut, index_error, Result,
  out_of_reads, refl, ap, ◌∙◌, sym,
}
use axi_dma_engine.Host
use axi_dma_engine.Host.{Serial, le32, sync_word, next_sync, cmd_ack}
use axi_dma_engine.Host.Ack.{IsSerial}
use axi_dma_engine.HostRunner.{scan, acknowledged, wait_for_ack}

-- What host_runner's wait makes of the outcomes of serial_host's.
abbrev pub as_bool : Result (Unit {0}) → Result Bool
as_bool (ok u) = ok true
as_bool (err nack) = ok false
as_bool (err ack_timeout) = err out_of_reads
as_bool (err ack_cut) = err index_error
as_bool (err e) = err e

module _ {P : Type 0} (ser : Serial P) (arriving : P → List ℕ) (h : IsSerial ser arriving)
    (reads : ℕ) where
  acknowledged-read_ack :
      (p : P)
      → acknowledged ser reads p ≡ (as_bool (Host.read_ack ser p).0, (Host.read_ack ser p).1)
  unfolding acknowledged Host.read_ack
  acknowledged-read_ack p = ground arith

  scan-same :
      (n s : ℕ) (bs : List ℕ) (p : P)
      → arriving p ≡ bs
      → n ≤ length bs
      → scan ser reads n s p ≡ (as_bool (Host.scan ser n s p).0, (Host.scan ser n s p).1)
  unfolding scan Host.scan
  scan-same zero s bs p e enough = refl
  scan-same (suc n) s [] p e enough = absurd (omega arith)
  scan-same (suc n) s (b ∷ bs) p e enough =
      let front = h.read_front 1 p in
      let rest = h.read_rest 1 p in
      let ih =
        scan-same n (next_sync s b) bs (ser.read 1 p).1 (rest ∙ ap (drop 1) e) (omega arith) in
      ground (arith, front, acknowledged-read_ack (ser.read 1 p).1, ih, e)

  scan_more :
      (n k s : ℕ) (bs : List ℕ) (p : P) (b : Bool)
      → (ser.read 1 p).0 ≡ bs
      → (scan ser reads n s p).0 ≡ ok b
      → scan ser reads (n + k) s p ≡ scan ser reads n s p
  unfolding scan
  scan_more zero k s bs p b q e = absurd (ground (arith, e))
  scan_more (suc n) k s [] p b q e =
      let more : suc n + k ≡ suc (n + k) = omega arith in rw more (ground (arith, q))
  scan_more (suc n) k s (x ∷ bs) p b q e =
      let more : suc n + k ≡ suc (n + k) = omega arith in
      let p1 = (ser.read 1 p).1 in
      let s1 = next_sync s x in
      elim (Bool-cases (s1 == sync_word)) [
        | inl y ↦ rw more (ground (arith, q, y))
        | inr y ↦
            let e1 : (scan ser reads n s1 p1).0 ≡ ok b = ground (arith, q, y, e) in
            let ih = scan_more n k s1 (ser.read 1 p1).0 p1 b refl e1 in
            rw more (ground (arith, q, y, ih))
      ]

  -- Both hosts' waits agree on what arrives in order: when the bytes that are still to come are at
  -- least as many as serial_host's wait has reads, host_runner's wait, which may read as often or
  -- more often, returns True where the other returns and False where it raises for a response that
  -- is no acknowledgement, and leaves the same bytes.
  pub wait_for_ack-same :
      (polls : ℕ) (p : P)
      → polls ≤ length (arriving p)
      → polls ≤ reads
      → (b : Bool) → as_bool (Host.wait_for_ack ser polls p).0 ≡ ok b
      → wait_for_ack ser reads p ≡ (ok b, (Host.wait_for_ack ser polls p).1)
  unfolding wait_for_ack Host.wait_for_ack
  wait_for_ack-same polls p enough more b e =
      let same = scan-same polls 0 (arriving p) p refl enough in
      let sum : polls + (reads - polls) ≡ reads = omega arith in
      let longer =
        scan_more polls (reads - polls) 0 (ser.read 1 p).0 p b refl (ap (λ x. x.0) same ∙ e) in
      ap (λ n. scan ser reads n 0 p) (sym sum)
      ∙ longer
      ∙ same
      ∙ ap (λ r. (r, (Host.wait_for_ack ser polls p).1)) e

  ends :
      (n s : ℕ) (bs : List ℕ) (p : P)
      → arriving p ≡ bs
      → length bs < n
      → (scan ser reads n s p).0 ≢ err out_of_reads
  unfolding scan acknowledged
  ends zero s bs p e enough = absurd (omega arith)
  ends (suc n) s [] p e enough = ground (arith, h.read_front 1 p, e)
  ends (suc n) s (b ∷ bs) p e enough =
      let rest = h.read_rest 1 p ∙ ap (drop 1) e in
      let ih = ends n (next_sync s b) bs (ser.read 1 p).1 rest (omega arith) in
      ground (arith, h.read_front 1 p, e, ih)

  -- The wait ends: on what arrives in order, when more reads are counted than bytes arrive, it
  -- returns or raises before the reads are used up.
  pub wait_for_ack-ends :
      (p : P) → length (arriving p) < reads → (wait_for_ack ser reads p).0 ≢ err out_of_reads
  unfolding wait_for_ack
  wait_for_ack-ends p enough = ends reads 0 (arriving p) p refl enough
