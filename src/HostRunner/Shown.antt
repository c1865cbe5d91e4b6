-- ===== src/HostRunner/Shown.antt =====
-- firmware&local/host_runner.py behind viz.py: what the tables show of a transfer that was checked.
use axi_dma_engine.Base.{
  ℕ, zero, suc, ◌+◌, ◌*◌, ◌^◌, ◌<◌, ◌≤◌, ◌≡◌, refl, ap, sym, ◌∙◌, Bool, true, false, Bool-cases,
  inl, inr, some, List, [], ◌++◌, length, arith, ok, ◌==◌, Result,
}
use axi_dma_engine.Host.{Serial}
use axi_dma_engine.Host.Transfers.{Transfer, expected}
use axi_dma_engine.Viz.{Region, Tables, Event, handle_all, shown_cells, same}
use axi_dma_engine.Viz.Cells.{burst, read_back}
use axi_dma_engine.Viz.Sweep.{pair, pair-handle_all, cells_with}
use axi_dma_engine.HostRunner.{read_memory}
use axi_dma_engine.HostRunner.Session.{
  dst_region, src_region, read_op, cells_at, read_cells, announce, checks, verify_one_transfer,
  label,
}
use axi_dma_engine.HostRunner.FarSide.{IsDevice, Inside}
use axi_dma_engine.HostRunner.Device.{Answered, read_memory-Answered}
use axi_dma_engine.HostRunner.Verify.{IsSound, IsHeld, verdict, checks_lem}
use axi_dma_engine.HostRunner.Table.{swept, before, after, table_dst, table_src, cells_at-burst}

length-expected : (f : ℕ → ℕ) (a n : ℕ) → length (expected f a n) ≡ n
unfolding expected
length-expected f a zero = refl
length-expected f a (suc n) = ap suc (length-expected f (a + 4) n)

module _ {P : Type 0} (ser : Serial P) (arriving : P → List ℕ) (crc32 : List ℕ → ℕ)
    (memory : P → Region → ℕ → ℕ) (d : IsDevice ser arriving crc32 memory) (reads : ℕ)
    (enough : d.longest + 4 ≤ reads) where
  abbrev pub Ready : (Region → ℕ → ℕ) → P → Type 0
  Ready m q = (arriving q ≡ []) × (memory q ≡ m)

  read_cells_lem :
      (m : Region → ℕ → ℕ) (r : Region) (n a : ℕ) (p : P)
      → a + n * 4 ≤ 2 ^ 32
      → Inside (d.words r) a n
      → Ready m p
      → Answered arriving memory
          (read_cells ser reads r a n p)
          (read_back r (burst a (expected (m r) a n)))
          m
  unfolding read_cells expected
  read_cells_lem m r zero a p small inside h = (refl, h.0, h.1)
  read_cells_lem m r (suc n) a p small inside h =
      let one =
        read_memory-Answered ser arriving crc32 memory d reads enough r a m p (omega arith)
          (inside.0, omega (arith, inside)) h in
      let q = (read_memory ser reads (read_op r) a p).1 in
      let ih =
        read_cells_lem m r n (a + 4) q (omega arith) (omega arith, omega (arith, inside))
          (one.1, one.2) in
      ground (arith, one.0, ih)

  -- the words at the two ends of a transfer
  abbrev pub at_dst : (Region → ℕ → ℕ) → Transfer → List ℕ
  at_dst m t = expected (m (dst_region t.dir)) t.dst_addr t.len_words

  abbrev pub at_src : (Region → ℕ → ℕ) → Transfer → List ℕ
  at_src m t = expected (m (src_region t.dir)) t.src_addr t.len_words

  abbrev announced : (Region → ℕ → ℕ) → ℕ → Transfer → List Event
  announced m idx t =
      before (dst_region t.dir) (src_region t.dir) (some (label idx t)) t.dst_addr t.src_addr
        t.expected_words (at_dst m t) (at_src m t) true true

  -- The bursts end below 2 ^ 32.
  pub record IsLow (t : Transfer) : Type 0 where
    pub src_low : t.src_addr + t.len_words * 4 ≤ 2 ^ 32
    pub dst_low : t.dst_addr + t.len_words * 4 ≤ 2 ^ 32

  announce_lem :
      (m : Region → ℕ → ℕ) (idx : ℕ) (t : Transfer) (p : P)
      → IsSound t
      → IsHeld d.words t
      → IsLow t
      → Ready m p
      → Answered arriving memory (announce ser reads idx t p) (announced m idx t) m
  unfolding announce
  announce_lem m idx t p v k w h =
      let cells : (a : ℕ)
          → cells_at a t.len_words t.expected_words ≡ ok (burst a t.expected_words) =
        λ a. rw (← v.whole) (cells_at-burst a t.expected_words) in
      let x = read_cells_lem m (dst_region t.dir) t.len_words t.dst_addr p w.dst_low k.0 h in
      let p1 = (read_cells ser reads (dst_region t.dir) t.dst_addr t.len_words p).1 in
      let y =
        read_cells_lem m (src_region t.dir) t.len_words t.src_addr p1 w.src_low k.1 (x.1, x.2) in
      ground (arith, cells t.dst_addr, cells t.src_addr, x.0, y)

  dst_crc : (Region → ℕ → ℕ) → Transfer → Bool
  dst_crc m t = crc32 (at_dst m t) == crc32 t.expected_words

  src_crc : (Region → ℕ → ℕ) → Transfer → Bool
  src_crc m t = crc32 (at_src m t) == crc32 t.expected_words

  -- all events of the check
  abbrev events : (Region → ℕ → ℕ) → ℕ → Transfer → List Event
  events m idx t =
      announced m idx t
      ++ after (dst_region t.dir) (src_region t.dir) (some (label idx t)) t.dst_addr t.src_addr
          t.expected_words (at_dst m t) (at_src m t) (dst_crc m t) (src_crc m t)

  verify_one_transfer_lem :
      (m : Region → ℕ → ℕ) (idx : ℕ) (t : Transfer) (p : P)
      → IsSound t
      → IsHeld d.words t
      → IsLow t
      → 0 < t.len_words
      → Ready m p
      → Answered arriving memory
          (verify_one_transfer ser reads crc32 true idx t p)
          (verdict crc32 m t, events m idx t)
          m
  unfolding verify_one_transfer checks dst_crc src_crc
  verify_one_transfer_lem m idx t p v k w long h =
      let x = announce_lem m idx t p v k w h in
      let p1 = (announce ser reads idx t p).1 in
      let y = checks_lem ser arriving crc32 memory d reads enough m t p1 v k long (x.1, x.2) in
      let n = length-expected (m (dst_region t.dir)) t.dst_addr t.len_words in
      let n' = length-expected (m (src_region t.dir)) t.src_addr t.len_words in
      ground (arith, x.0, y, n, n')

  regions_differ :
      (t : Transfer)
      → (same (src_region t.dir) (dst_region t.dir) ≡ false)
        × (same (dst_region t.dir) (src_region t.dir) ≡ false)
  regions_differ t = elim (Bool-cases (t.dir == 1)) [
    | inl e ↦ rw e (refl, refl)
    | inr e ↦ rw e (refl, refl)
  ]

  -- What was returned, with events that leave the tables of both regions as they are described,
  -- whatever the tables were.
  pub record Shows (m : Region → ℕ → ℕ) (t : Transfer) (out : Result (Bool × List Event) × P)
      : Type 0 where
    pub sent : List Event
    pub returned : Answered arriving memory out (verdict crc32 m t, sent) m
    dst_table :
        (ts : Tables)
        → pair (dst_region t.dir) (handle_all sent ts) ≡ (
          shown_cells (burst t.dst_addr t.expected_words),
          cells_with (swept (dst_crc m t)) (burst t.dst_addr (at_dst m t)),
        )
    src_table :
        (ts : Tables)
        → pair (src_region t.dir) (handle_all sent ts) ≡ (
          shown_cells (burst t.src_addr t.expected_words),
          cells_with (swept (src_crc m t)) (burst t.src_addr (at_src m t)),
        )

  -- Against a far side that serves the commands from its memories, with reads for its longest text
  -- and a sync word, the check of a transfer of at least one word, of whole words inside the
  -- memories, with the live table on, returns the same verdict as without it, and its events leave
  -- the tables, whatever they held, with the expected words of the transfer at both ends, and with
  -- the words that are there, every cell marked as a match if the checksum of its end is that of
  -- the expected words, and as a failure if not.
  pub verify_one_transfer-Shows :
      (m : Region → ℕ → ℕ) (idx : ℕ) (t : Transfer) (p : P)
      → IsSound t
      → IsHeld d.words t
      → IsLow t
      → 0 < t.len_words
      → Ready m p
      → Shows m t (verify_one_transfer ser reads crc32 true idx t p)
  verify_one_transfer-Shows m idx t p v k w long h =
      let r = dst_region t.dir in
      let q = src_region t.dir in
      let ws = t.expected_words in
      let vs = at_dst m t in
      let us = at_src m t in
      let (differ, differ') = regions_differ t in
      let n = v.whole ∙ sym (length-expected (m r) t.dst_addr t.len_words) in
      let n' = v.whole ∙ sym (length-expected (m q) t.src_addr t.len_words) in
      record {
        sent = events m idx t;
        returned = verify_one_transfer_lem m idx t p v k w long h;
        dst_table = λ ts.
            pair-handle_all r (events m idx t) ts
            ∙ table_dst r q (some (label idx t)) t.dst_addr t.src_addr ws vs us (dst_crc m t)
                (src_crc m t) (pair r ts) differ n;
        src_table = λ ts.
            pair-handle_all q (events m idx t) ts
            ∙ table_src r q (some (label idx t)) t.dst_addr t.src_addr ws vs us (dst_crc m t)
                (src_crc m t) (pair q ts) differ' n';
      }
