-- ===== src/HostRunner/Verify.antt =====
-- firmware&local/host_runner.py: the checks of the transfers and the memories of the far side.
use axi_dma_engine.Base.{
  ℕ, zero, suc, ◌+◌, ◌*◌, ◌^◌, ◌&&◌, ◌<◌, ◌≤◌, ◌≡◌, List, [], ◌∷◌, length, get_or, arith, some, ok,
  refl, ap, ◌∙◌, true, false, Bool, Bool-cases, inl, inr, ◌==◌, if◌then◌else◌,
}
use axi_dma_engine.Host.{Serial}
use axi_dma_engine.Host.Transfers.{Transfer, expected}
use axi_dma_engine.Viz.{Region}
use axi_dma_engine.HostRunner.Session.{
  dst_region, src_region, read_op, crc_op, first_matches, crc_ok, checks, verify_one_transfer,
  verify_all, verify_dma_result,
}
use axi_dma_engine.HostRunner.{read_memory, request_crc}
use axi_dma_engine.HostRunner.FarSide.{IsDevice, Inside}
use axi_dma_engine.HostRunner.Device.{Answered, read_memory-Answered, request_crc-Answered}

-- The addresses and the checksum's length go into their packets, and there are as many expected
-- words as the transfer is long.
pub record IsSound (t : Transfer) : Type 0 where
  pub src_word : t.src_addr < 2 ^ 32
  pub dst_word : t.dst_addr < 2 ^ 32
  pub short : t.len_words * 4 < 2 ^ 32
  pub whole : length t.expected_words ≡ t.len_words

-- What the checks say of memories `m`: no word is to be moved, or the first word at the destination
-- is the expected one, and both checksums are.
abbrev pub verdict : (List ℕ → ℕ) → (Region → ℕ → ℕ) → Transfer → Bool
verdict crc32 m t =
    if t.len_words == 0
    then true
    else (m (dst_region t.dir) t.dst_addr == get_or t.expected_words 0 0)
      && ((crc32 (expected (m (dst_region t.dir)) t.dst_addr t.len_words) == crc32 t.expected_words)
          && (crc32 (expected (m (src_region t.dir)) t.src_addr t.len_words)
              == crc32 t.expected_words))

-- The words of both ends lie inside their memories.
abbrev pub IsHeld : (Region → ℕ) → Transfer → Type 0
IsHeld words t =
    Inside (words (dst_region t.dir)) t.dst_addr t.len_words
    × Inside (words (src_region t.dir)) t.src_addr t.len_words

abbrev pub AreHeld : (Region → ℕ) → List Transfer → Type 0
AreHeld words [] = Unit {0}
AreHeld words (t ∷ ts) = IsHeld words t × AreHeld words ts

abbrev pub AreSound : List Transfer → Type 0
AreSound [] = Unit {0}
AreSound (t ∷ ts) = IsSound t × AreSound ts

-- The expected words lie at the destination, and still at the source.
abbrev pub HasArrived : (Region → ℕ → ℕ) → Transfer → Type 0
HasArrived m t =
    (expected (m (dst_region t.dir)) t.dst_addr t.len_words ≡ t.expected_words)
    × (expected (m (src_region t.dir)) t.src_addr t.len_words ≡ t.expected_words)

abbrev pub HaveArrived : (Region → ℕ → ℕ) → List Transfer → Type 0
HaveArrived m [] = Unit {0}
HaveArrived m (t ∷ ts) = HasArrived m t × HaveArrived m ts

module _ {P : Type 0} (ser : Serial P) (arriving : P → List ℕ) (crc32 : List ℕ → ℕ)
    (memory : P → Region → ℕ → ℕ) (d : IsDevice ser arriving crc32 memory) (reads : ℕ)
    (enough : d.longest + 4 ≤ reads) where
  abbrev Ready : (Region → ℕ → ℕ) → P → Type 0
  Ready m q = (arriving q ≡ []) × (memory q ≡ m)

  -- the three checks, on memories `m`
  abbrev pub found : (Region → ℕ → ℕ) → Transfer → Bool × Bool × Bool
  found m t = (
    m (dst_region t.dir) t.dst_addr == get_or t.expected_words 0 0,
    crc32 (expected (m (dst_region t.dir)) t.dst_addr t.len_words) == crc32 t.expected_words,
    crc32 (expected (m (src_region t.dir)) t.src_addr t.len_words) == crc32 t.expected_words,
  )

  first_lem :
      (v : ℕ) (words : List ℕ)
      → 0 < length words
      → first_matches (some v) words ≡ ok (v == get_or words 0 0)
  unfolding first_matches
  first_lem v [] h = absurd (omega arith)
  first_lem v (w ∷ ws) h = refl

  pub checks_lem :
      (m : Region → ℕ → ℕ) (t : Transfer) (p : P)
      → IsSound t
      → IsHeld d.words t
      → 0 < t.len_words
      → Ready m p
      → Answered arriving memory (checks ser reads crc32 false t p) (found m t) m
  unfolding checks crc_ok
  checks_lem m t p v w some_word h =
      let r = dst_region t.dir in
      let r' = src_region t.dir in
      let n = t.len_words in
      let a =
        read_memory-Answered ser arriving crc32 memory d reads enough r t.dst_addr m p v.dst_word
          (w.0.0, omega (arith, w.0, some_word)) h in
      let p1 = (read_memory ser reads (read_op r) t.dst_addr p).1 in
      let b =
        request_crc-Answered ser arriving crc32 memory d reads enough r t.dst_addr n m p1 v.dst_word
          v.short w.0 (a.1, a.2) in
      let p2 = (request_crc ser reads (crc_op r) t.dst_addr (n * 4) p1).1 in
      let c =
        request_crc-Answered ser arriving crc32 memory d reads enough r' t.src_addr n m p2
          v.src_word v.short w.1 (b.1, b.2) in
      let f = first_lem (m r t.dst_addr) t.expected_words (omega (arith, v.whole)) in
      ground (arith, a.0, f, b.0, c)

  -- Against a far side that serves the commands from its memories, with reads for its longest text
  -- and a sync word, the check of a transfer of whole words inside the memories, without the live
  -- table, returns, and returns True exactly when no word was to be moved, or the word at the
  -- destination is the first expected one and both the destination's checksum and the source's are
  -- that of the expected words; the far side's memories stay.
  pub verify_one_transfer-verdict :
      (m : Region → ℕ → ℕ) (idx : ℕ) (t : Transfer) (p : P)
      → IsSound t
      → IsHeld d.words t
      → Ready m p
      → Answered arriving memory
          (verify_one_transfer ser reads crc32 false idx t p)
          (verdict crc32 m t, [])
          m
  unfolding verify_one_transfer
  verify_one_transfer-verdict m idx t p v w h = elim (Bool-cases (t.len_words == 0)) [
    | inl z ↦ ground (arith, z, h)
    | inr z ↦ let c = checks_lem m t p v w (ground (arith, z)) h in ground (arith, z, c)
  ]

  abbrev verdicts : (Region → ℕ → ℕ) → List Transfer → Bool
  verdicts m [] = true
  verdicts m (t ∷ ts) = verdict crc32 m t && verdicts m ts

  verify_all_lem :
      (m : Region → ℕ → ℕ) (idx : ℕ) (ts : List Transfer) (p : P)
      → AreSound ts
      → AreHeld d.words ts
      → Ready m p
      → Answered arriving memory (verify_all ser reads crc32 false idx ts p) (verdicts m ts, []) m
  unfolding verify_all
  verify_all_lem m idx [] p v w h = (refl, h.0, h.1)
  verify_all_lem m idx (t ∷ ts) p v w h =
      let a = verify_one_transfer-verdict m idx t p v.0 w.0 h in
      let b =
        verify_all_lem m (idx + 1) ts (verify_one_transfer ser reads crc32 false idx t p).1 v.1 w.1
          (a.1, a.2) in
      ground (arith, a.0, b)

  verify_dma_result-verdict :
      (m : Region → ℕ → ℕ) (t : Transfer) (ts : List Transfer) (p : P)
      → AreSound (t ∷ ts)
      → AreHeld d.words (t ∷ ts)
      → Ready m p
      → Answered arriving memory
          (verify_dma_result ser reads crc32 false (t ∷ ts) p)
          (verdicts m (t ∷ ts), [])
          m
  unfolding verify_dma_result
  verify_dma_result-verdict m t ts p v w h = verify_all_lem m 0 (t ∷ ts) p v w h

  first_expected : (f : ℕ → ℕ) (a n : ℕ) → 0 < n → f a ≡ get_or (expected f a n) 0 0
  unfolding expected
  first_expected f a zero h = absurd (omega arith)
  first_expected f a (suc n) h = refl

  verdict_arrived : (m : Region → ℕ → ℕ) (t : Transfer) → HasArrived m t → verdict crc32 m t ≡ true
  verdict_arrived m t h = elim (Bool-cases (t.len_words == 0)) [
    | inl z ↦ ground (arith, z)
    | inr z ↦
        let first =
          first_expected (m (dst_region t.dir)) t.dst_addr t.len_words (ground (arith, z)) in
        ground (arith, z, first, h.0, h.1)
  ]

  verdicts_arrived :
      (m : Region → ℕ → ℕ) (ts : List Transfer) → HaveArrived m ts → verdicts m ts ≡ true
  verdicts_arrived m [] h = refl
  verdicts_arrived m (t ∷ ts) h = ground (arith, verdict_arrived m t h.0, verdicts_arrived m ts h.1)

  -- Against a far side that serves the commands from its memories, the check of all transfers
  -- without the live table returns True when there are transfers and the expected words of each lie
  -- at its destination and its source.
  pub verify_dma_result-passes :
      (m : Region → ℕ → ℕ) (t : Transfer) (ts : List Transfer) (p : P)
      → AreSound (t ∷ ts)
      → AreHeld d.words (t ∷ ts)
      → Ready m p
      → HaveArrived m (t ∷ ts)
      → (verify_dma_result ser reads crc32 false (t ∷ ts) p).0 ≡ ok (true, [])
  verify_dma_result-passes m t ts p v w h all =
      (verify_dma_result-verdict m t ts p v w h).0
      ∙ ap (λ b. ok (b, [])) (verdicts_arrived m (t ∷ ts) all)
