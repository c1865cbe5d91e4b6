-- ===== src/Host/Checks.antt =====
-- firmware&local/serial_host.py: the checks of main behind RUN_DMA, on the memories of the far side.
use mathlib.Core.Path.{ap₂}
use axi_dma_engine.Base.{
  ℕ, ◌+◌, ◌-◌, ◌*◌, ◌^◌, ◌<◌, ◌≤◌, ◌≡◌, refl, ap, ◌∙◌, Bool, true, ◌&&◌, List, [], ◌∷◌, length,
  arith, ok, inl,
}
use axi_dma_engine.Base.Words.{mask}
use axi_dma_engine.Host.{Serial, Bases, read_smem, read_sram}
use axi_dma_engine.Host.Requests.{
  Quiet, read_smem-Answered, read_sram-Answered, smem_crc-Answered, sram_crc-Answered,
}
use axi_dma_engine.Host.Session.{
  changed, nonzero, least, greatest, show_smem, show_sram, check_sram, check_smem, check_board,
}
use axi_dma_engine.Host.Held.{
  AreBelow, HoldsAt, sram_verdict, smem_verdict, has_any, greatest-below, changed-AreBelow,
  nonzero-AreBelow, region_ok-HoldsAt, and_true,
}
use axi_dma_engine.Host.Regions.{least-le, le-greatest}
use axi_dma_engine.Viz.{Region}
use axi_dma_engine.HostRunner.FarSide.{IsDevice, Inside}
use axi_dma_engine.HostRunner.Device.{Answered}

-- `n` words from byte address `base` on, in a memory of less than 2 ^ 30 words, and single words at
-- offsets from there.
abbrev pub Placed : ℕ → ℕ → ℕ → Type 0
Placed size base n = Inside size base n × (size < 2 ^ 30)

abbrev AllPlaced : ℕ → ℕ → List ℕ → Type 0
AllPlaced size base [] = Unit {0}
AllPlaced size base (off ∷ offs) = Inside size (mask 32 (base + off)) 1 × AllPlaced size base offs

sent_in :
    (size base : ℕ)
    → Placed size base 0x44
    → AllPlaced size base (0x100 ∷ 0x104 ∷ 0x108 ∷ 0x10c ∷ [])
sent_in size base h = (
  (omega (arith, h), omega (arith, h)),
  (
    (omega (arith, h), omega (arith, h)),
    ((omega (arith, h), omega (arith, h)), ((omega (arith, h), omega (arith, h)), tt)),
  ),
)

ring_in :
    (size base : ℕ)
    → Placed size base 0x44
    → AllPlaced size base (0x000 ∷ 0x004 ∷ 0x008 ∷ 0x00c ∷ [])
ring_in size base h = (
  (omega (arith, h), omega (arith, h)),
  (
    (omega (arith, h), omega (arith, h)),
    ((omega (arith, h), omega (arith, h)), ((omega (arith, h), omega (arith, h)), tt)),
  ),
)

module _ {P : Type 0} (ser : Serial P) (arriving : P → List ℕ) (crc32 : List ℕ → ℕ)
    (memory : P → Region → ℕ → ℕ) (d : IsDevice ser arriving crc32 memory) (bases : Bases)
    (polls : ℕ) (enough : d.longest + 4 ≤ polls) where
  show_smem-Answered :
      (offs : List ℕ) (m : Region → ℕ → ℕ) (p : P)
      → AllPlaced (d.words Region.smem) bases.smem_base_addr offs
      → Quiet arriving memory m p
      → Answered arriving memory (show_smem ser bases polls offs p) tt m
  unfolding show_smem
  show_smem-Answered [] m p inside q = (refl, q.0, q.1)
  show_smem-Answered (off ∷ offs) m p inside q =
      let a =
        read_smem-Answered ser arriving crc32 memory d polls enough bases off m p inside.0 q in
      let ih = show_smem-Answered offs m (read_smem ser bases polls off p).1 inside.1 (a.1, a.2) in
      ground (arith, a.0, ih)

  show_sram-Answered :
      (offs : List ℕ) (m : Region → ℕ → ℕ) (p : P)
      → AllPlaced (d.words Region.sram) bases.sram_base_addr offs
      → Quiet arriving memory m p
      → Answered arriving memory (show_sram ser bases polls offs p) tt m
  unfolding show_sram
  show_sram-Answered [] m p inside q = (refl, q.0, q.1)
  show_sram-Answered (off ∷ offs) m p inside q =
      let a =
        read_sram-Answered ser arriving crc32 memory d polls enough bases off m p inside.0 q in
      let ih = show_sram-Answered offs m (read_sram ser bases polls off p).1 inside.1 (a.1, a.2) in
      ground (arith, a.0, ih)

  pub check_sram-Answered :
      (words is : List ℕ) (bound : ℕ) (m : Region → ℕ → ℕ) (p : P)
      → AreBelow bound is
      → Placed (d.words Region.sram) bases.sram_base_addr bound
      → Quiet arriving memory m p
      → Answered arriving memory
          (check_sram ser bases polls crc32 words is p)
          (sram_verdict crc32 (m Region.sram) bases.sram_base_addr words is)
          m
  unfolding check_sram
  check_sram-Answered words [] bound m p h fits q = (refl, q.0, q.1)
  check_sram-Answered words (i ∷ is) bound m p h fits q =
      let lo = least i is in
      let n = greatest i is + 1 - lo in
      let top = greatest-below bound i is h in
      let low = least-le i i is (inl refl) in
      let high = le-greatest i i is (inl refl) in
      let a0 : mask 32 (bases.sram_base_addr + lo * 4) ≡ bases.sram_base_addr + lo * 4 =
        omega (arith, top, low, high, fits) in
      let a =
        sram_crc-Answered ser arriving crc32 memory d polls enough bases (lo * 4) n m p
          (omega (arith, top, low, high, fits))
          (omega (arith, a0, fits), omega (arith, a0, top, low, high, fits)) q in
      ground (arith, a)

  check_smem-Answered :
      (words is : List ℕ) (bound : ℕ) (m : Region → ℕ → ℕ) (p : P)
      → AreBelow bound is
      → Placed (d.words Region.smem) bases.smem_base_addr bound
      → Quiet arriving memory m p
      → Answered arriving memory
          (check_smem ser bases polls crc32 words is p)
          (smem_verdict crc32 (m Region.smem) bases.smem_base_addr words is)
          m
  unfolding check_smem
  check_smem-Answered words [] bound m p h fits q = (refl, q.0, q.1)
  check_smem-Answered words (i ∷ is) bound m p h fits q =
      let lo = least i is in
      let n = greatest i is + 1 - lo in
      let top = greatest-below bound i is h in
      let low = least-le i i is (inl refl) in
      let high = le-greatest i i is (inl refl) in
      let a0 : mask 32 (bases.smem_base_addr + lo * 4) ≡ bases.smem_base_addr + lo * 4 =
        omega (arith, top, low, high, fits) in
      let a =
        smem_crc-Answered ser arriving crc32 memory d polls enough bases (lo * 4) n m p
          (omega (arith, top, low, high, fits))
          (omega (arith, a0, fits), omega (arith, a0, top, low, high, fits)) q in
      ground (arith, a)

  abbrev verdict : (Region → ℕ → ℕ) → List ℕ → List ℕ → List ℕ → Bool
  verdict m init_smem init_sram golden_sram =
      sram_verdict crc32 (m Region.sram) bases.sram_base_addr golden_sram
        (changed 0 init_sram golden_sram)
      && smem_verdict crc32 (m Region.smem) bases.smem_base_addr init_smem (nonzero 0 init_smem)

  check_board-Answered :
      (init_smem init_sram golden_sram : List ℕ) (m : Region → ℕ → ℕ) (p : P)
      → Placed (d.words Region.smem) bases.smem_base_addr (length init_smem)
      → Placed (d.words Region.sram) bases.sram_base_addr (length golden_sram)
      → Placed (d.words Region.smem) bases.smem_base_addr 0x44
      → Placed (d.words Region.sram) bases.sram_base_addr 0x44
      → Quiet arriving memory m p
      → Answered arriving memory
          (check_board ser bases polls crc32 init_smem init_sram golden_sram p)
          (verdict m init_smem init_sram golden_sram)
          m
  unfolding check_board
  check_board-Answered init_smem init_sram golden_sram m p fm fl gm gl q =
      let sent = 0x100 ∷ 0x104 ∷ 0x108 ∷ 0x10c ∷ [] in
      let ring = 0x000 ∷ 0x004 ∷ 0x008 ∷ 0x00c ∷ [] in
      let differ = changed 0 init_sram golden_sram in
      let a =
        show_sram-Answered sent m p (sent_in (d.words Region.sram) bases.sram_base_addr gl) q in
      let p1 = (show_sram ser bases polls sent p).1 in
      let b =
        show_smem-Answered sent m p1 (sent_in (d.words Region.smem) bases.smem_base_addr gm)
          (a.1, a.2) in
      let p2 = (show_smem ser bases polls sent p1).1 in
      let c =
        show_smem-Answered ring m p2 (ring_in (d.words Region.smem) bases.smem_base_addr gm)
          (b.1, b.2) in
      let p3 = (show_smem ser bases polls ring p2).1 in
      let below = changed-AreBelow (length golden_sram) 0 init_sram golden_sram (omega arith) in
      let e =
        check_sram-Answered golden_sram differ (length golden_sram) m p3 below fl (c.1, c.2) in
      let p4 = (check_sram ser bases polls crc32 golden_sram differ p3).1 in
      let below = nonzero-AreBelow (length init_smem) 0 init_smem (omega arith) in
      let f =
        check_smem-Answered init_smem (nonzero 0 init_smem) (length init_smem) m p4 below fm
          (e.1, e.2) in
      ground (arith, a.0, b.0, c.0, e.0, f)

  sram_verdict-HoldsAt :
      (m : Region → ℕ → ℕ) (words is : List ℕ)
      → HoldsAt (m Region.sram) bases.sram_base_addr words
      → bases.sram_base_addr + length words * 4 ≤ 2 ^ 32
      → AreBelow (length words) is
      → sram_verdict crc32 (m Region.sram) bases.sram_base_addr words is ≡ has_any is
  sram_verdict-HoldsAt m words [] h fits below = refl
  sram_verdict-HoldsAt m words (i ∷ is) h fits below =
      region_ok-HoldsAt crc32 (m Region.sram) bases.sram_base_addr words i is h fits below

  smem_verdict-HoldsAt :
      (m : Region → ℕ → ℕ) (words is : List ℕ)
      → HoldsAt (m Region.smem) bases.smem_base_addr words
      → bases.smem_base_addr + length words * 4 ≤ 2 ^ 32
      → AreBelow (length words) is
      → smem_verdict crc32 (m Region.smem) bases.smem_base_addr words is ≡ true
  smem_verdict-HoldsAt m words [] h fits below = refl
  smem_verdict-HoldsAt m words (i ∷ is) h fits below =
      region_ok-HoldsAt crc32 (m Region.smem) bases.smem_base_addr words i is h fits below

  -- Against a far side that serves the commands from its memories, of less than 2 ^ 30 words, and is
  -- ready, with reads for its longest text and a sync word: when its system memory holds the initial
  -- words and its SRAM the golden ones, from base addresses at whole words on and inside the
  -- memories, and the words that main prints lie inside them too, main's checks return, and return
  -- True exactly when the golden run has changed a word of the SRAM; the far side's memories stay,
  -- and it is ready again.
  pub check_board-HoldsAt :
      (init_smem init_sram golden_sram : List ℕ) (m : Region → ℕ → ℕ) (p : P)
      → Placed (d.words Region.smem) bases.smem_base_addr (length init_smem)
      → Placed (d.words Region.sram) bases.sram_base_addr (length golden_sram)
      → Placed (d.words Region.smem) bases.smem_base_addr 0x44
      → Placed (d.words Region.sram) bases.sram_base_addr 0x44
      → HoldsAt (m Region.smem) bases.smem_base_addr init_smem
      → HoldsAt (m Region.sram) bases.sram_base_addr golden_sram
      → Quiet arriving memory m p
      → Answered arriving memory
          (check_board ser bases polls crc32 init_smem init_sram golden_sram p)
          (has_any (changed 0 init_sram golden_sram))
          m
  check_board-HoldsAt init_smem init_sram golden_sram m p fm fl gm gl sm sl q =
      let differ = changed 0 init_sram golden_sram in
      let below = changed-AreBelow (length golden_sram) 0 init_sram golden_sram (omega arith) in
      let v = sram_verdict-HoldsAt m golden_sram differ sl (omega (arith, fl)) below in
      let below = nonzero-AreBelow (length init_smem) 0 init_smem (omega arith) in
      let w = smem_verdict-HoldsAt m init_smem (nonzero 0 init_smem) sm (omega (arith, fm)) below in
      let a = check_board-Answered init_smem init_sram golden_sram m p fm fl gm gl q in
      (a.0 ∙ ap ok (ap₂ (λ x y. x && y) v w ∙ and_true (has_any differ)), a.1, a.2)
