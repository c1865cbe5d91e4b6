-- ===== src/Host/Compares.antt =====
-- firmware&local/serial_host.py: the words of the SRAM that main compares.
use mathlib.Core.Path.{subst}
use axi_dma_engine.Base.{
  ℕ, ◌+◌, ◌-◌, ◌*◌, ◌<◌, ◌≤◌, ◌≡◌, ◌≢◌, Bool, List, ◌∷◌, length, arith, Result, get_or, take, drop,
  ◌==◌,
}
use axi_dma_engine.Base.Words.{mask}
use axi_dma_engine.Host.{Serial, Bases}
use axi_dma_engine.Host.Requests.{Quiet}
use axi_dma_engine.Host.Session.{changed, least, greatest, check_sram}
use axi_dma_engine.Host.Held.{AreBelow, changed-AreBelow}
use axi_dma_engine.Host.Regions.{changed_covered}
use axi_dma_engine.Host.Transfers.{expected}
use axi_dma_engine.Viz.{Region}
use axi_dma_engine.HostRunner.FarSide.{IsDevice}
use axi_dma_engine.HostRunner.Device.{Answered}
use axi_dma_engine.Host.Checks.{Placed, check_sram-Answered}

module _ {P : Type 0} (ser : Serial P) (arriving : P → List ℕ) (crc32 : List ℕ → ℕ)
    (memory : P → Region → ℕ → ℕ) (d : IsDevice ser arriving crc32 memory) (bases : Bases)
    (polls : ℕ) (enough : d.longest + 4 ≤ polls) where
  -- What was compared: the checksum of `n` words of the far side's SRAM from word `lo` of the image
  -- on with that of the golden words there, and every word that the golden run has changed is one
  -- of them.
  pub record Compares (init_sram golden_sram : List ℕ) (m : Region → ℕ → ℕ) (out : Result Bool × P)
      : Type 0 where
    lo : ℕ
    n : ℕ
    compared :
        Answered arriving memory out
          (crc32 (expected (m Region.sram) (mask 32 (bases.sram_base_addr + lo * 4)) n)
            == crc32 (take n (drop lo golden_sram)))
          m
    covered :
        (k : ℕ)
        → k < length init_sram
        → get_or init_sram k 0 ≢ get_or golden_sram k 0
        → (lo ≤ k) × (k < lo + n)

  -- Against a far side that serves the commands from its memories, its SRAM of less than 2 ^ 30
  -- words, and is ready, with reads for its longest text and a sync word: when the golden run has
  -- changed the SRAM, and the golden words, as many as the initial ones, lie inside it from a base
  -- address at a whole word on, the check of the SRAM returns whether the checksums of the far side
  -- and of the golden words agree on one range of words, and this range has every word that the
  -- golden run has changed.
  pub check_sram-Compares :
      (init_sram golden_sram : List ℕ) (i : ℕ) (is : List ℕ) (m : Region → ℕ → ℕ) (p : P)
      → changed 0 init_sram golden_sram ≡ i ∷ is
      → length golden_sram ≡ length init_sram
      → Placed (d.words Region.sram) bases.sram_base_addr (length golden_sram)
      → Quiet arriving memory m p
      → Compares init_sram golden_sram m
          (check_sram ser bases polls crc32 golden_sram (changed 0 init_sram golden_sram) p)
  check_sram-Compares init_sram golden_sram i is m p e same fits q =
      let below =
        subst (AreBelow (length golden_sram)) e
          (changed-AreBelow (length golden_sram) 0 init_sram golden_sram (omega arith)) in
      record {
        lo = least i is;
        n = greatest i is + 1 - least i is;
        compared = rw e (
            check_sram-Answered ser arriving crc32 memory d bases polls enough golden_sram (i ∷ is)
              (length golden_sram) m p below fits q);
        covered = λ k h ne.
            let c = changed_covered init_sram golden_sram i is k e same h ne in
            (c.0, omega (arith, c));
      }
