-- ===== src/Golden/Copied.antt =====
-- sim/run_golden.py: the words of a burst that has been copied from one memory to the other.
use axi_dma_engine.Base.{
  ℕ, zero, suc, ◌+◌, ◌-◌, ◌^◌, ◌≤◌, ◌<◌, ◌≡◌, refl, List, [], ◌∷◌, length, get_or, arith, ◌∙◌,
}
use axi_dma_engine.Base.Words.{mask}
use axi_dma_engine.Memory.Slices.{slice, overwrite, get_or-overwrite, length-slice}
use axi_dma_engine.AxiMaster.Burst.{masked, length-masked}

-- Every word is a 32-bit word.
abbrev pub AreWords : List ℕ → Type 0
AreWords mem = (i : ℕ) → get_or mem i 0 < 2 ^ 32

pub get_or-masked : (ws : List ℕ) (j : ℕ) → get_or (masked ws) j 0 ≡ mask 32 (get_or ws j 0)
get_or-masked [] j = omega arith
get_or-masked (w ∷ ws) zero = refl
get_or-masked (w ∷ ws) (suc j) = get_or-masked ws j

get_or-slice :
    (i n j : ℕ) (mem : List ℕ) → j < n → get_or (slice i n mem) j 0 ≡ get_or mem (i + j) 0
get_or-slice i zero j mem h = absurd (omega arith)
get_or-slice i (suc n) zero mem h = ground arith
get_or-slice i (suc n) (suc j) mem h =
    let e : i + suc j ≡ i + 1 + j = omega arith in rw e (get_or-slice (i + 1) n j mem (omega arith))

-- After a transfer the words of the destination are those of the source.
pub transferred_word :
    (n sw dw j : ℕ) (from into : List ℕ)
    → AreWords from
    → dw + n ≤ length into
    → j < n
    → get_or (overwrite dw (masked (slice sw n from)) into) (dw + j) 0 ≡ get_or from (sw + j) 0
transferred_word n sw dw j from into h fits p =
    let ws = masked (slice sw n from) in
    let len : length ws ≡ n = length-masked (slice sw n from) ∙ length-slice sw n from in
    let off : dw + j - dw ≡ j = omega arith in
    ground (
      arith,
      len,
      off,
      get_or-overwrite dw ws into (dw + j) (omega arith),
      get_or-masked (slice sw n from) j,
      get_or-slice sw n j from p,
      h (sw + j),
    )
