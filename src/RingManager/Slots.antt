-- ===== src/RingManager/Slots.antt =====
-- source/ringManager.py: a descriptor written to its slot, and the other slots.
use native.Mathlib.Nat.{add-zero, mod-lt, mod-add-mod}
use axi_dma_engine.Base.{
  ℕ, zero, suc, ◌+◌, ◌*◌, ◌%◌, ◌≤◌, ◌<◌, ◌≡◌, ◌⊎◌, ap, ◌∙◌, List, [], ◌∷◌, ◌++◌, length, length-set,
  set, get_or, arith, ok,
}
use mathlib.Core.Path.{ap₂}
use axi_dma_engine.Descriptor
use axi_dma_engine.Descriptor.{Descriptor}
use axi_dma_engine.Descriptor.RoundTrip.{IsValid}
use axi_dma_engine.Memory.Slices.{
  overwrite, overwrite-set, overwrite-nil, get_or-overwrite, store_lem,
}
use axi_dma_engine.RingManager.{store_words}
use axi_dma_engine.RingManager.Indices.{desc_at, window, add-mod-ne}

abbrev pub words : Descriptor → List ℕ
words d = d.w0 ∷ d.w1 ∷ d.w2 ∷ d.w3 ∷ []

pub store_words_lem :
    (w : ℕ) (d : Descriptor) (mem : List ℕ)
    → w + 4 ≤ length mem
    → store_words w d mem ≡ (ok tt, overwrite w (words d) mem)
unfolding store_words
store_words_lem w d mem h =
    let m1 = set mem w d.w0 in
    let m2 = set m1 (w + 1) d.w1 in
    let m3 = set m2 (w + 2) d.w2 in
    let l1 = length-set mem w d.w0 in
    let l2 = length-set m1 (w + 1) d.w1 in
    let l3 = length-set m2 (w + 2) d.w2 in
    ground (
      arith,
      add-zero w,
      store_lem w d.w0 mem (omega arith),
      store_lem (w + 1) d.w1 m1 (omega arith),
      store_lem (w + 2) d.w2 m2 (omega arith),
      store_lem (w + 3) d.w3 m3 (omega arith),
      overwrite-set w d.w0 (d.w1 ∷ d.w2 ∷ d.w3 ∷ []) mem (omega arith),
      overwrite-set (w + 1) d.w1 (d.w2 ∷ d.w3 ∷ []) m1 (omega arith),
      overwrite-set (w + 2) d.w2 (d.w3 ∷ []) m2 (omega arith),
      overwrite-set (w + 3) d.w3 [] m3 (omega arith),
      overwrite-nil (w + 3 + 1) (set m3 (w + 3) d.w3),
    )

module _ (d : Descriptor) (w : ℕ) (mem : List ℕ) (h : w + 4 ≤ length mem) where
  desc_at-overwrite_self : IsValid d → desc_at (overwrite w (words d) mem) w ≡ d
  unfolding Descriptor.new
  desc_at-overwrite_self v = ground (
    arith,
    get_or-overwrite w (words d) mem w h,
    get_or-overwrite w (words d) mem (w + 1) h,
    get_or-overwrite w (words d) mem (w + 2) h,
    get_or-overwrite w (words d) mem (w + 3) h,
  )

  word_apart :
      (j : ℕ) → (j + 1 ≤ w) ⊎ (w + 4 ≤ j) → get_or (overwrite w (words d) mem) j 0 ≡ get_or mem j 0
  word_apart j p = ground (arith, get_or-overwrite w (words d) mem j h)

  -- Four words elsewhere hold the descriptor that they held.
  desc_at-overwrite_apart :
      (w' : ℕ)
      → (w' + 4 ≤ w) ⊎ (w + 4 ≤ w')
      → desc_at (overwrite w (words d) mem) w' ≡ desc_at mem w'
  unfolding Descriptor.new
  desc_at-overwrite_apart w' p = ground (
    arith,
    word_apart w' (omega arith),
    word_apart (w' + 1) (omega arith),
    word_apart (w' + 2) (omega arith),
    word_apart (w' + 3) (omega arith),
  )

-- The slot behind a window, once written, extends the window by its descriptor.
module _ (mem : List ℕ) (b r : ℕ) (d : Descriptor) (v : IsValid d)
    (fits : b + r * 4 ≤ length mem) where
  slot_fits : {t : ℕ} → t < r → b + t * 4 + 4 ≤ length mem
  slot_fits ht = omega arith

  pub window-overwrite :
      (n h t : ℕ)
      → h < r
      → t < r
      → n < r
      → t ≡ (h + n) % r
      → window (overwrite (b + t * 4) (words d) mem) b r h (suc n) ≡ window mem b r h n ++ d ∷ []
  window-overwrite zero h t hh ht hn e =
      let same : t ≡ h = grind arith in
      rw (← same, desc_at-overwrite_self d (b + t * 4) mem (slot_fits ht) v)
  window-overwrite (suc n) h t hh ht hn e =
      let ne = add-mod-ne {r = r} {h = h} {k = n} hh hn in
      let apart : (b + h * 4 + 4 ≤ b + t * 4) ⊎ (b + t * 4 + 4 ≤ b + h * 4) = grind arith in
      let shift : t ≡ ((h + 1) % r + n) % r = e ∙ rw mod-add-mod (ap (λ k. k % r) (omega arith)) in
      ap₂ ◌∷◌ (desc_at-overwrite_apart d (b + t * 4) mem (slot_fits ht) (b + h * 4) apart)
        (window-overwrite n ((h + 1) % r) t (mod-lt (h + 1) (omega arith)) ht (omega arith) shift)
