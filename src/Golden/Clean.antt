-- ===== src/Golden/Clean.antt =====
-- sim/run_golden.py: the replay of a ring whose descriptors lie at whole words, fit the memories and
-- leave the ring alone.
use mathlib.Core.Path.{ap₂, subst}
use native.Mathlib.Nat.{mod-lt}
use axi_dma_engine.Base.{
  ℕ, zero, suc, ◌+◌, ◌*◌, ◌/◌, ◌%◌, ◌≤◌, ◌<◌, ◌≡◌, refl, ◌∙◌, sym, Bool, true, false, not, List, [],
  ◌∷◌, length, get_or, arith,
}
use axi_dma_engine.Descriptor.{Descriptor}
use axi_dma_engine.RingManager.Indices.{window, desc_at}
use axi_dma_engine.Golden.{dir_bit, mid_depth}
use axi_dma_engine.Golden.Move.{beats, Movable, CanMove}
use axi_dma_engine.Golden.Loop.{replay, AllMovable}
use axi_dma_engine.Golden.Apart.{
  Memories, part, FitsIn, step, steps, length-step, step_outside, Spares, AllFit,
}

-- the size of the SRAM or of the system memory
abbrev pub size : ℕ → ℕ → Bool → ℕ
size m l true = l
size m l false = m

-- A descriptor in memories of `m` and `l` words with a ring of `r` slots at word `b`.
pub record IsClean (m l r b : ℕ) (d : Descriptor) : Type 0 where
  pub src_aligned : d.w0 % 4 ≡ 0
  pub dst_aligned : d.w1 % 4 ≡ 0
  pub short : beats d ≤ mid_depth
  pub src_in : d.w0 / 4 + beats d ≤ size m l (not (dir_bit d))
  pub dst_in : d.w1 / 4 + beats d ≤ size m l (dir_bit d)
  pub spares_ring : Spares d false b (r * 4)

abbrev pub AreClean : ℕ → ℕ → ℕ → ℕ → List Descriptor → Type 0
AreClean m l r b [] = Unit {0}
AreClean m l r b (d ∷ ds) = IsClean m l r b d × AreClean m l r b ds

module _ (m l r b : ℕ) where
  abbrev pub Sized : Memories → Type 0
  Sized ml = (length ml.0 ≡ m) × (length ml.1 ≡ l)

  part-size : (side : Bool) (ml : Memories) → Sized ml → length (part side ml) ≡ size m l side
  part-size true ml h = h.1
  part-size false ml h = h.0

  step-Sized : (d : Descriptor) (ml : Memories) → Sized ml → Sized (step d ml)
  step-Sized d ml h = (length-step false d ml ∙ h.0, length-step true d ml ∙ h.1)

  clean-FitsIn : (d : Descriptor) (ml : Memories) → IsClean m l r b d → Sized ml → FitsIn d ml
  clean-FitsIn d ml c h = record {
    src_fits = rw (part-size (not (dir_bit d)) ml h) c.src_in;
    dst_fits = rw (part-size (dir_bit d) ml h) c.dst_in;
  }

  pub clean-AllFit :
      (ds : List Descriptor) (ml : Memories) → AreClean m l r b ds → Sized ml → AllFit ds ml
  clean-AllFit [] ml c h = tt
  clean-AllFit (d ∷ ds) ml c h =
      (clean-FitsIn d ml c.0 h, clean-AllFit ds (step d ml) c.1 (step-Sized d ml h))

  clean-Movable :
      (d : Descriptor) (ml : Memories)
      → IsClean m l r b d
      → Sized ml
      → Movable d mid_depth (length ml.0) (length ml.1)
  clean-Movable d ml c h = sides (dir_bit d) c.src_in c.dst_in
    where
      sides :
          (dir : Bool)
          → d.w0 / 4 + beats d ≤ size m l (not dir)
          → d.w1 / 4 + beats d ≤ size m l dir
          → CanMove dir d mid_depth (length ml.0) (length ml.1)
      sides true p q = (
        c.src_aligned,
        record { mid_fits = c.short; src_fits = omega (arith, h.0); dst_fits = omega (arith, h.1) },
      )
      sides false p q = (
        c.dst_aligned,
        record { mid_fits = c.short; src_fits = omega (arith, h.1); dst_fits = omega (arith, h.0) },
      )

  -- Memories with the same words in the ring hold the same descriptors there.
  abbrev SameRing : List ℕ → List ℕ → Type 0
  SameRing mem mem' = (k : ℕ) → k < r * 4 → get_or mem (b + k) 0 ≡ get_or mem' (b + k) 0

  desc_at_same :
      (mem mem' : List ℕ) (h : ℕ)
      → h < r
      → SameRing mem mem'
      → desc_at mem (b + h * 4) ≡ desc_at mem' (b + h * 4)
  desc_at_same mem mem' h p e =
      let a1 : b + h * 4 + 1 ≡ b + (h * 4 + 1) = omega arith in
      let a2 : b + h * 4 + 2 ≡ b + (h * 4 + 2) = omega arith in
      let a3 : b + h * 4 + 3 ≡ b + (h * 4 + 3) = omega arith in
      rw
        (
          a1,
          a2,
          a3,
          e (h * 4) (omega arith),
          e (h * 4 + 1) (omega arith),
          e (h * 4 + 2) (omega arith),
          e (h * 4 + 3) (omega arith),
        )
        refl

  window_same :
      (mem mem' : List ℕ) (h n : ℕ)
      → h < r
      → SameRing mem mem'
      → window mem b r h n ≡ window mem' b r h n
  window_same mem mem' h zero p e = refl
  window_same mem mem' h (suc n) p e =
      ap₂ (λ d ds. d ∷ ds) (desc_at_same mem mem' h p e)
        (window_same mem mem' ((h + 1) % r) n (mod-lt (h + 1) (omega arith)) e)

  -- the memories after the slots behind `h`
  abbrev onward : List Descriptor → ℕ → Memories → Memories
  onward ds h ml = let out = replay r b (length ds) ((h + 1) % r) ml.0 ml.1 in (out.1, out.2)

  -- The replay of clean descriptors, none of which it stops at.
  abbrev Replays : List Descriptor → ℕ → Memories → Type 0
  Replays ds h ml =
      let out = replay r b (length ds) h ml.0 ml.1 in
      AllMovable r b mid_depth (length ds) h ml.0 ml.1 × ((out.1, out.2) ≡ steps ds ml)

  pub replay-steps :
      (ds : List Descriptor) (h : ℕ) (ml : Memories)
      → AreClean m l r b ds
      → Sized ml
      → h < r
      → window ml.0 b r h (length ds) ≡ ds
      → Replays ds h ml
  replay-steps [] h ml c z p e = (tt, refl)
  replay-steps (d ∷ ds) h ml c z p e =
      let here : desc_at ml.0 (b + h * 4) ≡ d = cc in
      let later : window ml.0 b r ((h + 1) % r) (length ds) ≡ ds = cc in
      let next : (h + 1) % r < r = mod-lt (h + 1) (omega arith) in
      let fits = clean-FitsIn d ml c.0 z in
      let kept : SameRing (step d ml).0 ml.0 =
        λ k q. step_outside false d ml (b + k) fits (c.0.spares_ring k q) in
      let ih =
        replay-steps ds ((h + 1) % r) (step d ml) c.1 (step-Sized d ml z) next
          (window_same (step d ml).0 ml.0 ((h + 1) % r) (length ds) next kept ∙ later) in
      subst
        (λ x.
          (Movable x mid_depth (length ml.0) (length ml.1)
            × AllMovable r b mid_depth (length ds) ((h + 1) % r) (step x ml).0 (step x ml).1)
          × (onward ds h (step x ml) ≡ steps ds (step d ml)))
        (sym here) ((clean-Movable d ml c.0 z, ih.0), ih.1)
