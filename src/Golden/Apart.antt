-- ===== src/Golden/Apart.antt =====
-- sim/run_golden.py: descriptors that do not touch one another's words, replayed from the ring.
use axi_dma_engine.Base.{
  ℕ, ◌+◌, ◌-◌, ◌/◌, ◌^◌, ◌≤◌, ◌<◌, ◌≡◌, refl, ap, ◌∙◌, Bool, true, false, not, ◌&&◌, ltb, leb,
  if◌then◌else◌, List, [], ◌∷◌, length, get_or, arith,
}
use axi_dma_engine.Descriptor.{Descriptor}
use axi_dma_engine.Memory.Slices.{
  slice, overwrite, get_or-overwrite, length-slice, length-overwrite,
}
use axi_dma_engine.AxiMaster.Burst.{masked, length-masked}
use axi_dma_engine.Golden.{dir_bit}
use axi_dma_engine.Golden.Move.{beats, transferred}
use axi_dma_engine.Golden.Copied.{AreWords, get_or-masked, transferred_word}

abbrev pub Memories : Type 0
Memories = List ℕ × List ℕ

-- the SRAM or the system memory
abbrev pub part : Bool → Memories → List ℕ
part true ml = ml.1
part false ml = ml.0

abbrev same : Bool → Bool → Bool
same true b = b
same false b = not b

-- whether `d` writes word `k` of a memory
abbrev pub writes : Descriptor → Bool → ℕ → Bool
writes d side k = same side (dir_bit d) && (leb (d.w1 / 4) k && ltb k (d.w1 / 4 + beats d))

-- The bursts lie in the memories.
pub record FitsIn (d : Descriptor) (ml : Memories) : Type 0 where
  pub src_fits : d.w0 / 4 + beats d ≤ length (part (not (dir_bit d)) ml)
  pub dst_fits : d.w1 / 4 + beats d ≤ length (part (dir_bit d) ml)

abbrev pub step : Descriptor → Memories → Memories
step d ml = transferred d ml.0 ml.1

written : Descriptor → List ℕ → List ℕ
written d from = masked (slice (d.w0 / 4) (beats d) from)

length-written : (d : Descriptor) (from : List ℕ) → length (written d from) ≡ beats d
unfolding written
length-written d from =
    length-masked (slice (d.w0 / 4) (beats d) from) ∙ length-slice (d.w0 / 4) (beats d) from

-- The memory that `d` writes, and the other one.
step-dst :
    (dir : Bool) (d : Descriptor) (ml : Memories)
    → dir_bit d ≡ dir
    → part dir (step d ml) ≡ overwrite (d.w1 / 4) (written d (part (not dir) ml)) (part dir ml)
unfolding written
step-dst true d ml e = ground (arith, e)
step-dst false d ml e = ground (arith, e)

step-src :
    (dir : Bool) (d : Descriptor) (ml : Memories)
    → dir_bit d ≡ dir
    → part (not dir) (step d ml) ≡ part (not dir) ml
step-src true d ml e = ground (arith, e)
step-src false d ml e = ground (arith, e)

pub length-step :
    (side : Bool) (d : Descriptor) (ml : Memories)
    → length (part side (step d ml)) ≡ length (part side ml)
length-step side d ml = sides (dir_bit d) side refl
  where
    sides : (dir s : Bool) → dir_bit d ≡ dir → length (part s (step d ml)) ≡ length (part s ml)
    sides true true e =
        ap length (step-dst true d ml e) ∙ length-overwrite (d.w1 / 4) (written d ml.0) ml.1
    sides false false e =
        ap length (step-dst false d ml e) ∙ length-overwrite (d.w1 / 4) (written d ml.1) ml.0
    sides true false e = ap length (step-src true d ml e)
    sides false true e = ap length (step-src false d ml e)

-- A word of either memory after `d`.
step_word :
    (side : Bool) (d : Descriptor) (ml : Memories) (k : ℕ)
    → FitsIn d ml
    → get_or (part side (step d ml)) k 0 ≡ (
        if writes d side k
        then get_or (written d (part (not side) ml)) (k - d.w1 / 4) 0
        else get_or (part side ml) k 0)
step_word side d ml k f = sides (dir_bit d) side refl
  where
    over :
        (s : Bool)
        → dir_bit d ≡ s
        → get_or (part s (step d ml)) k 0 ≡ (
            if leb (d.w1 / 4) k && ltb k (d.w1 / 4 + beats d)
            then get_or (written d (part (not s) ml)) (k - d.w1 / 4) 0
            else get_or (part s ml) k 0)
    over s e =
        let ws = written d (part (not s) ml) in
        let len = length-written d (part (not s) ml) in
        let fits : d.w1 / 4 + length ws ≤ length (part s ml) = rw (len, ← e) f.dst_fits in
        let w = get_or-overwrite (d.w1 / 4) ws (part s ml) k fits in
        ap (λ l. get_or l k 0) (step-dst s d ml e) ∙ w ∙ rw len refl

    sides :
        (dir s : Bool)
        → dir_bit d ≡ dir
        → get_or (part s (step d ml)) k 0 ≡ (
            if writes d s k
            then get_or (written d (part (not s) ml)) (k - d.w1 / 4) 0
            else get_or (part s ml) k 0)
    sides true true e = over true e ∙ ground (arith, e)
    sides false false e = over false e ∙ ground (arith, e)
    sides true false e = ap (λ l. get_or l k 0) (step-src true d ml e) ∙ ground (arith, e)
    sides false true e = ap (λ l. get_or l k 0) (step-src false d ml e) ∙ ground (arith, e)

pub step_outside :
    (side : Bool) (d : Descriptor) (ml : Memories) (k : ℕ)
    → FitsIn d ml
    → writes d side k ≡ false
    → get_or (part side (step d ml)) k 0 ≡ get_or (part side ml) k 0
step_outside side d ml k f h = step_word side d ml k f ∙ rw h refl

abbrev pub Wordy : Memories → Type 0
Wordy ml = (side : Bool) → AreWords (part side ml)

written_word : (d : Descriptor) (from : List ℕ) (j : ℕ) → get_or (written d from) j 0 < 2 ^ 32
unfolding written
written_word d from j = omega (arith, get_or-masked (slice (d.w0 / 4) (beats d) from) j)

step-Wordy : (d : Descriptor) (ml : Memories) → FitsIn d ml → Wordy ml → Wordy (step d ml)
step-Wordy d ml f h side k =
    ground
      (arith, step_word side d ml k f, h side k, written_word d (part (not side) ml) (k - d.w1 / 4))

-- The words that `d` moves, at its destination.
step_moved :
    (d : Descriptor) (ml : Memories) (j : ℕ)
    → FitsIn d ml
    → Wordy ml
    → j < beats d
    → get_or (part (dir_bit d) (step d ml)) (d.w1 / 4 + j) 0
      ≡ get_or (part (not (dir_bit d)) ml) (d.w0 / 4 + j) 0
unfolding written
step_moved d ml j f h p =
    ap (λ l. get_or l (d.w1 / 4 + j) 0) (step-dst (dir_bit d) d ml refl)
    ∙ transferred_word (beats d) (d.w0 / 4) (d.w1 / 4) j (part (not (dir_bit d)) ml)
        (part (dir_bit d) ml) (h (not (dir_bit d))) f.dst_fits p

-- `d` does not write the `n` words from `a` on.
abbrev pub Spares : Descriptor → Bool → ℕ → ℕ → Type 0
Spares d side a n = (j : ℕ) → j < n → writes d side (a + j) ≡ false

-- Neither writes a word that the other reads or writes.
pub record Apart (d e : Descriptor) : Type 0 where
  pub dst_spared : Spares e (dir_bit d) (d.w1 / 4) (beats d)
  pub src_spared : Spares e (not (dir_bit d)) (d.w0 / 4) (beats d)
  pub spares_src : Spares d (not (dir_bit e)) (e.w0 / 4) (beats e)

abbrev ApartAll : Descriptor → List Descriptor → Type 0
ApartAll d [] = Unit {0}
ApartAll d (e ∷ ds) = Apart d e × ApartAll d ds

abbrev pub AreApart : List Descriptor → Type 0
AreApart [] = Unit {0}
AreApart (d ∷ ds) = ApartAll d ds × AreApart ds

abbrev pub AllFit : List Descriptor → Memories → Type 0
AllFit [] ml = Unit {0}
AllFit (d ∷ ds) ml = FitsIn d ml × AllFit ds (step d ml)

abbrev pub steps : List Descriptor → Memories → Memories
steps [] ml = ml
steps (d ∷ ds) ml = steps ds (step d ml)

-- The words that were at a descriptor's source before are at its source and destination after.
pub record Moved (d : Descriptor) (before after : Memories) : Type 0 where
  pub at_dst :
      (j : ℕ)
      → j < beats d
      → get_or (part (dir_bit d) after) (d.w1 / 4 + j) 0
        ≡ get_or (part (not (dir_bit d)) before) (d.w0 / 4 + j) 0
  pub at_src :
      (j : ℕ)
      → j < beats d
      → get_or (part (not (dir_bit d)) after) (d.w0 / 4 + j) 0
        ≡ get_or (part (not (dir_bit d)) before) (d.w0 / 4 + j) 0

abbrev pub AllMoved : List Descriptor → Memories → Memories → Type 0
AllMoved [] before after = Unit {0}
AllMoved (d ∷ ds) before after = Moved d before after × AllMoved ds before after

abbrev AllSpare : List Descriptor → Bool → ℕ → Type 0
AllSpare [] side k = Unit {0}
AllSpare (e ∷ ds) side k = (writes e side k ≡ false) × AllSpare ds side k

steps_outside :
    (side : Bool) (k : ℕ) (ds : List Descriptor) (ml : Memories)
    → AllFit ds ml
    → AllSpare ds side k
    → get_or (part side (steps ds ml)) k 0 ≡ get_or (part side ml) k 0
steps_outside side k [] ml f h = refl
steps_outside side k (d ∷ ds) ml f h =
    steps_outside side k ds (step d ml) f.1 h.1 ∙ step_outside side d ml k f.0 h.0

own_source : (d : Descriptor) (k : ℕ) → writes d (not (dir_bit d)) k ≡ false
own_source d k = sides (dir_bit d) refl
  where
    sides : (b : Bool) → dir_bit d ≡ b → writes d (not b) k ≡ false
    sides true e = ground (arith, e)
    sides false e = ground (arith, e)

-- The descriptors behind `d` write none of its words.
spared_dst :
    (d : Descriptor) (ds : List Descriptor) (j : ℕ)
    → ApartAll d ds
    → j < beats d
    → AllSpare ds (dir_bit d) (d.w1 / 4 + j)
spared_dst d [] j h p = tt
spared_dst d (e ∷ ds) j h p = (h.0.dst_spared j p, spared_dst d ds j h.1 p)

spared_src :
    (d : Descriptor) (ds : List Descriptor) (j : ℕ)
    → ApartAll d ds
    → j < beats d
    → AllSpare ds (not (dir_bit d)) (d.w0 / 4 + j)
spared_src d [] j h p = tt
spared_src d (e ∷ ds) j h p = (h.0.src_spared j p, spared_src d ds j h.1 p)

-- What is moved behind `d` comes from words that `d` has left as they were.
before_step :
    (d : Descriptor) (ds : List Descriptor) (ml after : Memories)
    → FitsIn d ml
    → ApartAll d ds
    → AllMoved ds (step d ml) after
    → AllMoved ds ml after
before_step d [] ml after f h v = tt
before_step d (e ∷ ds) ml after f h v =
    let kept : (j : ℕ)
        → j < beats e
        → get_or (part (not (dir_bit e)) (step d ml)) (e.w0 / 4 + j) 0
          ≡ get_or (part (not (dir_bit e)) ml) (e.w0 / 4 + j) 0 =
      λ j p. step_outside (not (dir_bit e)) d ml (e.w0 / 4 + j) f (h.0.spares_src j p) in
    (
      record {
        at_dst = λ j p. v.0.at_dst j p ∙ kept j p;
        at_src = λ j p. v.0.at_src j p ∙ kept j p;
      },
      before_step d ds ml after f h.1 v.1,
    )

-- Descriptors that do not touch one another's words each end with the words that were at their
-- source in the beginning, at the destination and still at the source.
pub steps-AllMoved :
    (ds : List Descriptor) (ml : Memories)
    → AreApart ds
    → AllFit ds ml
    → Wordy ml
    → AllMoved ds ml (steps ds ml)
steps-AllMoved [] ml a f h = tt
steps-AllMoved (d ∷ ds) ml a f h =
    let first : Moved d ml (steps (d ∷ ds) ml) = record {
      at_dst = λ j p.
          steps_outside (dir_bit d) (d.w1 / 4 + j) ds (step d ml) f.1 (spared_dst d ds j a.0 p)
          ∙ step_moved d ml j f.0 h p;
      at_src = λ j p.
          steps_outside (not (dir_bit d)) (d.w0 / 4 + j) ds (step d ml) f.1
            (spared_src d ds j a.0 p)
          ∙ step_outside (not (dir_bit d)) d ml (d.w0 / 4 + j) f.0 (own_source d (d.w0 / 4 + j));
    } in
    (
      first,
      before_step d ds ml (steps (d ∷ ds) ml) f.0 a.0
          (steps-AllMoved ds (step d ml) a.1 f.1 (step-Wordy d ml f.0 h)),
    )
