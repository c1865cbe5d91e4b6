-- ===== src/HostRunner/Predicted.antt =====
-- firmware&local/host_runner.py behind sim/run_golden.py: the verification of the transfers on the
-- memories that the golden run has predicted.
use mathlib.Core.Path.{ap₂}
use axi_dma_engine.Base.{
  ℕ, zero, suc, ◌+◌, ◌*◌, ◌/◌, ◌%◌, ◌<◌, ◌≤◌, ◌≡◌, refl, ap, ◌∙◌, sym, Bool, true, false, not,
  Bool-cases, inl, inr, List, [], ◌∷◌, length, map, get_or, ◌==◌, arith,
}
use axi_dma_engine.Base.Words.{bit}
use axi_dma_engine.Csr
use axi_dma_engine.Memory.Slices.{slice}
use axi_dma_engine.Descriptor.{Descriptor}
use axi_dma_engine.Descriptor.RoundTrip
use axi_dma_engine.Golden.{dir_bit}
use axi_dma_engine.Golden.Move.{beats}
use axi_dma_engine.Golden.Setup.{AreValid}
use axi_dma_engine.Golden.Apart.{Memories, part, Moved, AllMoved}
use axi_dma_engine.Golden.Clean.{size, IsClean, AreClean}
use axi_dma_engine.Host.Transfers.{
  Images, Transfer, expected, transfer_at, walk, transfers, fields, fields_of,
}
use axi_dma_engine.Viz.{Region}
use axi_dma_engine.HostRunner.Session.{dst_region, src_region}
use axi_dma_engine.HostRunner.Verify.{IsSound, AreSound, IsHeld, AreHeld, HasArrived, HaveArrived}
use axi_dma_engine.HostRunner.Load.{held}

expected-slice :
    (f : ℕ → ℕ) (mem : List ℕ) (bound w n : ℕ)
    → ((k : ℕ) → k < bound → f (k * 4) ≡ get_or mem k 0)
    → w + n ≤ bound
    → expected f (w * 4) n ≡ slice w n mem
unfolding expected
expected-slice f mem bound w zero h fits = refl
expected-slice f mem bound w (suc n) h fits =
    let next : w * 4 + 4 ≡ (w + 1) * 4 = omega arith in
    ap₂ (λ x xs. x ∷ xs) (h w (omega arith))
      (ap (λ a. expected f a n) next ∙ expected-slice f mem bound (w + 1) n h (omega arith))

slice_same :
    (from into : List ℕ) (v w n : ℕ)
    → ((j : ℕ) → j < n → get_or from (v + j) 0 ≡ get_or into (w + j) 0)
    → slice v n from ≡ slice w n into
slice_same from into v w zero h = refl
slice_same from into v w (suc n) h =
    let first : get_or from v 0 ≡ get_or into w 0 = ground (arith, h 0) in
    ap₂ (λ x xs. x ∷ xs) first
      (slice_same from into (v + 1) (w + 1) n (λ j p. ground (arith, h (j + 1))))

length-expected : (f : ℕ → ℕ) (a n : ℕ) → length (expected f a n) ≡ n
unfolding expected
length-expected f a zero = refl
length-expected f a (suc n) = ap suc (length-expected f (a + 4) n)

-- the memory of a side
abbrev region_of : Bool → Region
region_of true = Region.sram
region_of false = Region.smem

-- Memories at least as large as the scenario's.
abbrev pub AreSized : ℕ → ℕ → (Region → ℕ) → Type 0
AreSized m l words = (side : Bool) → size m l side ≤ words (region_of side)

-- Memories that hold the words of `ml` at their byte addresses, as far as the sizes `m` and `l` go.
abbrev pub Holds : ℕ → ℕ → (Region → ℕ → ℕ) → Memories → Type 0
Holds m l mem ml =
    (side : Bool) (w : ℕ)
    → w < size m l side
    → mem (region_of side) (w * 4) ≡ get_or (part side ml) w 0

-- What `n` expected words from a whole word's address on are.
expected-part :
    (m l : ℕ) (mem : Region → ℕ → ℕ) (ml : Memories) (side : Bool) (a n : ℕ)
    → a % 4 ≡ 0
    → a / 4 + n ≤ size m l side
    → Holds m l mem ml
    → expected (mem (region_of side)) a n ≡ slice (a / 4) n (part side ml)
expected-part m l mem ml side a n h fits v =
    let whole : a ≡ a / 4 * 4 = omega arith in
    ap (λ k. expected (mem (region_of side)) k n) whole
    ∙ expected-slice (mem (region_of side)) (part side ml) (size m l side) (a / 4) n (v side) fits

-- A transfer that was read for `d`, from the dictionaries `i`.
record IsRead (i : Images) (d : Descriptor) (t : Transfer) : Type 0 where
  src_addr : t.src_addr ≡ d.w0
  dst_addr : t.dst_addr ≡ d.w1
  len_words : t.len_words ≡ beats d
  direction : t.dir ≡ bit d.w3 0
  expects : t.expected_words ≡ expected (held i (src_region t.dir)) t.src_addr t.len_words

dst_region_of : (x : ℕ) → dst_region x ≡ region_of (x == 1)
dst_region_of x = elim (Bool-cases (x == 1)) [ inl e ↦ rw e refl | inr e ↦ rw e refl ]

src_region_of : (x : ℕ) → src_region x ≡ region_of (not (x == 1))
src_region_of x = elim (Bool-cases (x == 1)) [ inl e ↦ rw e refl | inr e ↦ rw e refl ]

module _ (m l r b : ℕ) (i : Images) (d : Descriptor) (t : Transfer) (v : IsRead i d t)
    (c : IsClean m l r b d) where
  dst_of : dst_region t.dir ≡ region_of (dir_bit d)
  dst_of = ap dst_region v.direction ∙ dst_region_of (bit d.w3 0)

  src_of : src_region t.dir ≡ region_of (not (dir_bit d))
  src_of = ap src_region v.direction ∙ src_region_of (bit d.w3 0)

  from_src :
      (mem : Region → ℕ → ℕ) (ml : Memories)
      → Holds m l mem ml
      → expected (mem (src_region t.dir)) t.src_addr t.len_words
        ≡ slice (d.w0 / 4) (beats d) (part (not (dir_bit d)) ml)
  from_src mem ml h =
      rw (src_of, v.src_addr, v.len_words)
        (expected-part m l mem ml (not (dir_bit d)) d.w0 (beats d) c.src_aligned c.src_in h)

  from_dst :
      (mem : Region → ℕ → ℕ) (ml : Memories)
      → Holds m l mem ml
      → expected (mem (dst_region t.dir)) t.dst_addr t.len_words
        ≡ slice (d.w1 / 4) (beats d) (part (dir_bit d) ml)
  from_dst mem ml h =
      rw (dst_of, v.dst_addr, v.len_words)
        (expected-part m l mem ml (dir_bit d) d.w1 (beats d) c.dst_aligned c.dst_in h)

  read-HasArrived :
      (mem : Region → ℕ → ℕ) (before after : Memories)
      → Holds m l (held i) before
      → Holds m l mem after
      → Moved d before after
      → HasArrived mem t
  read-HasArrived mem before after h k w =
      let there = sym (v.expects ∙ from_src (held i) before h) in
      (
        from_dst mem after k
            ∙ slice_same (part (dir_bit d) after) (part (not (dir_bit d)) before) (d.w1 / 4)
                (d.w0 / 4) (beats d) w.at_dst
            ∙ there,
        from_src mem after k
            ∙ slice_same (part (not (dir_bit d)) after) (part (not (dir_bit d)) before) (d.w0 / 4)
                (d.w0 / 4) (beats d) w.at_src
            ∙ there,
      )

  read-IsSound : RoundTrip.IsValid d → IsSound t
  read-IsSound w = record {
    src_word = omega (arith, v.src_addr, w.w0_word);
    dst_word = omega (arith, v.dst_addr, w.w1_word);
    short = omega (arith, v.len_words);
    whole = ap length v.expects ∙ length-expected _ t.src_addr t.len_words;
  }

  read-IsHeld : (words : Region → ℕ) → AreSized m l words → IsHeld words t
  read-IsHeld words h = (
    rw (dst_of, v.dst_addr, v.len_words) (c.dst_aligned, omega (arith, c.dst_in, h (dir_bit d))),
    rw (src_of, v.src_addr, v.len_words)
        (c.src_aligned, omega (arith, c.src_in, h (not (dir_bit d)))),
  )

AreRead : Images → List Descriptor → List Transfer → Type 0
AreRead i [] [] = Unit {0}
AreRead i [] (t ∷ ts) = ⊥
AreRead i (d ∷ ds) [] = ⊥
AreRead i (d ∷ ds) (t ∷ ts) = IsRead i d t × AreRead i ds ts

module _ (m l r b : ℕ) (i : Images) (words : Region → ℕ) (sized : AreSized m l words) where
  read-HaveArrived :
      (ds : List Descriptor) (ts : List Transfer) (mem : Region → ℕ → ℕ) (before after : Memories)
      → AreRead i ds ts
      → AreClean m l r b ds
      → AreValid ds
      → Holds m l (held i) before
      → Holds m l mem after
      → AllMoved ds before after
      → AreSound ts × AreHeld words ts × HaveArrived mem ts
  unfolding AreRead
  read-HaveArrived [] [] mem before after v c w h k a = (tt, tt, tt)
  read-HaveArrived [] (t ∷ ts) mem before after v c w h k a = absurd v
  read-HaveArrived (d ∷ ds) [] mem before after v c w h k a = absurd v
  read-HaveArrived (d ∷ ds) (t ∷ ts) mem before after v c w h k a =
      let rest = read-HaveArrived ds ts mem before after v.1 c.1 w.1 h k a.1 in
      (
        (read-IsSound m l r b i d t v.0 c.0 w.0, rest.0),
        (read-IsHeld m l r b i d t v.0 c.0 words sized, rest.1),
        (read-HasArrived m l r b i d t v.0 c.0 mem before after h k a.0, rest.2),
      )

-- The expected words of every transfer are those of its source's dictionary.
Expects : Images → List Transfer → Type 0
Expects i [] = Unit {0}
Expects i (t ∷ ts) =
    (t.expected_words ≡ expected (held i (src_region t.dir)) t.src_addr t.len_words) × Expects i ts

transfer_at_expects :
    (i : Images) (a : ℕ)
    → let t = transfer_at i a in
      t.expected_words ≡ expected (held i (src_region t.dir)) t.src_addr t.len_words
unfolding transfer_at
transfer_at_expects i a = elim (Bool-cases (bit (i.sysmem_image (a + 0x0c)) 0 == 1)) [
  | inl e ↦ rw e refl
  | inr e ↦ rw e refl
]

walk-Expects : (i : Images) (a k n : ℕ) → Expects i (walk i a k n)
unfolding walk Expects
walk-Expects i a k zero = tt
walk-Expects i a k (suc n) = (transfer_at_expects i (a + k * 16), walk-Expects i a (k + 1) n)

fields-AreRead :
    (i : Images) (ds : List Descriptor) (ts : List Transfer)
    → map fields ts ≡ map fields_of ds
    → Expects i ts
    → AreRead i ds ts
unfolding AreRead Expects
fields-AreRead i [] [] e h = tt
fields-AreRead i [] (t ∷ ts) e h = cc
fields-AreRead i (d ∷ ds) [] e h = cc
fields-AreRead i (d ∷ ds) (t ∷ ts) e h =
    let one : fields t ≡ fields_of d = cc in
    let more : map fields ts ≡ map fields_of ds = cc in
    (
      record {
        src_addr = ap (λ x. x.0) one;
        dst_addr = ap (λ x. x.1) one;
        len_words = ap (λ x. x.2) one;
        direction = ap (λ x. x.3) one;
        expects = h.0;
      },
      fields-AreRead i ds ts more h.1,
    )

-- The transfers of dictionaries that hold the memories before, read for descriptors that have since
-- moved their words, have arrived in the memories after.
pub transfers-HaveArrived :
    (m l r b : ℕ) (i : Images) (ds : List Descriptor) (mem : Region → ℕ → ℕ)
    (before after : Memories) (words : Region → ℕ)
    → AreSized m l words
    → map fields (transfers i) ≡ map fields_of ds
    → AreClean m l r b ds
    → AreValid ds
    → Holds m l (held i) before
    → Holds m l mem after
    → AllMoved ds before after
    → AreSound (transfers i) × AreHeld words (transfers i) × HaveArrived mem (transfers i)
unfolding transfers
transfers-HaveArrived m l r b i ds mem before after words sized e c w h k a =
    let expects = walk-Expects i (i.csr_writes Csr.reg_baseaddr) 0 (i.csr_writes Csr.reg_tail) in
    read-HaveArrived m l r b i words sized ds (transfers i) mem before after
      (fields-AreRead i ds (transfers i) e expects) c w h k a
