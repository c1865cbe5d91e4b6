-- ===== src/Host/Held.antt =====
-- firmware&local/serial_host.py: the words that main's checks compare, as lists and as memories.
use axi_dma_engine.Base.{
  ℕ, zero, suc, ◌+◌, ◌-◌, ◌*◌, ◌^◌, ◌<◌, ◌≤◌, ◌≡◌, refl, Bool, true, false, ◌&&◌, inl, List, [],
  ◌∷◌, length, take, drop, get_or, arith, ◌==◌, if◌then◌else◌,
}
use axi_dma_engine.Base.Words.{mask}
use axi_dma_engine.Host.Transfers.{expected}
use axi_dma_engine.Host.Regions.{least-le, le-greatest}
use axi_dma_engine.Host.Session.{changed, nonzero, least, greatest}

abbrev pub AreBelow : ℕ → List ℕ → Type 0
AreBelow n [] = Unit {0}
AreBelow n (i ∷ is) = (i < n) × AreBelow n is

pub greatest-below : (n i : ℕ) (is : List ℕ) → AreBelow n (i ∷ is) → greatest i is < n
unfolding greatest
greatest-below n i [] h = h.0
greatest-below n i (j ∷ is) h = ground (arith, h.0, greatest-below n j is h.1)

below_if :
    (n j : ℕ) (b : Bool) (is : List ℕ)
    → j < n
    → AreBelow n is
    → AreBelow n (if b then is else j ∷ is)
below_if n j true is h k = k
below_if n j false is h k = (h, k)

pub changed-AreBelow : (n j : ℕ) (xs ys : List ℕ) → j + length ys ≤ n → AreBelow n (changed j xs ys)
unfolding changed
changed-AreBelow n j [] ys h = tt
changed-AreBelow n j (x ∷ xs) [] h = tt
changed-AreBelow n j (x ∷ xs) (y ∷ ys) h =
    below_if n j (x == y) (changed (j + 1) xs ys) (omega arith)
      (changed-AreBelow n (j + 1) xs ys (omega arith))

pub nonzero-AreBelow : (n j : ℕ) (ws : List ℕ) → j + length ws ≤ n → AreBelow n (nonzero j ws)
unfolding nonzero
nonzero-AreBelow n j [] h = tt
nonzero-AreBelow n j (w ∷ ws) h =
    below_if n j (w == 0) (nonzero (j + 1) ws) (omega arith)
      (nonzero-AreBelow n (j + 1) ws (omega arith))

-- The words of a list, from byte address `base` on.
abbrev pub HoldsAt : (ℕ → ℕ) → ℕ → List ℕ → Type 0
HoldsAt f base words = (k : ℕ) → k < length words → f (base + k * 4) ≡ get_or words k 0

drop_lem : (k : ℕ) (ws : List ℕ) → k < length ws → drop k ws ≡ get_or ws k 0 ∷ drop (k + 1) ws
drop_lem k [] h = absurd (omega arith)
drop_lem zero (w ∷ ws) h = refl
drop_lem (suc k) (w ∷ ws) h =
    let next : suc k + 1 ≡ suc (k + 1) = omega arith in rw next (drop_lem k ws (omega arith))

expected-HoldsAt :
    (f : ℕ → ℕ) (base : ℕ) (words : List ℕ) (n k : ℕ)
    → HoldsAt f base words
    → k + n ≤ length words
    → expected f (base + k * 4) n ≡ take n (drop k words)
unfolding expected
expected-HoldsAt f base words zero k h fits = refl
expected-HoldsAt f base words (suc n) k h fits =
    let next : base + k * 4 + 4 ≡ base + (k + 1) * 4 = omega arith in
    let ih = expected-HoldsAt f base words n (k + 1) h (omega arith) in
    rw (next, ih, h k (omega arith), drop_lem k words (omega arith)) refl

-- Whether two lists of words have one checksum between the indices that main computes.
abbrev region_ok : (List ℕ → ℕ) → (ℕ → ℕ) → ℕ → List ℕ → ℕ → List ℕ → Bool
region_ok crc32 f base words i is =
    let lo = least i is in
    let n = greatest i is + 1 - lo in
    crc32 (expected f (mask 32 (base + lo * 4)) n) == crc32 (take n (drop lo words))

pub region_ok-HoldsAt :
    (crc32 : List ℕ → ℕ) (f : ℕ → ℕ) (base : ℕ) (words : List ℕ) (i : ℕ) (is : List ℕ)
    → HoldsAt f base words
    → base + length words * 4 ≤ 2 ^ 32
    → AreBelow (length words) (i ∷ is)
    → region_ok crc32 f base words i is ≡ true
region_ok-HoldsAt crc32 f base words i is h fits below =
    let lo = least i is in
    let n = greatest i is + 1 - lo in
    let top = greatest-below (length words) i is below in
    let low = least-le i i is (inl refl) in
    let high = le-greatest i i is (inl refl) in
    let same = expected-HoldsAt f base words n lo h (omega (arith, top, low, high)) in
    let whole : mask 32 (base + lo * 4) ≡ base + lo * 4 = omega (arith, top, low, high, fits) in
    rw (whole, same) (ground arith)

abbrev pub sram_verdict : (List ℕ → ℕ) → (ℕ → ℕ) → ℕ → List ℕ → List ℕ → Bool
sram_verdict crc32 f base words [] = false
sram_verdict crc32 f base words (i ∷ is) = region_ok crc32 f base words i is

abbrev pub smem_verdict : (List ℕ → ℕ) → (ℕ → ℕ) → ℕ → List ℕ → List ℕ → Bool
smem_verdict crc32 f base words [] = true
smem_verdict crc32 f base words (i ∷ is) = region_ok crc32 f base words i is

-- Whether a list has an element.
abbrev pub has_any : List ℕ → Bool
has_any [] = false
has_any (i ∷ is) = true

pub and_true : (b : Bool) → (b && true) ≡ b
and_true true = refl
and_true false = refl
