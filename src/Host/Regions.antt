-- ===== src/Host/Regions.antt =====
-- firmware&local/serial_host.py: the region of the SRAM whose checksum main compares.
use mathlib.Core.Path.{subst}
use axi_dma_engine.Base.{
  ℕ, zero, suc, ◌+◌, ◌≡◌, ◌≢◌, ◌<◌, ◌≤◌, ◌⊎◌, inl, inr, List, [], ◌∷◌, length, get_or, arith, ◌==◌,
  true, false, Bool, if◌then◌else◌,
}
use axi_dma_engine.Host.Session.{changed, least, greatest}

abbrev IsIn : ℕ → List ℕ → Type 0
IsIn x [] = ⊥
IsIn x (y ∷ ys) = (x ≡ y) ⊎ IsIn x ys

pub least-le : (x y : ℕ) (ys : List ℕ) → IsIn x (y ∷ ys) → least y ys ≤ x
unfolding least
least-le x y [] (inl e) = omega arith
least-le x y [] (inr h) = elim h [ ]
least-le x y (z ∷ zs) (inl e) = ground (arith, e)
least-le x y (z ∷ zs) (inr h) = ground (arith, least-le x z zs h)

pub le-greatest : (x y : ℕ) (ys : List ℕ) → IsIn x (y ∷ ys) → x ≤ greatest y ys
unfolding greatest
le-greatest x y [] (inl e) = omega arith
le-greatest x y [] (inr h) = elim h [ ]
le-greatest x y (z ∷ zs) (inl e) = ground (arith, e)
le-greatest x y (z ∷ zs) (inr h) = ground (arith, le-greatest x z zs h)

kept : (n j : ℕ) (b : Bool) (xs : List ℕ) → IsIn n xs → IsIn n (if b then xs else j ∷ xs)
kept n j true xs h = h
kept n j false xs h = inr h

changed-IsIn :
    (j k : ℕ) (xs ys : List ℕ)
    → k < length xs
    → k < length ys
    → get_or xs k 0 ≢ get_or ys k 0
    → IsIn (j + k) (changed j xs ys)
unfolding changed
changed-IsIn j k [] ys h1 h2 ne = absurd (omega arith)
changed-IsIn j k (x ∷ xs) [] h1 h2 ne = absurd (omega arith)
changed-IsIn j zero (x ∷ xs) (y ∷ ys) h1 h2 ne = ground (arith, ne)
changed-IsIn j (suc k) (x ∷ xs) (y ∷ ys) h1 h2 ne =
    let ih = changed-IsIn (j + 1) k xs ys (omega arith) (omega arith) ne in
    let e : j + 1 + k ≡ j + suc k = omega arith in
    kept (j + suc k) j (x == y) (changed (j + 1) xs ys)
      (subst (λ n. IsIn n (changed (j + 1) xs ys)) e ih)

-- When the golden run has changed the SRAM, every word that it has changed lies between the first
-- and the last word of the region whose checksum main compares, of memories of one length.
pub changed_covered :
    (init_sram golden_sram : List ℕ) (i : ℕ) (is : List ℕ) (k : ℕ)
    → changed 0 init_sram golden_sram ≡ i ∷ is
    → length golden_sram ≡ length init_sram
    → k < length init_sram
    → get_or init_sram k 0 ≢ get_or golden_sram k 0
    → (least i is ≤ k) × (k ≤ greatest i is)
changed_covered init_sram golden_sram i is k e same h ne =
    let at_k : 0 + k ≡ k = omega arith in
    let there =
      subst (λ n. IsIn n (changed 0 init_sram golden_sram)) at_k
        (changed-IsIn 0 k init_sram golden_sram h (omega (arith, same)) ne) in
    let found : IsIn k (i ∷ is) = subst (IsIn k) e there in
    (least-le k i is found, le-greatest k i is found)
