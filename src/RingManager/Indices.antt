-- ===== src/RingManager/Indices.antt =====
-- source/ringManager.py: indices that go round at the ring length, and the window of descriptors
-- between head and tail.
use native.Mathlib.Nat.{mod-eq_of_lt, mod-eq-sub-mod, mod-lt}
use native.Mathlib.Decide.{dec_lt}
use axi_dma_engine.Base.{
  ℕ, zero, suc, ◌+◌, ◌-◌, ◌*◌, ◌%◌, ◌≤◌, ◌<◌, ◌≡◌, ◌≢◌, ◌↔◌, ◌⊎◌, inl, inr, refl, ap, List, [], ◌∷◌,
  length, get_or, arith,
}
use axi_dma_engine.Descriptor
use axi_dma_engine.Descriptor.{Descriptor}

-- The descriptor in the four words from index `w` on.
abbrev pub desc_at : List ℕ → ℕ → Descriptor
desc_at mem w =
    Descriptor.new (get_or mem w 0) (get_or mem (w + 1) 0) (get_or mem (w + 2) 0)
      (get_or mem (w + 3) 0)

-- How many slots lie between head and tail, in a ring of `r` slots.
abbrev pub distance : ℕ → ℕ → ℕ → ℕ
distance r h t = (t + r - h) % r

module _ (mem : List ℕ) (b r : ℕ) where
  -- The descriptors of the `n` slots from slot `h` on; slot 0 is at word `b`.
  abbrev pub window : ℕ → ℕ → List Descriptor
  window h zero = []
  window h (suc n) = desc_at mem (b + h * 4) ∷ window ((h + 1) % r) n

  pub length-window : (h n : ℕ) → length (window h n) ≡ n
  length-window h zero = refl
  length-window h (suc n) = ap suc (length-window ((h + 1) % r) n)

  pub window_of_pos :
      (h n : ℕ) → 0 < n → window h n ≡ desc_at mem (b + h * 4) ∷ window ((h + 1) % r) (n - 1)
  window_of_pos h zero p = absurd (omega arith)
  window_of_pos h (suc n) p = ap (λ k. window h (suc k)) (omega arith)

-- Fewer than `r` steps round the ring do not come back to the start.
pub add-mod-ne : {r h k : ℕ} → h < r → suc k < r → (h + suc k) % r ≢ h
add-mod-ne {r} {h} {k} hh hk = elim (dec_lt (h + suc k) r) [
  | yes p ↦ omega (arith, mod-eq_of_lt p)
  | no p ↦ omega (
    arith,
    mod-eq-sub-mod {n = h + suc k} {m = r} (omega arith),
    mod-eq_of_lt {n = h + suc k - r} {m = r} (omega arith),
  )
]

-- The distance without `%`.
distance_cases :
    (r h t : ℕ)
    → h < r
    → t < r
    → ((h ≤ t) × (distance r h t + h ≡ t)) ⊎ ((t < h) × (distance r h t + h ≡ t + r))
distance_cases r h t hh ht = elim (dec_lt t h) [
  | yes p ↦ inr (p, omega (arith, mod-eq_of_lt {n = t + r - h} {m = r} (omega arith)))
  | no p ↦ inl (
    omega arith,
    omega (
      arith,
      mod-eq-sub-mod {n = t + r - h} {m = r} (omega arith),
      mod-eq_of_lt {n = t + r - h - r} {m = r} (omega arith),
    ),
  )
]

next_cases :
    (r t : ℕ) → t < r → ((t + 1 < r) × ((t + 1) % r ≡ t + 1)) ⊎ ((t + 1 ≡ r) × ((t + 1) % r ≡ 0))
next_cases r t ht = elim (dec_lt (t + 1) r) [
  | yes p ↦ inl (p, mod-eq_of_lt p)
  | no p ↦ inr (
    omega arith,
    omega (
      arith,
      mod-eq-sub-mod {n = t + 1} {m = r} (omega arith),
      mod-eq_of_lt {n = 0} {m = r} (omega arith),
    ),
  )
]

module _ (r h t : ℕ) (hh : h < r) (ht : t < r) where
  pub distance-lt : distance r h t < r
  distance-lt = mod-lt (t + r - h) (omega arith)

  -- Where the tail stands, as seen from the head.
  pub tail_of_distance : t ≡ (h + distance r h t) % r
  tail_of_distance = grind arith

  pub distance-zero_iff : (distance r h t ≡ 0) ↔ (h ≡ t)
  distance-zero_iff = grind arith

  -- One more descriptor, if there is room.
  pub distance-enqueue : distance r h t + 1 < r → distance r h ((t + 1) % r) ≡ distance r h t + 1
  distance-enqueue room =
      let d = distance_cases r h t hh ht in
      let n = next_cases r t ht in
      let d' = distance_cases r h ((t + 1) % r) hh (mod-lt (t + 1) (omega arith)) in omega arith

  -- One less.
  pub distance_complete : h ≢ t → distance r h t ≡ distance r ((h + 1) % r) t + 1
  distance_complete ne =
      let d = distance_cases r h t hh ht in
      let n = next_cases r h hh in
      let d' = distance_cases r ((h + 1) % r) t (mod-lt (h + 1) (omega arith)) ht in omega arith

  pub full_iff : ((t + 1) % r ≡ h) ↔ (distance r h t + 1 ≡ r)
  full_iff = grind arith
