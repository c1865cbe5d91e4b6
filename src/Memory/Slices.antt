-- ===== src/Memory/Slices.antt =====
-- A burst of words in a memory: the words that a read returns, and the memory after a write.
use axi_dma_engine.Base.{
  ℕ, zero, suc, ◌+◌, ◌-◌, ◌≤◌, ◌<◌, ◌≡◌, refl, ap, List, [], ◌∷◌, length, get_or, set,
  get_elem?-eq-get_or, leb, ltb, ◌&&◌, if◌then◌else◌, ok, err, index_error, arith,
}
use axi_dma_engine.Memory.{load, store}

-- the `n` words from index `i` on
abbrev pub slice : ℕ → ℕ → List ℕ → List ℕ
slice i zero mem = []
slice i (suc n) mem = get_or mem i 0 ∷ slice (i + 1) n mem

-- the memory with `ws` laid over it from index `i` on
abbrev pub overwrite : ℕ → List ℕ → List ℕ → List ℕ
overwrite i ws [] = []
overwrite zero [] (x ∷ mem) = x ∷ mem
overwrite zero (w ∷ ws) (x ∷ mem) = w ∷ overwrite zero ws mem
overwrite (suc i) ws (x ∷ mem) = x ∷ overwrite i ws mem

pub length-slice : (i n : ℕ) (mem : List ℕ) → length (slice i n mem) ≡ n
length-slice i zero mem = refl
length-slice i (suc n) mem = ap suc (length-slice (i + 1) n mem)

pub length-overwrite : (i : ℕ) (ws mem : List ℕ) → length (overwrite i ws mem) ≡ length mem
length-overwrite i ws [] = refl
length-overwrite zero [] (x ∷ mem) = refl
length-overwrite zero (w ∷ ws) (x ∷ mem) = ap suc (length-overwrite zero ws mem)
length-overwrite (suc i) ws (x ∷ mem) = ap suc (length-overwrite i ws mem)

pub overwrite-nil : (i : ℕ) (mem : List ℕ) → overwrite i [] mem ≡ mem
overwrite-nil i [] = refl
overwrite-nil zero (x ∷ mem) = refl
overwrite-nil (suc i) (x ∷ mem) = ap (λ l. x ∷ l) (overwrite-nil i mem)

-- Writing the first word and then the rest one index on.
pub overwrite-set :
    (i w : ℕ) (ws mem : List ℕ)
    → i < length mem
    → overwrite (i + 1) ws (set mem i w) ≡ overwrite i (w ∷ ws) mem
overwrite-set i w ws [] h = absurd (omega arith)
overwrite-set zero w ws (x ∷ mem) h = refl
overwrite-set (suc i) w ws (x ∷ mem) h =
    let e : suc i + 1 ≡ suc (i + 1) = omega arith in
    rw e (ap (λ l. x ∷ l) (overwrite-set i w ws mem (omega arith)))

-- Every word of the memory after a write.
pub get_or-overwrite :
    (i : ℕ) (ws mem : List ℕ) (j : ℕ)
    → i + length ws ≤ length mem
    → get_or (overwrite i ws mem) j 0
      ≡ (if leb i j && ltb j (i + length ws) then get_or ws (j - i) 0 else get_or mem j 0)
get_or-overwrite i ws [] j h = ground arith
get_or-overwrite zero [] (x ∷ mem) j h = ground arith
get_or-overwrite zero (w ∷ ws) (x ∷ mem) zero h = ground arith
get_or-overwrite zero (w ∷ ws) (x ∷ mem) (suc j) h =
    let e : suc j - 0 ≡ suc (j - 0) = omega arith in
    rw e (ground (arith, get_or-overwrite zero ws mem j (omega arith)))
get_or-overwrite (suc i) ws (x ∷ mem) zero h = ground arith
get_or-overwrite (suc i) ws (x ∷ mem) (suc j) h =
    let e : suc j - suc i ≡ j - i = omega arith in
    rw e (ground (arith, get_or-overwrite i ws mem j (omega arith)))

pub load_lem : (i : ℕ) (mem : List ℕ) → i < length mem → load i mem ≡ (ok (get_or mem i 0), mem)
unfolding load
load_lem i mem h = ground (arith, get_elem?-eq-get_or mem i 0 h)

pub store_lem : (i v : ℕ) (mem : List ℕ) → i < length mem → store i v mem ≡ (ok tt, set mem i v)
unfolding store
store_lem i v mem h = ground arith

pub store_out : (i v : ℕ) (mem : List ℕ) → length mem ≤ i → store i v mem ≡ (err index_error, mem)
unfolding store
store_out i v mem h = ground arith

pub overwrite-beyond : (i : ℕ) (ws mem : List ℕ) → length mem ≤ i → overwrite i ws mem ≡ mem
overwrite-beyond i ws [] h = refl
overwrite-beyond zero ws (x ∷ mem) h = absurd (omega arith)
overwrite-beyond (suc i) ws (x ∷ mem) h = ap (λ l. x ∷ l) (overwrite-beyond i ws mem (omega arith))
