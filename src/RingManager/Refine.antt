-- ===== src/RingManager/Refine.antt =====
-- source/ringManager.py: a ring that is set up, and the bounded queue of its pending descriptors.
use native.Mathlib.Nat.{mod-lt, mod-eq_of_lt}
use axi_dma_engine.Base.{
  ℕ, suc, ◌+◌, ◌*◌, ◌%◌, ◌^◌, ◌≤◌, ◌<◌, ◌≡◌, ◌≢◌, refl, ap, ◌∙◌, List, [], ◌∷◌, ◌++◌, length, arith,
  ok, err, ring_full, nothing_pending, ◌==◌,
}
use axi_dma_engine.Csr
use axi_dma_engine.Memory.Slices.{overwrite, length-overwrite}
use axi_dma_engine.Descriptor.{Descriptor}
use axi_dma_engine.Descriptor.RoundTrip
use axi_dma_engine.RingManager.{
  RingManager, head_reg, tail_reg, ringlen, base, slot_byte_addr, write_desc_to_mem, is_empty,
  is_full, pending_count, enqueue, complete,
}
use axi_dma_engine.RingManager.Indices.{
  desc_at, distance, window, length-window, window_of_pos, distance-lt, tail_of_distance,
  distance-zero_iff, distance-enqueue, distance_complete, full_iff,
}
use axi_dma_engine.RingManager.Slots.{words, store_words_lem, window-overwrite}

-- The ring is set up with `r` slots from word `b` on, and lies in the memory.
pub record IsValid (r b : ℕ) (s : RingManager) : Type 0 where
  pub ringlen_reg : s.csr.regs Csr.reg_ringlen ≡ r
  pub baseaddr_reg : s.csr.regs Csr.reg_baseaddr ≡ b * 4
  pub head_in : s.csr.regs Csr.reg_head < r
  pub tail_in : s.csr.regs Csr.reg_tail < r
  pub ring_in : b + r * 4 ≤ length s.golden.memory.mem
  pub sized : s.golden.memory.size ≡ length s.golden.memory.mem
  pub addressable : length s.golden.memory.mem ≤ 2 ^ 30

-- How many descriptors wait, and which.
abbrev pub count : ℕ → RingManager → ℕ
count r s = distance r (s.csr.regs Csr.reg_head) (s.csr.regs Csr.reg_tail)

abbrev pub pending : ℕ → ℕ → RingManager → List Descriptor
pending r b s = window s.golden.memory.mem b r (s.csr.regs Csr.reg_head) (count r s)

module _ (r b : ℕ) (s : RingManager) (v : IsValid r b s) where
  pub head_reg_lem : head_reg s ≡ s.csr.regs Csr.reg_head
  head_reg_lem = omega arith

  tail_reg_lem : tail_reg s ≡ s.csr.regs Csr.reg_tail
  tail_reg_lem = omega arith

  pub length-pending : length (pending r b s) ≡ count r s
  length-pending = length-window s.golden.memory.mem b r (s.csr.regs Csr.reg_head) (count r s)

  pub ringlen_lem : ringlen s ≡ ok r
  unfolding ringlen
  ringlen_lem = ground arith

  -- The byte address of a slot.
  pub slot_byte_addr_lem : (i : ℕ) → i < r → slot_byte_addr i s ≡ (ok ((b + i * 4) * 4), s)
  unfolding slot_byte_addr base
  slot_byte_addr_lem i hi = ground (arith, ringlen_lem, mod-eq_of_lt hi)

  pub is_empty_lem : is_empty s ≡ (length (pending r b s) == 0)
  unfolding is_empty
  is_empty_lem = ground (
    arith,
    head_reg_lem,
    tail_reg_lem,
    length-pending,
    distance-zero_iff r (s.csr.regs Csr.reg_head) (s.csr.regs Csr.reg_tail) v.head_in v.tail_in,
  )

  -- On a ring that is set up, `is_full` says that all slots but one hold a pending descriptor.
  pub is_full_lem : is_full s ≡ (ok (length (pending r b s) + 1 == r), s)
  unfolding is_full
  is_full_lem = ground (
    arith,
    ringlen_lem,
    head_reg_lem,
    tail_reg_lem,
    length-pending,
    mod-eq_of_lt v.head_in,
    mod-eq_of_lt v.tail_in,
    full_iff r (s.csr.regs Csr.reg_head) (s.csr.regs Csr.reg_tail) v.head_in v.tail_in,
  )

  -- On a ring that is set up, `pending_count` is the number of pending descriptors.
  pub pending_count_lem : pending_count s ≡ (ok (length (pending r b s)), s)
  unfolding pending_count
  pending_count_lem = ground (
    arith,
    ringlen_lem,
    head_reg_lem,
    tail_reg_lem,
    length-pending,
    mod-eq_of_lt v.head_in,
    mod-eq_of_lt v.tail_in,
  )

-- The ring after `enqueue(d)`, and after `complete()`.
abbrev pub enqueued : ℕ → ℕ → Descriptor → RingManager → RingManager
enqueued r b d s =
    let t = s.csr.regs Csr.reg_tail in
    record s {
      csr = Csr.put Csr.reg_tail ((t + 1) % r) s.csr;
      golden = record (s.golden) {
        memory = record (s.golden.memory) {
          mem = overwrite (b + t * 4) (words d) s.golden.memory.mem;
        };
      };
    }

abbrev pub completed : ℕ → RingManager → RingManager
completed r s = record s { csr = Csr.put Csr.reg_head ((s.csr.regs Csr.reg_head + 1) % r) s.csr }

module _ (r b : ℕ) (s : RingManager) (v : IsValid r b s) where
  small : r < 2 ^ 32
  small = omega (arith, v.ring_in, v.addressable)

  next_lt : (i : ℕ) → (i + 1) % r < r
  next_lt i = mod-lt (i + 1) (omega (arith, v.head_in))

  write_desc_lem :
      (d : Descriptor) (t : ℕ)
      → t < r
      → write_desc_to_mem ((b + t * 4) * 4) d s.golden.memory ≡ (
        ok tt,
        record (s.golden.memory) { mem = overwrite (b + t * 4) (words d) s.golden.memory.mem },
      )
  unfolding write_desc_to_mem
  write_desc_lem d t ht =
      ground (arith, store_words_lem (b + t * 4) d s.golden.memory.mem (omega arith))

  pub enqueue_lem :
      (d : Descriptor) → length (pending r b s) + 1 < r → enqueue d s ≡ (ok d, enqueued r b d s)
  unfolding enqueue Csr.write
  enqueue_lem d room =
      let t = s.csr.regs Csr.reg_tail in
      ground (
        arith,
        ringlen_lem r b s v,
        is_full_lem r b s v,
        tail_reg_lem r b s v,
        mod-eq_of_lt v.tail_in,
        mod-eq_of_lt {n = (t + 1) % r} {m = 2 ^ 32} (omega (arith, next_lt t, small)),
        slot_byte_addr_lem r b s v t v.tail_in,
        write_desc_lem d t v.tail_in,
      )

  pub enqueued-IsValid : (d : Descriptor) → IsValid r b (enqueued r b d s)
  enqueued-IsValid d =
      let t = s.csr.regs Csr.reg_tail in
      omega (arith, next_lt t, length-overwrite (b + t * 4) (words d) s.golden.memory.mem)

  pub pending-enqueued :
      (d : Descriptor)
      → RoundTrip.IsValid d
      → length (pending r b s) + 1 < r
      → pending r b (enqueued r b d s) ≡ pending r b s ++ d ∷ []
  pending-enqueued d w room =
      let h = s.csr.regs Csr.reg_head in
      let t = s.csr.regs Csr.reg_tail in
      let n = count r s in
      let grown : distance r h ((t + 1) % r) ≡ suc n = omega (
        arith,
        distance-enqueue r h t v.head_in v.tail_in (omega (arith, length-pending r b s v)),
      ) in
      rw grown (
        window-overwrite s.golden.memory.mem b r d w v.ring_in n h t v.head_in v.tail_in
          (distance-lt r h t v.head_in v.tail_in) (tail_of_distance r h t v.head_in v.tail_in))

  -- On a ring that is set up, `enqueue` of a descriptor of 32-bit words where there is room returns
  -- it, and appends it to the pending descriptors; the ring stays set up.
  pub enqueue_refines :
      (d : Descriptor)
      → RoundTrip.IsValid d
      → length (pending r b s) + 1 < r
      → let (res, s') = enqueue d s in
        (res ≡ ok d) × (pending r b s' ≡ pending r b s ++ d ∷ []) × IsValid r b s'
  enqueue_refines d w room =
      rw (enqueue_lem d room) (refl, pending-enqueued d w room, enqueued-IsValid d)

  -- On a ring that is set up, with a descriptor pending in all slots but one, `enqueue` raises
  -- OverflowError and changes nothing.
  pub enqueue_full :
      (d : Descriptor) → length (pending r b s) + 1 ≡ r → enqueue d s ≡ (err ring_full, s)
  unfolding enqueue
  enqueue_full d full = ground (arith, ringlen_lem r b s v, is_full_lem r b s v)

  pub complete_lem : length (pending r b s) ≢ 0 → complete s ≡ (ok tt, completed r s)
  unfolding complete Csr.hw_set_head
  complete_lem ne =
      let h = s.csr.regs Csr.reg_head in
      ground (
        arith,
        ringlen_lem r b s v,
        is_empty_lem r b s v,
        head_reg_lem r b s v,
        mod-eq_of_lt v.head_in,
        mod-eq_of_lt {n = (h + 1) % r} {m = 2 ^ 32} (omega (arith, next_lt h, small)),
      )

  -- The oldest pending descriptor stands at the head slot; the others are those after `complete`.
  pub pending-cons :
      length (pending r b s) ≢ 0
      → pending r b s
        ≡ desc_at s.golden.memory.mem (b + s.csr.regs Csr.reg_head * 4)
          ∷ pending r b (completed r s)
  pending-cons ne =
      let h = s.csr.regs Csr.reg_head in
      let t = s.csr.regs Csr.reg_tail in
      let apart : h ≢ t =
        λ e. ne (length-pending r b s v ∙ (distance-zero_iff r h t v.head_in v.tail_in).1 e) in
      let fewer = distance_complete r h t v.head_in v.tail_in apart in
      window_of_pos s.golden.memory.mem b r h (count r s) (omega arith)
      ∙ ap
          (λ k.
            desc_at s.golden.memory.mem (b + h * 4)
            ∷ window s.golden.memory.mem b r ((h + 1) % r) k)
          (omega arith)

  -- On a ring that is set up, with a descriptor pending, `complete` returns and drops the oldest
  -- one; the ring stays set up.
  pub complete_refines :
      (d : Descriptor) (ds : List Descriptor)
      → pending r b s ≡ d ∷ ds
      → let (res, s') = complete s in (res ≡ ok tt) × (pending r b s' ≡ ds) × IsValid r b s'
  complete_refines d ds e =
      let ne : length (pending r b s) ≢ 0 = ground arith in
      rw (complete_lem ne)
        (refl, cc (pending-cons ne), omega (arith, next_lt (s.csr.regs Csr.reg_head)))

  -- Without one, `complete` raises RuntimeError and changes nothing.
  pub complete_empty : pending r b s ≡ [] → complete s ≡ (err nothing_pending, s)
  unfolding complete
  complete_empty e = ground (arith, is_empty_lem r b s v)
