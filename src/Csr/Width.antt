-- ===== src/Csr/Width.antt =====
-- source/csr.py: the widths of the registers.
use axi_dma_engine.Base.{
  ℕ, ◌^◌, ◌<◌, List, [], ◌∷◌, Bool, true, false, ◌||◌, ◌==◌, if◌then◌else◌, arith, Bool-cases, inl,
  inr,
}
use axi_dma_engine.Base.Words.{mask, test_bit, set_bit, clear_bit}
use axi_dma_engine.Csr.{
  Csr, new, put, reg_head, reg_ctrl, reg_status, reg_irq_status, write, clear_irq, hw_set_head,
  hw_set_busy, hw_set_ring_empty, hw_set_error, hw_set_empty_irq,
}

-- a call that changes a register
pub data Event : Type 0 where
  writes : ℕ → ℕ → Event
  sets_head : ℕ → Event
  sets_busy sets_ring_empty : Bool → Event
  sets_error sets_empty_irq : Event

happen : Event → Csr → Csr
happen (writes offset v) c = write offset v c
happen (sets_head head) c = hw_set_head head c
happen (sets_busy b) c = hw_set_busy b c
happen (sets_ring_empty b) c = hw_set_ring_empty b c
happen sets_error c = hw_set_error c
happen sets_empty_irq c = hw_set_empty_irq c

pub happen_all : List Event → Csr → Csr
happen_all [] c = c
happen_all (e ∷ es) c = happen_all es (happen e c)

-- one more than the greatest value of a register
abbrev bound : ℕ → ℕ
bound offset = if offset == reg_ctrl || offset == reg_status then 2 ^ 3 else 2 ^ 32

abbrev IsBounded : Csr → Type 0
IsBounded c = (offset : ℕ) → c.regs offset < bound offset

put-IsBounded :
    (offset v : ℕ) (c : Csr) → v < bound offset → IsBounded c → IsBounded (put offset v c)
put-IsBounded offset v c h b j = ground (arith, h, b j)

set_bit_word : (x : ℕ) → x < 2 ^ 32 → (set_bit x 0 < 2 ^ 32) × (set_bit x 1 < 2 ^ 32)
set_bit_word x h = ground (arith, h)

set_bit_status :
    (x : ℕ) → x < 2 ^ 3 → (set_bit x 0 < 2 ^ 3) × (set_bit x 1 < 2 ^ 3) × (set_bit x 2 < 2 ^ 3)
set_bit_status x h = ground (arith, h)

clear_bit_le : (x k n : ℕ) → x < n → clear_bit x k < n
clear_bit_le x k n h = ground (arith, h)

abbrev cleared : ℕ → Csr → Csr
cleared k c = put reg_irq_status (clear_bit (c.regs reg_irq_status) k) c

cleared-IsBounded : (k : ℕ) (c : Csr) → IsBounded c → IsBounded (cleared k c)
cleared-IsBounded k c b =
    put-IsBounded reg_irq_status (clear_bit (c.regs reg_irq_status) k) c
      (clear_bit_le (c.regs reg_irq_status) k (2 ^ 32) (b reg_irq_status)) b

cleared_one-IsBounded :
    (c : Csr)
    → IsBounded c
    → IsBounded (put reg_status (clear_bit (c.regs reg_status) 2) (cleared 1 c))
cleared_one-IsBounded c b =
    put-IsBounded reg_status (clear_bit (c.regs reg_status) 2) (cleared 1 c)
      (clear_bit_le (c.regs reg_status) 2 (2 ^ 3) (b reg_status)) (cleared-IsBounded 1 c b)

clear_irq-IsBounded : (v : ℕ) (c : Csr) → IsBounded c → IsBounded (clear_irq v c)
unfolding clear_irq
clear_irq-IsBounded v c b = elim (Bool-cases (test_bit v 0)) [
  | inl p ↦ elim (Bool-cases (test_bit v 1)) [
    | inl q ↦ rw (p, q) (cleared_one-IsBounded (cleared 0 c) (cleared-IsBounded 0 c b))
    | inr q ↦ rw (p, q) (cleared-IsBounded 0 c b)
  ]
  | inr p ↦ elim (Bool-cases (test_bit v 1)) [
    | inl q ↦ rw (p, q) (cleared_one-IsBounded c b)
    | inr q ↦ rw (p, q) b
  ]
]

write-IsBounded : (offset v : ℕ) (c : Csr) → IsBounded c → IsBounded (write offset v c)
unfolding write
write-IsBounded offset v c b j =
    let m3 : mask 3 v < 2 ^ 3 = omega arith in
    let m32 : mask 32 v < 2 ^ 32 = omega arith in
    ground (arith, m3, m32, b j, clear_irq-IsBounded v c b j)

hw_set_busy-IsBounded : (f : Bool) (c : Csr) → IsBounded c → IsBounded (hw_set_busy f c)
unfolding hw_set_busy
hw_set_busy-IsBounded true c b =
    put-IsBounded reg_status (set_bit (c.regs reg_status) 0) c
      (set_bit_status (c.regs reg_status) (b reg_status)).0 b
hw_set_busy-IsBounded false c b =
    put-IsBounded reg_status (clear_bit (c.regs reg_status) 0) c
      (clear_bit_le (c.regs reg_status) 0 (2 ^ 3) (b reg_status)) b

hw_set_ring_empty-IsBounded : (f : Bool) (c : Csr) → IsBounded c → IsBounded (hw_set_ring_empty f c)
unfolding hw_set_ring_empty
hw_set_ring_empty-IsBounded true c b =
    put-IsBounded reg_status (set_bit (c.regs reg_status) 1) c
      (set_bit_status (c.regs reg_status) (b reg_status)).1 b
hw_set_ring_empty-IsBounded false c b =
    put-IsBounded reg_status (clear_bit (c.regs reg_status) 1) c
      (clear_bit_le (c.regs reg_status) 1 (2 ^ 3) (b reg_status)) b

happen-IsBounded : (e : Event) (c : Csr) → IsBounded c → IsBounded (happen e c)
unfolding happen hw_set_head hw_set_error hw_set_empty_irq
happen-IsBounded (writes offset v) c b = write-IsBounded offset v c b
happen-IsBounded (sets_head head) c b = put-IsBounded reg_head (mask 32 head) c (omega arith) b
happen-IsBounded (sets_busy f) c b = hw_set_busy-IsBounded f c b
happen-IsBounded (sets_ring_empty f) c b = hw_set_ring_empty-IsBounded f c b
happen-IsBounded sets_error c b =
    let d = put reg_status (set_bit (c.regs reg_status) 2) c in
    put-IsBounded reg_irq_status (set_bit (c.regs reg_irq_status) 1) d
      (set_bit_word (c.regs reg_irq_status) (b reg_irq_status)).1
      (put-IsBounded reg_status (set_bit (c.regs reg_status) 2) c
        (set_bit_status (c.regs reg_status) (b reg_status)).2 b)
happen-IsBounded sets_empty_irq c b =
    put-IsBounded reg_irq_status (set_bit (c.regs reg_irq_status) 0) c
      (set_bit_word (c.regs reg_irq_status) (b reg_irq_status)).0 b

happen_all-IsBounded : (es : List Event) (c : Csr) → IsBounded c → IsBounded (happen_all es c)
unfolding happen_all
happen_all-IsBounded [] c b = b
happen_all-IsBounded (e ∷ es) c b = happen_all-IsBounded es (happen e c) (happen-IsBounded e c b)

-- Whatever software writes to a new register file and the engine reports, in any order, CTRL and
-- STATUS stay below 2 ^ 3 and every other register below 2 ^ 32.
pub registers_bounded :
    (es : List Event) (offset : ℕ) → (happen_all es new).regs offset < bound offset
registers_bounded es offset = happen_all-IsBounded es new (λ j. ground arith) offset
