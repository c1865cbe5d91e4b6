-- ===== src/Csr/Registers.antt =====
-- source/csr.py and source/irq.py: what software reads back, and how an interrupt is raised and
-- cleared.
use axi_dma_engine.Base.{
  ℕ, ◌%◌, ◌/◌, ◌^◌, ◌≡◌, ◌≢◌, refl, Bool, true, false, not, ◌&&◌, ◌||◌, arith, ◌==◌, if◌then◌else◌,
  Bool-cases, inl, inr,
}
use axi_dma_engine.Base.Words.{test_bit, clear_bit}
use axi_dma_engine.Csr.{
  Csr, reg_head, reg_ctrl, reg_status, reg_irq_status, reg_irq_clear, read, write, clear_irq,
}

-- What a register keeps of a value that software writes to it.
abbrev kept : ℕ → ℕ → ℕ → ℕ
kept offset v old =
    if offset == reg_head || offset == reg_status
    then old
    else (if offset == reg_ctrl then v % 8 else v % 2 ^ 32)

-- After a write to any offset but IRQ_CLEAR every other offset reads as before, and the offset
-- itself reads its old value for HEAD and STATUS, the low 3 bits written for CTRL, and the low 32
-- bits written for any other offset.
pub read-write :
    (offset v j : ℕ) (c : Csr)
    → offset ≢ reg_irq_clear
    → read j (write offset v c) ≡ (if j == offset then kept offset v (read offset c) else read j c)
unfolding read write
read-write offset v j c h = ground arith

cleared : Bool → Bool → ℕ → ℕ
cleared e0 e1 x = let y = if e0 then clear_bit x 0 else x in if e1 then clear_bit y 1 else y

clear_bit_zero : (x : ℕ) → (test_bit (clear_bit x 0) 0 ≡ false) × (clear_bit x 0 / 2 ≡ x / 2)
clear_bit_zero x = ground arith

clear_bit_one :
    (x : ℕ)
    → (test_bit (clear_bit x 1) 1 ≡ false)
      × (clear_bit x 1 % 2 ≡ x % 2)
      × (clear_bit x 1 / 4 ≡ x / 4)
clear_bit_one x = ground arith

clear_bit_two :
    (x : ℕ)
    → (test_bit (clear_bit x 2) 2 ≡ false)
      × (clear_bit x 2 % 4 ≡ x % 4)
      × (clear_bit x 2 / 8 ≡ x / 8)
clear_bit_two x = ground arith

cleared_bits :
    (e0 e1 : Bool) (x : ℕ)
    → (test_bit (cleared e0 e1 x) 0 ≡ (test_bit x 0 && not e0))
      × (test_bit (cleared e0 e1 x) 1 ≡ (test_bit x 1 && not e1))
      × (cleared e0 e1 x / 4 ≡ x / 4)
unfolding cleared
cleared_bits true true x = ground (arith, clear_bit_zero x, clear_bit_one (clear_bit x 0))
cleared_bits true false x = ground (arith, clear_bit_zero x)
cleared_bits false true x = ground (arith, clear_bit_one x)
cleared_bits false false x = ground arith

irq_status_cleared :
    (v : ℕ) (c : Csr)
    → read reg_irq_status (write reg_irq_clear v c)
      ≡ cleared (test_bit v 0) (test_bit v 1) (read reg_irq_status c)
unfolding read write clear_irq cleared
irq_status_cleared v c = elim (Bool-cases (test_bit v 0)) [
  | inl p ↦ elim (Bool-cases (test_bit v 1)) [ inl q ↦ rw (p, q) refl | inr q ↦ rw (p, q) refl ]
  | inr p ↦ elim (Bool-cases (test_bit v 1)) [ inl q ↦ rw (p, q) refl | inr q ↦ rw (p, q) refl ]
]

status_cleared :
    (v : ℕ) (c : Csr)
    → read reg_status (write reg_irq_clear v c)
      ≡ (if test_bit v 1 then clear_bit (read reg_status c) 2 else read reg_status c)
unfolding read write
status_cleared v c = ground arith

error_cleared :
    (e : Bool) (x : ℕ)
    → let y = if e then clear_bit x 2 else x in
      (test_bit y 2 ≡ (test_bit x 2 && not e)) × (y % 4 ≡ x % 4) × (y / 8 ≡ x / 8)
error_cleared true x = ground (arith, clear_bit_two x)
error_cleared false x = ground arith

-- A write to IRQ_CLEAR clears exactly the sources whose bits are 1: bit 0 the empty interrupt,
-- bit 1 the error interrupt and with it STATUS.ERROR. The other bits of both registers stay.
pub irq_clear_bits :
    (v : ℕ) (c : Csr)
    → let c' = write reg_irq_clear v c in
      (test_bit (read reg_irq_status c') 0
        ≡ (test_bit (read reg_irq_status c) 0 && not (test_bit v 0)))
      × (test_bit (read reg_irq_status c') 1
          ≡ (test_bit (read reg_irq_status c) 1 && not (test_bit v 1)))
      × (read reg_irq_status c' / 4 ≡ read reg_irq_status c / 4)
      × (test_bit (read reg_status c') 2 ≡ (test_bit (read reg_status c) 2 && not (test_bit v 1)))
      × (read reg_status c' % 4 ≡ read reg_status c % 4)
      × (read reg_status c' / 8 ≡ read reg_status c / 8)
irq_clear_bits v c =
    let i = cleared_bits (test_bit v 0) (test_bit v 1) (read reg_irq_status c) in
    let e = error_cleared (test_bit v 1) (read reg_status c) in
    rw (irq_status_cleared v c, status_cleared v c) (i.0, i.1, i.2, e.0, e.1, e.2)

-- Every other register keeps its value under a write to IRQ_CLEAR, IRQ_CLEAR itself included.
pub irq_clear_frame :
    (v j : ℕ) (c : Csr)
    → j ≢ reg_status
    → j ≢ reg_irq_status
    → read j (write reg_irq_clear v c) ≡ read j c
unfolding read write
irq_clear_frame v j c h k = ground arith
