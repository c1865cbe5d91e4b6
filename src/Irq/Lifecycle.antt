-- ===== src/Irq/Lifecycle.antt =====
-- source/irq.py with source/csr.py: an interrupt from its event to its acknowledgement.
use axi_dma_engine.Base.{ℕ, ◌%◌, ◌≡◌, true, not, ◌&&◌, ◌||◌, arith}
use axi_dma_engine.Base.Words.{test_bit, set_bit}
use axi_dma_engine.Csr
use axi_dma_engine.Csr.{Csr, reg_irq_status, reg_irq_clear, reg_status, reg_ctrl, read, write}
use axi_dma_engine.Csr.Registers.{irq_clear_bits, irq_clear_frame}
use axi_dma_engine.Irq.{is_irq_empty, is_irq_error, any_pending}

set_bit_zero :
    (x : ℕ) → (test_bit (set_bit x 0) 0 ≡ true) × (test_bit (set_bit x 0) 1 ≡ test_bit x 1)
set_bit_zero x = ground arith

set_bit_one :
    (x : ℕ) → (test_bit (set_bit x 1) 1 ≡ true) × (test_bit (set_bit x 1) 0 ≡ test_bit x 0)
set_bit_one x = ground arith

set_bit_two : (x : ℕ) → (test_bit (set_bit x 2) 2 ≡ true) × (set_bit x 2 % 4 ≡ x % 4)
set_bit_two x = ground arith

-- An error event makes the error interrupt pending exactly when CTRL.IRQ_EN is set, sets
-- STATUS.ERROR, and leaves the empty interrupt and the other status bits as they are.
hw_set_error-raises :
    (c : Csr)
    → let c' = Csr.hw_set_error c in
      (is_irq_error c' ≡ Csr.irq_en c)
      × (is_irq_empty c' ≡ is_irq_empty c)
      × (test_bit (read reg_status c') 2 ≡ true)
      × (read reg_status c' % 4 ≡ read reg_status c % 4)
unfolding Csr.hw_set_error is_irq_error is_irq_empty read Csr.irq_en
hw_set_error-raises c =
    ground (arith, set_bit_one (c.regs reg_irq_status), set_bit_two (c.regs reg_status))

-- An empty event makes the empty interrupt pending exactly when CTRL.ENABLE is set, and leaves the
-- error interrupt as it is.
hw_set_empty_irq-raises :
    (c : Csr)
    → let c' = Csr.hw_set_empty_irq c in
      (is_irq_empty c' ≡ Csr.is_enabled c) × (is_irq_error c' ≡ is_irq_error c)
unfolding Csr.hw_set_empty_irq is_irq_error is_irq_empty read Csr.is_enabled
hw_set_empty_irq-raises c = ground (arith, set_bit_zero (c.regs reg_irq_status))

-- Writing to IRQ_CLEAR acknowledges the interrupts whose bits are 1, and only those: what is
-- pending afterwards was pending before and has its bit at 0.
pub irq_clear-acknowledges :
    (v : ℕ) (c : Csr)
    → let c' = write reg_irq_clear v c in
      (is_irq_empty c' ≡ (is_irq_empty c && not (test_bit v 0)))
      × (is_irq_error c' ≡ (is_irq_error c && not (test_bit v 1)))
      × (any_pending c'
          ≡ (is_irq_empty c && not (test_bit v 0) || is_irq_error c && not (test_bit v 1)))
unfolding any_pending is_irq_empty is_irq_error Csr.is_enabled Csr.irq_en
irq_clear-acknowledges v c = ground (arith, irq_clear_bits v c, irq_clear_frame v reg_ctrl c)
