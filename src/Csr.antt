-- ===== src/Csr.antt =====
-- source/csr.py: the register file. `_regs` is a dictionary with a default of 0, so a function from
-- offsets to values; the code indexes it directly only at the registers that `__init__` enters.
pub mod Registers
pub mod Width
use axi_dma_engine.Base.{ℕ, ◌+◌, Bool, true, false, ◌||◌, ◌==◌, if◌then◌else◌}
use axi_dma_engine.Base.Words.{mask, test_bit, set_bit, clear_bit}

abbrev pub reg_baseaddr : ℕ
reg_baseaddr = 0x00

abbrev pub reg_ringlen : ℕ
reg_ringlen = 0x04

abbrev pub reg_head : ℕ
reg_head = 0x08

abbrev pub reg_tail : ℕ
reg_tail = 0x0c

abbrev pub reg_ctrl : ℕ
reg_ctrl = 0x10

abbrev pub reg_status : ℕ
reg_status = 0x14

abbrev pub reg_irq_status : ℕ
reg_irq_status = 0x18

abbrev pub reg_irq_clear : ℕ
reg_irq_clear = 0x2c

abbrev pub enable_bit : ℕ
enable_bit = 0

abbrev reset_bit : ℕ
reset_bit = 1

abbrev pub irq_en_bit : ℕ
irq_en_bit = 2

abbrev busy_bit : ℕ
busy_bit = 0

abbrev ring_empty_bit : ℕ
ring_empty_bit = 1

abbrev error_bit : ℕ
error_bit = 2

abbrev pub irq_empty_bit : ℕ
irq_empty_bit = 0

abbrev pub irq_error_bit : ℕ
irq_error_bit = 1

pub record Csr : Type 0 where
  pub regs : ℕ → ℕ

-- `CSR()`
abbrev pub new : Csr
new = record { regs = λ offset. 0 }

-- `self._regs[offset] = v`
abbrev pub put : ℕ → ℕ → Csr → Csr
put offset v c = record { regs = λ j. if j == offset then v else c.regs j }

-- `self._regs[offset] = f(self._regs[offset])`
abbrev update : ℕ → (ℕ → ℕ) → Csr → Csr
update offset f c = put offset (f (c.regs offset)) c

pub clear_irq : ℕ → Csr → Csr
clear_irq v c =
    let c1 =
      if test_bit v irq_empty_bit
      then update reg_irq_status (λ x. clear_bit x irq_empty_bit) c
      else c in
    if test_bit v irq_error_bit
    then update reg_status (λ x. clear_bit x error_bit)
        (update reg_irq_status (λ x. clear_bit x irq_error_bit) c1)
    else c1

unfoldable pub write : ℕ → ℕ → Csr → Csr
unfolding clear_irq
write offset v c =
    if offset == reg_head || offset == reg_status
    then c
    else (if offset == reg_irq_clear
        then clear_irq v c
        else (if offset == reg_ctrl then put reg_ctrl (mask 3 v) c else put offset (mask 32 v) c))

unfoldable pub read : ℕ → Csr → ℕ
read offset c = c.regs offset

unfoldable pub hw_set_head : ℕ → Csr → Csr
hw_set_head head c = put reg_head (mask 32 head) c

unfoldable hw_set_busy : Bool → Csr → Csr
hw_set_busy true c = update reg_status (λ x. set_bit x busy_bit) c
hw_set_busy false c = update reg_status (λ x. clear_bit x busy_bit) c

unfoldable hw_set_ring_empty : Bool → Csr → Csr
hw_set_ring_empty true c = update reg_status (λ x. set_bit x ring_empty_bit) c
hw_set_ring_empty false c = update reg_status (λ x. clear_bit x ring_empty_bit) c

unfoldable pub hw_set_error : Csr → Csr
hw_set_error c =
    update reg_irq_status (λ x. set_bit x irq_error_bit)
      (update reg_status (λ x. set_bit x error_bit) c)

unfoldable pub hw_set_empty_irq : Csr → Csr
hw_set_empty_irq c = update reg_irq_status (λ x. set_bit x irq_empty_bit) c

unfoldable pub is_enabled : Csr → Bool
is_enabled c = test_bit (c.regs reg_ctrl) enable_bit

unfoldable is_reset : Csr → Bool
is_reset c = test_bit (c.regs reg_ctrl) reset_bit

unfoldable pub irq_en : Csr → Bool
irq_en c = test_bit (c.regs reg_ctrl) irq_en_bit

unfoldable pub baseaddr : Csr → ℕ
baseaddr c = c.regs reg_baseaddr

unfoldable pub ringlen : Csr → ℕ
ringlen c = c.regs reg_ringlen

unfoldable pub tail : Csr → ℕ
tail c = c.regs reg_tail
