-- ===== src/Irq.antt =====
-- source/irq.py: which interrupts are pending, read from the register file.
pub mod Lifecycle
use axi_dma_engine.Base.{Bool, ◌&&◌, ◌||◌, ◌==◌}
use axi_dma_engine.Base.Words.{test_bit}
use axi_dma_engine.Csr
use axi_dma_engine.Csr.{Csr}

pub is_irq_empty : Csr → Bool
unfolding Csr.read Csr.is_enabled
is_irq_empty c = test_bit (Csr.read Csr.reg_irq_status c) Csr.irq_empty_bit && Csr.is_enabled c

pub is_irq_error : Csr → Bool
unfolding Csr.read Csr.irq_en
is_irq_error c = test_bit (Csr.read Csr.reg_irq_status c) Csr.irq_error_bit && Csr.irq_en c

pub any_pending : Csr → Bool
unfolding is_irq_empty is_irq_error
any_pending c = is_irq_empty c || is_irq_error c
