-- ===== src/AxiLite.antt =====
-- source/axi-lite.py: the register file behind a port that counts its transactions.
use axi_dma_engine.Base.{ℕ, ◌+◌}
use axi_dma_engine.Csr
use axi_dma_engine.Csr.{Csr}

pub record AxiLite : Type 0 where
  pub csr : Csr
  read_transaction_count : ℕ
  write_transaction_count : ℕ

-- `AxiLite(csr)`
abbrev pub new : Csr → AxiLite
new c = record { csr = c; read_transaction_count = 0; write_transaction_count = 0 }

unfoldable pub read : ℕ → AxiLite → ℕ × AxiLite
unfolding Csr.read
read addr a =
    (Csr.read addr a.csr, record a { read_transaction_count = a.read_transaction_count + 1 })

unfoldable pub write : ℕ → ℕ → AxiLite → AxiLite
unfolding Csr.write
write addr v a = record a {
  write_transaction_count = a.write_transaction_count + 1;
  csr = Csr.write addr v a.csr;
}
