-- ===== src/Host/Session.antt =====
-- firmware&local/serial_host.py: a whole run against the board, behind the files that it loads. The
-- words of the files, the call that sends the stimulus and zlib's checksum are arguments.
use axi_dma_engine.Base.{
  ℕ, ◌+◌, ◌-◌, ◌*◌, Bool, true, false, ◌&&◌, Option, none, some, List, [], ◌∷◌, take, drop, ltb,
  ◌==◌, if◌then◌else◌, Result, Error, ok, err, Action, pure, ◌>>=◌, ◌>>◌, ack_timeout, ack_cut,
  nack, read_timeout,
}
use axi_dma_engine.Host.{
  Serial, Bases, csr_read, smem_write, sram_write, read_smem, read_sram, run_dma, smem_crc,
  sram_crc,
}

-- `except (RuntimeError, TimeoutError)`, and `except RuntimeError`
abbrev link_error : Error → Bool
link_error ack_timeout = true
link_error ack_cut = true
link_error nack = true
link_error read_timeout = true
link_error e = false

abbrev runtime_error : Error → Bool
runtime_error nack = true
runtime_error e = false

-- A `try` whose `except` gives `a`.
abbrev recover : {S A : Type 0} → (Error → Bool) → A → Result A × S → Result A × S
recover caught a (ok x, s) = (ok x, s)
recover caught a (err e, s) = if caught e then (ok a, s) else (err e, s)

abbrev try_or : {S A : Type 0} → (Error → Bool) → A → Action S A → Action S A
try_or caught a m s = recover caught a (m s)

-- The indices from `i` on where two lists differ, as far as both reach, and where one is not 0.
unfoldable pub changed : ℕ → List ℕ → List ℕ → List ℕ
changed i (a ∷ xs) (b ∷ ys) = let rest = changed (i + 1) xs ys in if a == b then rest else i ∷ rest
changed i _ _ = []

unfoldable pub nonzero : ℕ → List ℕ → List ℕ
nonzero i [] = []
nonzero i (w ∷ ws) = let rest = nonzero (i + 1) ws in if w == 0 then rest else i ∷ rest

-- `min` and `max` of a list with `x` in front
unfoldable pub least : ℕ → List ℕ → ℕ
least x [] = x
least x (y ∷ ys) = let m = least y ys in if ltb x m then x else m

unfoldable pub greatest : ℕ → List ℕ → ℕ
greatest x [] = x
greatest x (y ∷ ys) = let m = greatest y ys in if ltb m x then x else m

module _ {P : Type 0} (ser : Serial P) (bases : Bases) (polls : ℕ) where
  -- `dump_csr_status`: STATUS, HEAD and TAIL, as far as they could be read
  unfoldable pub dump_csr_status : Action P (Option (ℕ × ℕ × ℕ))
  dump_csr_status = try_or link_error none (do
    status ← csr_read ser bases polls 0x14
    irq_status ← csr_read ser bases polls 0x18
    head ← csr_read ser bases polls 0x08
    tail ← csr_read ser bases polls 0x0c
    pure (some (status, head, tail)))

  -- The loops that write every word of a memory, from word `i` on.
  unfoldable pub fill_smem : ℕ → List ℕ → Action P (Unit {0})
  fill_smem i [] = pure tt
  fill_smem i (w ∷ ws) = do smem_write ser bases polls (i * 4) w; fill_smem (i + 1) ws

  unfoldable pub fill_sram : ℕ → List ℕ → Action P (Unit {0})
  fill_sram i [] = pure tt
  fill_sram i (w ∷ ws) = do sram_write ser bases polls (i * 4) w; fill_sram (i + 1) ws

  -- The loops that print single words.
  unfoldable pub show_smem : List ℕ → Action P (Unit {0})
  show_smem [] = pure tt
  show_smem (off ∷ offs) = do w ← read_smem ser bases polls off; show_smem offs

  unfoldable pub show_sram : List ℕ → Action P (Unit {0})
  show_sram [] = pure tt
  show_sram (off ∷ offs) = do w ← read_sram ser bases polls off; show_sram offs

  module _ (crc32 : List ℕ → ℕ) where
    -- The checks of the changed words of the SRAM and of the words of the system memory that are
    -- not 0, given their indices.
    unfoldable pub check_sram : List ℕ → List ℕ → Action P Bool
    check_sram golden [] = pure false
    check_sram golden (i ∷ is) = do
      let lo = least i is
      let hi = greatest i is + 1
      got ← sram_crc ser bases polls (lo * 4) ((hi - lo) * 4)
      pure (got == crc32 (take (hi - lo) (drop lo golden)))

    unfoldable pub check_smem : List ℕ → List ℕ → Action P Bool
    check_smem words [] = pure true
    check_smem words (i ∷ is) = do
      let lo = least i is
      let hi = greatest i is + 1
      got ← smem_crc ser bases polls (lo * 4) ((hi - lo) * 4)
      pure (got == crc32 (take (hi - lo) (drop lo words)))

    -- What follows an acknowledged RUN_DMA; the result is `all_pass`.
    unfoldable pub check_board : List ℕ → List ℕ → List ℕ → Action P Bool
    check_board init_smem init_sram golden_sram = do
      show_sram (0x100 ∷ 0x104 ∷ 0x108 ∷ 0x10c ∷ [])
      show_smem (0x100 ∷ 0x104 ∷ 0x108 ∷ 0x10c ∷ [])
      show_smem (0x000 ∷ 0x004 ∷ 0x008 ∷ 0x00c ∷ [])
      sram_ok ← check_sram golden_sram (changed 0 init_sram golden_sram)
      smem_ok ← check_smem init_smem (nonzero 0 init_smem)
      pure (sram_ok && smem_ok)

    -- The part of `main` between connecting and closing, behind the files that it loads there and
    -- with the call of `send_stim` as `send` and the reads of `run_dma` as `dma_polls`; the result is whether it exits with 0.
    unfoldable pub validate : ℕ → Action P ℕ → List ℕ → List ℕ → List ℕ → Action P Bool
    validate dma_polls send init_smem init_sram golden_sram = try_or link_error false (do
      fill_smem 0 init_smem
      fill_sram 0 init_sram
      n_writes ← send
      show_smem (0x000 ∷ 0x004 ∷ 0x008 ∷ 0x00c ∷ 0x100 ∷ 0x104 ∷ 0x108 ∷ 0x10c ∷ [])
      dma_ok ← try_or runtime_error false (run_dma ser bases polls dma_polls >> pure true)
      snapshot ← dump_csr_status
      if dma_ok then check_board init_smem init_sram golden_sram else pure false)

-- `dry_run_all` on what each `dry_run` returned or raised: the numbers of passed and failed ones
unfoldable dry_run_all : List (Result Bool) → ℕ × ℕ
dry_run_all [] = (0, 0)
dry_run_all (ok true ∷ rs) = let rest = dry_run_all rs in (rest.0 + 1, rest.1)
dry_run_all (ok false ∷ rs) = let rest = dry_run_all rs in (rest.0, rest.1 + 1)
dry_run_all (err e ∷ rs) = let rest = dry_run_all rs in (rest.0, rest.1 + 1)
