-- ===== src/Host/DryRun.antt =====
-- firmware&local/serial_host.py: the self-check of dry_run on the memories of a scenario, with the
-- rows as `int` has read them.
use axi_dma_engine.Base.{
  ℕ, zero, suc, ◌+◌, ◌/◌, ◌<◌, ◌≡◌, refl, Bool, true, false, List, [], ◌∷◌, length, get_or, leb,
  ◌||◌, ◌==◌, if◌then◌else◌, arith, Bool-cases, inl, inr,
}
use axi_dma_engine.Base.Words.{mask, shr, bit}
use axi_dma_engine.Memory.Slices.{slice, overwrite}
use axi_dma_engine.AxiMaster.Burst.{masked}
use axi_dma_engine.Descriptor.{Descriptor}
use axi_dma_engine.Descriptor.RoundTrip
use axi_dma_engine.Golden.Copied.{AreWords, transferred_word}
use axi_dma_engine.Golden.{System, dir_bit, move}
use axi_dma_engine.Golden.Scenario.{Row, Outcome}
use axi_dma_engine.Golden.Move.{IsQuiet, Movable, beats, smem, move_refines, transferred}

-- `(src, dst, length, flags)` of `desc_rows`
pub record DescRow : Type 0 where
  pub src : ℕ
  pub dst : ℕ
  pub len : ℕ
  flags : ℕ

unfoldable desc_rows : List Row → List DescRow
desc_rows [] = []
desc_rows (Row.desc a b c d ∷ rows) =
    record { src = a; dst = b; len = mask 8 c; flags = d } ∷ desc_rows rows
desc_rows (row ∷ rows) = desc_rows rows

-- The loop over the beats of one descriptor, with `n` beats left: the words of `from` from `sw` on
-- against those of `into` from `dw` on. A beat out of range is skipped.
mismatches : ℕ → ℕ → ℕ → List ℕ → List ℕ → ℕ
mismatches zero sw dw from into = 0
mismatches (suc n) sw dw from into =
    let rest = mismatches n (sw + 1) (dw + 1) from into in
    if leb (length from) sw || leb (length into) dw
    then rest
    else (if get_or into dw 0 == get_or from sw 0 then rest else rest + 1)

-- One turn of the loop over `desc_rows`.
pub row_errors : DescRow → List ℕ → List ℕ → List ℕ → ℕ
row_errors d init_smem final_smem final_sram =
    if bit d.flags 0 == 1
    then mismatches d.len (shr d.src 2) (shr d.dst 2) init_smem final_sram
    else mismatches d.len (shr d.src 2) (shr d.dst 2) final_sram final_smem

unfoldable errors : List DescRow → List ℕ → List ℕ → List ℕ → ℕ
errors [] init_smem final_smem final_sram = 0
errors (d ∷ ds) init_smem final_smem final_sram =
    row_errors d init_smem final_smem final_sram + errors ds init_smem final_smem final_sram

-- `dry_run` on the outcome of the scenario
unfoldable dry_run : List Row → Outcome → Bool
dry_run rows o = errors (desc_rows rows) o.initial_smem o.final_smem o.final_sram == 0

mismatches_none :
    (n sw dw : ℕ) (from into : List ℕ)
    → ((j : ℕ) → j < n → get_or into (dw + j) 0 ≡ get_or from (sw + j) 0)
    → mismatches n sw dw from into ≡ 0
unfolding mismatches
mismatches_none zero sw dw from into h = refl
mismatches_none (suc n) sw dw from into h =
    let first : get_or into dw 0 ≡ get_or from sw 0 = ground (arith, h 0) in
    let ih = mismatches_none n (sw + 1) (dw + 1) from into (λ j p. ground (arith, h (j + 1))) in
    ground (arith, first, ih)

-- The row that a descriptor comes from.
abbrev pub row_of : Descriptor → DescRow
row_of d = record { src = d.w0; dst = d.w1; len = beats d; flags = d.w3 }

errors_of_transferred :
    (dir : Bool) (d : Descriptor) (s : System)
    → dir_bit d ≡ dir
    → AreWords (smem s)
    → AreWords s.sram.mem
    → Movable d s.ring.golden.mid.queue_length (length (smem s)) (length s.sram.mem)
    → let ml = transferred d (smem s) s.sram.mem in row_errors (row_of d) (smem s) ml.0 ml.1 ≡ 0
unfolding row_errors
errors_of_transferred true d s e hm hl can =
    let n = beats d in
    let sw = d.w0 / 4 in
    let dw = d.w1 / 4 in
    ground (
      arith,
      mismatches_none n sw dw (smem s) (overwrite dw (masked (slice sw n (smem s))) s.sram.mem)
          (λ j p. transferred_word n sw dw j (smem s) s.sram.mem hm (ground arith) p),
    )
errors_of_transferred false d s e hm hl can =
    let n = beats d in
    let sw = d.w0 / 4 in
    let dw = d.w1 / 4 in
    ground (
      arith,
      mismatches_none n sw dw s.sram.mem (overwrite dw (masked (slice sw n s.sram.mem)) (smem s))
          (λ j p. transferred_word n sw dw j s.sram.mem (smem s) hl (ground arith) p),
    )

-- On memories of 32-bit words, the self-check counts no error for a descriptor of 32-bit words that
-- `move` has just moved, in either direction, with nothing on its way before and the bursts inside
-- the memories and MID.
pub row_errors-move :
    (d : Descriptor) (s : System)
    → RoundTrip.IsValid d
    → IsQuiet s
    → Movable d s.ring.golden.mid.queue_length (length (smem s)) (length s.sram.mem)
    → AreWords (smem s)
    → AreWords s.sram.mem
    → let s' = (move d s).1 in row_errors (row_of d) (smem s) (smem s') s'.sram.mem ≡ 0
row_errors-move d s v q can hm hl = elim (Bool-cases (dir_bit d)) [
  | inl e ↦ rw (move_refines d s v q can) (errors_of_transferred true d s e hm hl can)
  | inr e ↦ rw (move_refines d s v q can) (errors_of_transferred false d s e hm hl can)
]
