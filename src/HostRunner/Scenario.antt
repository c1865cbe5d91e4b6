-- ===== src/HostRunner/Scenario.antt =====
-- firmware&local/host_runner.py behind sim/run_golden.py: a scenario's stimulus, written to
-- stim.txt and loaded into the far side.
use mathlib.Core.Path.{ap₂}
use native.Mathlib.Nat.{mod-eq_of_lt}
use axi_dma_engine.Memory.{bram_size}
use axi_dma_engine.Text.{Chars, AllOf, in_line}
use axi_dma_engine.Golden.{smem_words}
use axi_dma_engine.Golden.Files.{Artifacts, artifacts, write_hex32, stim_file}
use axi_dma_engine.Golden.Table.{read_rows, main, run_table-run_scenario}
use axi_dma_engine.Host.Files.{load_hex32}
use axi_dma_engine.Host.Files.RoundTrip.{load_hex32-write_hex32}
use axi_dma_engine.Host.{Serial}
use axi_dma_engine.Base.{
  ℕ, ◌+◌, suc, map, get_or, Result, err, ◌*◌, ◌^◌, ◌≤◌, ◌<◌, ◌≡◌, refl, ap, ◌∙◌, List, [], ◌∷◌,
  ◌++◌, arith, ok,
}
use axi_dma_engine.Base.Words.{mask}
use axi_dma_engine.Csr
use axi_dma_engine.Golden.{System}
use axi_dma_engine.Golden.Scenario.{
  Row, StimLine, Outcome, apply_row, apply_rows, apply_desc, run_scenario,
}
use axi_dma_engine.Golden.Load.{apply_rows-cons_inv}
use axi_dma_engine.Host.Follows.{Follows, Synced, IsFine, AreFine}
use axi_dma_engine.Host.Mirror.{desc_row_inv, apply_row-Synced, built-Synced}
use axi_dma_engine.Host.Transfers.{Images, Transfer, transfers, no_images, note_lines}
use axi_dma_engine.HostRunner.Load.{AreSmall, held, parse_stimulus-loads}
use axi_dma_engine.HostRunner.FarSide.{IsDevice}
use axi_dma_engine.HostRunner.Within.{run_scenario-AreInside}
use axi_dma_engine.HostRunner.Files.{parse_stimulus_file}
use axi_dma_engine.HostRunner.Files.RoundTrip.{parse_stimulus_file-stim_file}
use axi_dma_engine.Host.Expect.{set_up_inv, run_scenario-Follows}
use axi_dma_engine.Golden.Setup.{built}
use axi_dma_engine.Viz.{Region}

AreSmall-append : (xs ys : List StimLine) → AreSmall xs → AreSmall ys → AreSmall (xs ++ ys)
AreSmall-append [] ys h k = k
AreSmall-append (x ∷ xs) ys h k = (h.0, AreSmall-append xs ys h.1 k)

module _ (m l : ℕ) (hm : m ≤ 2 ^ 30) (hl : l ≤ 2 ^ 30) where
  smem_row :
      (w x : ℕ) (s t : System) (lines : List StimLine)
      → apply_row m l (Row.smem w x) s ≡ (ok lines, t)
      → AreSmall lines
  unfolding apply_row
  smem_row w x s t lines e =
      let inv : (w < m) × (lines ≡ StimLine.sysmem_write (w * 4) (mask 32 x) ∷ []) =
        ground (arith, e) in
      rw (inv.1) ((omega (arith, inv.0), omega arith), tt)

  sram_row :
      (w x : ℕ) (s t : System) (lines : List StimLine)
      → apply_row m l (Row.sram w x) s ≡ (ok lines, t)
      → AreSmall lines
  unfolding apply_row
  sram_row w x s t lines e =
      let inv : (w < l) × (lines ≡ StimLine.sram_write (w * 4) (mask 32 x) ∷ []) =
        ground (arith, e) in
      rw (inv.1) ((omega (arith, inv.0), omega arith), tt)

  desc_row :
      (i : Images) (a b c d : ℕ) (s t : System) (lines : List StimLine)
      → Synced m l i s
      → Synced m l (note_lines lines i) t
      → apply_desc a b c d s ≡ (ok lines, t)
      → AreSmall lines
  desc_row i a b c d s t lines v after e =
      let (e1, e2, fits) = desc_row_inv m l i a b c d s t lines v e in
      let tail = after.ring_part.tail_word in
      rw e2 (
        (omega (arith, fits), omega arith),
        (
          (omega (arith, fits), omega arith),
          (
            (omega (arith, fits), omega arith),
            ((omega (arith, fits), omega arith), ((omega arith, tail), tt)),
          ),
        ),
      )

  row-AreSmall :
      (row : Row) (i : Images) (s t : System) (lines : List StimLine)
      → IsFine row
      → Synced m l i s
      → Synced m l (note_lines lines i) t
      → apply_row m l row s ≡ (ok lines, t)
      → AreSmall lines
  unfolding apply_row Csr.read Csr.write
  row-AreSmall Row.blank i s t lines h v k e = ground (arith, e)
  row-AreSmall Row.enable i s t lines h v k e = ground (arith, e)
  row-AreSmall (Row.smem w x) i s t lines h v k e = smem_row w x s t lines e
  row-AreSmall (Row.sram w x) i s t lines h v k e = sram_row w x s t lines e
  row-AreSmall (Row.csr_baseaddr a) i s t lines h v k e = ground (arith, e)
  row-AreSmall (Row.csr_ringlen n) i s t lines h v k e = ground (arith, e)
  row-AreSmall (Row.desc a b c d) i s t lines h v k e = desc_row i a b c d s t lines v k e
  row-AreSmall Row.other i s t lines h v k e = absurd (ground (arith, e))

  rows-AreSmall :
      (rows : List Row) (i : Images) (s t : System) (lines : List StimLine)
      → AreFine rows
      → Synced m l i s
      → apply_rows m l rows s ≡ (ok lines, t)
      → AreSmall lines
  unfolding apply_rows
  rows-AreSmall [] i s t lines h v e = ground (arith, e)
  rows-AreSmall (row ∷ rows) i s t lines h v e =
      let (s1, here, rest, e1, e2, e3) = apply_rows-cons_inv m l row rows s t lines e in
      let v1 = apply_row-Synced m l row i s s1 here h.0 v e1 in
      rw e3 (
        AreSmall-append here rest (row-AreSmall row i s s1 here h.0 v v1 e1)
          (rows-AreSmall rows (note_lines here i) s1 t rest h.1 v1 e2))

-- Every number in the stimulus of a scenario that has returned fits its field of 32 bits, the
-- addresses of the registers too, when the memories have at most 2 ^ 30 words and the ring is placed
-- at a whole word with at most 2 ^ 28 slots.
pub run_scenario-AreSmall :
    (m l : ℕ) (rows : List Row) (o : Outcome)
    → m ≤ 2 ^ 30
    → l ≤ 2 ^ 30
    → AreFine rows
    → run_scenario rows m l ≡ ok o
    → AreSmall o.stim_lines
run_scenario-AreSmall m l rows o hm hl fine e =
    let (t, ran, _, _) = set_up_inv m l rows o e in
    rows-AreSmall m l hm hl rows no_images (built m l) t o.stim_lines fine (built-Synced m l) ran

map-mask : (ws : List ℕ) → ((k : ℕ) → get_or ws k 0 < 2 ^ 32) → map (mask 32) ws ≡ ws
map-mask [] h = refl
map-mask (w ∷ ws) h = ap₂ (λ x xs. x ∷ xs) (mod-eq_of_lt (h 0)) (map-mask ws (λ k. h (suc k)))

-- What the far side holds beside the words of the two files.
pub record Holds (n : ℕ) (words : ℕ → ℕ) (file : Chars) : Type 0 where
  content : List ℕ
  loads : load_hex32 file ≡ ok content
  same : Follows n words content

Follows-Holds :
    (n : ℕ) (words : ℕ → ℕ) (ws : List ℕ) → Follows n words ws → Holds n words (write_hex32 ws)
Follows-Holds n words ws v = record {
  content = ws;
  loads = load_hex32-write_hex32 ws ∙ ap ok (map-mask ws v.words);
  same = v;
}

main_inv :
    (source : Chars) (table : List (List Chars)) (rows : List Row) (files : Artifacts)
    (out : Result Outcome)
    → read_rows table ≡ ok rows
    → run_scenario rows smem_words bram_size ≡ out
    → main source table ≡ ok files
    → (o : Outcome) × (out ≡ ok o) × (files ≡ artifacts source o)
unfolding main
main_inv source table rows files (ok o) h q e =
    let run = run_table-run_scenario table rows smem_words bram_size h ∙ q in
    (o, refl, ground (arith, run, e))
main_inv source table rows files (err x) h q e =
    let run = run_table-run_scenario table rows smem_words bram_size h ∙ q in
    absurd (ground (arith, run, e))

-- The far side after the load: ready, with the words of the files of the initial memories.
pub record IsLoaded {P : Type 0} (arriving : P → List ℕ) (memory : P → Region → ℕ → ℕ)
    (files : Artifacts) (out : Result (List Transfer) × P) : Type 0 where
  listed : List Transfer
  returned : out.0 ≡ ok listed
  ready : arriving out.1 ≡ []
  smem_file : Holds smem_words (memory out.1 Region.smem) files.initial_smem
  sram_file : Holds bram_size (memory out.1 Region.sram) files.initial_sram

module _ {P : Type 0} (ser : Serial P) (arriving : P → List ℕ) (crc32 : List ℕ → ℕ)
    (memory : P → Region → ℕ → ℕ) (d : IsDevice ser arriving crc32 memory) (reads : ℕ)
    (enough : d.longest + 4 ≤ reads) (smem_in : smem_words ≤ d.words Region.smem)
    (sram_in : bram_size ≤ d.words Region.sram) where
  load_lem :
      (rows : List Row) (o : Outcome) (source : Chars) (p : P)
      → AreFine rows
      → run_scenario rows smem_words bram_size ≡ ok o
      → AllOf in_line source
      → arriving p ≡ []
      → memory p ≡ held no_images
      → IsLoaded arriving memory
          (artifacts source o)
          (parse_stimulus_file ser reads (stim_file source o.stim_lines) p)
  unfolding artifacts
  load_lem rows o source p fine e one_line quiet zeros =
      let small =
        run_scenario-AreSmall smem_words bram_size rows o (omega arith) (omega arith) fine e in
      let inside =
        run_scenario-AreInside smem_words bram_size d.words rows o smem_in sram_in fine e in
      let follows = run_scenario-Follows smem_words bram_size rows o fine e in
      let a =
        parse_stimulus-loads ser arriving crc32 memory d reads enough o.stim_lines p small inside
          quiet zeros in
      let same = parse_stimulus_file-stim_file ser reads source o.stim_lines one_line in
      rw same (record {
        listed = transfers (note_lines o.stim_lines no_images);
        returned = a.0;
        ready = a.1;
        smem_file = rw (a.2) (Follows-Holds smem_words _ o.initial_smem follows.0);
        sram_file = rw (a.2) (Follows-Holds bram_size _ o.initial_sram follows.1);
      })

  -- From a table whose rows can be read and place the ring at a whole word with at most 2 ^ 28
  -- slots, for which main returned its files with a name in one line: against a far side that
  -- serves the commands, with memories at least as large as the scenario's, which starts with zeros
  -- and is ready, and with reads for its longest text and a sync word, parse_stimulus on the file
  -- stim.txt returns a list of transfers and leaves the far side ready, holding the words that
  -- _load_hex32 reads from the files of the two initial memories.
  pub main-IsLoaded :
      (table : List (List Chars)) (rows : List Row) (source : Chars) (files : Artifacts) (p : P)
      → read_rows table ≡ ok rows
      → AreFine rows
      → main source table ≡ ok files
      → AllOf in_line source
      → arriving p ≡ []
      → memory p ≡ held no_images
      → IsLoaded arriving memory files (parse_stimulus_file ser reads files.stim p)
  unfolding artifacts
  main-IsLoaded table rows source files p h fine e one_line quiet zeros =
      let (o, e1, e2) =
        main_inv source table rows files (run_scenario rows smem_words bram_size) h refl e in
      rw e2 (load_lem rows o source p fine e1 one_line quiet zeros)
