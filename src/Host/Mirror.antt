-- ===== src/Host/Mirror.antt =====
-- firmware&local/host_runner.py on the lines that sim/run_golden.py's rows append: the dictionaries
-- of parse_stimulus beside the memories and the registers, row by row.
use native.Mathlib.Nat.{mod-lt, mod-eq_of_lt}
use axi_dma_engine.Base.{
  ℕ, zero, suc, ◌+◌, ◌*◌, ◌%◌, ◌^◌, ◌≤◌, ◌<◌, ◌≡◌, ◌≢◌, inl, inr, refl, ap, sym, ◌∙◌, List, [], ◌∷◌,
  ◌++◌, set, get_or, replicate, length-replicate, arith, ok, Result, err,
}
use axi_dma_engine.Base.Words.{mask}
use axi_dma_engine.Csr
use axi_dma_engine.Descriptor
use axi_dma_engine.Descriptor.{Descriptor}
use axi_dma_engine.RingManager
use axi_dma_engine.RingManager.Enqueue.{len_of, word_at, put_desc, enqueue_ok}
use axi_dma_engine.Golden.{System}
use axi_dma_engine.Golden.Move.{smem}
use axi_dma_engine.Golden.Scenario.{Row, StimLine, apply_row, apply_rows, apply_desc}
use axi_dma_engine.Golden.Setup.{desc_lines, built}
use axi_dma_engine.Golden.Load.{apply_rows-cons_inv}
use axi_dma_engine.Host.Transfers.{Images, no_images, put, note_line, note_lines}
use axi_dma_engine.Host.Follows.{
  Follows, put-Follows, FollowsRing, Synced, IsFine, AreFine, apply_smem, apply_sram, apply_base,
  apply_len, apply_rest,
}

-- The lines of a `desc` row, from the ring before and after its enqueue.
abbrev lines_of : Descriptor → System → RingManager.RingManager → List StimLine
lines_of d s u =
    desc_lines
      (mask 32 (s.ring.csr.regs Csr.reg_baseaddr)
        + s.ring.csr.regs Csr.reg_tail % len_of s.ring * 16)
      (u.csr.regs Csr.reg_tail) d

abbrev desc_of : ℕ → ℕ → ℕ → ℕ → Descriptor
desc_of a b c d = record { w0 = mask 32 a; w1 = mask 32 b; w2 = mask 32 c; w3 = mask 32 d }

masked :
    (a b c d : ℕ) → Descriptor.new (mask 32 a) (mask 32 b) (mask 32 c) (mask 32 d) ≡ desc_of a b c d
unfolding Descriptor.new
masked a b c d =
    let twice : (x : ℕ) → x % 2 ^ 32 % 2 ^ 32 ≡ x % 2 ^ 32 = λ x. mod-eq_of_lt (omega arith) in
    rw (twice a, twice b, twice c, twice d) refl

desc_inv :
    (a b c d : ℕ) (s t : System) (lines : List StimLine)
    (out : Result Descriptor × RingManager.RingManager)
    → RingManager.enqueue (Descriptor.new (mask 32 a) (mask 32 b) (mask 32 c) (mask 32 d)) s.ring
      ≡ out
    → apply_desc a b c d s ≡ (ok lines, t)
    → (d' : Descriptor) × (out.0 ≡ ok d')
      × (t ≡ record s { ring = out.1 })
      × (lines ≡ lines_of (desc_of a b c d) s out.1)
unfolding apply_desc Csr.ringlen Csr.baseaddr Csr.read
desc_inv a b c d s t lines (ok d', u) q e = (d', refl, ground (arith, q, e), ground (arith, q, e))
desc_inv a b c d s t lines (err x, u) q e = absurd (ground (arith, q, e))

-- The address of the tail's slot, as the row computes it, is that of the enqueue's word.
slot_lem :
    (w : ℕ → ℕ) (s : System)
    → FollowsRing w s.ring.csr
    → len_of s.ring ≢ 0
    → mask 32 (s.ring.csr.regs Csr.reg_baseaddr) + s.ring.csr.regs Csr.reg_tail % len_of s.ring * 16
      ≡ word_at s.ring * 4
slot_lem w s v h =
    let n = len_of s.ring in
    let pos : 0 < n = omega arith in
    let short : n ≤ 2 ^ 28 = omega (arith, v.len_in) in
    let t = s.ring.csr.regs Csr.reg_tail in
    let same_tail : t % 2 ^ 32 ≡ t = mod-eq_of_lt v.tail_word in
    let below : t % n < n = mod-lt t pos in
    let twice : t % n % n ≡ t % n = mod-eq_of_lt below in
    rw (same_tail, twice) (omega (arith, v.aligned, v.base_word))

module _ (m l : ℕ) (i : Images) (s : System) (v : Synced m l i s) where
  desc_step :
      (d : Descriptor) (a : ℕ)
      → d.w0 < 2 ^ 32
      → d.w1 < 2 ^ 32
      → d.w2 < 2 ^ 32
      → d.w3 < 2 ^ 32
      → word_at s.ring + 4 ≤ m
      → a ≡ word_at s.ring * 4
      → Synced m l
          (note_lines (desc_lines a ((put_desc d s.ring).csr.regs Csr.reg_tail) d) i)
          (record s { ring = put_desc d s.ring })
  unfolding note_lines note_line
  desc_step d a h0 h1 h2 h3 h e =
      let w = word_at s.ring in
      let m1 = set (smem s) w d.w0 in
      let m2 = set m1 (w + 1) d.w1 in
      let m3 = set m2 (w + 2) d.w2 in
      let i1 = put (a + 0) d.w0 i.sysmem_image in
      let i2 = put (a + 4) d.w1 i1 in
      let i3 = put (a + 8) d.w2 i2 in
      let p1 =
        put-Follows m i.sysmem_image (smem s) (a + 0) w d.w0 (omega arith) (omega arith) h0
          v.smem_part in
      let p2 = put-Follows m i1 m1 (a + 4) (w + 1) d.w1 (omega arith) (omega arith) h1 p1 in
      let p3 = put-Follows m i2 m2 (a + 8) (w + 2) d.w2 (omega arith) (omega arith) h2 p2 in
      let p4 = put-Follows m i3 m3 (a + 12) (w + 3) d.w3 (omega arith) (omega arith) h3 p3 in
      let r = v.ring_part in
      record {
        sized = v.sized;
        smem_part = p4;
        sram_part = v.sram_part;
        ring_part = record {
          same_base = r.same_base;
          same_tail = refl;
          tail_word = omega arith;
          aligned = r.aligned;
          base_word = r.base_word;
          len_in = r.len_in;
        };
      }

module _ (m l : ℕ) where
  -- What a `desc` row that returned has done, and the lines that it appended.
  pub desc_row_inv :
      (i : Images) (a b c d : ℕ) (s t : System) (lines : List StimLine)
      → Synced m l i s
      → apply_desc a b c d s ≡ (ok lines, t)
      → (t ≡ record s { ring = put_desc (desc_of a b c d) s.ring })
        × (lines ≡ desc_lines (word_at s.ring * 4) (t.ring.csr.regs Csr.reg_tail) (desc_of a b c d))
        × (word_at s.ring + 4 ≤ m)
  unfolding Descriptor.new
  desc_row_inv i a b c d s t lines v e =
      let D = desc_of a b c d in
      let out = RingManager.enqueue D s.ring in
      let (d', e1, e2, e3) =
        desc_inv a b c d s t lines out (ap (λ k. RingManager.enqueue k s.ring) (masked a b c d))
          e in
      let (len, fits, e4) =
        enqueue_ok D d' s.ring out.1 (v.sized ∙ sym v.smem_part.size) (ap (λ k. (k, out.1)) e1) in
      rw (e3, e2, e4)
        (
          refl,
          ap (λ k. desc_lines k ((put_desc D s.ring).csr.regs Csr.reg_tail) D)
              (slot_lem i.csr_writes s v.ring_part len),
          omega (arith, fits, v.smem_part.size),
        )

  apply_desc_row :
      (i : Images) (a b c d : ℕ) (s t : System) (lines : List StimLine)
      → Synced m l i s
      → apply_desc a b c d s ≡ (ok lines, t)
      → Synced m l (note_lines lines i) t
  apply_desc_row i a b c d s t lines v e =
      let (e1, e2, fits) = desc_row_inv i a b c d s t lines v e in
      let step =
        desc_step m l i s v (desc_of a b c d) (word_at s.ring * 4) (omega arith) (omega arith)
          (omega arith) (omega arith) fits refl in
      rw (e2, e1) step

  pub apply_row-Synced :
      (row : Row) (i : Images) (s t : System) (lines : List StimLine)
      → IsFine row
      → Synced m l i s
      → apply_row m l row s ≡ (ok lines, t)
      → Synced m l (note_lines lines i) t
  unfolding apply_row
  apply_row-Synced Row.blank i s t lines h v e = apply_rest m l i s t lines v Row.blank (inl refl) e
  apply_row-Synced Row.enable i s t lines h v e =
      apply_rest m l i s t lines v Row.enable (inr refl) e
  apply_row-Synced (Row.smem w x) i s t lines h v e = apply_smem m l i s t lines v w x e
  apply_row-Synced (Row.sram w x) i s t lines h v e = apply_sram m l i s t lines v w x e
  apply_row-Synced (Row.csr_baseaddr a) i s t lines h v e = apply_base m l i s t lines v a h e
  apply_row-Synced (Row.csr_ringlen n) i s t lines h v e = apply_len m l i s t lines v n h e
  apply_row-Synced (Row.desc a b c d) i s t lines h v e = apply_desc_row i a b c d s t lines v e
  apply_row-Synced Row.other i s t lines h v e = absurd (ground (arith, e))

  note_lines-append :
      (xs ys : List StimLine) (i : Images)
      → note_lines (xs ++ ys) i ≡ note_lines ys (note_lines xs i)
  unfolding note_lines
  note_lines-append [] ys i = refl
  note_lines-append (x ∷ xs) ys i = note_lines-append xs ys (note_line x i)

  -- Rows that return keep the dictionaries of their stimulus in step with the memories and the
  -- ring's registers, if the ring is placed at whole words with at most 2 ^ 28 slots.
  pub apply_rows-Synced :
      (rows : List Row) (i : Images) (s t : System) (lines : List StimLine)
      → AreFine rows
      → Synced m l i s
      → apply_rows m l rows s ≡ (ok lines, t)
      → Synced m l (note_lines lines i) t
  unfolding apply_rows note_lines
  apply_rows-Synced [] i s t lines h v e = ground (arith, v, e)
  apply_rows-Synced (row ∷ rows) i s t lines h v e =
      let (s1, here, rest, e1, e2, e3) = apply_rows-cons_inv m l row rows s t lines e in
      let v1 = apply_row-Synced row i s s1 here h.0 v e1 in
      rw (e3, note_lines-append here rest i)
        (apply_rows-Synced rows (note_lines here i) s1 t rest h.1 v1 e2)

  get_or_replicate : (n w : ℕ) → ◌≡◌ {A = ℕ} (get_or (replicate n 0) w 0) 0
  get_or_replicate zero w = refl
  get_or_replicate (suc n) zero = refl
  get_or_replicate (suc n) (suc w) = get_or_replicate n w

  replicate-Follows : (n : ℕ) → Follows n (λ k. 0) (replicate n 0)
  replicate-Follows n = record {
    size = length-replicate n 0;
    same = λ w. sym (get_or_replicate n w);
    words = λ w. omega (arith, get_or_replicate n w);
  }

  pub built-Synced : Synced m l no_images (built m l)
  built-Synced = record {
    sized = refl;
    smem_part = replicate-Follows m;
    sram_part = replicate-Follows l;
    ring_part = record {
      same_base = refl;
      same_tail = refl;
      tail_word = omega arith;
      aligned = omega arith;
      base_word = omega arith;
      len_in = omega arith;
    };
  }
