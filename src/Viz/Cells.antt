-- ===== src/Viz/Cells.antt =====
-- firmware&local/viz.py: the actual table while the words of an announced transfer come in.
use mathlib.Core.List.{append_assoc}
use axi_dma_engine.Base.{
  ℕ, length, ◌+◌, ◌<◌, ◌≡◌, refl, ap, sym, ◌∙◌, none, some, List, [], ◌∷◌, ◌++◌, map, arith,
}
use axi_dma_engine.Viz.{
  Region, Status, Cell, Tables, Event, on_expected, on_actual, fill, handle_all, handle,
  pending_cells, shown_cells, put,
}

-- the cells that verify_one_transfer announces: the words `ws` from byte address `a` on
abbrev pub burst : ℕ → List ℕ → List (ℕ × ℕ)
burst a [] = []
burst a (w ∷ ws) = (a, w) ∷ burst (a + 4) ws

-- the events with the words that were read back
abbrev pub read_back : Region → List (ℕ × ℕ) → List Event
read_back r [] = []
read_back r (c ∷ cells) = Event.actual_cell r c.0 (some c.1) ∷ read_back r cells

abbrev pub filled_cells : List (ℕ × ℕ) → List Cell
filled_cells = map (λ c. record { addr = c.0; value = some c.1; status = Status.filled })

abbrev pub AllBelow : ℕ → List Cell → Type 0
AllBelow a [] = Unit {0}
AllBelow a (c ∷ cs) = (c.addr < a) × AllBelow a cs

pub AllBelow-add :
    (a : ℕ) (cs : List Cell) (c : Cell)
    → AllBelow a cs
    → c.addr ≡ a
    → AllBelow (a + 4) (cs ++ c ∷ [])
AllBelow-add a [] c h e = (omega arith, tt)
AllBelow-add a (x ∷ cs) c h e = (omega (arith, h.0), AllBelow-add a cs c h.1 e)

fill_front :
    (a v : ℕ) (done todo : List Cell)
    → AllBelow a done
    → fill a (some v) (done ++ record { addr = a; value = none; status = Status.pending } ∷ todo)
      ≡ done ++ record { addr = a; value = some v; status = Status.filled } ∷ todo
unfolding fill
fill_front a v [] todo h = ground arith
fill_front a v (c ∷ done) todo h = ground (arith, h.0, fill_front a v done todo h.1)

put_self :
    (r : Region) (cells : List Cell) (table : Region → List Cell) → put r cells table r ≡ cells
put_self Region.sram cells table = refl
put_self Region.smem cells table = refl

read_back_lem :
    (r : Region) (ws : List ℕ) (a : ℕ) (done : List Cell) (t : Tables)
    → AllBelow a done
    → t.actual r ≡ done ++ pending_cells (burst a ws)
    → let t' = handle_all (read_back r (burst a ws)) t in
      (t'.actual r ≡ done ++ filled_cells (burst a ws)) × (t'.expected ≡ t.expected)
unfolding handle_all handle on_actual
read_back_lem r [] a done t h e = (e, refl)
read_back_lem r (w ∷ ws) a done t h e =
    let c : Cell = record { addr = a; value = some w; status = Status.filled } in
    let t1 : Tables = on_actual r a (some w) t in
    let now : t1.actual r ≡ (done ++ c ∷ []) ++ pending_cells (burst (a + 4) ws) =
      put_self r (fill a (some w) (t.actual r)) t.actual
      ∙ ap (fill a (some w)) e
      ∙ fill_front a w done (pending_cells (burst (a + 4) ws)) h
      ∙ sym (append_assoc done (c ∷ []) (pending_cells (burst (a + 4) ws))) in
    let ih = read_back_lem r ws (a + 4) (done ++ c ∷ []) t1 (AllBelow-add a done c h refl) now in
    (ih.0 ∙ append_assoc done (c ∷ []) (filled_cells (burst (a + 4) ws)), ih.1)

pending_same :
    (vs ws : List ℕ) (a : ℕ)
    → length vs ≡ length ws
    → pending_cells (burst a vs) ≡ pending_cells (burst a ws)
pending_same [] [] a e = refl
pending_same [] (w ∷ ws) a e = absurd (omega arith)
pending_same (v ∷ vs) [] a e = absurd (omega arith)
pending_same (v ∷ vs) (w ∷ ws) a e =
    ap (λ l. record { addr = a; value = none; status = Status.pending } ∷ l)
      (pending_same vs ws (a + 4) (omega arith))

-- After a burst is announced with the words `vs`, and as many words `ws` are read back in their
-- order, the actual table of the region holds exactly the cells of the burst, filled with `ws`, and
-- the expected table shows `vs`, whatever the tables held before.
pub read_back_fills :
    (r : Region) (a : ℕ) (vs ws : List ℕ) (t : Tables)
    → length vs ≡ length ws
    → let t' = handle_all (Event.expected_cells r (burst a vs) ∷ read_back r (burst a ws)) t in
      (t'.actual r ≡ filled_cells (burst a ws)) × (t'.expected r ≡ shown_cells (burst a vs))
unfolding handle_all handle on_expected
read_back_fills r a vs ws t e =
    let t0 : Tables = on_expected r (burst a vs) t in
    let now = put_self r (pending_cells (burst a vs)) t.actual ∙ pending_same vs ws a e in
    let h = read_back_lem r ws a [] t0 tt now in
    (h.0, ap (λ f. f r) h.1 ∙ put_self r (shown_cells (burst a vs)) t.expected)
