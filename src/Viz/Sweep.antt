-- ===== src/Viz/Sweep.antt =====
-- firmware&local/viz.py: the tables of one region, through the events of both.
use mathlib.Core.Path.{ap₂}
use axi_dma_engine.Base.{
  ℕ, ◌≡◌, refl, ap, sym, ◌∙◌, true, false, none, some, List, [], ◌∷◌, ◌++◌, length, map, arith,
  if◌then◌else◌,
}
use axi_dma_engine.Viz.{
  Region, Status, Cell, Tables, Event, on_header, on_expected, on_actual, on_terminal, fill, finish,
  handle_all, handle, pending_cells, shown_cells, same, empty,
}
use axi_dma_engine.Viz.Cells.{burst, read_back, filled_cells, read_back_fills, AllBelow}

-- the expected and the actual table of a region
abbrev pub Pair : Type 0
Pair = List Cell × List Cell

abbrev pub pair : Region → Tables → Pair
pair r t = (t.expected r, t.actual r)

-- What an event does to the tables of region `r`.
unfoldable pub apply : Region → Event → Pair → Pair
apply r (Event.header_label l) c = c
apply r (Event.expected_cells q cells) c =
    if same q r then (shown_cells cells, pending_cells cells) else c
apply r (Event.actual_cell q a v) c = if same q r then (c.0, fill a v c.1) else c
apply r (Event.match_cell q a) c = if same q r then (c.0, finish a Status.matching c.1) else c
apply r (Event.fail_cell q a) c = if same q r then (c.0, finish a Status.failing c.1) else c

pair-handle : (r : Region) (e : Event) (t : Tables) → pair r (handle e t) ≡ apply r e (pair r t)
unfolding handle apply on_header on_expected on_actual on_terminal
pair-handle r (Event.header_label none) t = refl
pair-handle r (Event.header_label (some l)) t = refl
pair-handle Region.sram (Event.expected_cells Region.sram cells) t = refl
pair-handle Region.sram (Event.expected_cells Region.smem cells) t = refl
pair-handle Region.smem (Event.expected_cells Region.sram cells) t = refl
pair-handle Region.smem (Event.expected_cells Region.smem cells) t = refl
pair-handle Region.sram (Event.actual_cell Region.sram a v) t = refl
pair-handle Region.sram (Event.actual_cell Region.smem a v) t = refl
pair-handle Region.smem (Event.actual_cell Region.sram a v) t = refl
pair-handle Region.smem (Event.actual_cell Region.smem a v) t = refl
pair-handle Region.sram (Event.match_cell Region.sram a) t = refl
pair-handle Region.sram (Event.match_cell Region.smem a) t = refl
pair-handle Region.smem (Event.match_cell Region.sram a) t = refl
pair-handle Region.smem (Event.match_cell Region.smem a) t = refl
pair-handle Region.sram (Event.fail_cell Region.sram a) t = refl
pair-handle Region.sram (Event.fail_cell Region.smem a) t = refl
pair-handle Region.smem (Event.fail_cell Region.sram a) t = refl
pair-handle Region.smem (Event.fail_cell Region.smem a) t = refl

unfoldable pub apply_all : Region → List Event → Pair → Pair
apply_all r [] c = c
apply_all r (e ∷ es) c = apply_all r es (apply r e c)

pub pair-handle_all :
    (r : Region) (es : List Event) (t : Tables)
    → pair r (handle_all es t) ≡ apply_all r es (pair r t)
unfolding handle_all apply_all
pair-handle_all r [] t = refl
pair-handle_all r (e ∷ es) t =
    pair-handle_all r es (handle e t) ∙ ap (apply_all r es) (pair-handle r e t)

pub apply_all-append :
    (r : Region) (xs ys : List Event) (c : Pair)
    → apply_all r (xs ++ ys) c ≡ apply_all r ys (apply_all r xs c)
unfolding apply_all
apply_all-append r [] ys c = refl
apply_all-append r (x ∷ xs) ys c = apply_all-append r xs ys (apply r x c)

-- The events of another region are passed over.
pub read_back_other :
    (r q : Region) (cells : List (ℕ × ℕ)) (c : Pair)
    → same q r ≡ false
    → apply_all r (read_back q cells) c ≡ c
unfolding apply_all apply
read_back_other r q [] c h = refl
read_back_other r q (x ∷ cells) c h =
    let kept : apply r (Event.actual_cell q x.0 (some x.1)) c ≡ c = rw h refl in
    ap (apply_all r (read_back q cells)) kept ∙ read_back_other r q cells c h

pub same_self : (r : Region) → same r r ≡ true
same_self Region.sram = refl
same_self Region.smem = refl

-- The cells of a burst that was announced, once its words have been read back.
pub read_back_own :
    (r : Region) (a : ℕ) (vs ws : List ℕ)
    → length vs ≡ length ws
    → apply_all r (read_back r (burst a ws)) (shown_cells (burst a vs), pending_cells (burst a vs))
      ≡ (shown_cells (burst a vs), filled_cells (burst a ws))
unfolding apply_all apply
read_back_own r a vs ws e =
    let first = Event.expected_cells r (burst a vs) in
    let events = first ∷ read_back r (burst a ws) in
    let (now, shown) = read_back_fills r a vs ws empty e in
    let start : apply r first (pair r empty)
        ≡ (shown_cells (burst a vs), pending_cells (burst a vs)) =
      rw (same_self r) refl in
    ap (apply_all r (read_back r (burst a ws))) (sym start)
    ∙ sym (pair-handle_all r events empty)
    ∙ ap₂ (λ x y. (x, y)) shown now

-- the cells of a burst with one status
abbrev pub cells_with : Status → List (ℕ × ℕ) → List Cell
cells_with st = map (λ c. record { addr = c.0; value = some c.1; status = st })

pub finish_front :
    (a v : ℕ) (st : Status) (done todo : List Cell)
    → AllBelow a done
    → finish a st (done ++ record { addr = a; value = some v; status = Status.filled } ∷ todo)
      ≡ done ++ record { addr = a; value = some v; status = st } ∷ todo
unfolding finish
finish_front a v st [] todo h = ground arith
finish_front a v st (c ∷ done) todo h = ground (arith, h.0, finish_front a v st done todo h.1)
