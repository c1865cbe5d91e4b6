-- ===== src/HostRunner/Table.antt =====
-- firmware&local/viz.py behind host_runner.py: the tables of the two regions through the events of
-- one transfer.
use mathlib.Core.List.{append_assoc}
use axi_dma_engine.Base.{
  ℕ, zero, suc, ◌+◌, ◌≡◌, refl, ap, sym, ◌∙◌, Bool, true, false, some, Option, List, [], ◌∷◌, ◌++◌,
  length, ok, if◌then◌else◌,
}
use axi_dma_engine.Text.{Chars}
use axi_dma_engine.Viz.{Region, Status, Cell, Event, pending_cells, shown_cells, same}
use axi_dma_engine.Viz.Cells.{burst, read_back, filled_cells, AllBelow, AllBelow-add}
use axi_dma_engine.Viz.Sweep.{
  same_self, Pair, apply, apply_all, apply_all-append, read_back_other, read_back_own, cells_with,
  finish_front,
}
use axi_dma_engine.HostRunner.Session.{cells_at, sweep}

-- the status that a sweep leaves
abbrev pub swept : Bool → Status
swept true = Status.matching
swept false = Status.failing

-- one event of a sweep
abbrev terminal : Bool → Region → ℕ → Event
terminal b r a = if b then Event.match_cell r a else Event.fail_cell r a

terminal_own :
    (b : Bool) (r : Region) (a w : ℕ) (done todo shows : List Cell)
    → AllBelow a done
    → apply r
        (terminal b r a)
        (shows, done ++ record { addr = a; value = some w; status = Status.filled } ∷ todo)
      ≡ (shows, done ++ record { addr = a; value = some w; status = swept b } ∷ todo)
unfolding apply
terminal_own true r a w done todo shows h =
    rw (same_self r, finish_front a w Status.matching done todo h) refl
terminal_own false r a w done todo shows h =
    rw (same_self r, finish_front a w Status.failing done todo h) refl

terminal_other :
    (b : Bool) (r q : Region) (a : ℕ) (c : Pair) → same q r ≡ false → apply r (terminal b q a) c ≡ c
unfolding apply
terminal_other true r q a c h = rw h refl
terminal_other false r q a c h = rw h refl

sweep_own :
    (b : Bool) (r : Region) (ws : List ℕ) (a : ℕ) (done shows : List Cell)
    → AllBelow a done
    → apply_all r (sweep b r a (length ws)) (shows, done ++ filled_cells (burst a ws))
      ≡ (shows, done ++ cells_with (swept b) (burst a ws))
unfolding apply_all sweep
sweep_own b r [] a done shows h = refl
sweep_own b r (w ∷ ws) a done shows h =
    let c : Cell = record { addr = a; value = some w; status = swept b } in
    let todo = filled_cells (burst (a + 4) ws) in
    let one =
      terminal_own b r a w done todo shows h
      ∙ ap (λ l. (shows, l)) (sym (append_assoc done (c ∷ []) todo)) in
    ap (apply_all r (sweep b r (a + 4) (length ws))) one
    ∙ sweep_own b r ws (a + 4) (done ++ c ∷ []) shows (AllBelow-add a done c h refl)
    ∙ ap (λ l. (shows, l)) (append_assoc done (c ∷ []) (cells_with (swept b) (burst (a + 4) ws)))

sweep_other :
    (b : Bool) (r q : Region) (n a : ℕ) (c : Pair)
    → same q r ≡ false
    → apply_all r (sweep b q a n) c ≡ c
unfolding apply_all sweep
sweep_other b r q zero a c h = refl
sweep_other b r q (suc n) a c h =
    ap (apply_all r (sweep b q (a + 4) n)) (terminal_other b r q a c h)
    ∙ sweep_other b r q n (a + 4) c h

pub cells_at-burst : (a : ℕ) (ws : List ℕ) → cells_at a (length ws) ws ≡ ok (burst a ws)
unfolding cells_at
cells_at-burst a [] = refl
cells_at-burst a (w ∷ ws) = rw (cells_at-burst (a + 4) ws) refl

-- The events of a transfer from region `q` to region `r`, with the words `ws` expected, `vs` and
-- `us` read back, and the two verdicts.
module _ (r q : Region) (title : Option Chars) (a a' : ℕ) (ws vs us : List ℕ) (b b' : Bool) where
  abbrev pub before : List Event
  before =
      Event.header_label title
      ∷ Event.expected_cells r (burst a ws)
      ∷ Event.expected_cells q (burst a' ws)
      ∷ (read_back r (burst a vs) ++ read_back q (burst a' us))

  abbrev pub after : List Event
  after = sweep b r a (length vs) ++ sweep b' q a' (length us)

  announced_dst :
      (c : Pair)
      → same q r ≡ false
      → apply_all r before c
        ≡ apply_all r
            (read_back r (burst a vs) ++ read_back q (burst a' us))
            (shown_cells (burst a ws), pending_cells (burst a ws))
  unfolding apply_all apply
  announced_dst c h = rw (apply_all, h, same_self r) refl

  announced_src :
      (c : Pair)
      → same r q ≡ false
      → apply_all q before c
        ≡ apply_all q
            (read_back r (burst a vs) ++ read_back q (burst a' us))
            (shown_cells (burst a' ws), pending_cells (burst a' ws))
  unfolding apply_all apply
  announced_src c h = rw (apply_all, h, same_self q) refl

  pub table_dst :
      (c : Pair)
      → same q r ≡ false
      → length ws ≡ length vs
      → apply_all r (before ++ after) c
        ≡ (shown_cells (burst a ws), cells_with (swept b) (burst a vs))
  table_dst c h e =
      apply_all-append r before after c
      ∙ ap (apply_all r after) (
          announced_dst c h
          ∙ apply_all-append r (read_back r (burst a vs)) (read_back q (burst a' us))
              (shown_cells (burst a ws), pending_cells (burst a ws))
          ∙ ap (apply_all r (read_back q (burst a' us))) (read_back_own r a ws vs e)
          ∙ read_back_other r q (burst a' us) _ h)
      ∙ apply_all-append r (sweep b r a (length vs)) (sweep b' q a' (length us)) _
      ∙ ap (apply_all r (sweep b' q a' (length us)))
          (sweep_own b r vs a [] (shown_cells (burst a ws)) tt)
      ∙ sweep_other b' r q (length us) a' _ h

  pub table_src :
      (c : Pair)
      → same r q ≡ false
      → length ws ≡ length us
      → apply_all q (before ++ after) c
        ≡ (shown_cells (burst a' ws), cells_with (swept b') (burst a' us))
  table_src c h e =
      apply_all-append q before after c
      ∙ ap (apply_all q after) (
          announced_src c h
          ∙ apply_all-append q (read_back r (burst a vs)) (read_back q (burst a' us))
              (shown_cells (burst a' ws), pending_cells (burst a' ws))
          ∙ ap (apply_all q (read_back q (burst a' us))) (read_back_other q r (burst a vs) _ h)
          ∙ read_back_own q a' ws us e)
      ∙ apply_all-append q (sweep b r a (length vs)) (sweep b' q a' (length us)) _
      ∙ ap (apply_all q (sweep b' q a' (length us))) (sweep_other b q r (length vs) a _ h)
      ∙ sweep_own b' q us a' [] (shown_cells (burst a' ws)) tt
