-- ===== src/Viz.antt =====
-- firmware&local/viz.py: the tables of expected and actual words, the events that change them and
-- the loop that reads them. A line stands here as `json.loads` has read it.
use axi_dma_engine.Base.{
  ℕ, suc, Option, none, some, Bool, true, false, List, [], ◌∷◌, map, ◌==◌, if◌then◌else◌, ◌&&◌, ◌+◌,
  Result, ok, err, Action, pure, raise, ◌>>=◌, type_error,
}
use axi_dma_engine.Text.{Chars, codes}
pub mod Cells
pub mod Render
pub mod Sweep

pub data Region : Type 0 where
  sram smem : Region

pub data Status : Type 0 where
  shown pending filled matching failing : Status

pub record Cell : Type 0 where
  pub addr : ℕ
  pub value : Option ℕ
  pub status : Status

-- `header_text`, and `state` by its kind and then its region
pub record Tables : Type 0 where
  pub header : Chars
  pub expected : Region → List Cell
  pub actual : Region → List Cell

abbrev pub empty : Tables
empty = record {
  header = codes "AXI DMA  ·  Live Validation";
  expected = λ r. [];
  actual = λ r. [];
}

abbrev pub same : Region → Region → Bool
same sram sram = true
same smem smem = true
same r q = false

abbrev pub put : Region → List Cell → (Region → List Cell) → Region → List Cell
put r cells table q = if same r q then cells else table q

abbrev pub shown_cells : List (ℕ × ℕ) → List Cell
shown_cells = map (λ c. record { addr = c.0; value = some c.1; status = Status.shown })

abbrev pub pending_cells : List (ℕ × ℕ) → List Cell
pending_cells = map (λ c. record { addr = c.0; value = none; status = Status.pending })

pub on_expected : Region → List (ℕ × ℕ) → Tables → Tables
on_expected r cells t = record t {
  expected = put r (shown_cells cells) t.expected;
  actual = put r (pending_cells cells) t.actual;
}

-- The loop of `on_actual`, which adds a cell if it finds none.
pub fill : ℕ → Option ℕ → List Cell → List Cell
fill a v [] = record { addr = a; value = v; status = Status.filled } ∷ []
fill a v (c ∷ cs) =
    let rest = fill a v cs in
    if c.addr == a then record c { value = v; status = Status.filled } ∷ cs else c ∷ rest

pub on_actual : Region → ℕ → Option ℕ → Tables → Tables
on_actual r a v t = record t { actual = put r (fill a v (t.actual r)) t.actual }

-- The loop of `on_terminal`.
pub finish : ℕ → Status → List Cell → List Cell
finish a st [] = []
finish a st (c ∷ cs) =
    let rest = finish a st cs in if c.addr == a then record c { status = st } ∷ cs else c ∷ rest

pub on_terminal : Region → ℕ → Status → Tables → Tables
on_terminal r a st t = record t { actual = put r (finish a st (t.actual r)) t.actual }

-- `ev.get("label", header_text)`
pub on_header : Option Chars → Tables → Tables
on_header none t = t
on_header (some label) t = record t { header = label }

pub data Event : Type 0 where
  header_label : Option Chars → Event
  expected_cells : Region → List (ℕ × ℕ) → Event
  actual_cell : Region → ℕ → Option ℕ → Event
  match_cell fail_cell : Region → ℕ → Event

-- `HANDLERS`
pub handle : Event → Tables → Tables
handle (header_label label) = on_header label
handle (expected_cells r cells) = on_expected r cells
handle (actual_cell r a v) = on_actual r a v
handle (match_cell r a) = on_terminal r a Status.matching
handle (fail_cell r a) = on_terminal r a Status.failing

pub handle_all : List Event → Tables → Tables
handle_all [] t = t
handle_all (e ∷ es) t = handle_all es (handle e t)

-- A line of stdin: an event that its handler takes, an object of no known type, one of a known type
-- whose handler raises, no JSON or nothing, and JSON that is no object and so has no `get`.
pub data Line : Type 0 where
  event : Event → Line
  unknown : Line
  malformed : Bool → Line
  skipped : Line
  no_object : Line

-- whether the reader sleeps behind an event, to pace the sweep
abbrev paced : Event → ℕ
paced (match_cell r a) = 1
paced (fail_cell r a) = 1
paced e = 0

-- One turn of the loop; the result is the number of sleeps. The flag of a malformed event is
-- whether its type is one of the two that are paced.
abbrev read_line : Line → Action Tables ℕ
read_line (event e) t = (ok (paced e), handle e t)
read_line unknown t = (ok 0, t)
read_line (malformed p) t = (ok (if p then 1 else 0), t)
read_line skipped t = (ok 0, t)
read_line no_object t = (err type_error, t)

-- `stdin_reader`, up to the end of its input or to the exception that ends its thread
unfoldable stdin_reader : List Line → Action Tables ℕ
stdin_reader [] = pure 0
stdin_reader (l ∷ ls) = do n ← read_line l; rest ← stdin_reader ls; pure (n + rest)
