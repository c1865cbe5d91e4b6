-- ===== src/Viz/Render.antt =====
-- firmware&local/viz.py: what the four tables and the header show. A row stands as the texts of its
-- columns, with their markup; an expected table has two columns.
use axi_dma_engine.Base.{
  ℕ, ◌-◌, Option, none, some, List, [], ◌∷◌, ◌++◌, ◌&&◌, map, leb, if◌then◌else◌, Result, ok, err,
  type_error,
}
use axi_dma_engine.Text.{Chars, codes, hex, ◌on_ok◌}
use axi_dma_engine.Viz.{Region, Status, Cell, Tables}

pub record TableRow : Type 0 where
  address : Chars
  shows : Chars
  mark : Option Chars

-- `"%0wX"`
abbrev upper : ℕ → ℕ
upper c = if leb b'a' c && leb c b'f' then c - 32 else c

abbrev hex_upper : ℕ → ℕ → Chars
hex_upper w n = codes "0x" ++ map upper (hex w n)

abbrev value_or_zero : Option ℕ → ℕ
value_or_zero none = 0
value_or_zero (some v) = v

-- The format refuses None.
abbrev value_text : Option ℕ → Result Chars
value_text none = err type_error
value_text (some v) = ok (hex_upper 8 v)

expected_row : Cell → Result TableRow
expected_row c = value_text c.value on_ok λ v.
    ok (record { address = hex_upper 4 c.addr; shows = v; mark = none })

-- The row of an actual cell; a status of no branch adds none.
abbrev row_of : Status → Cell → Result (Option TableRow)
row_of Status.shown c = ok none
row_of Status.pending c = ok (
    some (record {
      address = hex_upper 4 c.addr;
      shows = codes "[dim]────────────[/dim]";
      mark = some [];
    }))
row_of Status.filled c = value_text c.value on_ok λ v. ok (
    some (record {
      address = hex_upper 4 c.addr;
      shows = codes "[yellow]" ++ v ++ codes "[/yellow]";
      mark = some [];
    }))
row_of Status.matching c = ok (
    some (record {
      address = hex_upper 4 c.addr;
      shows = codes "[bold green]" ++ hex_upper 8 (value_or_zero c.value) ++ codes "[/bold green]";
      mark = some (codes "[bold green]✓[/bold green]");
    }))
row_of Status.failing c = ok (
    some (record {
      address = hex_upper 4 c.addr;
      shows = codes "[bold red]" ++ hex_upper 8 (value_or_zero c.value) ++ codes "[/bold red]";
      mark = some (codes "[bold red]✗[/bold red]");
    }))

actual_row : Cell → Result (Option TableRow)
actual_row c = row_of c.status c

unfoldable expected_rows : List Cell → Result (List TableRow)
expected_rows [] = ok []
expected_rows (c ∷ cs) = expected_row c on_ok λ row. expected_rows cs on_ok λ rows. ok (row ∷ rows)

abbrev add_row : Option TableRow → List TableRow → List TableRow
add_row none rows = rows
add_row (some row) rows = row ∷ rows

unfoldable actual_rows : List Cell → Result (List TableRow)
actual_rows [] = ok []
actual_rows (c ∷ cs) = actual_row c on_ok λ row. actual_rows cs on_ok λ rows. ok (add_row row rows)

abbrev waiting : Option Chars → TableRow
waiting mark = record {
  address = codes "[dim]—[/dim]";
  shows = codes "[dim]waiting…[/dim]";
  mark = mark;
}

-- `make_table` of the two kinds
make_expected : List Cell → Result (List TableRow)
make_expected [] = ok (waiting none ∷ [])
make_expected (c ∷ cs) = expected_rows (c ∷ cs)

make_actual : List Cell → Result (List TableRow)
make_actual [] = ok (waiting (some []) ∷ [])
make_actual (c ∷ cs) = actual_rows (c ∷ cs)

-- `make_layout`: the header, and the tables by column
pub record Layout : Type 0 where
  head : Chars
  left : List TableRow × List TableRow
  right : List TableRow × List TableRow

unfoldable make_layout : Tables → Result Layout
make_layout t = make_expected (t.expected Region.sram) on_ok λ es.
    make_actual (t.actual Region.sram) on_ok λ as'.
    make_expected (t.expected Region.smem) on_ok λ em.
    make_actual (t.actual Region.smem) on_ok λ am.
    ok (record { head = t.header; left = (es, as'); right = (em, am) })
