-- ===== src/Reporting/Csv/Laws.antt =====
-- modules/reporting/csv.ts: what a reader that follows RFC 4180 finds in a report.
use scope_is_team_management.Base.{
  ℕ, true, List, [], ◌∷◌, ◌++◌, map, ◌≡◌, ◌≢◌, some, arith, refl, Text, Bool-cases, inl, inr, All,
  ap, ◌∙◌,
}
use scope_is_team_management.Reporting.Csv.{
  to_csv, is_filled, csv_row, csv_header, csv_body, ReportColumn, ReportRow, cell, starts_formula,
  neutralize_cell, quote_cell, csv_cell, join,
}
use scope_is_team_management.Reporting.Csv.Reader.{
  read, row_start, read_file, line, lines, AllFilled, read-lines,
}

-- What stands in the file, as values: the labels, and each row's cells, without formulas.
abbrev pub labels : List ReportColumn → List Text
labels columns = map (λ c. neutralize_cell c.label) columns

abbrev pub values : List ReportColumn → ReportRow → List Text
values columns row = map (λ c. neutralize_cell (cell row c)) columns

abbrev pub table : List ReportColumn → List ReportRow → List (List Text)
table columns rows = labels columns ∷ map (values columns) rows

abbrev pub without_mark : Text → Text
without_mark [] = []
without_mark (c ∷ cs) = cs

values-AllFilled :
    (a b : ReportColumn) (columns : List ReportColumn) (rows : List ReportRow)
    → AllFilled (map (values (a ∷ b ∷ columns)) rows)
values-AllFilled a b columns [] = tt
values-AllFilled a b columns (r ∷ rows) =
    ((neutralize_cell (cell r a), values (b ∷ columns) r, refl), values-AllFilled a b columns rows)

quoted-cells :
    (f : ReportColumn → Text) (cs : List ReportColumn)
    → map (λ c. csv_cell (f c)) cs ≡ map quote_cell (map (λ c. neutralize_cell (f c)) cs)
unfolding csv_cell
quoted-cells f [] = refl
quoted-cells f (c ∷ cs) = ap (λ xs. quote_cell (neutralize_cell (f c)) ∷ xs) (quoted-cells f cs)

cells-line :
    (f : ReportColumn → Text) (columns : List ReportColumn)
    → join (44 ∷ []) (map (λ c. csv_cell (f c)) columns)
      ≡ line (map (λ c. neutralize_cell (f c)) columns)
cells-line f columns = ap (join (44 ∷ [])) (quoted-cells f columns)

rows-lines :
    (columns : List ReportColumn) (rows : List ReportRow)
    → map (csv_row columns) rows ≡ map line (map (values columns) rows)
rows-lines columns [] = refl
rows-lines columns (r ∷ rows) = rw (cells-line (cell r) columns, rows-lines columns rows) refl

filled_append : (x : Text) (c : ℕ) (y : Text) → is_filled (x ++ c ∷ y) ≡ true
filled_append [] c y = refl
filled_append (d ∷ x) c y = refl

-- A line of two cells or more is not empty.
filled_line : (v w : Text) (vs : List Text) → is_filled (line (v ∷ w ∷ vs)) ≡ true
unfolding join
filled_line v w vs = filled_append (quote_cell v) 44 (line (w ∷ vs))

filled_join :
    (x : Text) (xs : List Text)
    → is_filled x ≡ true
    → is_filled (join (13 ∷ 10 ∷ []) (x ∷ xs)) ≡ true
unfolding join
filled_join x [] h = h
filled_join x (y ∷ xs) h = filled_append x 13 _

header-line : (columns : List ReportColumn) → csv_header columns ≡ line (labels columns)
unfolding csv_header
header-line columns = cells-line (λ c. c.label) columns

body-lines :
    (columns : List ReportColumn) (rows : List ReportRow)
    → csv_body columns rows ≡ join (13 ∷ 10 ∷ []) (map line (map (values columns) rows))
unfolding csv_body
body-lines columns rows = ap (join (13 ∷ 10 ∷ [])) (rows-lines columns rows)

to_csv-lines :
    (a b : ReportColumn) (columns : List ReportColumn) (rows : List ReportRow)
    → without_mark (to_csv (a ∷ b ∷ columns) rows) ≡ lines (table (a ∷ b ∷ columns) rows)
unfolding to_csv join
to_csv-lines a b columns [] =
    let all = a ∷ b ∷ columns in
    rw
      (
        header-line all,
        body-lines all [],
        filled_line (neutralize_cell a.label) (neutralize_cell b.label)
            (map (λ c. neutralize_cell c.label) columns),
      )
      refl
to_csv-lines a b columns (r ∷ rows) =
    let all = a ∷ b ∷ columns in
    let first = line (values all r) in
    let row_filled : is_filled first ≡ true =
      filled_line (neutralize_cell (cell r a)) (neutralize_cell (cell r b))
        (map (λ c. neutralize_cell (cell r c)) columns) in
    rw
      (
        header-line all,
        body-lines all (r ∷ rows),
        filled_line (neutralize_cell a.label) (neutralize_cell b.label)
            (map (λ c. neutralize_cell c.label) columns),
        filled_join first (map line (map (values all) rows)) row_filled,
      )
      refl

-- A report with two columns or more, written as CSV, is a file by the rules of RFC 4180: it has a
-- byte order mark, its rows end in CRLF, and an unquoted cell holds no comma, quote, CR or LF. Read
-- by these rules, it gives back one row of the column labels and then one row for each row of the
-- report, each of the row's cells in the order of the columns and as `neutralizeCell` leaves them.
-- The reader is not told how many rows or cells there are.
pub read_file-to_csv :
    (a b : ReportColumn) (columns : List ReportColumn) (rows : List ReportRow)
    → read_file (to_csv (a ∷ b ∷ columns) rows) ≡ some (table (a ∷ b ∷ columns) rows)
unfolding read_file to_csv
read_file-to_csv a b columns rows =
    let all = a ∷ b ∷ columns in
    ap (λ k. read k row_start) (to_csv-lines a b columns rows)
    ∙ read-lines (labels all) (map (values all) rows)
        ((neutralize_cell a.label, labels (b ∷ columns), refl), values-AllFilled a b columns rows)

-- A cell that no spreadsheet takes for a formula: it does not start with = + - @, a tab or a
-- carriage return.
abbrev pub IsHarmless : Text → Type 0
IsHarmless [] = Unit
IsHarmless (c ∷ cs) = (c ≢ 61) × (c ≢ 43) × (c ≢ 45) × (c ≢ 64) × (c ≢ 9) × (c ≢ 13)

neutralize_cell-IsHarmless : (v : Text) → IsHarmless (neutralize_cell v)
unfolding neutralize_cell
neutralize_cell-IsHarmless [] = tt
neutralize_cell-IsHarmless (c ∷ cs) = elim (Bool-cases (starts_formula (c ∷ cs))) [
  | inl formula ↦ rw formula (
    (λ e. ground arith),
    (λ e. ground arith),
    (λ e. ground arith),
    (λ e. ground arith),
    (λ e. ground arith),
    (λ e. ground arith),
  )
  | inr harmless ↦ rw harmless (
    (λ e. ground arith),
    (λ e. ground arith),
    (λ e. ground arith),
    (λ e. ground arith),
    (λ e. ground arith),
    (λ e. ground arith),
  )
]

labels-IsHarmless : (columns : List ReportColumn) → All IsHarmless (labels columns)
labels-IsHarmless [] = tt
labels-IsHarmless (c ∷ cs) = (neutralize_cell-IsHarmless c.label, labels-IsHarmless cs)

values-IsHarmless :
    (columns : List ReportColumn) (row : ReportRow) → All IsHarmless (values columns row)
values-IsHarmless [] row = tt
values-IsHarmless (c ∷ cs) row = (neutralize_cell-IsHarmless (cell row c), values-IsHarmless cs row)

rows-IsHarmless :
    (columns : List ReportColumn) (rows : List ReportRow)
    → All (All IsHarmless) (map (values columns) rows)
rows-IsHarmless columns [] = tt
rows-IsHarmless columns (r ∷ rows) = (values-IsHarmless columns r, rows-IsHarmless columns rows)

-- Whatever the labels and values of a report with two columns or more, its CSV file can be read by
-- the rules of RFC 4180, and no cell that the reader finds starts with = + - @, a tab or a carriage
-- return.
pub to_csv-IsHarmless :
    (a b : ReportColumn) (columns : List ReportColumn) (rows : List ReportRow)
    → (cells : List (List Text)) × (read_file (to_csv (a ∷ b ∷ columns) rows) ≡ some cells)
      × All (All IsHarmless) cells
to_csv-IsHarmless a b columns rows =
    let all = a ∷ b ∷ columns in
    (
      table all rows,
      read_file-to_csv a b columns rows,
      (labels-IsHarmless all, rows-IsHarmless all rows),
    )
