-- ===== src/Reporting/Csv/Tests.antt =====
-- modules/reporting/csv.ts: examples.
use scope_is_team_management.Base.{◌≡◌, refl, List, [], ◌∷◌, Text, codes, All, some, none}
use scope_is_team_management.Reporting.Csv.{
  ReportColumn, ReportRow, to_csv, csv_cell, neutralize_cell, quote_cell, needs_quotes,
  double_quotes,
}
use scope_is_team_management.Reporting.Csv.Reader.{read_file, read, step, kind, act}
use scope_is_team_management.Reporting.Csv.Laws.{
  table, read_file-to_csv, IsHarmless, to_csv-IsHarmless,
}

abbrev who : ReportColumn
who = record { key = codes "who"; label = codes "Name" }

abbrev note : ReportColumn
note = record { key = codes "note"; label = codes "Note, short" }

abbrev rows : List ReportRow
rows = ((codes "who", codes "=A1") ∷ (codes "note", codes "say \"hi\",\ntwice") ∷ []) ∷ []

quoted_cell : csv_cell (codes "a,\"b\"") ≡ codes "\"a,\"\"b\"\"\""
unfolding csv_cell neutralize_cell quote_cell needs_quotes double_quotes
quoted_cell = refl

read_file-to_csv_example :
    read_file (to_csv (who ∷ note ∷ []) rows) ≡ some (table (who ∷ note ∷ []) rows)
read_file-to_csv_example = read_file-to_csv who note [] rows

to_csv-IsHarmless_example :
    (cells : List (List Text)) × (read_file (to_csv (who ∷ note ∷ []) rows) ≡ some cells)
    × All (All IsHarmless) cells
to_csv-IsHarmless_example = to_csv-IsHarmless who note [] rows

-- A line break outside quotes does not pass the reader.
bare_break : read_file (65279 ∷ codes "a\nb,c\r\n") ≡ none
unfolding read_file read step kind act
bare_break = refl
