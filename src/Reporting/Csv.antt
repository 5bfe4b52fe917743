-- ===== src/Reporting/Csv.antt =====
-- modules/reporting/csv.ts.
pub mod Reader
pub mod Laws
pub mod Tests
use scope_is_team_management.Base.{
  ℕ, Bool, true, false, ◌&&◌, ◌||◌, not, Option, none, some, List, [], ◌∷◌, ◌++◌, map, any, filter,
  find, ◌==◌, if◌then◌else◌, Text, trim, same_text, codes,
}

abbrev comma : ℕ
comma = 44

abbrev quote : ℕ
quote = 34

abbrev pub cr : ℕ
cr = 13

abbrev pub lf : ℕ
lf = 10

-- `FORMULA_PREFIXES`: = + - @, tab and carriage return.
abbrev pub is_formula_prefix : ℕ → Bool
is_formula_prefix c = c == 61 || (c == 43 || (c == 45 || (c == 64 || (c == 9 || c == 13))))

abbrev pub starts_formula : Text → Bool
starts_formula [] = false
starts_formula (c ∷ cs) = is_formula_prefix c

-- `neutralizeCell`: an apostrophe before a formula.
unfoldable pub neutralize_cell : Text → Text
neutralize_cell value = if starts_formula value then 39 ∷ value else value

-- `/[",\r\n]/`
abbrev pub is_special : ℕ → Bool
is_special c = c == 34 || (c == 44 || (c == 13 || c == 10))

-- `value.replace(/"/g, '""')`
unfoldable pub double_quotes : Text → Text
double_quotes [] = []
double_quotes (c ∷ cs) = if c == 34 then 34 ∷ 34 ∷ double_quotes cs else c ∷ double_quotes cs

unfoldable pub needs_quotes : Text → Bool
needs_quotes value = any is_special value || not (same_text value (trim value))

-- `quoteCell`
unfoldable pub quote_cell : Text → Text
quote_cell value = if needs_quotes value then 34 ∷ (double_quotes value ++ 34 ∷ []) else value

-- `csvCell`
unfoldable pub csv_cell : Text → Text
csv_cell value = quote_cell (neutralize_cell value)

pub record ReportColumn : Type 0 where
  pub key : Text
  pub label : Text

abbrev pub ReportRow : Type 0
ReportRow = List (Text × Text)

abbrev second : Option (Text × Text) → Text
second none = []
second (some e) = e.1

-- `row[column.key] ?? ""`
abbrev pub cell : ReportRow → ReportColumn → Text
cell row column = second (find (λ e. same_text e.0 column.key) row)

-- `.join(separator)`
unfoldable pub join : Text → List Text → Text
join separator [] = []
join separator (x ∷ []) = x
join separator (x ∷ y ∷ ys) = x ++ (separator ++ join separator (y ∷ ys))

-- `csvHeader`
unfoldable pub csv_header : List ReportColumn → Text
csv_header columns = join (44 ∷ []) (map (λ c. csv_cell c.label) columns)

abbrev pub csv_row : List ReportColumn → ReportRow → Text
csv_row columns row = join (44 ∷ []) (map (λ c. csv_cell (cell row c)) columns)

-- `csvBody`
unfoldable pub csv_body : List ReportColumn → List ReportRow → Text
csv_body columns rows = join (13 ∷ 10 ∷ []) (map (csv_row columns) rows)

abbrev pub is_filled : Text → Bool
is_filled [] = false
is_filled (c ∷ cs) = true

-- `toCsv`: a byte order mark, and lines that end in CRLF.
unfoldable pub to_csv : List ReportColumn → List ReportRow → Text
to_csv columns rows =
    65279 ∷ join (13 ∷ 10 ∷ []) (filter is_filled (csv_header columns ∷ csv_body columns rows ∷ []))
    ++ 13 ∷ 10 ∷ []
