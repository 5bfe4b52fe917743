-- ===== src/Reporting/Csv/Reader.antt =====
-- modules/reporting/csv.ts: a reader of files by the rules of RFC 4180, to compare the writer with.
-- It goes through the text once, refuses what the rules do not allow, and is not told how many
-- rows or cells there are.
use scope_is_team_management.Base.{
  ℕ, false, List, [], ◌∷◌, ◌++◌, map, any, ◌≡◌, ◌==◌, arith, Option, none, some, if◌then◌else◌,
  refl, Text, Bool-cases, inl, inr, All, ap, ◌∙◌, sym, subst, ◌⊎◌,
}
use scope_is_team_management.Reporting.Csv.{
  is_special, double_quotes, needs_quotes, quote_cell, join,
}

pub data Place : Type 0 where
  row_start cell_start in_plain in_quoted after_quote after_cr : Place

pub data Kind : Type 0 where
  a_quote a_comma a_cr a_lf other : Kind

pub data Act : Type 0 where
  keep skip next_cell next_row : Act

unfoldable pub kind : ℕ → Kind
kind c =
    if c == 34
    then a_quote
    else if c == 44
    then a_comma
    else if c == 13
    then a_cr
    else if c == 10
    then a_lf
    else other

-- What the rules allow at a place, and the place after it.
unfoldable pub step : Place → Kind → Option (Act × Place)
step in_quoted a_quote = some (skip, after_quote)
step in_quoted _ = some (keep, in_quoted)
step after_quote a_quote = some (keep, in_quoted)
step after_quote a_comma = some (next_cell, cell_start)
step after_quote a_cr = some (skip, after_cr)
step after_quote _ = none
step after_cr a_lf = some (next_row, row_start)
step after_cr _ = none
step in_plain a_comma = some (next_cell, cell_start)
step in_plain a_cr = some (skip, after_cr)
step in_plain other = some (keep, in_plain)
step in_plain _ = none
step row_start a_quote = some (skip, in_quoted)
step row_start a_comma = some (next_cell, cell_start)
step row_start a_cr = some (skip, after_cr)
step row_start a_lf = none
step row_start other = some (keep, in_plain)
step cell_start a_quote = some (skip, in_quoted)
step cell_start a_comma = some (next_cell, cell_start)
step cell_start a_cr = some (skip, after_cr)
step cell_start a_lf = none
step cell_start other = some (keep, in_plain)

-- The rows from a place on, of which the first starts with what is left of its cell.
abbrev Rows : Type 0
Rows = Option (List (List Text))

unfoldable pub act : Act → ℕ → Rows → Rows
act skip c rows = rows
act keep c (some ((v ∷ r) ∷ rows)) = some (((c ∷ v) ∷ r) ∷ rows)
act keep c _ = none
act next_cell c (some (r ∷ rows)) = some (([] ∷ r) ∷ rows)
act next_cell c _ = none
act next_row c none = none
act next_row c (some rows) = some (([] ∷ []) ∷ rows)

abbrev follow : Option (Act × Place) → ℕ → (Place → Rows) → Rows
follow none c rest = none
follow (some (a, p)) c rest = act a c (rest p)

-- A file ends after the end of a row.
unfoldable pub read : Text → Place → Rows
read [] row_start = some []
read [] _ = none
read (c ∷ cs) p = follow (step p (kind c)) c (read cs)

-- A whole file: the byte order mark, and its rows.
unfoldable pub read_file : Text → Option (List (List Text))
read_file [] = none
read_file (c ∷ cs) = if c == 65279 then read cs row_start else none

-- The text ends the cell before it, and goes on with these cells and rows.
abbrev pub Ends : Text → List Text → List (List Text) → Type 0
Ends t r rows =
    (read t row_start ≡ some (([] ∷ r) ∷ rows))
    × (read t cell_start ≡ some (([] ∷ r) ∷ rows))
    × (read t in_plain ≡ some (([] ∷ r) ∷ rows))
    × (read t after_quote ≡ some (([] ∷ r) ∷ rows))

kind_other : (c : ℕ) → is_special c ≡ false → kind c ≡ other
unfolding kind
kind_other c h = ground arith

kind_kept : (c : ℕ) → (c == 34) ≡ false → (step in_quoted (kind c) ≡ some (keep, in_quoted))
unfolding kind step
kind_kept c h = ground arith

read_next :
    (c : ℕ) (cs : Text) (p q : Place) (a : Act) (rows : Rows)
    → step p (kind c) ≡ some (a, q)
    → read cs q ≡ rows
    → read (c ∷ cs) p ≡ act a c rows
unfolding read
read_next c cs p q a rows e f = rw (e, f) refl

kept :
    (c : ℕ) (v : Text) (r : List Text) (rows : List (List Text))
    → act keep c (some ((v ∷ r) ∷ rows)) ≡ some (((c ∷ v) ∷ r) ∷ rows)
unfolding act
kept c v r rows = refl

-- What a plain character does at a place where a cell may start or go on without quotes.
plain_step :
    (p : Place)
    → (p ≡ row_start) ⊎ ((p ≡ cell_start) ⊎ (p ≡ in_plain))
    → (c : ℕ) → is_special c ≡ false
    → step p (kind c) ≡ some (keep, in_plain)
unfolding step
plain_step row_start w c h = rw (kind_other c h) refl
plain_step cell_start w c h = rw (kind_other c h) refl
plain_step in_plain w c h = rw (kind_other c h) refl
plain_step in_quoted w c h = ground arith
plain_step after_quote w c h = ground arith
plain_step after_cr w c h = ground arith

read-plain :
    (v t : Text) (r : List Text) (rows : List (List Text))
    → Ends t r rows
    → any is_special v ≡ false
    → (p : Place) → (p ≡ row_start) ⊎ ((p ≡ cell_start) ⊎ (p ≡ in_plain))
    → read (v ++ t) p ≡ some ((v ∷ r) ∷ rows)
read-plain [] t r rows (e, f, g, k) h row_start w = e
read-plain [] t r rows (e, f, g, k) h cell_start w = f
read-plain [] t r rows (e, f, g, k) h in_plain w = g
read-plain [] t r rows (e, f, g, k) h in_quoted w = ground arith
read-plain [] t r rows (e, f, g, k) h after_quote w = ground arith
read-plain [] t r rows (e, f, g, k) h after_cr w = ground arith
read-plain (c ∷ cs) t r rows ends h p w =
    read_next c (cs ++ t) p in_plain keep (some ((cs ∷ r) ∷ rows)) (plain_step p w c (ground arith))
      (read-plain cs t r rows ends (ground arith) in_plain (inr (inr refl)))
    ∙ kept c cs r rows

read-quoted :
    (v t : Text) (r : List Text) (rows : List (List Text))
    → Ends t r rows
    → read ((double_quotes v ++ 34 ∷ []) ++ t) in_quoted ≡ some ((v ∷ r) ∷ rows)
unfolding double_quotes read step kind act
read-quoted [] t r rows (e, f, g, k) = k
read-quoted (c ∷ cs) t r rows ends = elim (Bool-cases (c == 34)) [
  | inl is_quote ↦
      let same : c ≡ 34 = ground arith in
      rw (is_quote, read-quoted cs t r rows ends)
        (ap (λ d. some (((d ∷ cs) ∷ r) ∷ rows)) (sym same))
  | inr plain ↦
      rw (plain, read)
        (read_next c ((double_quotes cs ++ 34 ∷ []) ++ t) in_quoted in_quoted keep
            (some ((cs ∷ r) ∷ rows)) (kind_kept c plain) (read-quoted cs t r rows ends)
          ∙ kept c cs r rows)
]

no_special : (v : Text) → needs_quotes v ≡ false → any is_special v ≡ false
unfolding needs_quotes
no_special v h = ground arith

open_step :
    (p : Place) → (p ≡ row_start) ⊎ (p ≡ cell_start) → step p (kind 34) ≡ some (skip, in_quoted)
unfolding step kind
open_step row_start w = refl
open_step cell_start w = refl
open_step in_plain w = ground arith
open_step in_quoted w = ground arith
open_step after_quote w = ground arith
open_step after_cr w = ground arith

skipped : (c : ℕ) (rows : Rows) → act skip c rows ≡ rows
unfolding act
skipped c rows = refl

-- A cell as `quoteCell` writes it is read as its value.
pub read-quote_cell :
    (v t : Text) (r : List Text) (rows : List (List Text))
    → Ends t r rows
    → (p : Place) → (p ≡ row_start) ⊎ (p ≡ cell_start)
    → read (quote_cell v ++ t) p ≡ some ((v ∷ r) ∷ rows)
unfolding quote_cell
read-quote_cell v t r rows ends p w = elim (Bool-cases (needs_quotes v)) [
  | inl quoted ↦ rw quoted (opened p w)
  | inr plain ↦ rw plain (read-plain v t r rows ends (no_special v plain) p (ground arith))
]
  where
    opened :
        (p : Place)
        → (p ≡ row_start) ⊎ (p ≡ cell_start)
        → read ((34 ∷ (double_quotes v ++ 34 ∷ [])) ++ t) p ≡ some ((v ∷ r) ∷ rows)
    opened p w =
        read_next 34 ((double_quotes v ++ 34 ∷ []) ++ t) p in_quoted skip (some ((v ∷ r) ∷ rows))
          (open_step p w) (read-quoted v t r rows ends)
        ∙ skipped 34 (some ((v ∷ r) ∷ rows))

append_assoc : (xs ys zs : Text) → (xs ++ ys) ++ zs ≡ xs ++ (ys ++ zs)
append_assoc [] ys zs = refl
append_assoc (x ∷ xs) ys zs = ground (arith, append_assoc xs ys zs)

-- A comma, and the end of a row.
comma-Ends :
    (t v : Text) (r : List Text) (rows : List (List Text))
    → read t cell_start ≡ some ((v ∷ r) ∷ rows)
    → Ends (44 ∷ t) (v ∷ r) rows
unfolding read step kind act
comma-Ends t v r rows h = (rw h refl, rw h refl, rw h refl, rw h refl)

row-Ends :
    (t : Text) (rows : List (List Text)) → read t row_start ≡ some rows → Ends (13 ∷ 10 ∷ t) [] rows
unfolding read step kind act
row-Ends t rows h = (rw h refl, rw h refl, rw h refl, rw h refl)

abbrev pub line : List Text → Text
line vs = join (44 ∷ []) (map quote_cell vs)

-- A row of one cell or more.
read-line :
    (v : Text) (vs : List Text) (t : Text) (rows : List (List Text))
    → read t row_start ≡ some rows
    → (p : Place) → (p ≡ row_start) ⊎ (p ≡ cell_start)
    → read (line (v ∷ vs) ++ 13 ∷ 10 ∷ t) p ≡ some ((v ∷ vs) ∷ rows)
unfolding join
read-line v [] t rows h p w = read-quote_cell v (13 ∷ 10 ∷ t) [] rows (row-Ends t rows h) p w
read-line v (u ∷ vs) t rows h p w =
    ap (λ k. read k p) (append_assoc (quote_cell v) ((44 ∷ []) ++ line (u ∷ vs)) (13 ∷ 10 ∷ t))
    ∙ read-quote_cell v (44 ∷ (line (u ∷ vs) ++ 13 ∷ 10 ∷ t)) (u ∷ vs) rows
        (comma-Ends (line (u ∷ vs) ++ 13 ∷ 10 ∷ t) u vs rows
          (read-line u vs t rows h cell_start (inr refl)))
        p w

abbrev pub lines : List (List Text) → Text
lines rows = join (13 ∷ 10 ∷ []) (map line rows) ++ 13 ∷ 10 ∷ []

abbrev pub AllFilled : List (List Text) → Type 0
AllFilled rows = All (λ vs. (v : Text) × (ws : List Text) × (vs ≡ v ∷ ws)) rows

filled_line :
    (vs : List Text) (t : Text) (rows : List (List Text))
    → ((v : Text) × (ws : List Text) × (vs ≡ v ∷ ws))
    → read t row_start ≡ some rows
    → read (line vs ++ 13 ∷ 10 ∷ t) row_start ≡ some (vs ∷ rows)
filled_line vs t rows (v, ws, e) h =
    subst (λ k. read (line k ++ 13 ∷ 10 ∷ t) row_start ≡ some (k ∷ rows)) (sym e)
      (read-line v ws t rows h row_start (inl refl))

nothing_left : read [] row_start ≡ some []
unfolding read
nothing_left = refl

-- Rows that are not empty, each ended by CRLF.
pub read-lines :
    (row : List Text) (rows : List (List Text))
    → AllFilled (row ∷ rows)
    → read (lines (row ∷ rows)) row_start ≡ some (row ∷ rows)
unfolding join
read-lines row [] (e, all) = filled_line row [] [] e nothing_left
read-lines row (next ∷ rows) (e, all) =
    ap (λ k. read k row_start)
      (append_assoc (line row) (13 ∷ 10 ∷ join (13 ∷ 10 ∷ []) (map line (next ∷ rows)))
        (13 ∷ 10 ∷ []))
    ∙ filled_line row (lines (next ∷ rows)) (next ∷ rows) e (read-lines next rows all)
