-- ===== src/Reporting/Cells.antt =====
-- modules/reporting/service.ts: the columns and cells of reports. A cell holds what its text
-- prints: a number, a date, a month, a time, hours to two decimals.
use Prim.Native.String.{String}
use scope_is_team_management.Base.{
  ℕ, ℤ, Bool, ◌&&◌, ◌+◌, ◌*◌, ◌/◌, Option, none, some, List, map, if◌then◌else◌,
}
use scope_is_team_management.Dates.{Date}
use scope_is_team_management.Leave.Repository.{PeriodStatus}
use scope_is_team_management.Tables.{ReviewState, EvidenceKind, EffectStatus}
use scope_is_team_management.Reporting.Windows.{Time}

-- `ConflictValue`
pub data ConflictValue : Type 0 where
  no_conflict leave_conflict schedule_conflict both_conflict : ConflictValue

-- `conflictValue`
unfoldable pub conflict_value : Bool → Bool → ConflictValue
conflict_value has_approved_leave has_schedule_overlap =
    if has_approved_leave && has_schedule_overlap
    then both_conflict
    else if has_approved_leave
    then leave_conflict
    else if has_schedule_overlap
    then schedule_conflict
    else no_conflict

-- `ExpiryStatus`
pub data ExpiryStatus : Type 0 where
  no_expiry valid expired : ExpiryStatus

pub data Cell : Type 0 where
  words_cell : String → Cell
  number_cell : ℕ → Cell
  difference_cell : ℤ → Cell
  date_cell : Date → Cell
  month_cell : Date → Cell
  time_cell : Time → Cell
  hours_cell : ℕ → Cell
  instant_cell : ℕ → Cell
  conflict_cell : ConflictValue → Cell
  status_cell : PeriodStatus → Cell
  review_cell : ReviewState → Cell
  kind_cell : EvidenceKind → Cell
  effect_cell : EffectStatus → Cell
  expiry_cell : ExpiryStatus → Cell
  team_cell : ℕ → Cell

-- `formatHours(minutes / 60)`: the hundredths of an hour that are nearest.
unfoldable pub hundredths : ℕ → ℕ
hundredths minutes = (10 * minutes + 3) / 6

-- `ReportColumn`: a key with its label.
abbrev pub Column : Type 0
Column = String × String

-- `ReportRow`
abbrev pub Row : Type 0
Row = List (String × Cell)

-- What a builder returns, without its notes.
pub record Built : Type 0 where
  pub columns : List Column
  pub rows : List Row
  pub total : Option ℕ
  pub unavailable : Bool

abbrev pub keys : {A : Type 0} → List (String × A) → List String
keys cells = map (λ c. c.0) cells

abbrev pub or_words : String → Option String → Cell
or_words missing none = words_cell missing
or_words missing (some text) = words_cell text
