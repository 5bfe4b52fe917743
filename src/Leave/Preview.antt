-- ===== src/Leave/Preview.antt =====
-- modules/leave/vacation-preview.ts, and its agreement with the balances of the service.
use scope_is_team_management.Base.{
  ℕ, ℤ, minus, Bool, true, false, ◌&&◌, ◌||◌, not, Option, none, some, List, [], ◌∷◌, map, leb, ◌+◌,
  if◌then◌else◌, ◌≡◌, refl, ap,
}
use scope_is_team_management.Dates.{Date, month_length, before}
use scope_is_team_management.Leave.DateRules.{
  working_days, working_days_by_year, YearDays, year_start, year_end, later, earlier, sum,
  intersection_days,
}
use scope_is_team_management.Leave.Repository.{LeaveRow, LeaveStore, AllowanceRow, pending}
use scope_is_team_management.Leave.Service.{used_days, Balance, balance_of, approved_for}

pub record ApprovedVacationDates : Type 0 where
  pub start_date : Date
  pub end_date : Date

-- `isCalendarDate`, on a text that spells a year, a month and a day.
unfoldable pub is_calendar_date : Date → Bool
is_calendar_date d =
    leb 1 d.month && (leb d.month 12 && (leb 1 d.day && leb d.day (month_length d.year d.month)))

-- One step of `approved.reduce(...)`.
abbrev pub days_in_year : ℕ → ApprovedVacationDates → ℕ
days_in_year y r =
    if before (year_end y) r.start_date || before r.end_date (year_start y)
    then 0
    else working_days (later r.start_date (year_start y)) (earlier r.end_date (year_end y))

pub record Preview : Type 0 where
  pub year : ℕ
  pub requested : ℕ
  pub remaining : ℤ
  pub projected_remaining : ℤ

abbrev pub preview_of : ℕ → List ApprovedVacationDates → YearDays → Preview
preview_of allowance approved y =
    let used = sum (map (days_in_year y.year) approved) in
    record {
      year = y.year;
      requested = y.working_days;
      remaining = minus allowance used;
      projected_remaining = minus allowance (used + y.working_days);
    }

-- `vacationPreview`
unfoldable pub vacation_preview :
    Date → Date → ℕ → List ApprovedVacationDates → Option (List Preview)
vacation_preview start end allowance approved =
    if not (is_calendar_date start) || (not (is_calendar_date end) || before end start)
    then none
    else some (map (preview_of allowance approved) (working_days_by_year start end))

abbrev pub dates_of : LeaveRow → ApprovedVacationDates
dates_of r = record { start_date = r.start_date; end_date = r.end_date }

abbrev pub shown : Balance → Preview
shown b = record {
  year = b.year;
  requested = b.requested_working_days;
  remaining = b.remaining;
  projected_remaining = b.projected_remaining;
}

same_used :
    (y : ℕ) (rows : List LeaveRow)
    → sum (map (days_in_year y) (map dates_of rows)) ≡ used_days rows y
unfolding used_days sum intersection_days
same_used y [] = refl
same_used y (r ∷ rows) =
    ap (λ n. intersection_days r.start_date r.end_date y + n) (same_used y rows)

same_balances :
    (a : AllowanceRow) (rows : List LeaveRow) (years : List YearDays)
    → map (preview_of a.annual_working_days (map dates_of rows)) years
      ≡ map shown (map (balance_of pending a rows) years)
same_balances a rows [] = refl
same_balances a rows (y ∷ years) = rw (same_used y.year rows, same_balances a rows years) refl

-- For a pending request with two calendar dates in order, the preview of its dates, given the dates of
-- the approved requests that the service reads, shows the balances that the service computes.
pub vacation_preview-eq-balances :
    (r : LeaveRow) (a : AllowanceRow) (s : LeaveStore)
    → r.status ≡ pending
    → is_calendar_date r.start_date ≡ true
    → is_calendar_date r.end_date ≡ true
    → before r.end_date r.start_date ≡ false
    → vacation_preview r.start_date r.end_date a.annual_working_days
        (map dates_of (approved_for r s))
      ≡ some (
          map shown (
            map
              (balance_of r.status a (approved_for r s))
              (working_days_by_year r.start_date r.end_date)))
unfolding vacation_preview
vacation_preview-eq-balances r a s p is_start is_end ordered =
    rw (is_start, is_end, ordered, p)
      (ap some (same_balances a (approved_for r s) (working_days_by_year r.start_date r.end_date)))
