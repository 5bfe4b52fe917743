-- ===== src/Leave/DateRules.antt =====
-- modules/leave/date-rules.ts and the date helpers of modules/leave/service.ts.
use scope_is_team_management.Base.{ℕ, zero, suc, List, [], ◌∷◌, ◌+◌, ◌-◌, ◌||◌, if◌then◌else◌}
use scope_is_team_management.Dates.{Date, day_number, before, is_working_day}

-- The loop of `workingDays`: the Mondays to Fridays among a number of days from a cursor on.
unfoldable pub count_working : (cursor days : ℕ) → ℕ
count_working cursor zero = 0
count_working cursor (suc days) =
    (if is_working_day cursor then 1 else 0) + count_working (suc cursor) days

-- `workingDays`: both ends are counted, and an end before the start gives none.
unfoldable pub working_days : Date → Date → ℕ
working_days start end = count_working (day_number start) (suc (day_number end) - day_number start)

abbrev pub year_start : ℕ → Date
year_start y = record { year = y; month = 1; day = 1 }

abbrev pub year_end : ℕ → Date
year_end y = record { year = y; month = 12; day = 31 }

-- `startDate > start ? startDate : start` and `endDate < end ? endDate : end`
abbrev pub later : Date → Date → Date
later a b = if before b a then a else b

abbrev pub earlier : Date → Date → Date
earlier a b = if before a b then a else b

-- An entry of `workingDaysByYear`.
pub record YearDays : Type 0 where
  pub year : ℕ
  pub working_days : ℕ

abbrev pub year_days : Date → Date → ℕ → YearDays
year_days start end y = record {
  year = y;
  working_days = working_days (later start (year_start y)) (earlier end (year_end y));
}

-- The loop of `workingDaysByYear`, for a number of years from a year on.
unfoldable pub years_from : Date → Date → (year count : ℕ) → List YearDays
years_from start end year zero = []
years_from start end year (suc count) =
    year_days start end year ∷ years_from start end (suc year) count

-- `workingDaysByYear`
unfoldable pub working_days_by_year : Date → Date → List YearDays
working_days_by_year start end = years_from start end start.year (suc end.year - start.year)

-- `intersectionDays`: the working days of a range within a year.
unfoldable pub intersection_days : Date → Date → ℕ → ℕ
intersection_days start end y =
    if before (year_end y) start || before end (year_start y)
    then 0
    else working_days (later start (year_start y)) (earlier end (year_end y))

unfoldable pub sum : List ℕ → ℕ
sum [] = 0
sum (n ∷ ns) = n + sum ns
