-- ===== src/Dates.antt =====
-- Business dates: the calendar behind `Date` in UTC, as modules/leave/date-rules.ts and
-- modules/reporting/date-rules.ts use it. A date is the triple that its text "YYYY-MM-DD" spells,
-- with a year of four digits; texts of that form order as the numbers yyyymmdd.
pub mod Calendar
pub mod Civil
use scope_is_team_management.Base.{
  ℕ, zero, suc, ◌-◌, Bool, true, false, ◌&&◌, ◌||◌, not, ◌+◌, ◌*◌, ◌%◌, ◌<◌, ◌≤◌, ◌==◌, ltb, leb,
  if◌then◌else◌, arith, ◌≡◌,
}

pub record Date : Type 0 where
  pub year : ℕ
  pub month : ℕ
  pub day : ℕ

unfoldable pub is_leap : ℕ → Bool
is_leap y = (y % 4 == 0) && (not (y % 100 == 0) || (y % 400 == 0))

abbrev pub year_length : ℕ → ℕ
year_length y = if is_leap y then 366 else 365

unfoldable pub month_length : ℕ → ℕ → ℕ
month_length y m =
    if m == 2
    then (if is_leap y then 29 else 28)
    else if (m == 4 || (m == 6 || (m == 9 || m == 11)))
    then 30
    else 31

-- The days of the first months of a year.
unfoldable pub days_in_months : ℕ → ℕ → ℕ
days_in_months y zero = 0
days_in_months y (suc m) = days_in_months y m + month_length y (suc m)

-- The days from the start of the year 0 to the start of a year.
unfoldable pub days_before_year : ℕ → ℕ
days_before_year zero = 0
days_before_year (suc y) = days_before_year y + year_length y

-- `Date.parse`, in days.
unfoldable pub day_number : Date → ℕ
day_number d = days_before_year d.year + days_in_months d.year (d.month - 1) + d.day

-- The text of a date as a number, and `a < b` on texts of dates.
abbrev pub key : Date → ℕ
key d = d.year * 10000 + d.month * 100 + d.day

abbrev pub before : Date → Date → Bool
before a b = ltb (key a) (key b)

-- A date of the calendar.
abbrev pub IsDate : Date → Type 0
IsDate d = (1 ≤ d.month) × (d.month ≤ 12) × (1 ≤ d.day) × (d.day ≤ month_length d.year d.month)

-- `getUTCDay`: the first of January of the year 0 is a Saturday, and has the day number 1.
abbrev pub weekday : ℕ → ℕ
weekday n = (n + 5) % 7

abbrev pub is_working_day : ℕ → Bool
is_working_day n = leb 1 (weekday n) && leb (weekday n) 5
