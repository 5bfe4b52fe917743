-- ===== src/Reporting/Windows.antt =====
-- modules/reporting/domain-error.ts and date-rules.ts: the errors of reports, and the windows of
-- business dates, months and wall-clock times. A date, a month and a time are the numbers that
-- their texts "YYYY-MM-DD", "YYYY-MM" and "HH:MM" spell.
use Prim.Native.String.{String}
use scope_is_team_management.Base.{
  ◌%◌, ◌/◌, ◌∷◌, [], Text, ℕ, ℤ, pos, negsuc, minus, Bool, true, false, ◌&&◌, ◌||◌, not, ◌+◌, ◌*◌,
  ◌==◌, ltb, leb, if◌then◌else◌, Tx, pure, throw, ensure, ◌>>=◌, ◌>>◌, Option, none, some,
}
use scope_is_team_management.Dates.{Date, month_length, day_number, before}
use scope_is_team_management.Dates.Civil.{date_of}

-- `ReportErrorCode`
pub data ReportError : Type 0 where
  not_found forbidden out_of_scope validation_error : ReportError
  window_too_large export_too_large : ReportError

-- `messages`
unfoldable pub message : ReportError → String
message not_found = "The requested report was not found."
message forbidden = "The requested report was not found."
message out_of_scope = "The requested report was not found."
message validation_error = "Please check the submitted report request."
message window_too_large = "Narrow the date range and try again."
message export_too_large = "Narrow the date range or filters (limit 5,000 rows)"

-- `["NOT_FOUND", "FORBIDDEN", "OUT_OF_SCOPE"].includes(code)`
unfoldable pub is_non_enumerating : ReportError → Bool
is_non_enumerating not_found = true
is_non_enumerating forbidden = true
is_non_enumerating out_of_scope = true
is_non_enumerating validation_error = false
is_non_enumerating window_too_large = false
is_non_enumerating export_too_large = false

abbrev is_validation : ReportError → Bool
is_validation validation_error = true
is_validation _ = false

abbrev is_export_size : ReportError → Bool
is_export_size export_too_large = true
is_export_size _ = false

-- `ReportDomainError.status`
unfoldable pub error_status : ReportError → ℕ
unfolding is_non_enumerating
error_status code =
    if is_non_enumerating code
    then 404
    else if is_validation code
    then 400
    else if is_export_size code
    then 413
    else 409

abbrev digit : ℕ → ℕ
digit n = 48 + n % 10

-- The text "YYYY-MM-DD" of a date.
unfoldable pub date_text : Date → Text
date_text d =
    digit (d.year / 1000)
    ∷ digit (d.year / 100)
    ∷ digit (d.year / 10)
    ∷ digit d.year
    ∷ 45
    ∷ digit (d.month / 10)
    ∷ digit d.month
    ∷ 45
    ∷ digit (d.day / 10)
    ∷ digit d.day
    ∷ []

pub record DateWindow : Type 0 where
  pub from : Date
  pub to : Date

pub record PlanningMonth : Type 0 where
  pub year : ℕ
  pub month : ℕ

pub record Time : Type 0 where
  pub hours : ℕ
  pub minutes : ℕ

-- `a < b` on texts of times.
abbrev pub time_key : Time → ℕ
time_key t = t.hours * 100 + t.minutes

-- `Date.parse`, in days: there is no 13th month and no 32nd day; a day past the end of its month
-- counts into the next.
unfoldable pub parse_day : Date → Option ℕ
parse_day d =
    if leb 1 d.month && (leb d.month 12 && (leb 1 d.day && leb d.day 31))
    then some (day_number d)
    else none

abbrev pub same_date : Date → Date → Bool
same_date a b = a.year == b.year && (a.month == b.month && a.day == b.day)

-- `isBusinessDate`
unfoldable pub is_business_date : Date → Bool
is_business_date value = elim (parse_day value) [
  | none ↦ false
  | some timestamp ↦ same_date (date_of timestamp) value
]

-- `isPlanningMonth`
unfoldable pub is_planning_month : PlanningMonth → Bool
is_planning_month value = leb 1 value.month && leb value.month 12

-- `isWallClockTime`
unfoldable pub is_wall_clock_time : Time → Bool
is_wall_clock_time value =
    (ltb value.hours 24 && ltb value.minutes 60) || (value.hours == 24 && value.minutes == 0)

-- `currentDubaiMonth`, of today's date in Dubai.
unfoldable pub current_dubai_month : Date → PlanningMonth
current_dubai_month today = record { year = today.year; month = today.month }

-- `Date.UTC` reads a year below 100 as one of the twentieth century.
abbrev pub utc_year : ℕ → ℕ
utc_year y = if ltb y 100 then 1900 + y else y

-- `monthBounds`
unfoldable pub month_bounds : {S : Type 0} → PlanningMonth → Tx S ReportError DateWindow
month_bounds month = do
  ensure (is_planning_month month) validation_error
  let days = month_length (utc_year month.year) month.month
  pure (record {
    from = record { year = month.year; month = month.month; day = 1 };
    to = record { year = month.year; month = month.month; day = days };
  })

abbrev next_whole : ℤ → ℤ
next_whole (pos n) = pos (n + 1)
next_whole (negsuc n) = minus 0 n

-- `inclusiveDayCount`
unfoldable pub inclusive_day_count : {S : Type 0} → Date → Date → Tx S ReportError ℤ
inclusive_day_count from to = elim (parse_day from) [
  | none ↦ throw validation_error
  | some start ↦ elim (parse_day to) [
    | none ↦ throw validation_error
    | some end ↦ pure (next_whole (minus end start))
  ]
]

-- `addDays`, for a number of days that is not negative.
unfoldable pub add_days : {S : Type 0} → Date → ℕ → Tx S ReportError Date
add_days date days = do
  ensure (is_business_date date) validation_error
  pure (date_of (day_number date + days))

-- `a > b`, for a number that is not negative on the right.
abbrev pub above : ℤ → ℕ → Bool
above (pos a) b = ltb b a
above (negsuc a) b = false

-- `assertWindow`
unfoldable pub assert_window : {S : Type 0} → DateWindow → ℕ → Tx S ReportError DateWindow
assert_window window max_days = do
  ensure (is_business_date window.from && is_business_date window.to) validation_error
  ensure (not (before window.to window.from)) validation_error
  count ← inclusive_day_count window.from window.to
  ensure (not (above count max_days)) window_too_large
  pure window

abbrev to_minutes : Time → ℕ
to_minutes t = t.hours * 60 + t.minutes

-- `minutesBetween`
unfoldable pub minutes_between : Time → Time → ℤ
minutes_between start end = minus (to_minutes end) (to_minutes start)

-- `timesOverlap`
unfoldable pub times_overlap : Time → Time → Time → Time → Bool
times_overlap start_time end_time start end =
    ltb (time_key start_time) (time_key end) && ltb (time_key start) (time_key end_time)

pub record ConflictWindow : Type 0 where
  pub date : Date
  pub start : Time
  pub end : Time

-- `fullBusinessDay`
unfoldable pub full_business_day : Date → ConflictWindow
full_business_day date = record {
  date = date;
  start = record { hours = 0; minutes = 0 };
  end = record { hours = 24; minutes = 0 };
}
