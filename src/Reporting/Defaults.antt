-- ===== src/Reporting/Defaults.antt =====
-- modules/reporting/service.ts, `resolveRequest`: the window a report has before anyone chooses one.
use scope_is_team_management.Base.{
  ℕ, Bool, true, ◌≡◌, ◌≤◌, ◌&&◌, ◌||◌, not, arith, refl, inl, inr, ok, Option, none, leb,
  Bool-cases, >>=-ok, ensure-ok, ◌∙◌,
}
use scope_is_team_management.Dates.{Date, IsDate, day_number, days_in_months, month_length, is_leap}
use scope_is_team_management.Dates.Calendar.{whole_year}
use scope_is_team_management.Reporting.Contracts.{
  ReportKey, published_allocation_report, unallocated_employees_report, scheduled_hours_report,
  planning_unpublished_report, approved_leave_report, leave_balance_report,
  coverage_replacement_report, skills_coverage_report, skill_gaps_report,
  certification_status_report, evidence_review_queue_report, schedule_lifecycle_report,
  audit_history_report,
}
use scope_is_team_management.Reporting.Definitions.{reports}
use scope_is_team_management.Reporting.Windows.{
  DateWindow, PlanningMonth, month_bounds, current_dubai_month, utc_year, is_planning_month,
  assert_window, validation_error, full_business_day,
}
use scope_is_team_management.Reporting.Requests.{
  ReportQuery, WindowRequest, resolve_request, fallback_window, parse_month, is_leave_report,
  is_annual, assert_supported_report_filters,
}
use scope_is_team_management.Reporting.Bounds.{IsWindow, window_accepted}

long_enough : (report : ReportKey) → 90 ≤ (reports report).max_window_days
unfolding reports published_allocation_report unallocated_employees_report scheduled_hours_report
    planning_unpublished_report approved_leave_report leave_balance_report
    coverage_replacement_report skills_coverage_report skill_gaps_report certification_status_report
    evidence_review_queue_report schedule_lifecycle_report audit_history_report
long_enough report = ground arith

annual_enough :
    (report : ReportKey) → is_annual report ≡ true → (reports report).max_window_days ≡ 366
unfolding reports leave_balance_report audit_history_report
annual_enough report h = ground arith

utc_month : (y m : ℕ) → month_length (utc_year y) m ≤ month_length y m
unfolding month_length is_leap
utc_month y m = ground arith

short_month : (y m : ℕ) → (1 ≤ month_length y m) × (month_length y m ≤ 31)
unfolding month_length
short_month y m = ground arith

-- The window of a month.
abbrev month_window : PlanningMonth → DateWindow
month_window m = record {
  from = record { year = m.year; month = m.month; day = 1 };
  to = record { year = m.year; month = m.month; day = month_length (utc_year m.year) m.month };
}

month_window-IsWindow :
    (m : PlanningMonth) (days : ℕ)
    → 1 ≤ m.month
    → m.month ≤ 12
    → 31 ≤ days
    → IsWindow (month_window m) days
unfolding day_number
month_window-IsWindow m days low high long =
    let (one, _) = short_month m.year m.month in
    let (one', most) = short_month (utc_year m.year) m.month in
    let within = utc_month m.year m.month in
    (
      (low, high, omega arith, one),
      (low, high, one', within),
      omega (arith, one'),
      omega (arith, most, long),
    )

calendar_year-IsWindow :
    (y : ℕ)
    → IsWindow
        (record {
          from = record { year = y; month = 1; day = 1 };
          to = record { year = y; month = 12; day = 31 };
        })
        366
unfolding day_number month_length days_in_months
calendar_year-IsWindow y = ground (arith, whole_year y)

fallback_found :
    {S : Type 0} (report : ReportKey) (today : Date) (s : S)
    → IsDate today
    → (w : DateWindow) × (fallback_window report today (current_dubai_month today) s ≡ ok (w, s))
      × IsWindow w (reports report).max_window_days
unfolding fallback_window month_bounds is_planning_month current_dubai_month
fallback_found report today s (low, high, _, _) = elim (Bool-cases (is_annual report)) [
  | inl annual ↦ (
    record {
      from = record { year = today.year; month = 1; day = 1 };
      to = record { year = today.year; month = 12; day = 31 };
    },
    rw (fallback_window, annual) refl,
    rw (annual_enough report annual) (calendar_year-IsWindow today.year),
  )
  | inr monthly ↦
      let month = current_dubai_month today in
      let real : (leb 1 today.month && leb today.month 12) ≡ true = ground (arith, low, high) in
      (
        month_window month,
        rw (fallback_window, monthly, real) refl,
        month_window-IsWindow month (reports report).max_window_days low high
            (omega (arith, long_enough report)),
      )
]

or_true : (b : Bool) → (b || true) ≡ true
or_true b = ground arith

-- A query that only names a page.
abbrev pub page_query : Option ℕ → ReportQuery
page_query page = record {
  from = none;
  to = none;
  month = none;
  page = page;
  date = none;
  start = none;
  end = none;
  client_id = none;
  project_id = none;
  location_id = none;
  skill_id = none;
  action = none;
  target_type = none;
  actor_user_id = none;
}

-- On every day of the calendar, every report accepts a request that names no filter: the window it
-- falls back to, this month's or this year's, is never too large for the report.
pub default_request_accepted :
    {S : Type 0} (report : ReportKey) (today : Date) (page : Option ℕ) (s : S)
    → IsDate today
    → (r : WindowRequest) × (resolve_request today report (page_query page) s ≡ ok (r, s))
unfolding resolve_request parse_month assert_supported_report_filters full_business_day
default_request_accepted report today page s is_today =
    let (w, found, is_window) = fallback_found report today s is_today in
    let accepted = window_accepted w (reports report).max_window_days s is_window in
    (
      _,
      >>=-ok (fallback_window report today (current_dubai_month today)) _ s found
          ∙ (>>=-ok (assert_window w (reports report).max_window_days) _ s accepted
              ∙ (ensure-ok (not (is_leave_report report) || true) validation_error _ s
                    (or_true (not (is_leave_report report)))
                  ∙ refl)),
    )
