-- ===== src/Reporting/Accepted.antt =====
-- modules/reporting/service.ts, `resolveRequest`: what an accepted request is, and that a request
-- without filters is accepted.
use scope_is_team_management.Base.{
  ℕ, true, ◌≡◌, ◌<◌, ◌-◌, ◌*◌, ◌||◌, not, arith, refl, inl, inr, ok, Option, none, some, ltb,
  Bool-cases, >>=-eq-ok, ensure_passed, ok-injective, sym, subst,
}
use scope_is_team_management.Dates.{Date, key}
use scope_is_team_management.Reporting.Contracts.{ReportKey}
use scope_is_team_management.Reporting.Definitions.{reports}
use scope_is_team_management.Reporting.Windows.{
  DateWindow, time_key, current_dubai_month, validation_error, assert_window, full_business_day,
}
use scope_is_team_management.Reporting.Requests.{
  ReportQuery, WindowRequest, resolve_request, is_leave_report, inside, or_else, report_page_size,
  fallback_window, parse_month, assert_supported_report_filters, all_inside, selected_date,
}
use scope_is_team_management.Reporting.Bounds.{IsWindow, assert_window-IsWindow}

selected_inside :
    (key : ReportKey) (today : Date) (window : DateWindow) (days : ℕ) (date : Option Date)
    → IsWindow window days
    → (not (is_leave_report key) || all_inside window date) ≡ true
    → is_leave_report key ≡ true
    → inside window (selected_date key today window date) ≡ true
selected_inside key today window days (some date) (_, _, ordered, _) h leave = ground arith
selected_inside key today window days none (_, _, ordered, _) h leave =
    elim (Bool-cases (inside window today)) [
      | inl now ↦ rw (leave, now) now
      | inr later ↦ rw (leave, later) (ground (arith, ordered))
    ]

-- A window of calendar days, in order and no longer than the report allows; a page of 100 rows that
-- starts after the rows of the earlier pages; a conflict time that ends after it starts; and for
-- the approved-leave report a conflict day inside the window.
abbrev pub IsBounded : ReportKey → WindowRequest → Type 0
IsBounded report r =
    IsWindow r.window (reports report).max_window_days
    × (r.limit ≡ report_page_size)
    × (r.offset ≡ (r.page - 1) * report_page_size)
    × (time_key r.conflict.start < time_key r.conflict.end)
    × (is_leave_report report ≡ true → inside r.window r.conflict.date ≡ true)

-- Every request that the code accepts, for any report, day and query, has a window of calendar
-- days, in order and no longer than the report allows; a page of 100 rows that starts after the
-- rows of the earlier pages; a conflict time that ends after it starts; and for the approved-leave
-- report a conflict day inside the window.
pub resolve_request-IsBounded :
    {S : Type 0} (today : Date) (report : ReportKey) (query : ReportQuery) (r : WindowRequest)
    (s s' : S)
    → resolve_request today report query s ≡ ok (r, s')
    → IsBounded report r
unfolding resolve_request full_business_day
resolve_request-IsBounded today report query r s s' h =
    let (month, s1, e1, h1) =
      >>=-eq-ok (parse_month query.month (current_dubai_month today)) _ s h in
    let (_, s2, e2, h2) = >>=-eq-ok (assert_supported_report_filters report query) _ s1 h1 in
    let (fallback, s3, e3, h3) = >>=-eq-ok (fallback_window report today month) _ s2 h2 in
    let asked : DateWindow = record {
      from = or_else query.from fallback.from;
      to = or_else query.to fallback.to;
    } in
    let days = (reports report).max_window_days in
    let (window, s4, e4, h4) = >>=-eq-ok (assert_window asked days) _ s3 h3 in
    let (same, _, is_window) = assert_window-IsWindow asked window days s3 s4 e4 in
    let window_ok : IsWindow window days = subst (λ w. IsWindow w days) (sym same) is_window in
    let (in_window, h5) =
      ensure_passed (not (is_leave_report report) || all_inside window query.date) validation_error
        _ s4 h4 in
    let start = or_else query.start (record { hours = 0; minutes = 0 }) in
    let end = or_else query.end (record { hours = 24; minutes = 0 }) in
    let (timed, h6) =
      ensure_passed (ltb (time_key start) (time_key end)) validation_error _ s4 h5 in
    subst (λ p. IsBounded report p.0) (ok-injective _ refl h6)
      (
        window_ok,
        refl,
        refl,
        ground (arith, timed),
        selected_inside report today window days query.date window_ok in_window,
      )
