-- ===== src/Reporting/Unchanged.antt =====
-- modules/reporting/service.ts, `resolveRequest`: it reads the request and changes no table.
use scope_is_team_management.Base.{
  refl, Bool, true, false, ◌≡◌, ◌∙◌, sym, ap, not, ◌||◌, Option, none, some, ok, ensure, >>=-eq-ok,
  ensure_passed, ok-injective, Bool-cases, inl, inr, ltb,
}
use scope_is_team_management.Dates.{Date}
use scope_is_team_management.Reporting.Contracts.{ReportKey}
use scope_is_team_management.Reporting.Definitions.{reports}
use scope_is_team_management.Reporting.Windows.{
  ReportError, validation_error, PlanningMonth, is_planning_month, month_bounds, DateWindow,
  assert_window, current_dubai_month, full_business_day, time_key,
}
use scope_is_team_management.Reporting.Requests.{
  ReportQuery, WindowRequest, parse_month, fallback_window, is_annual, or_else, resolve_request,
  assert_supported_report_filters, is_leave_report, all_inside,
}
use scope_is_team_management.Reporting.Bounds.{assert_window-IsWindow}

module _ {S : Type 0} where
  ensure_same :
      (b : Bool) (e : ReportError) (s s' : S) (u : Unit {0}) → ensure b e s ≡ ok (u, s') → s' ≡ s
  ensure_same true e s s' u h = cc
  ensure_same false e s s' u h = cc

  parse_month_same :
      (value : Option PlanningMonth) (fallback m : PlanningMonth) (s s' : S)
      → parse_month value fallback s ≡ ok (m, s')
      → s' ≡ s
  unfolding parse_month
  parse_month_same none fallback m s s' h = cc
  parse_month_same (some value) fallback m s s' h =
      let (b, h₁) = ensure_passed (is_planning_month value) validation_error _ s h in cc

  bounds_same :
      (m : PlanningMonth) (w : DateWindow) (s s' : S) → month_bounds m s ≡ ok (w, s') → s' ≡ s
  unfolding month_bounds
  bounds_same m w s s' h =
      let (b, h₁) = ensure_passed (is_planning_month m) validation_error _ s h in
      sym (ap (λ (x : DateWindow × S). x.1) (ok-injective _ refl h₁))

  fallback_same :
      (k : ReportKey) (today : Date) (m : PlanningMonth) (w : DateWindow) (s s' : S)
      → fallback_window k today m s ≡ ok (w, s')
      → s' ≡ s
  unfolding fallback_window
  fallback_same k today m w s s' h = elim (Bool-cases (is_annual k)) [
    | inl annual ↦
        sym (
          ap (λ (x : DateWindow × S). x.1)
            (ok-injective _ refl (rw (annual, fallback_window) at h)))
    | inr monthly ↦ bounds_same m w s s' (rw (monthly, fallback_window) at h)
  ]

  filters_same :
      (report : ReportKey) (query : ReportQuery) (s s' : S) (u : Unit {0})
      → assert_supported_report_filters report query s ≡ ok (u, s')
      → s' ≡ s
  unfolding assert_supported_report_filters
  filters_same report query s s' u h = ensure_same _ validation_error s s' u h

  pub resolve_request-same :
      (today : Date) (report : ReportKey) (query : ReportQuery) (s s' : S) (r : WindowRequest)
      → resolve_request today report query s ≡ ok (r, s')
      → s' ≡ s
  unfolding resolve_request full_business_day
  resolve_request-same today report query s s' r h =
      let (month, s1, e1, h1) =
        >>=-eq-ok (parse_month query.month (current_dubai_month today)) _ s h in
      let (u, s2, e2, h2) = >>=-eq-ok (assert_supported_report_filters report query) _ s1 h1 in
      let (fallback, s3, e3, h3) = >>=-eq-ok (fallback_window report today month) _ s2 h2 in
      let asked : DateWindow = record {
        from = or_else query.from fallback.from;
        to = or_else query.to fallback.to;
      } in
      let days = (reports report).max_window_days in
      let (window, s4, e4, h4) = >>=-eq-ok (assert_window asked days) _ s3 h3 in
      let (same, same₄, is_window) = assert_window-IsWindow asked window days s3 s4 e4 in
      let (in_window, h5) =
        ensure_passed (not (is_leave_report report) || all_inside window query.date)
          validation_error _ s4 h4 in
      let start = or_else query.start (record { hours = 0; minutes = 0 }) in
      let end = or_else query.end (record { hours = 24; minutes = 0 }) in
      let (timed, h6) =
        ensure_passed (ltb (time_key start) (time_key end)) validation_error _ s4 h5 in
      sym (ap (λ (x : WindowRequest × S). x.1) (ok-injective _ refl h6))
      ∙ same₄
      ∙ fallback_same report today month fallback s2 s3 e3
      ∙ filters_same report query s1 s2 u e2
      ∙ parse_month_same query.month (current_dubai_month today) month s s1 e1
