-- ===== src/Reporting/Requests.antt =====
-- modules/reporting/validation.ts, and the request of one report in service.ts: the filters that
-- a report supports, its window, the selected day and the page.
use scope_is_team_management.Base.{
  ℕ, Bool, true, false, ◌&&◌, ◌||◌, not, ◌-◌, ◌*◌, ltb, if◌then◌else◌, Tx, pure, ensure, ◌>>=◌,
  ◌>>◌, Option, none, some, is_some, Text,
}
use scope_is_team_management.Dates.{Date, key, before}
use scope_is_team_management.Reporting.Contracts.{
  ReportKey, leave_balance, audit_history, approved_leave,
}
use scope_is_team_management.Reporting.Definitions.{
  ReportFilter, from_filter, to_filter, month_filter, date_filter, start_filter, end_filter,
  client_filter, project_filter, location_filter, action_filter, target_type_filter, actor_filter,
  reports, supports,
}
use scope_is_team_management.Reporting.Windows.{
  ReportError, validation_error, DateWindow, PlanningMonth, Time, time_key, is_planning_month,
  current_dubai_month, month_bounds, assert_window, ConflictWindow, full_business_day,
}

abbrev pub report_page_size : ℕ
report_page_size = 100

-- `ReportQuery`, what `reportQuerySchema` hands on.
pub record ReportQuery : Type 0 where
  pub from : Option Date
  pub to : Option Date
  pub month : Option PlanningMonth
  pub page : Option ℕ
  pub date : Option Date
  pub start : Option Time
  pub end : Option Time
  pub client_id : Option ℕ
  pub project_id : Option ℕ
  pub location_id : Option ℕ
  pub skill_id : Option ℕ
  pub action : Option Text
  pub target_type : Option Text
  pub actor_user_id : Option ℕ

-- A filter that has a value passes only if the report supports it.
abbrev passes : {A : Type 0} → ReportKey → ReportFilter → Option A → Bool
passes key filter value = not (is_some value) || supports key filter

-- `assertSupportedReportFilters`: `page` is always allowed, and no report lists `skillId`.
unfoldable pub assert_supported_report_filters :
    {S : Type 0} → ReportKey → ReportQuery → Tx S ReportError (Unit {0})
unfolding supports
assert_supported_report_filters key query =
    ensure
      (passes key from_filter query.from
        && (passes key to_filter query.to
            && (passes key month_filter query.month
                && (passes key date_filter query.date
                    && (passes key start_filter query.start
                        && (passes key end_filter query.end
                            && (passes key client_filter query.client_id
                                && (passes key project_filter query.project_id
                                    && (passes key location_filter query.location_id
                                        && (not (is_some query.skill_id)
                                            && (passes key action_filter query.action
                                                && (passes key target_type_filter query.target_type
                                                    && passes key actor_filter
                                                        query.actor_user_id))))))))))))
      validation_error

-- `parseMonth`
unfoldable pub parse_month :
    {S : Type 0} → Option PlanningMonth → PlanningMonth → Tx S ReportError PlanningMonth
parse_month none fallback = pure fallback
parse_month (some value) fallback = do ensure (is_planning_month value) validation_error; pure value

-- `skillStatus`: whether the recorded count reaches the required one.
unfoldable pub skill_is_recorded : ℕ → ℕ → Bool
skill_is_recorded recorded_count required_count = not (ltb recorded_count required_count)

-- `WindowRequest`
pub record WindowRequest : Type 0 where
  pub window : DateWindow
  pub page : ℕ
  pub offset : ℕ
  pub limit : ℕ
  pub month : PlanningMonth
  pub conflict : ConflictWindow
  pub query : ReportQuery

abbrev pub is_annual : ReportKey → Bool
is_annual leave_balance = true
is_annual audit_history = true
is_annual _ = false

abbrev pub is_leave_report : ReportKey → Bool
is_leave_report approved_leave = true
is_leave_report _ = false

abbrev pub or_else {ℓ} : {A : Type ℓ} → Option A → A → A
or_else none a = a
or_else (some b) a = b

-- The whole year of today, or the month.
unfoldable pub fallback_window :
    {S : Type 0} → ReportKey → Date → PlanningMonth → Tx S ReportError DateWindow
fallback_window key today month =
    if is_annual key
    then pure (record {
      from = record { year = today.year; month = 1; day = 1 };
      to = record { year = today.year; month = 12; day = 31 };
    })
    else month_bounds month

abbrev pub inside : DateWindow → Date → Bool
inside window date = not (before date window.from || before window.to date)

abbrev pub all_inside : DateWindow → Option Date → Bool
all_inside window none = true
all_inside window (some date) = inside window date

-- The day whose conflicts are shown.
abbrev pub selected_date : ReportKey → Date → DateWindow → Option Date → Date
selected_date key today window date =
    if is_leave_report key
    then or_else date (if inside window today then today else window.from)
    else today

-- `resolveRequest`
unfoldable pub resolve_request :
    {S : Type 0} → Date → ReportKey → ReportQuery → Tx S ReportError WindowRequest
resolve_request today report query = do
  month ← parse_month query.month (current_dubai_month today)
  assert_supported_report_filters report query
  fallback ← fallback_window report today month
  window ←
      assert_window
        (record { from = or_else query.from fallback.from; to = or_else query.to fallback.to })
        (reports report).max_window_days
  ensure (not (is_leave_report report) || all_inside window query.date) validation_error
  let day = full_business_day (selected_date report today window query.date)
  let conflict : ConflictWindow = record day {
    start = or_else query.start day.start;
    end = or_else query.end day.end;
  }
  ensure (ltb (time_key conflict.start) (time_key conflict.end)) validation_error
  let page = or_else query.page 1
  pure (record {
    window = window;
    page = page;
    offset = (page - 1) * report_page_size;
    limit = report_page_size;
    month = month;
    conflict = conflict;
    query = query;
  })
