-- ===== src/Reporting/Queries.antt =====
-- modules/reporting/repositories.ts: the queries of the reports. The order of names is the
-- database's, a parameter; ids order as the numbers that stand for them.
use Prim.Native.String.{String}
use scope_is_team_management.Base.{
  ℕ, Bool, true, false, ◌&&◌, ◌||◌, not, ◌+◌, ◌-◌, ◌*◌, Option, List, [], ◌∷◌, any, map, filter,
  unique, includes, length, ◌==◌, inner_join, order_by, page_of, then_by, asc, desc,
}
use scope_is_team_management.Shared.{admin, same_role}
use scope_is_team_management.Authorization.Resolved.{ResolvedScope}
use scope_is_team_management.Dates.{Date, key}
use scope_is_team_management.Tickets.Types.{UserRow}
use scope_is_team_management.Leave.Repository.{PeriodStatus}
use scope_is_team_management.Tables.{
  ClientRow, ProjectRow, LocationRow, Period, Assignment, StaffRow, is_live, is_published, is_draft,
  is_proposed,
}
use scope_is_team_management.Reporting.Windows.{DateWindow, Time, time_key}
use scope_is_team_management.Reporting.Filters.{
  ReportStore, employee_scope, assignment_scope, AssignmentFilters, selected_assignments, date_in,
  published_window,
}

-- `inner join schedule_periods on schedule_periods.id = schedule_assignments.schedule_period_id`
unfoldable pub planned : ReportStore → List (Assignment × Period)
planned s = inner_join (λ a p. p.id == a.schedule_period_id) s.assignments s.periods

-- `assignmentColumns`, with the columns that order the rows.
pub record AssignmentEntry : Type 0 where
  pub id : ℕ
  pub assignment_date : Date
  pub start_time : Time
  pub end_time : Time
  pub employee_user_id : ℕ
  pub employee_name : String
  pub client_name : String
  pub project_name : String
  pub location_name : String
  pub planning_month : Date
  pub period_status : PeriodStatus
  pub revision_number : ℕ

abbrev pub Joined : Type 0
Joined = ((((Assignment × Period) × UserRow) × ClientRow) × ProjectRow) × LocationRow

abbrev pub assignment_columns : Joined → AssignmentEntry
assignment_columns (((((a, p), u), c), r), l) = record {
  id = a.id;
  assignment_date = a.assignment_date;
  start_time = a.start_time;
  end_time = a.end_time;
  employee_user_id = a.employee_user_id;
  employee_name = u.display_name;
  client_name = c.company_name;
  project_name = r.name;
  location_name = l.name;
  planning_month = p.planning_month;
  period_status = p.status;
  revision_number = p.revision_number;
}

-- The assignments that pass a test, with the names of the joined rows.
unfoldable pub assignment_entries :
    (Assignment × Period → Bool) → ReportStore → List AssignmentEntry
assignment_entries where_ s = map assignment_columns (
    inner_join (λ j l. l.id == (j.0).0.0.0.location_id)
      (inner_join (λ j r. r.id == ((j.0).0.0).project_id)
        (inner_join (λ j c. c.id == (j.0).1.client_id)
          (inner_join (λ j u. u.id == (j.0).employee_user_id) (filter where_ (planned s)) s.users)
          s.clients)
        s.projects)
      s.locations)

-- `inArray(schedulePeriods.status, statuses)` with the other conditions of `assignmentQuery`.
unfoldable pub assignment_where :
    ResolvedScope
    → (PeriodStatus → Bool)
    → DateWindow
    → Bool
    → AssignmentFilters
    → Assignment × Period
    → Bool
assignment_where scope in_statuses window current_published_only filters (a, p) =
    is_live a.omitted_at
    && (in_statuses p.status
        && ((not current_published_only || p.is_current)
            && (date_in window a.assignment_date
                && (assignment_scope scope (a, p) && selected_assignments filters (a, p)))))

abbrev pub unpublished : PeriodStatus → Bool
unpublished status = is_draft status || is_proposed status

module _ (name_before : String → String → Bool) where
  abbrev pub entry_before : AssignmentEntry → AssignmentEntry → Bool
  entry_before = then_by (asc (λ e. key e.assignment_date)) (
      then_by (asc (λ e. time_key e.start_time))
        (then_by (λ d e. name_before d.employee_name e.employee_name) (asc (λ e. e.id))))

  -- `assignmentQuery`
  unfoldable pub assignment_query :
      ResolvedScope
      → (PeriodStatus → Bool)
      → DateWindow
      → Bool
      → AssignmentFilters
      → ReportStore
      → List AssignmentEntry
  assignment_query scope in_statuses window current_only filters s =
      order_by entry_before
        (assignment_entries (assignment_where scope in_statuses window current_only filters) s)

  -- `publishedAssignments`
  unfoldable pub published_assignments :
      ResolvedScope → DateWindow → ℕ → ℕ → AssignmentFilters → ReportStore → List AssignmentEntry
  published_assignments scope window limit offset filters s =
      page_of limit offset (assignment_query scope is_published window true filters s)

  -- `planningAssignments`
  unfoldable pub planning_assignments :
      ResolvedScope → DateWindow → ℕ → ℕ → AssignmentFilters → ReportStore → List AssignmentEntry
  planning_assignments scope window limit offset filters s =
      page_of limit offset (assignment_query scope unpublished window false filters s)

-- `publishedAssignmentCount`
unfoldable pub published_assignment_count :
    ResolvedScope → DateWindow → AssignmentFilters → ReportStore → ℕ
published_assignment_count scope window filters s =
    length (filter (published_window scope window filters) (planned s))

-- `scheduledEmployeeCount`
unfoldable pub scheduled_employee_count :
    ResolvedScope → DateWindow → AssignmentFilters → ReportStore → ℕ
scheduled_employee_count scope window filters s = length (
    unique (
      map (λ j. (j.0).employee_user_id)
        (filter (published_window scope window filters) (planned s))))

abbrev minutes_of : Assignment → ℕ
minutes_of a =
    (a.end_time.hours * 60 + a.end_time.minutes) - (a.start_time.hours * 60 + a.start_time.minutes)

abbrev sum : List ℕ → ℕ
sum [] = 0
sum (n ∷ ns) = n + sum ns

-- A row of `scheduledHours`, in whole minutes.
pub record HoursRow : Type 0 where
  pub employee_user_id : ℕ
  pub employee_name : String
  pub minutes : ℕ
  pub assignments : ℕ

abbrev hours_of : List (Assignment × Period) → UserRow → HoursRow
hours_of rows u =
    let own = filter (λ j. (j.0).employee_user_id == u.id) rows in
    record {
      employee_user_id = u.id;
      employee_name = u.display_name;
      minutes = sum (map (λ j. minutes_of j.0) own);
      assignments = length own;
    }

-- An employee in the team that the profile names.
pub record EmployeeEntry : Type 0 where
  pub id : ℕ
  pub display_name : String
  pub team : Option ℕ
  pub employee_code : String

abbrev pub employee_columns : UserRow × StaffRow → EmployeeEntry
employee_columns (u, e) = record {
  id = u.id;
  display_name = u.display_name;
  team = e.team;
  employee_code = e.employee_code;
}

-- Users with their profiles.
unfoldable pub employed : ReportStore → List (UserRow × StaffRow)
employed s = inner_join (λ u e. e.user_id == u.id) s.users s.staff

abbrev pub active_where : ResolvedScope → UserRow × StaffRow → Bool
active_where scope (u, e) = u.active && employee_scope scope e

-- The ids that `unallocatedEmployees` subtracts.
unfoldable pub allocated : ResolvedScope → DateWindow → ReportStore → List ℕ
allocated scope window s =
    map (λ j. (j.0).employee_user_id)
      (filter
        (λ (a, p).
          is_live a.omitted_at
          && (is_published p.status
              && (p.is_current
                  && (date_in window a.assignment_date && assignment_scope scope (a, p)))))
        (planned s))

abbrev pub unallocated_where : ResolvedScope → List ℕ → UserRow × StaffRow → Bool
unallocated_where scope ids (u, e) = u.active && (employee_scope scope e && not (includes u.id ids))

module _ (name_before : String → String → Bool) where
  -- `scheduledHours`
  unfoldable pub scheduled_hours :
      ResolvedScope → DateWindow → ℕ → ℕ → AssignmentFilters → ReportStore → List HoursRow
  scheduled_hours scope window limit offset filters s =
      let rows = filter (published_window scope window filters) (planned s) in
      page_of limit offset (
        order_by
          (then_by (desc (λ h. h.minutes)) (
            then_by (λ g h. name_before g.employee_name h.employee_name)
              (asc (λ h. h.employee_user_id))))
          (map (hours_of rows)
            (filter (λ u. any (λ j. (j.0).employee_user_id == u.id) rows) s.users)))

  abbrev employee_before : EmployeeEntry → EmployeeEntry → Bool
  employee_before = then_by (λ d e. name_before d.display_name e.display_name) (asc (λ e. e.id))

  -- `activeEmployees`
  unfoldable pub active_employees : ResolvedScope → ReportStore → List EmployeeEntry
  active_employees scope s =
      order_by employee_before (map employee_columns (filter (active_where scope) (employed s)))

  -- `unallocatedEmployees`
  unfoldable pub unallocated_employees :
      ResolvedScope → DateWindow → ℕ → ℕ → ReportStore → List EmployeeEntry
  unallocated_employees scope window limit offset s = page_of limit offset (
      order_by employee_before (
        map employee_columns
          (filter (unallocated_where scope (allocated scope window s)) (employed s))))

-- `activeEmployeeCount`
unfoldable pub active_employee_count : ResolvedScope → ReportStore → ℕ
active_employee_count scope s = length (filter (active_where scope) (employed s))

-- `unallocatedEmployeeCount`
unfoldable pub unallocated_employee_count : ResolvedScope → DateWindow → ReportStore → ℕ
unallocated_employee_count scope window s =
    length (filter (unallocated_where scope (allocated scope window s)) (employed s))

-- `currentPublishedPeriodCount`
unfoldable pub current_published_period_count : ResolvedScope → Date → ReportStore → ℕ
current_published_period_count scope month s = length (
    filter
      (λ p.
        is_published p.status
        && (p.is_current
            && (key p.planning_month == key month
                && (scope.is_global
                    || (same_role scope.role admin && includes p.client_id scope.client_ids)))))
      s.periods)
