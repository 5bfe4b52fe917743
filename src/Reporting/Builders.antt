-- ===== src/Reporting/Builders.antt =====
-- modules/reporting/service.ts: how each report is built from its queries.
use Prim.Native.String.{String}
use scope_is_team_management.Base.{
  ℕ, Bool, true, false, ◌&&◌, ◌||◌, ◌+◌, ◌-◌, ◌*◌, ◌==◌, Option, none, some, List, [], ◌∷◌, ◌++◌,
  map, filter, includes, unique, length, if◌then◌else◌,
}
use scope_is_team_management.Shared.{admin, same_role}
use scope_is_team_management.Authorization.Resolved.{ResolvedScope, includes_option}
use scope_is_team_management.Dates.{Date, before}
use scope_is_team_management.Leave.DateRules.{working_days, later, earlier}
use scope_is_team_management.Tables.{StaffRow, EmployeeSkillRow}
use scope_is_team_management.Reporting.Windows.{DateWindow, Time, ConflictWindow}
use scope_is_team_management.Reporting.Requests.{ReportQuery}
use scope_is_team_management.Reporting.Filters.{ReportStore, AssignmentFilters}
use scope_is_team_management.Reporting.Queries.{
  AssignmentEntry, published_assignments, planning_assignments, published_assignment_count,
  scheduled_hours, scheduled_employee_count, unallocated_employees, unallocated_employee_count,
}
use scope_is_team_management.Reporting.Records.{
  approved_leave, approved_leave_count, approved_leave_on_date,
  published_assignment_employees_in_window,
}
use scope_is_team_management.Reporting.Cells.{
  Cell, words_cell, number_cell, date_cell, month_cell, time_cell, hours_cell, conflict_cell,
  status_cell, team_cell, conflict_value, Column, Row, Built, ExpiryStatus, no_expiry, valid,
  expired,
}

-- `ResolvedRequest`, with `request.query` read as the filters of assignments.
pub record ResolvedRequest : Type 0 where
  pub actor_id : ℕ
  pub window : DateWindow
  pub page : ℕ
  pub offset : ℕ
  pub limit : ℕ
  pub conflict : ConflictWindow
  pub query : ReportQuery
  pub scope : ResolvedScope
  pub today : Date

abbrev pub filters_of : ResolvedRequest → AssignmentFilters
filters_of r = record {
  client_id = r.query.client_id;
  project_id = r.query.project_id;
  location_id = r.query.location_id;
}

abbrev minutes : Time → Time → ℕ
minutes start end = (end.hours * 60 + end.minutes) - (start.hours * 60 + start.minutes)

-- `assignmentsToRows`, one row.
unfoldable pub assignment_row : String → AssignmentEntry → Row
assignment_row data_state row =
    ("data_state", words_cell data_state)
    ∷ ("assignment_date", date_cell row.assignment_date)
    ∷ ("start_time", time_cell row.start_time)
    ∷ ("end_time", time_cell row.end_time)
    ∷ ("scheduled_hours", hours_cell (minutes row.start_time row.end_time))
    ∷ ("employee_name", words_cell row.employee_name)
    ∷ ("project_name", words_cell row.project_name)
    ∷ ("location_name", words_cell row.location_name)
    ∷ ("client_name", words_cell row.client_name)
    ∷ ("planning_month", month_cell row.planning_month)
    ∷ []

-- `assignmentColumns`
unfoldable pub assignment_columns : Bool → List Column
assignment_columns include_state =
    (if include_state then ("data_state", "Data state") ∷ [] else [])
    ++ ("assignment_date", "Assignment date")
      ∷ ("start_time", "Start time")
      ∷ ("end_time", "End time")
      ∷ ("scheduled_hours", "Scheduled hours")
      ∷ ("employee_name", "Employee")
      ∷ ("project_name", "Project")
      ∷ ("location_name", "Location")
      ∷ ("client_name", "Client")
      ∷ ("planning_month", "Planning month")
      ∷ []

-- The employees in scope who have a skill recorded.
abbrev pub recorded_count : ResolvedScope → List (EmployeeSkillRow × StaffRow) → ℕ → ℕ
recorded_count scope relations skill = length (
    unique (
      map (λ j. (j.0).employee_user_id)
        (filter
          (λ (r, e).
            r.skill_id == skill
            && (scope.is_global
                || (same_role scope.role admin && includes_option e.team scope.teams)))
          relations)))

abbrev pub within : Option ℕ → List ℕ → Bool
within none ids = false
within (some id) ids = includes id ids

-- `deriveExpiryStatus` of modules/evidence/validation.ts
unfoldable pub derive_expiry_status : Option Date → Date → ExpiryStatus
derive_expiry_status none today = no_expiry
derive_expiry_status (some expiry) today = if before expiry today then expired else valid

module _ (name_before : String → String → Bool) where
  -- `builders["published-allocation"]`
  unfoldable pub build_published_allocation : ResolvedRequest → ReportStore → Built
  build_published_allocation r s = record {
    columns = assignment_columns true;
    rows =
        map (assignment_row "PUBLISHED")
          (published_assignments name_before r.scope r.window r.limit r.offset (filters_of r) s);
    total = some (published_assignment_count r.scope r.window (filters_of r) s);
    unavailable = false;
  }

  abbrev team_text : Option ℕ → Cell
  team_text none = words_cell "No team recorded"
  team_text (some t) = team_cell t

  -- `builders["unallocated-employees"]`
  unfoldable pub build_unallocated_employees : ResolvedRequest → ReportStore → Built
  build_unallocated_employees r s = record {
    columns =
        ("employee_name", "Employee") ∷ ("employee_code", "Employee code") ∷ ("team", "Team") ∷ [];
    rows =
        map
          (λ e.
            ("employee_name", words_cell e.display_name)
            ∷ ("employee_code", words_cell e.employee_code)
            ∷ ("team", team_text e.team)
            ∷ [])
          (unallocated_employees name_before r.scope r.window r.limit r.offset s);
    total = some (unallocated_employee_count r.scope r.window s);
    unavailable = false;
  }

  -- `builders["scheduled-hours"]`
  unfoldable pub build_scheduled_hours : ResolvedRequest → ReportStore → Built
  build_scheduled_hours r s = record {
    columns =
        ("employee_name", "Employee")
        ∷ ("assignment_count", "Published assignments")
        ∷ ("total_hours", "Total scheduled hours")
        ∷ [];
    rows =
        map
          (λ h.
            ("employee_name", words_cell h.employee_name)
            ∷ ("assignment_count", number_cell h.assignments)
            ∷ ("total_hours", hours_cell h.minutes)
            ∷ [])
          (scheduled_hours name_before r.scope r.window r.limit r.offset (filters_of r) s);
    total = some (scheduled_employee_count r.scope r.window (filters_of r) s);
    unavailable = false;
  }

  -- `builders["planning-unpublished"]`
  unfoldable pub build_planning_unpublished : ResolvedRequest → ReportStore → Built
  build_planning_unpublished r s = record {
    columns =
        assignment_columns true
        ++ ("period_status", "Period status") ∷ ("revision_number", "Revision") ∷ [];
    rows =
        map
          (λ row.
            assignment_row "PLANNING (unpublished)" row
            ++ ("period_status", status_cell row.period_status)
              ∷ ("revision_number", number_cell row.revision_number)
              ∷ [])
          (planning_assignments name_before r.scope r.window r.limit r.offset (filters_of r) s);
    total = none;
    unavailable = false;
  }

  -- `builders["approved-leave"]`
  unfoldable pub build_approved_leave : ResolvedRequest → ReportStore → Built
  build_approved_leave r s =
      let leave_on_date = approved_leave_on_date r.conflict.date s in
      let schedule_in_window =
        published_assignment_employees_in_window r.scope r.conflict.date r.conflict.start
          r.conflict.end s in
      record {
        columns =
            ("employee_name", "Employee")
            ∷ ("start_date", "Start date")
            ∷ ("end_date", "End date")
            ∷ ("approved_working_days", "Approved working days in window")
            ∷ ("conflict", "Schedule and approved-leave conflict")
            ∷ [];
        rows =
            map
              (λ row.
                ("employee_name", words_cell row.employee_name)
                ∷ ("start_date", date_cell row.start_date)
                ∷ ("end_date", date_cell row.end_date)
                ∷ (
                  "approved_working_days",
                  number_cell (
                      working_days (later row.start_date r.window.from)
                        (earlier row.end_date r.window.to)),
                )
                ∷ (
                  "conflict",
                  conflict_cell (
                      conflict_value (includes row.employee_user_id leave_on_date)
                        (includes row.employee_user_id schedule_in_window)),
                )
                ∷ [])
              (approved_leave name_before r.scope r.window r.limit r.offset s);
        total = some (approved_leave_count r.scope r.window s);
        unavailable = false;
      }
