-- ===== src/Reporting/Filters.antt =====
-- modules/reporting/repositories.ts: the tables that the reports read, and the conditions of their
-- queries.
use scope_is_team_management.Base.{
  ℕ, Bool, true, false, ◌&&◌, ◌||◌, not, ◌+◌, ◌-◌, ◌*◌, Option, none, some, List, [], ◌∷◌, ◌++◌,
  any, includes, ◌==◌, ltb, if◌then◌else◌,
}
use scope_is_team_management.Shared.{admin, same_role}
use scope_is_team_management.Authorization.Resolved.{ResolvedScope, includes_option}
use scope_is_team_management.Dates.{Date, day_number, before}
use scope_is_team_management.Tickets.Types.{UserRow, GrantRow}
use scope_is_team_management.Leave.Repository.{LeaveRow, AllowanceRow, is_approved, meets}
use scope_is_team_management.Tables.{
  ClientRow, ProjectRow, LocationRow, Period, Assignment, StaffRow, SkillRow, EmployeeSkillRow,
  StaffingRow, SkillNeedRow, ReplacementRow, EvidenceRow, is_live, is_published,
}
use scope_is_team_management.Reporting.Windows.{DateWindow}

pub record ReportStore : Type 0 where
  pub users : List UserRow
  pub grants : List GrantRow
  pub staff : List StaffRow
  pub clients : List ClientRow
  pub projects : List ProjectRow
  pub locations : List LocationRow
  pub periods : List Period
  pub assignments : List Assignment
  pub leave : List LeaveRow
  pub allowance : Option AllowanceRow
  pub replacements : List ReplacementRow
  pub skills : List SkillRow
  pub employee_skills : List EmployeeSkillRow
  pub staffing : List StaffingRow
  pub skill_needs : List SkillNeedRow
  pub evidence : List EvidenceRow

abbrev is_empty {ℓ} : {A : Type ℓ} → List A → Bool
is_empty [] = true
is_empty (_ ∷ _) = false

-- `employeeScope`
unfoldable pub employee_scope : ResolvedScope → StaffRow → Bool
employee_scope scope e =
    if scope.is_global
    then true
    else if not (same_role scope.role admin)
    then false
    else if is_empty scope.teams
    then false
    else includes_option e.team scope.teams

-- The condition that a list of ids adds, if it is not empty.
abbrev predicate : List ℕ → ℕ → List Bool
predicate ids id = if is_empty ids then [] else includes id ids ∷ []

-- `assignmentScope`
unfoldable pub assignment_scope : ResolvedScope → Assignment × Period → Bool
assignment_scope scope (a, p) =
    let predicates =
      predicate scope.client_ids p.client_id
      ++ (predicate scope.project_ids a.project_id ++ predicate scope.location_ids a.location_id) in
    if scope.is_global
    then true
    else if not (same_role scope.role admin)
    then false
    else if is_empty predicates
    then false
    else any (λ b. b) predicates

-- `AssignmentFilters`
pub record AssignmentFilters : Type 0 where
  pub client_id : Option ℕ
  pub project_id : Option ℕ
  pub location_id : Option ℕ

abbrev selects : Option ℕ → ℕ → Bool
selects none id = true
selects (some chosen) id = id == chosen

-- `selectedAssignments`
unfoldable pub selected_assignments : AssignmentFilters → Assignment × Period → Bool
selected_assignments filters (a, p) =
    selects filters.client_id p.client_id
    && (selects filters.project_id a.project_id && selects filters.location_id a.location_id)

abbrev pub date_in : DateWindow → Date → Bool
date_in window date = not (before date window.from) && not (before window.to date)

-- `publishedWindow`
unfoldable pub published_window :
    ResolvedScope → DateWindow → AssignmentFilters → Assignment × Period → Bool
published_window scope window filters (a, p) =
    is_live a.omitted_at
    && (is_published p.status
        && (p.is_current
            && (date_in window a.assignment_date
                && (assignment_scope scope (a, p) && selected_assignments filters (a, p)))))

-- The day number of 1 January 1970.
abbrev epoch_day : ℕ
epoch_day = 719529

-- `new Date(date + "T00:00:00+04:00")` in milliseconds, for dates after 1970.
abbrev dubai_midnight : Date → ℕ
dubai_midnight date = (day_number date - epoch_day) * 86400000 - 14400000

-- `replacementWindow`
unfoldable pub replacement_window : Option DateWindow → ReplacementRow → Bool
replacement_window none r = true
replacement_window (some window) r =
    not (ltb r.created_at (dubai_midnight window.from))
    && ltb r.created_at (dubai_midnight window.to + 86400000)

abbrev month_start : Date → Date
month_start d = record { year = d.year; month = d.month; day = 1 }

abbrev in_months : Option DateWindow → Date → Bool
in_months none month = true
in_months (some window) month =
    not (before month (month_start window.from)) && not (before (month_start window.to) month)

-- `lifecycleScope`
unfoldable pub lifecycle_scope :
    ResolvedScope → Option DateWindow → AssignmentFilters → Period → Bool
lifecycle_scope scope window filters p =
    (scope.is_global
      || (same_role scope.role admin
          && (not (is_empty scope.client_ids) && includes p.client_id scope.client_ids)))
    && (in_months window p.planning_month && selects filters.client_id p.client_id)

-- The approved leave that meets a window.
unfoldable pub approved_in : DateWindow → LeaveRow → Bool
approved_in window r = is_approved r.status && meets r.start_date r.end_date window.from window.to
