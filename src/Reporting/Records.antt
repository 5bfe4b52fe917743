-- ===== src/Reporting/Records.antt =====
-- modules/reporting/repositories.ts: the queries on leave, replacement requests, skills, evidence
-- and the lifecycle of schedules.
use Prim.Native.String.{String}
use scope_is_team_management.Base.{
  ℕ, Bool, true, false, ◌&&◌, Option, none, some, List, map, filter, unique, length, ◌==◌, ltb,
  inner_join, left_join, order_by, page_of, then_by, asc, desc,
}
use scope_is_team_management.Authorization.Resolved.{ResolvedScope}
use scope_is_team_management.Dates.{Date, key}
use scope_is_team_management.Tickets.Types.{UserRow}
use scope_is_team_management.Leave.Repository.{LeaveRow, is_pending}
use scope_is_team_management.Tables.{
  Period, Assignment, StaffRow, SkillRow, EmployeeSkillRow, StaffingRow, SkillNeedRow,
  ReplacementRow, RequestStatus, waiting, is_live, is_published,
}
use scope_is_team_management.Reporting.Windows.{DateWindow, Time, time_key}
use scope_is_team_management.Reporting.Filters.{
  ReportStore, employee_scope, assignment_scope, AssignmentFilters, selected_assignments,
  replacement_window, approved_in,
}
use scope_is_team_management.Reporting.Queries.{planned}

-- A row of `approvedLeave`: no private column is selected.
pub record LeaveEntry : Type 0 where
  pub id : ℕ
  pub employee_user_id : ℕ
  pub employee_name : String
  pub start_date : Date
  pub end_date : Date

abbrev leave_columns : (LeaveRow × UserRow) × StaffRow → LeaveEntry
leave_columns ((r, u), e) = record {
  id = r.id;
  employee_user_id = r.employee_user_id;
  employee_name = u.display_name;
  start_date = r.start_date;
  end_date = r.end_date;
}

-- Leave requests with the profiles of their employees.
unfoldable pub leave_of_staff : ReportStore → List (LeaveRow × StaffRow)
leave_of_staff s = inner_join (λ r e. e.user_id == r.employee_user_id) s.leave s.staff

-- `approvedLeaveCount`
unfoldable pub approved_leave_count : ResolvedScope → DateWindow → ReportStore → ℕ
approved_leave_count scope window s =
    length (filter (λ (r, e). approved_in window r && employee_scope scope e) (leave_of_staff s))

-- `pendingLeaveCount`
unfoldable pub pending_leave_count : ResolvedScope → ReportStore → ℕ
pending_leave_count scope s =
    length (filter (λ (r, e). is_pending r.status && employee_scope scope e) (leave_of_staff s))

-- `approvedLeaveForYear`
unfoldable pub approved_leave_for_year : ResolvedScope → DateWindow → ReportStore → List LeaveRow
approved_leave_for_year scope window s =
    map (λ j. j.0)
      (filter (λ (r, e). approved_in window r && employee_scope scope e) (leave_of_staff s))

-- `approvedLeaveOnDate`
unfoldable pub approved_leave_on_date : Date → ReportStore → List ℕ
approved_leave_on_date date s = unique (
    map (λ r. r.employee_user_id)
      (filter (approved_in (record { from = date; to = date })) s.leave))

-- `publishedAssignmentEmployeesInWindow`
unfoldable pub published_assignment_employees_in_window :
    ResolvedScope → Date → Time → Time → ReportStore → List ℕ
published_assignment_employees_in_window scope date start end s = unique (
    map (λ j. (j.0).employee_user_id)
      (filter
        (λ (a, p).
          is_live a.omitted_at
          && (is_published p.status
              && (p.is_current
                  && (key a.assignment_date == key date
                      && (ltb (time_key a.start_time) (time_key end)
                          && (ltb (time_key start) (time_key a.end_time)
                              && assignment_scope scope (a, p)))))))
        (planned s)))

-- Replacement requests with their anchor assignment and its period.
unfoldable pub anchored : ReportStore → List ((ReplacementRow × Assignment) × Period)
anchored s =
    inner_join (λ j p. p.id == (j.1).schedule_period_id)
      (inner_join (λ r a. a.id == r.anchor_assignment_id) s.replacements s.assignments) s.periods

abbrev in_scope : ResolvedScope → (ReplacementRow × Assignment) × Period → Bool
in_scope scope ((r, a), p) = assignment_scope scope (a, p)

abbrev replacement_where :
    ResolvedScope
    → Option DateWindow
    → AssignmentFilters
    → (ReplacementRow × Assignment) × Period
    → Bool
replacement_where scope window filters ((r, a), p) =
    assignment_scope scope (a, p)
    && (replacement_window window r && selected_assignments filters (a, p))

-- A request with the name of who made it.
abbrev pub Requested : Type 0
Requested = ((ReplacementRow × Assignment) × Period) × UserRow

abbrev newest_first : Requested → Requested → Bool
newest_first = then_by (desc (λ j. ((j.0).0.0).created_at)) (desc (λ j. ((j.0).0.0).id))

-- `replacementRequests`
unfoldable pub replacement_requests :
    ResolvedScope → ℕ → ℕ → Option DateWindow → AssignmentFilters → ReportStore → List Requested
replacement_requests scope limit offset window filters s = page_of limit offset (
    order_by newest_first (
      inner_join (λ j u. u.id == ((j.0).0).requester_user_id)
        (filter (replacement_where scope window filters) (anchored s)) s.users))

-- `replacementRequestCount`
unfoldable pub replacement_request_count :
    ResolvedScope → Option DateWindow → AssignmentFilters → ReportStore → ℕ
replacement_request_count scope window filters s =
    length (filter (replacement_where scope window filters) (anchored s))

abbrev is_waiting : RequestStatus → Bool
is_waiting waiting = true
is_waiting _ = false

-- `pendingReplacementCount`
unfoldable pub pending_replacement_count : ResolvedScope → ReportStore → ℕ
pending_replacement_count scope s =
    length (filter (λ j. is_waiting ((j.0).0).status && in_scope scope j) (anchored s))

-- `myReplacementCount`
unfoldable pub my_replacement_count : ℕ → ResolvedScope → ReportStore → ℕ
my_replacement_count actor_id scope s =
    length (filter (λ j. ((j.0).0).requester_user_id == actor_id && in_scope scope j) (anchored s))

-- `replacementRowsForRequester`
unfoldable pub replacement_rows_for_requester :
    ℕ → ResolvedScope → ℕ → ℕ → ReportStore → List Requested
replacement_rows_for_requester actor_id scope limit offset s = page_of limit offset (
    order_by newest_first (
      inner_join (λ j u. u.id == ((j.0).0).requester_user_id)
        (filter (λ j. ((j.0).0).requester_user_id == actor_id && in_scope scope j) (anchored s))
        s.users))

-- `recordedSkillRelations`
unfoldable pub recorded_skill_relations : ReportStore → List (EmployeeSkillRow × StaffRow)
recorded_skill_relations s =
    filter (λ (r, e). is_live r.archived_at)
      (inner_join (λ r e. e.user_id == r.employee_user_id) s.employee_skills s.staff)

-- A row of `skillRequirements`, with the names of its parents.
pub record RequirementEntry : Type 0 where
  pub requirement : StaffingRow
  pub skill_name : String
  pub client_name : Option String
  pub project_name : Option String
  pub location_name : Option String

abbrev refers : Option ℕ → ℕ → Bool
refers none id = false
refers (some a) id = a == id

abbrev name_of : {A : Type 0} → (A → String) → Option A → Option String
name_of name none = none
name_of name (some a) = some (name a)

module _ (name_before : String → String → Bool) where
  -- `approvedLeave`
  unfoldable pub approved_leave : ResolvedScope → DateWindow → ℕ → ℕ → ReportStore → List LeaveEntry
  approved_leave scope window limit offset s = page_of limit offset (
      order_by
        (then_by (asc (λ r. key r.start_date))
          (then_by (λ q r. name_before q.employee_name r.employee_name) (asc (λ r. r.id))))
        (map leave_columns (
          filter (λ ((r, u), e). approved_in window r && employee_scope scope e)
            (inner_join (λ j e. e.user_id == (j.0).employee_user_id)
              (inner_join (λ r u. u.id == r.employee_user_id) s.leave s.users) s.staff))))

  -- `skills`
  unfoldable pub skills : ReportStore → List SkillRow
  skills s = order_by (then_by (λ x y. name_before x.name y.name) (asc (λ x. x.id))) s.skills

  -- `skillRequirements`
  unfoldable pub skill_requirements : ReportStore → List RequirementEntry
  skill_requirements s =
      order_by
        (then_by (λ x y. name_before x.skill_name y.skill_name) (asc (λ x. (x.requirement).id)))
        (map
          (λ ((((r, k), c), p), l). record {
            requirement = r;
            skill_name = k.name;
            client_name = name_of (λ x. x.company_name) c;
            project_name = name_of (λ x. x.name) p;
            location_name = name_of (λ x. x.name) l;
          })
          (left_join (λ j l. refers ((j.0).0.0).location_id l.id)
            (left_join (λ j p. refers ((j.0).0).project_id p.id)
              (left_join (λ j c. refers (j.0).client_id c.id)
                (inner_join (λ r k. k.id == r.required_skill_id)
                  (filter (λ r. is_live r.archived_at) s.staffing) s.skills)
                s.clients)
              s.projects)
            s.locations))

  -- `assignmentSkillRequirements`
  unfoldable pub assignment_skill_requirements :
      ResolvedScope → ReportStore → List (SkillNeedRow × SkillRow)
  assignment_skill_requirements scope s =
      order_by (then_by (λ x y. name_before (x.1).name (y.1).name) (asc (λ x. (x.0).id))) (
        map (λ ((n, k), j). (n, k))
          (filter
            (λ ((n, k), (a, p)).
              is_live a.omitted_at && (is_live n.archived_at && assignment_scope scope (a, p)))
            (inner_join (λ x j. (j.0).id == (x.0).schedule_assignment_id)
              (inner_join (λ n k. k.id == n.skill_id) s.skill_needs s.skills) (planned s))))
