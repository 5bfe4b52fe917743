-- ===== src/Scheduling/Checks.antt =====
-- modules/scheduling/service.ts: who plans, and what is checked of a period and its assignments.
-- The locks that the code takes are not modelled: a transaction runs alone.
use scope_is_team_management.Base.{
  ℕ, Bool, false, ◌&&◌, ◌||◌, not, Option, none, some, List, [], ◌∷◌, any, map, filter, length,
  ◌==◌, ltb, if◌then◌else◌, pure, throw, gets, ensure, found, ◌>>=◌, ◌>>◌, is_ref,
}
use scope_is_team_management.Shared.{
  super_admin, admin, employee, same_role, Actor, ScopeGrant, client, project, location, same_type,
}
use scope_is_team_management.Authorization.Operational.{
  OperationalScopeRow, on_client, row_grants, has_client_management_scope,
  has_operational_target_scope,
}
use scope_is_team_management.Dates.{key}
use scope_is_team_management.Tickets.Types.{UserRow}
use scope_is_team_management.Employees.Policy.{EmployeeAccessRecord, can_read_employee}
use scope_is_team_management.Leave.Repository.{is_approved_in}
use scope_is_team_management.Tables.{
  ClientRow, Period, Assignment, StaffRow, ProjectRow, LocationRow, is_published,
  is_archived_project, is_in_use,
}
use scope_is_team_management.Reporting.Windows.{Time, time_key}
use scope_is_team_management.Scheduling.Repository.{
  not_found, forbidden, out_of_scope, validation_error, conflict, stale_version,
  invalid_relationship, invalid_employee, overlap, no_employee_visibility, ScheduleStore,
  ScheduleEnv, ScheduleDb, user_row, period_row, client_row, project_row, location_row,
  project_location, employee_row, active_grants, all_assignments, Slot, slot_of, overlap_candidates,
  bookings_on, update_period,
}

-- The current row of a planner admits the supplied actor.
abbrev pub is_planner : Actor → UserRow → Bool
is_planner supplied current =
    current.active
    && (same_role current.role super_admin && current.session_version == supplied.session_version)

-- `requirePlanner`
unfoldable pub require_planner : Actor → ScheduleDb Actor
require_planner supplied = do
  ensure (same_role supplied.role super_admin) forbidden
  row ← gets (user_row supplied.id)
  current ← found row forbidden
  ensure (is_planner supplied current) forbidden
  pure (record supplied {
    id = current.id;
    display_name = current.display_name;
    role = current.role;
    scopes = [];
  })

-- `mutate`
unfoldable pub mutate : {A : Type 0} → Actor → (Actor → ScheduleDb A) → ScheduleDb A
mutate supplied operation = do
  ensure (same_role supplied.role super_admin) forbidden
  actor ← require_planner supplied
  operation actor

-- `grants`
unfoldable pub grants : Actor → ScheduleStore → List OperationalScopeRow
grants actor s = if same_role actor.role admin then active_grants actor.id s else []

-- `requireClient`
unfoldable pub require_client : Actor → ℕ → Bool → ScheduleDb ClientRow
require_client actor client_id management = do
  row ← gets (client_row client_id)
  owner ← found row not_found
  rows ← gets (grants actor)
  ensure
      (if management
        then has_client_management_scope actor.role rows client_id
        else has_operational_target_scope actor.role rows on_client client_id client_id)
      out_of_scope
  pure owner

abbrev belongs_to : ℕ → Option ProjectRow → Bool
belongs_to owner none = false
belongs_to owner (some p) = p.client_id == owner

abbrev lies_with : ℕ → Option LocationRow → Bool
lies_with owner none = false
lies_with owner (some l) = l.client_id == owner

-- Whether a project or location grant reaches a period or one of its assignments.
unfoldable pub reaches_period : List OperationalScopeRow → Period → ScheduleStore → Bool
reaches_period rows p s =
    any
      (λ a.
        any (λ g. row_grants project a.project_id g || row_grants location a.location_id g) rows)
      (all_assignments p.id s)
    || (any
          (λ g.
            same_type g.scope_type project
            && belongs_to p.client_id (project_row g.scope_reference s))
          rows
        || any
            (λ g.
              same_type g.scope_type location
              && lies_with p.client_id (location_row g.scope_reference s))
            rows)

-- `requirePeriod`
unfoldable pub require_period : Actor → ℕ → Bool → ScheduleDb Period
require_period actor period_id management = do
  row ← gets (period_row period_id)
  period ← found row not_found
  rows ← gets (grants actor)
  reached ← gets (reaches_period rows period)
  let allowed_client = any (row_grants client period.client_id) rows
  if same_role actor.role super_admin
      then pure period
      else if not (same_role actor.role admin)
      then throw forbidden
      else if not (is_published period.status && period.is_current)
      then throw not_found
      else if allowed_client
      then pure period
      else if management || not reached
      then throw out_of_scope
      else pure period

abbrev pub scope_grant : OperationalScopeRow → ScopeGrant
scope_grant g = record { type = g.scope_type; reference = g.scope_reference }

abbrev pub access_of : UserRow × StaffRow → EmployeeAccessRecord
access_of (u, e) = record { user_id = u.id; team = e.team; role = u.role }

abbrev pub is_worker : UserRow × StaffRow → Bool
is_worker (u, e) = u.active && same_role u.role employee

-- `visibleEmployee`
unfoldable pub visible_employee : Actor → ℕ → ScheduleDb (UserRow × StaffRow)
visible_employee actor id = do
  found_row ← gets (employee_row id)
  row ← found found_row invalid_employee
  ensure (is_worker row) invalid_employee
  rows ← gets (grants actor)
  ensure (can_read_employee (record actor { scopes = map scope_grant rows }) (access_of row))
      no_employee_visibility
  pure row

-- `sameTime`: hours and minutes.
abbrev pub same_time : Time → Time → Bool
same_time a b = a.hours == b.hours && a.minutes == b.minutes

-- A candidate that is the assignment itself, or the unchanged predecessor of a copy.
abbrev pub is_predecessor : Period → Slot → Assignment × Period → Bool
is_predecessor period slot (a, p) =
    is_ref p.id period.parent_period_id
    && (is_ref a.id slot.copied_from_assignment_id
        && (is_published p.status
            && (same_time a.start_time slot.start_time
                && (same_time a.end_time slot.end_time
                    && (a.employee_user_id == slot.employee_user_id
                        && key a.assignment_date == key slot.assignment_date)))))

abbrev pub may_stand : Period → Slot → Option ℕ → Assignment × Period → Bool
may_stand period slot exclude j = is_ref (j.0).id exclude || is_predecessor period slot j

-- The loop over the candidates.
unfoldable pub check_candidates :
    Period → Slot → Option ℕ → List (Assignment × Period) → ScheduleDb (Unit {0})
check_candidates period slot exclude [] = pure tt
check_candidates period slot exclude (j ∷ js) = do
  ensure (may_stand period slot exclude j) overlap
  check_candidates period slot exclude js

-- `assertNoOverlap`
unfoldable pub assert_no_overlap : Period → Slot → Option ℕ → ScheduleDb (Unit {0})
assert_no_overlap period slot exclude = do
  booked ← gets (bookings_on slot.employee_user_id slot.assignment_date)
  ensure (length booked == 0) overlap
  candidates ← gets (overlap_candidates slot)
  check_candidates period slot exclude candidates

-- `assignmentDate.startsWith(periodMonth(period))`
abbrev pub in_month : Period → Slot → Bool
in_month period slot =
    (slot.assignment_date).year == (period.planning_month).year
    && (slot.assignment_date).month == (period.planning_month).month

abbrev pub related : Period → ProjectRow → LocationRow → Bool
related period p l =
    p.client_id == period.client_id
    && (l.client_id == period.client_id
        && (not (is_archived_project p.status) && is_in_use l.status))

-- `validateReferences`
unfoldable pub validate_references : Period → Slot → ScheduleDb (Unit {0})
validate_references period slot = do
  ensure (in_month period slot) validation_error
  ensure (ltb (time_key slot.start_time) (time_key slot.end_time)) validation_error
  found_project ← gets (project_row slot.project_id)
  found_location ← gets (location_row slot.location_id)
  link ← gets (project_location slot.project_id slot.location_id)
  work ← found found_project invalid_relationship
  place ← found found_location invalid_relationship
  linked ← found link invalid_relationship
  ensure (related period work place) invalid_relationship
  found_row ← gets (employee_row slot.employee_user_id)
  row ← found found_row invalid_employee
  ensure (is_worker row) invalid_employee
  away ← gets (λ s.
      filter (is_approved_in slot.employee_user_id slot.assignment_date slot.assignment_date)
        s.leave)
  ensure (length away == 0) conflict

-- `bumpPeriod`
unfoldable pub bump_period : ScheduleEnv → Period → ScheduleDb Period
bump_period env period = do
  hit ← update_period env period.id period.version (λ p. p)
  found hit stale_version

-- The loop of `validatePeriodAssignments`.
unfoldable pub validate_each : Actor → Period → List Assignment → ScheduleDb (Unit {0})
validate_each actor period [] = pure tt
validate_each actor period (a ∷ rest) = do
  validate_references period (slot_of a)
  visible_employee actor a.employee_user_id
  assert_no_overlap period (slot_of a) (some a.id)
  validate_each actor period rest

-- `validatePeriodAssignments`
unfoldable pub validate_period_assignments : Actor → Period → ScheduleDb (List Assignment)
validate_period_assignments actor period = do
  assignments ← gets (all_assignments period.id)
  validate_each actor period assignments
  pure assignments
