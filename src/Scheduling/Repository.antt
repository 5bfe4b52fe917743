-- ===== src/Scheduling/Repository.antt =====
-- modules/scheduling/repositories.ts and domain-error.ts: the tables that scheduling reads and
-- writes, its queries and its errors. The unique indexes of `schedulePeriods` make an insert fail.
use Prim.Native.String.{String}
use mathlib.Core.Option
use scope_is_team_management.Base.{
  ℕ, Bool, ◌&&◌, ◌||◌, ◌+◌, Option, none, List, [], ◌∷◌, ◌++◌, find, filter, any, map, update_where,
  ◌==◌, ltb, if◌then◌else◌, ok, err, Tx, inner_join, order_by, then_by, asc,
}
use scope_is_team_management.Audit.{AuditRow}
use scope_is_team_management.Authorization.Operational.{OperationalScopeRow}
use scope_is_team_management.Dates.{Date, key}
use scope_is_team_management.Tickets.Types.{UserRow}
use scope_is_team_management.Tickets.Repository.{NotificationRow}
use scope_is_team_management.Leave.Repository.{LeaveRow, BookingRow, meets}
use scope_is_team_management.Tables.{
  ClientRow, ProjectRow, LocationRow, ProjectLocationRow, Period, Assignment, StaffRow,
  SkillNeedRow, is_live, is_published, is_draft, is_proposed,
}
use scope_is_team_management.Reporting.Windows.{Time, time_key}

-- `SchedulingErrorCode`, and the database's error for a unique index.
pub data SchedulingError : Type 0 where
  not_found forbidden out_of_scope validation_error conflict : SchedulingError
  stale_version archived_record invalid_relationship invalid_employee : SchedulingError
  overlap invalid_state reason_required no_employee_visibility : SchedulingError
  unique_violation : SchedulingError

pub record ScheduleStore : Type 0 where
  pub users : List UserRow
  pub staff : List StaffRow
  pub grants : List (ℕ × OperationalScopeRow)
  pub clients : List ClientRow
  pub projects : List ProjectRow
  pub locations : List LocationRow
  pub project_locations : List ProjectLocationRow
  pub periods : List Period
  pub assignments : List Assignment
  pub skill_needs : List SkillNeedRow
  pub leave : List LeaveRow
  pub bookings : List BookingRow
  pub audits : List AuditRow
  pub notifications : List NotificationRow

-- The clock, and the ids that the database generates, in the order of the inserts.
pub record ScheduleEnv : Type 0 where
  pub now : ℕ
  pub fresh : ℕ → ℕ

abbrev pub ScheduleDb : Type 0 → Type 0
ScheduleDb A = Tx ScheduleStore SchedulingError A

-- `planner`, `employee` without its profile
abbrev pub user_row : ℕ → ScheduleStore → Option UserRow
user_row id s = find (λ u. u.id == id) s.users

-- `period`
abbrev pub period_row : ℕ → ScheduleStore → Option Period
period_row id s = find (λ p. p.id == id) s.periods

-- `client`
abbrev pub client_row : ℕ → ScheduleStore → Option ClientRow
client_row id s = find (λ c. c.id == id) s.clients

-- `project`
abbrev pub project_row : ℕ → ScheduleStore → Option ProjectRow
project_row id s = find (λ p. p.id == id) s.projects

-- `location`
abbrev pub location_row : ℕ → ScheduleStore → Option LocationRow
location_row id s = find (λ l. l.id == id) s.locations

-- `projectLocation`: a link that is not archived.
abbrev pub project_location : ℕ → ℕ → ScheduleStore → Option ProjectLocationRow
project_location project location s =
    find (λ l. l.project_id == project && (l.location_id == location && is_live l.archived_at))
      s.project_locations

-- `employee`: a user with a profile.
unfoldable pub employee_row : ℕ → ScheduleStore → Option (UserRow × StaffRow)
employee_row id s =
    find (λ j. (j.0).id == id) (inner_join (λ u e. e.user_id == u.id) s.users s.staff)

-- `activeGrants`
abbrev pub active_grants : ℕ → ScheduleStore → List OperationalScopeRow
active_grants id s = map (λ g. g.1) (filter (λ g. g.0 == id && (g.1).not_inactive) s.grants)

-- `assignment`
abbrev pub assignment_row : ℕ → ScheduleStore → Option Assignment
assignment_row id s = find (λ a. a.id == id && is_live a.omitted_at) s.assignments

abbrev pub in_period : ℕ → Assignment → Bool
in_period period a = a.schedule_period_id == period && is_live a.omitted_at

-- `allAssignments`
unfoldable pub all_assignments : ℕ → ScheduleStore → List Assignment
all_assignments period s =
    order_by (then_by (asc (λ a. key a.assignment_date)) (asc (λ a. time_key a.start_time)))
      (filter (in_period period) s.assignments)

-- What `overlapCandidates` and the checks know of an assignment, old or new.
pub record Slot : Type 0 where
  pub employee_user_id : ℕ
  pub project_id : ℕ
  pub location_id : ℕ
  pub assignment_date : Date
  pub start_time : Time
  pub end_time : Time
  pub shared_instruction : Option String
  pub copied_from_assignment_id : Option ℕ

abbrev pub slot_of : Assignment → Slot
slot_of a = record {
  employee_user_id = a.employee_user_id;
  project_id = a.project_id;
  location_id = a.location_id;
  assignment_date = a.assignment_date;
  start_time = a.start_time;
  end_time = a.end_time;
  shared_instruction = a.shared_instruction;
  copied_from_assignment_id = a.copied_from_assignment_id;
}

-- A period whose assignments count: Draft, Proposed, or current Published.
abbrev pub counts : Period → Bool
counts p = is_draft p.status || (is_proposed p.status || (is_published p.status && p.is_current))

-- `overlapCandidates`
abbrev pub collides : Slot → Assignment × Period → Bool
collides slot (a, p) =
    is_live a.omitted_at
    && (a.employee_user_id == slot.employee_user_id
        && (key a.assignment_date == key slot.assignment_date
            && (ltb (time_key a.start_time) (time_key slot.end_time)
                && (ltb (time_key slot.start_time) (time_key a.end_time) && counts p))))

unfoldable pub overlap_candidates : Slot → ScheduleStore → List (Assignment × Period)
overlap_candidates slot s =
    filter (collides slot)
      (inner_join (λ a p. p.id == a.schedule_period_id) s.assignments s.periods)

-- `bookingRepository.overlapping` on one day
unfoldable pub bookings_on : ℕ → Date → ScheduleStore → List BookingRow
bookings_on employee date s =
    filter
      (λ b.
        b.employee_user_id == employee
        && (is_live b.cancelled_at && meets b.start_date b.end_date date date))
      s.bookings

abbrev pub is_current_of : ℕ → Date → Period → Bool
is_current_of client month p =
    p.client_id == client
    && (key p.planning_month == key month && (is_published p.status && p.is_current))

-- `currentPublished`
abbrev pub current_published : ℕ → Date → ScheduleStore → Option Period
current_published client month s = find (is_current_of client month) s.periods

abbrev larger : ℕ → ℕ → ℕ
larger a b = if ltb a b then b else a

abbrev largest : List ℕ → ℕ
largest [] = 0
largest (n ∷ ns) = larger n (largest ns)

-- `nextRevisionNumber`
unfoldable pub next_revision_number : ℕ → Date → ScheduleStore → ℕ
next_revision_number client month s =
    largest (
      map (λ p. p.revision_number)
        (filter (λ p. p.client_id == client && key p.planning_month == key month) s.periods))
    + 1

-- The primary key and the unique indexes that a new Draft row can break.
abbrev pub clashes : Period → Period → Bool
clashes row p =
    p.id == row.id
    || (p.client_id == row.client_id
        && (key p.planning_month == key row.planning_month
            && (p.revision_number == row.revision_number
                || (is_draft p.status || is_proposed p.status))))

-- `createPeriod`: a Draft.
unfoldable pub create_period : Period → ScheduleDb Period
create_period row s =
    if any (clashes row) s.periods
    then err unique_violation
    else ok (row, record s { periods = s.periods ++ row ∷ [] })

abbrev pub period_hit : ℕ → ℕ → Period → Bool
period_hit id version p = p.id == id && p.version == version

abbrev pub period_bump : ScheduleEnv → (Period → Period) → Period → Period
period_bump env values p = record (values p) { version = p.version + 1; updated_at = env.now }

-- `updatePeriod`
unfoldable pub update_period : ScheduleEnv → ℕ → ℕ → (Period → Period) → ScheduleDb (Option Period)
update_period env id version values s = ok (
  Option.map (period_bump env values) (find (period_hit id version) s.periods),
  record s { periods = update_where (period_hit id version) (period_bump env values) s.periods },
)

-- `createAssignment`
unfoldable pub create_assignment : ScheduleEnv → ℕ → ℕ → Slot → ScheduleDb Assignment
create_assignment env id period slot s =
    let row : Assignment = record {
      id = id;
      schedule_period_id = period;
      employee_user_id = slot.employee_user_id;
      project_id = slot.project_id;
      location_id = slot.location_id;
      assignment_date = slot.assignment_date;
      start_time = slot.start_time;
      end_time = slot.end_time;
      shared_instruction = slot.shared_instruction;
      copied_from_assignment_id = slot.copied_from_assignment_id;
      version = 1;
      updated_at = env.now;
      omitted_at = none;
    } in
    ok (row, record s { assignments = s.assignments ++ row ∷ [] })

abbrev pub assignment_hit : ℕ → ℕ → Assignment → Bool
assignment_hit id version a = a.id == id && (a.version == version && is_live a.omitted_at)

abbrev pub assignment_bump : ScheduleEnv → (Assignment → Assignment) → Assignment → Assignment
assignment_bump env values a = record (values a) { version = a.version + 1; updated_at = env.now }

-- `updateAssignment`
unfoldable pub update_assignment :
    ScheduleEnv → ℕ → ℕ → (Assignment → Assignment) → ScheduleDb (Option Assignment)
update_assignment env id version values s = ok (
  Option.map (assignment_bump env values) (find (assignment_hit id version) s.assignments),
  record s {
    assignments =
        update_where (assignment_hit id version) (assignment_bump env values) s.assignments;
  },
)
