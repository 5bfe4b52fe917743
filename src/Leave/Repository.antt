-- ===== src/Leave/Repository.antt =====
-- modules/leave/repositories.ts, `bookingRepository.overlapping` of modules/outsourcing, and the
-- rows of db/schema that they read. Foreign keys hold, so a join finds the joined row.
use mathlib.Core.Option
use scope_is_team_management.Base.{
  ℕ, Bool, true, false, ◌&&◌, ◌||◌, not, Option, none, some, List, [], ◌∷◌, ◌++◌, find, filter, any,
  update_where, map, ◌==◌, ◌+◌, Text, ok, Tx, is_some, unique,
}
use scope_is_team_management.Shared.{super_admin, same_role}
use scope_is_team_management.Audit.{AuditRow}
use scope_is_team_management.Tickets.Types.{UserRow}
use scope_is_team_management.Tickets.Repository.{NotificationRow}
use scope_is_team_management.Dates.{Date, before}

pub data LeaveStatus : Type 0 where
  pending approved rejected cancelled : LeaveStatus

abbrev pub is_pending : LeaveStatus → Bool
is_pending pending = true
is_pending _ = false

abbrev pub is_approved : LeaveStatus → Bool
is_approved approved = true
is_approved _ = false

abbrev pub is_active : LeaveStatus → Bool
is_active status = is_pending status || is_approved status

-- `leaveRequests`
pub record LeaveRow : Type 0 where
  pub id : ℕ
  pub employee_user_id : ℕ
  pub start_date : Date
  pub end_date : Date
  pub status : LeaveStatus
  pub private_reason : Option Text
  pub decision_response : Option Text
  pub reviewed_by_user_id : Option ℕ
  pub decided_at : Option ℕ
  pub cancelled_at : Option ℕ
  pub version : ℕ
  pub created_at : ℕ
  pub updated_at : ℕ

-- `leaveAllowanceSettings`, whose one row may be missing.
pub record AllowanceRow : Type 0 where
  pub annual_working_days : ℕ
  pub version : ℕ
  pub updated_at : ℕ

-- `schedulePeriods` and `scheduleAssignments`, the columns that a leave decision reads.
pub data PeriodStatus : Type 0 where
  draft proposed published : PeriodStatus

pub record PeriodRow : Type 0 where
  pub id : ℕ
  pub status : PeriodStatus
  pub is_current : Bool

pub record AssignmentRow : Type 0 where
  pub schedule_period_id : ℕ
  pub employee_user_id : ℕ
  pub assignment_date : Date
  pub omitted_at : Option ℕ

-- `clientBookings`, the columns that a leave decision reads.
pub record BookingRow : Type 0 where
  pub employee_user_id : ℕ
  pub start_date : Date
  pub end_date : Date
  pub cancelled_at : Option ℕ

pub record LeaveStore : Type 0 where
  pub users : List UserRow
  pub requests : List LeaveRow
  pub allowance : Option AllowanceRow
  pub periods : List PeriodRow
  pub assignments : List AssignmentRow
  pub bookings : List BookingRow
  pub audits : List AuditRow
  pub notifications : List NotificationRow

-- The clock, the id of a new row, and `dubaiCalendarYear()`.
pub record LeaveEnv : Type 0 where
  pub now : ℕ
  pub new_id : ℕ
  pub current_year : ℕ

-- The codes of domain-error.ts that the service throws, and its `Error` for a missing setting.
pub data LeaveError : Type 0 where
  not_found forbidden validation_error stale_version active_overlap : LeaveError
  invalid_state published_assignment_conflict insufficient_balance : LeaveError
  unsafe_allowance_reduction approved_unavailable missing_setting : LeaveError

abbrev pub LeaveDb : Type 0 → Type 0
LeaveDb A = Tx LeaveStore LeaveError A

-- `lte(startDate, end)` and `gte(endDate, start)`
abbrev pub meets : Date → Date → Date → Date → Bool
meets a_start a_end start end = not (before end a_start) && not (before a_end start)

-- `request`
abbrev pub request_row : ℕ → LeaveStore → Option LeaveRow
request_row id s = find (λ r. r.id == id) s.requests

-- `activeOverlap`, without an excluded id.
unfoldable pub has_active_overlap : ℕ → Date → Date → LeaveStore → Bool
has_active_overlap employee start end s =
    any
      (λ r.
        r.employee_user_id == employee
        && (is_active r.status && meets r.start_date r.end_date start end))
      s.requests

-- `approvedIntersecting`
abbrev pub is_approved_in : ℕ → Date → Date → LeaveRow → Bool
is_approved_in employee start end r =
    r.employee_user_id == employee
    && (is_approved r.status && meets r.start_date r.end_date start end)

unfoldable pub approved_intersecting : ℕ → Date → Date → LeaveStore → List LeaveRow
approved_intersecting employee start end s = filter (is_approved_in employee start end) s.requests

-- `approvedEmployeeIds`
unfoldable pub approved_employee_ids : LeaveStore → List ℕ
approved_employee_ids s =
    unique (map (λ r. r.employee_user_id) (filter (λ r. is_approved r.status) s.requests))

-- `activeSuperAdmins`
unfoldable pub active_super_admins : LeaveStore → List ℕ
active_super_admins s =
    map (λ u. u.id) (filter (λ u. same_role u.role super_admin && u.active) s.users)

abbrev pub leave_hit : ℕ → ℕ → LeaveRow → Bool
leave_hit id version r = r.id == id && r.version == version

abbrev pub leave_bump : LeaveEnv → (LeaveRow → LeaveRow) → LeaveRow → LeaveRow
leave_bump env values r = record (values r) { version = r.version + 1; updated_at = env.now }

-- `updateRequest`
unfoldable pub update_request : LeaveEnv → ℕ → ℕ → (LeaveRow → LeaveRow) → LeaveDb (Option LeaveRow)
update_request env id version values s = ok (
  Option.map (leave_bump env values) (find (leave_hit id version) s.requests),
  record s { requests = update_where (leave_hit id version) (leave_bump env values) s.requests },
)

-- `updateAllowance`
abbrev set_days : LeaveEnv → ℕ → ℕ → Option AllowanceRow → Option AllowanceRow
set_days env version days none = none
set_days env version days (some a) = elim (a.version == version) [
  | true ↦
      some (record { annual_working_days = days; version = a.version + 1; updated_at = env.now })
  | false ↦ none
]

abbrev keep_or : Option AllowanceRow → Option AllowanceRow → Option AllowanceRow
keep_or old none = old
keep_or old (some new) = some new

unfoldable pub update_allowance : LeaveEnv → ℕ → ℕ → LeaveDb (Option AllowanceRow)
update_allowance env version days s =
    let hit = set_days env version days s.allowance in
    ok (hit, record s { allowance = keep_or s.allowance hit })

-- `createRequest`: a new request is pending, at version 1.
unfoldable pub create_request : LeaveEnv → ℕ → Date → Date → Option Text → LeaveDb LeaveRow
create_request env employee start end private_reason s =
    let row : LeaveRow = record {
      id = env.new_id;
      employee_user_id = employee;
      start_date = start;
      end_date = end;
      status = pending;
      private_reason = private_reason;
      decision_response = none;
      reviewed_by_user_id = none;
      decided_at = none;
      cancelled_at = none;
      version = 1;
      created_at = env.now;
      updated_at = env.now;
    } in
    ok (row, record s { requests = s.requests ++ row ∷ [] })

abbrev is_published_now : PeriodRow → Bool
is_published_now p = elim p.status [ published ↦ p.is_current | draft ↦ false | proposed ↦ false ]

-- `publishedImpact`: assignments that stand in a current Published period.
unfoldable pub published_impact : ℕ → Date → Date → LeaveStore → List AssignmentRow
published_impact employee start end s =
    filter
      (λ a.
        not (is_some a.omitted_at)
        && (a.employee_user_id == employee
            && (any (λ p. p.id == a.schedule_period_id && is_published_now p) s.periods
                && meets a.assignment_date a.assignment_date start end)))
      s.assignments

-- `bookingRepository.overlapping`
unfoldable pub overlapping_bookings : ℕ → Date → Date → LeaveStore → List BookingRow
overlapping_bookings employee start end s =
    filter
      (λ b.
        b.employee_user_id == employee
        && (not (is_some b.cancelled_at) && meets b.start_date b.end_date start end))
      s.bookings
