-- ===== src/Leave/Service.antt =====
-- modules/leave/service.ts: the balances, and the operations that change leave. An operation that
-- reads a request before it opens its transaction takes the tables of that moment as an argument.
use Prim.Native.String.{String}
use scope_is_team_management.Base.{
  ℕ, ℤ, minus, exceeds, Bool, true, false, ◌&&◌, not, Option, some, List, [], ◌∷◌, ◌++◌, map, any,
  length, ltb, ◌==◌, ◌+◌, if◌then◌else◌, is_some, Text, codes, ◌>>=◌, ◌>>◌, pure, gets, modify,
  ensure, found, pos,
}
use scope_is_team_management.Shared.{Actor, super_admin, employee, same_role}
use scope_is_team_management.Audit.{
  Metadata, flag, number, words, balances, TargetId, of_record, named, write_audit_event,
}
use scope_is_team_management.Tickets.Repository.{NotificationRow}
use scope_is_team_management.Dates.{Date, key}
use scope_is_team_management.Leave.DateRules.{
  working_days, intersection_days, working_days_by_year, YearDays, year_start, year_end, sum,
}
use scope_is_team_management.Leave.Repository.{
  LeaveStatus, pending, approved, rejected, cancelled, is_pending, LeaveRow, AllowanceRow,
  LeaveStore, LeaveEnv, not_found, forbidden, stale_version, active_overlap, invalid_state,
  published_assignment_conflict, insufficient_balance, unsafe_allowance_reduction,
  approved_unavailable, missing_setting, LeaveDb, has_active_overlap, request_row,
  approved_intersecting, approved_employee_ids, active_super_admins, update_request,
  update_allowance, create_request, published_impact, overlapping_bookings,
}

-- `approved.reduce(...)`: the days of the given requests that fall in a year.
unfoldable pub used_days : List LeaveRow → ℕ → ℕ
used_days rows y = sum (map (λ r. intersection_days r.start_date r.end_date y) rows)

-- A balance of `requestBalances`.
pub record Balance : Type 0 where
  pub year : ℕ
  pub allowance : ℕ
  pub allowance_version : ℕ
  pub used : ℕ
  pub remaining : ℤ
  pub requested_working_days : ℕ
  pub projected_remaining : ℤ

abbrev pub balance_of : LeaveStatus → AllowanceRow → List LeaveRow → YearDays → Balance
balance_of status a rows y =
    let used = used_days rows y.year in
    record {
      year = y.year;
      allowance = a.annual_working_days;
      allowance_version = a.version;
      used = used;
      remaining = minus a.annual_working_days used;
      requested_working_days = y.working_days;
      projected_remaining =
          minus a.annual_working_days (used + (if is_pending status then y.working_days else 0));
    }

-- The approved requests that `requestBalances` reads for a request.
abbrev pub approved_for : LeaveRow → LeaveStore → List LeaveRow
approved_for r s =
    approved_intersecting r.employee_user_id (year_start r.start_date.year)
      (year_end r.end_date.year) s

-- `requestBalances`
unfoldable pub request_balances : LeaveRow → LeaveDb (List Balance)
request_balances r = do
  a ← found (← gets (λ s. s.allowance)) missing_setting
  rows ← gets (approved_for r)
  pure (map (balance_of r.status a rows) (working_days_by_year r.start_date r.end_date))

-- `balance(...).used`
unfoldable pub balance_used : ℕ → ℕ → LeaveDb ℕ
balance_used user y = do
  found (← gets (λ s. s.allowance)) missing_setting
  rows ← gets (approved_intersecting user (year_start y) (year_end y))
  pure (used_days rows y)

-- `audit`, with the target's id, and the call of the audit writer itself.
unfoldable pub leave_audit : Actor → String → TargetId → Metadata → LeaveDb (Unit {0})
leave_audit actor action target metadata = modify (λ s. record s {
  audits =
      write_audit_event
        (record {
          actor = some actor;
          action = action;
          target_type = "leave_request";
          target_id = some target;
          metadata = metadata;
        })
        s.audits;
})

abbrev notice : LeaveRow → String → ℕ → NotificationRow
notice r event_type user = record {
  recipient_user_id = user;
  event_type = event_type;
  related_record_type = "leave_request";
  related_record_id = r.id;
}

-- The calls of the notification writer for a list of recipients.
unfoldable pub notify_users : LeaveRow → String → List ℕ → LeaveDb (Unit {0})
notify_users r event_type users =
    modify (λ s. record s { notifications = s.notifications ++ map (notice r event_type) users })

pub record SubmitLeave : Type 0 where
  pub start_date : Date
  pub end_date : Date
  pub private_reason : Option Text

abbrev submitted_balance : Balance → List (Text × ℤ)
submitted_balance b =
    (codes "year", pos b.year)
    ∷ (codes "requestedWorkingDays", pos b.requested_working_days)
    ∷ (codes "projectedRemaining", b.projected_remaining)
    ∷ []

-- `submit`
unfoldable pub submit : LeaveEnv → Actor → SubmitLeave → LeaveDb LeaveRow
submit env actor parsed = do
  ensure (same_role actor.role employee) forbidden
  overlap ← gets (has_active_overlap actor.id parsed.start_date parsed.end_date)
  ensure (not overlap) active_overlap
  row ← create_request env actor.id parsed.start_date parsed.end_date parsed.private_reason
  list ← request_balances row
  leave_audit actor "leave.requested" (of_record row.id) (
      (codes "employeeUserId", number actor.id)
      ∷ (codes "startDate", number (key row.start_date))
      ∷ (codes "endDate", number (key row.end_date))
      ∷ (codes "workingDays", number (working_days row.start_date row.end_date))
      ∷ (codes "balances", balances (map submitted_balance list))
      ∷ (codes "reasonProvided", flag (is_some row.private_reason))
      ∷ [])
  recipients ← gets active_super_admins
  notify_users row "leave.submitted" recipients
  pure row

pub record LeaveVersion : Type 0 where
  pub leave_request_id : ℕ
  pub expected_version : ℕ

abbrev pub status_text : LeaveStatus → Text
status_text pending = codes "PENDING"
status_text approved = codes "APPROVED"
status_text rejected = codes "REJECTED"
status_text cancelled = codes "CANCELLED"

-- The start of `cancel` and `decide` in their transaction: the request as it is now, which must
-- have the expected version and be pending.
unfoldable pub current_pending : ℕ → ℕ → LeaveDb LeaveRow
current_pending id version = do
  current ← found (← gets (request_row id)) stale_version
  ensure (current.version == version) stale_version
  ensure (is_pending current.status) invalid_state
  pure current

-- `cancel`, where `seen` are the tables before the transaction.
unfoldable pub cancel : LeaveEnv → Actor → LeaveVersion → (seen : LeaveStore) → LeaveDb LeaveRow
cancel env actor parsed seen = do
  request ← found (request_row parsed.leave_request_id seen) not_found
  ensure (request.employee_user_id == actor.id && same_role actor.role employee) not_found
  current ← current_pending request.id parsed.expected_version
  hit ←
      update_request env current.id current.version
        (λ r. record r { status = cancelled; cancelled_at = some env.now })
  row ← found hit stale_version
  leave_audit actor "leave.cancelled" (of_record row.id) (
      (codes "employeeUserId", number actor.id)
      ∷ (codes "state", words (status_text row.status))
      ∷ (codes "workingDays", number (working_days row.start_date row.end_date))
      ∷ [])
  pure row

pub data Decision : Type 0 where
  approve reject : Decision

pub record LeaveDecision : Type 0 where
  pub leave_request_id : ℕ
  pub expected_version : ℕ
  pub decision : Decision
  pub response : Option Text

abbrev pub is_approval : Decision → Bool
is_approval approve = true
is_approval reject = false

abbrev pub decided_status : Decision → LeaveStatus
decided_status approve = approved
decided_status reject = rejected

abbrev event_of : Decision → String
event_of approve = "leave.approved"
event_of reject = "leave.rejected"

abbrev pub over : Balance → Bool
over b = exceeds b.requested_working_days b.remaining

-- The checks of `decide` that only an approval has.
unfoldable pub check_approval : LeaveRow → LeaveDb (Unit {0})
check_approval current = do
  bookings ←
      gets (overlapping_bookings current.employee_user_id current.start_date current.end_date)
  ensure (length bookings == 0) published_assignment_conflict
  impact ← gets (published_impact current.employee_user_id current.start_date current.end_date)
  ensure (length impact == 0) published_assignment_conflict
  list ← request_balances current
  ensure (not (any over list)) insufficient_balance

abbrev pub decision_values : LeaveEnv → Actor → LeaveDecision → LeaveRow → LeaveRow
decision_values env actor parsed r = record r {
  status = decided_status parsed.decision;
  decision_response = parsed.response;
  reviewed_by_user_id = some actor.id;
  decided_at = some env.now;
}

abbrev decided_balance : Balance → List (Text × ℤ)
decided_balance b =
    (codes "year", pos b.year)
    ∷ (codes "allowance", pos b.allowance)
    ∷ (codes "remaining", b.remaining)
    ∷ []

-- `decide`, where `seen` are the tables before the transaction.
unfoldable pub decide : LeaveEnv → Actor → LeaveDecision → (seen : LeaveStore) → LeaveDb LeaveRow
decide env actor parsed seen = do
  ensure (same_role actor.role super_admin) forbidden
  request ← found (request_row parsed.leave_request_id seen) not_found
  current ← current_pending request.id parsed.expected_version
  impact ← gets (published_impact current.employee_user_id current.start_date current.end_date)
  if is_approval parsed.decision then check_approval current else pure tt
  hit ← update_request env current.id current.version (decision_values env actor parsed)
  row ← found hit stale_version
  list ← request_balances row
  leave_audit actor (event_of parsed.decision) (of_record row.id) (
      (codes "employeeUserId", number row.employee_user_id)
      ∷ (codes "state", words (status_text row.status))
      ∷ (codes "workingDays", number (working_days row.start_date row.end_date))
      ∷ (codes "balances", balances (map decided_balance list))
      ∷ (codes "scheduleImpactCount", number (length impact))
      ∷ (codes "responseProvided", flag (is_some row.decision_response))
      ∷ [])
  notify_users row (event_of parsed.decision) (row.employee_user_id ∷ [])
  pure row

pub record AllowanceUpdate : Type 0 where
  pub annual_working_days : ℕ
  pub expected_version : ℕ

-- The loop of `updateAllowance` over the employees who have approved leave.
unfoldable pub check_employees : ℕ → ℕ → List ℕ → LeaveDb (Unit {0})
check_employees days year [] = pure tt
check_employees days year (id ∷ ids) = do
  used ← balance_used id year
  ensure (not (ltb days used)) unsafe_allowance_reduction
  check_employees days year ids

-- `updateAllowance`
unfoldable pub set_allowance : LeaveEnv → Actor → AllowanceUpdate → LeaveDb AllowanceRow
set_allowance env actor parsed = do
  ensure (same_role actor.role super_admin) forbidden
  current ← found (← gets (λ s. s.allowance)) stale_version
  ensure (current.version == parsed.expected_version) stale_version
  ids ← gets approved_employee_ids
  if ltb parsed.annual_working_days current.annual_working_days
      then check_employees parsed.annual_working_days env.current_year ids
      else pure tt
  hit ← update_allowance env current.version parsed.annual_working_days
  row ← found hit stale_version
  leave_audit actor "leave.allowance_updated" (named "global")
      ((codes "annualWorkingDays", number row.annual_working_days) ∷ [])
  pure row

-- `assertEmployeeAvailableForSchedule`
unfoldable pub assert_available : ℕ → Date → LeaveDb (Unit {0})
assert_available employee_id date = do
  rows ← gets (approved_intersecting employee_id date date)
  ensure (length rows == 0) approved_unavailable
