-- ===== src/Scheduling/Service.antt =====
-- modules/scheduling/service.ts: the operations on a period and on its assignments. A command is a
-- value that passed the schemas of validation.ts.
use Prim.Native.String.{String}
use scope_is_team_management.Base.{
  ℕ, true, false, ◌&&◌, Option, none, some, List, [], ◌∷◌, ◌++◌, length, ◌==◌, Text, codes, Result,
  ok, err, ◌>>=◌, ◌>>◌, pure, gets, modify, ensure, found,
}
use scope_is_team_management.Shared.{Actor}
use scope_is_team_management.Audit.{Metadata, flag, number, words, of_record, write_audit_event}
use scope_is_team_management.Dates.{Date}
use scope_is_team_management.Leave.Repository.{PeriodStatus, draft, proposed, published}
use scope_is_team_management.Tables.{Period, Assignment, is_draft, is_proposed, is_in_use}
use scope_is_team_management.Reporting.Windows.{date_text}
use scope_is_team_management.Scheduling.Repository.{
  SchedulingError, not_found, stale_version, archived_record, invalid_state, conflict,
  unique_violation, ScheduleEnv, ScheduleDb, Slot, client_row, period_row, assignment_row,
  create_period, update_period, create_assignment, update_assignment,
}
use scope_is_team_management.Scheduling.Checks.{
  mutate, require_client, require_period, visible_employee, assert_no_overlap, validate_references,
  bump_period, validate_period_assignments,
}

-- `audit`, with the call of the audit writer itself.
unfoldable pub schedule_audit : Actor → String → ℕ → Metadata → ScheduleDb (Unit {0})
schedule_audit actor action target metadata = modify (λ s. record s {
  audits =
      write_audit_event
        (record {
          actor = some actor;
          action = action;
          target_type = "schedule_period";
          target_id = some (of_record target);
          metadata = metadata;
        })
        s.audits;
})

abbrev pub status_words : PeriodStatus → Text
status_words draft = codes "DRAFT"
status_words proposed = codes "PROPOSED"
status_words published = codes "PUBLISHED"

abbrev pub period_facts : Period → Metadata
period_facts p =
    (codes "clientId", number p.client_id)
    ∷ (codes "month", words (date_text p.planning_month))
    ∷ (codes "status", words (status_words p.status))
    ∷ []

abbrev assignment_facts : Assignment → Period → Metadata
assignment_facts a p =
    (codes "assignmentId", number a.id)
    ∷ (codes "employeeUserId", number a.employee_user_id)
    ∷ (codes "projectId", number a.project_id)
    ∷ (codes "locationId", number a.location_id)
    ∷ (codes "date", words (date_text a.assignment_date))
    ∷ (codes "status", words (status_words p.status))
    ∷ []

-- A database error for a unique index, as `createPeriod` reports it.
abbrev as_conflict : SchedulingError → SchedulingError
as_conflict unique_violation = conflict
as_conflict e = e

abbrev pub new_draft : ScheduleEnv → ℕ → Date → ℕ → ℕ → Option ℕ → Period
new_draft env owner month lineage revision parent = record {
  id = env.fresh 0;
  client_id = owner;
  planning_month = month;
  lineage_id = lineage;
  revision_number = revision;
  parent_period_id = parent;
  status = draft;
  is_current = false;
  last_return_reason = none;
  proposed_at = none;
  published_at = none;
  version = 1;
  updated_at = env.now;
}

unfoldable pub open_month : ScheduleEnv → Actor → ℕ → Date → ScheduleDb Period
open_month env actor owner month = do
  require_client actor owner true
  held ← gets (client_row owner)
  c ← found held archived_record
  ensure (is_in_use c.status) archived_record
  row ← create_period (new_draft env owner month (env.fresh 1) 1 none)
  schedule_audit actor "schedule.created" row.id (period_facts row)
  pure row

abbrev pub recast : {A : Type 0} → Result SchedulingError A → Result SchedulingError A
recast (ok r) = ok r
recast (err e) = err (as_conflict e)

-- `createPeriod`
unfoldable pub plan_period : ScheduleEnv → Actor → ℕ → Date → ScheduleDb Period
plan_period env actor owner month s =
    recast (mutate actor (λ current. open_month env current owner month) s)

-- The guards of a change in a Draft period.
unfoldable pub require_draft : Period → ℕ → ScheduleDb (Unit {0})
require_draft current expected = do
  ensure (current.version == expected) stale_version
  ensure (is_draft current.status) invalid_state

-- `addAssignment`
unfoldable pub add_assignment : ScheduleEnv → Actor → ℕ → ℕ → Slot → ScheduleDb Assignment
add_assignment env supplied period expected slot = mutate supplied (λ actor. do
  current ← require_period actor period false
  require_draft current expected
  visible_employee actor slot.employee_user_id
  let input : Slot = record slot { copied_from_assignment_id = none }
  validate_references current input
  assert_no_overlap current input none
  row ← create_assignment env (env.fresh 0) period input
  bump_period env current
  schedule_audit actor "schedule_assignment.created" current.id (assignment_facts row current)
  pure row)

-- The assignment of a command, which has to be one of the period.
unfoldable pub require_assignment : Period → ℕ → ScheduleDb Assignment
require_assignment current id = do
  row ← gets (assignment_row id)
  existing ← found row not_found
  ensure (existing.schedule_period_id == current.id) not_found
  pure existing

abbrev moved_to : Slot → Assignment → Assignment
moved_to slot a = record a {
  employee_user_id = slot.employee_user_id;
  project_id = slot.project_id;
  location_id = slot.location_id;
  assignment_date = slot.assignment_date;
  start_time = slot.start_time;
  end_time = slot.end_time;
  shared_instruction = slot.shared_instruction;
}

-- `updateAssignment`, with the versions expected of the period and of the assignment.
unfoldable pub move_assignment : ScheduleEnv → Actor → ℕ → ℕ → ℕ → ℕ → Slot → ScheduleDb Assignment
move_assignment env supplied period expected id version slot = mutate supplied (λ actor. do
  current ← require_period actor period false
  existing ← require_assignment current id
  ensure (current.version == expected && existing.version == version) stale_version
  ensure (is_draft current.status) invalid_state
  visible_employee actor slot.employee_user_id
  let input : Slot = record slot { copied_from_assignment_id = existing.copied_from_assignment_id }
  validate_references current input
  assert_no_overlap current input (some existing.id)
  hit ← update_assignment env existing.id version (moved_to slot)
  row ← found hit stale_version
  bump_period env current
  schedule_audit actor "schedule_assignment.updated" current.id (assignment_facts row current)
  pure row)

-- `removeAssignment`, with `omitAssignment`.
unfoldable pub remove_assignment : ScheduleEnv → Actor → ℕ → ℕ → ℕ → ℕ → ScheduleDb Assignment
remove_assignment env supplied period expected id version = mutate supplied (λ actor. do
  current ← require_period actor period false
  existing ← require_assignment current id
  ensure (current.version == expected && existing.version == version) stale_version
  ensure (is_draft current.status) invalid_state
  hit ←
      update_assignment env existing.id existing.version
        (λ a. record a { omitted_at = some env.now })
  row ← found hit stale_version
  bump_period env current
  schedule_audit actor "schedule_assignment.removed" current.id (
      (codes "assignmentId", number existing.id)
      ∷ (codes "status", words (status_words current.status))
      ∷ [])
  pure row)

abbrev pub to_proposed : ScheduleEnv → Period → Period
to_proposed env p = record p { status = proposed; proposed_at = some env.now }

abbrev pub with_count : Period → List Assignment → Metadata
with_count p rows = period_facts p ++ (codes "assignmentCount", number (length rows)) ∷ []

-- `propose`
unfoldable pub propose : ScheduleEnv → Actor → ℕ → ℕ → ScheduleDb Period
propose env supplied period expected = mutate supplied (λ actor. do
  current ← require_period actor period true
  require_draft current expected
  assignments ← validate_period_assignments actor current
  hit ← update_period env current.id current.version (to_proposed env)
  row ← found hit stale_version
  schedule_audit actor "schedule.proposed" row.id (with_count row assignments)
  pure row)

-- The guards of a change of a Proposed period.
unfoldable pub require_proposed : ℕ → ℕ → ScheduleDb Period
require_proposed period expected = do
  held ← gets (period_row period)
  current ← found held not_found
  ensure (is_proposed current.status) invalid_state
  ensure (current.version == expected) stale_version
  pure current

abbrev pub to_draft : String → Period → Period
to_draft reason p = record p { status = draft; last_return_reason = some reason }

-- `returnToDraft`
unfoldable pub return_to_draft : ScheduleEnv → Actor → ℕ → ℕ → String → ScheduleDb Period
return_to_draft env supplied period expected reason = mutate supplied (λ actor. do
  current ← require_proposed period expected
  hit ← update_period env current.id current.version (to_draft reason)
  row ← found hit stale_version
  schedule_audit actor "schedule.returned_to_draft" row.id
      (period_facts row ++ (codes "reasonProvided", flag true) ∷ [])
  pure row)
