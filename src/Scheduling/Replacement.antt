-- ===== src/Scheduling/Replacement.antt =====
-- modules/scheduling/service.ts, `applyReplacementEffect`: an approved replacement request changes a
-- Draft, or makes one of what is proposed or published. It runs in the transaction of the decision.
use Prim.Native.String.{String}
use scope_is_team_management.Base.{
  ℕ, Bool, true, not, Option, none, some, [], ◌∷◌, ◌++◌, filter, find, length, ◌+◌, ◌==◌, is_ref,
  codes, ◌>>=◌, ◌>>◌, pure, gets, modify, ensure, found,
}
use scope_is_team_management.Shared.{Actor}
use scope_is_team_management.Audit.{number, words, flag}
use scope_is_team_management.Leave.Repository.{PeriodStatus, draft, proposed, published}
use scope_is_team_management.Tables.{Period, Assignment, Intent, replace_assignment, add_coverage}
use scope_is_team_management.Reporting.Windows.{date_text}
use scope_is_team_management.Scheduling.Repository.{
  not_found, stale_version, invalid_state, conflict, ScheduleEnv, ScheduleDb, Slot, period_row,
  assignment_row, all_assignments, next_revision_number, create_period, update_period,
  create_assignment, update_assignment,
}
use scope_is_team_management.Scheduling.Checks.{
  require_planner, visible_employee, assert_no_overlap, validate_references, bump_period,
}
use scope_is_team_management.Scheduling.Service.{
  schedule_audit, period_facts, status_words, new_draft, to_draft,
}
use scope_is_team_management.Scheduling.Publication.{is_need_of, needs_for, copy_assignments}

-- `effectStatus`
pub data EffectStatus : Type 0 where
  applied_to_draft published_revision_created : EffectStatus

-- The Draft to change, the assignment in it, and how it came to be a Draft; and the first id of
-- the database that is not used yet.
pub record Editable : Type 0 where
  pub period : Period
  pub anchor : Assignment
  pub effect : EffectStatus
  pub next_id : ℕ

-- A Proposed period is returned.
unfoldable pub return_proposed : ScheduleEnv → Actor → Assignment → Period → ScheduleDb Editable
return_proposed env actor original period = do
  hit ←
      update_period env period.id period.version
        (to_draft "Approved replacement request requires an editable Draft.")
  returned ← found hit stale_version
  schedule_audit actor "schedule.returned_to_draft" returned.id
      (period_facts returned ++ (codes "replacementRequest", flag true) ∷ [])
  pure (record { period = returned; anchor = original; effect = applied_to_draft; next_id = 0 })

abbrev pub is_copy_of : ℕ → Assignment → Bool
is_copy_of id a = is_ref id a.copied_from_assignment_id

-- The current publication gets a revision.
unfoldable pub revise_published : ScheduleEnv → Actor → Assignment → Period → ScheduleDb Editable
revise_published env actor original period = do
  ensure period.is_current invalid_state
  originals ← gets (all_assignments period.id)
  next ← gets (next_revision_number period.client_id period.planning_month)
  revision ←
      create_period (
        new_draft env period.client_id period.planning_month period.lineage_id next
          (some period.id))
  next_id ← copy_assignments env 1 revision.id originals
  copies ← gets (all_assignments revision.id)
  anchor ← found (find (is_copy_of original.id) copies) conflict
  schedule_audit actor "schedule.revision.created" revision.id (
      (codes "clientId", number revision.client_id)
      ∷ (codes "month", words (date_text revision.planning_month))
      ∷ (codes "sourcePeriodId", number original.schedule_period_id)
      ∷ (codes "assignmentCount", number (length originals))
      ∷ (codes "revisionNumber", number revision.revision_number)
      ∷ (codes "replacementRequest", flag true)
      ∷ [])
  pure (record {
    period = revision;
    anchor = anchor;
    effect = published_revision_created;
    next_id = next_id;
  })

unfoldable pub make_editable :
    ScheduleEnv → Actor → Assignment → Period → PeriodStatus → ScheduleDb Editable
make_editable env actor original period draft =
    pure (record { period = period; anchor = original; effect = applied_to_draft; next_id = 0 })
make_editable env actor original period proposed = return_proposed env actor original period
make_editable env actor original period published = revise_published env actor original period

abbrev pub target_of : ℕ → Assignment → Slot
target_of selected anchor = record {
  employee_user_id = selected;
  project_id = anchor.project_id;
  location_id = anchor.location_id;
  assignment_date = anchor.assignment_date;
  start_time = anchor.start_time;
  end_time = anchor.end_time;
  shared_instruction = none;
  copied_from_assignment_id = none;
}

abbrev pub excluded : Intent → Assignment → Option ℕ
excluded replace_assignment anchor = some anchor.id
excluded add_coverage anchor = none

-- The assignment gets the selected employee, or a second one stands beside it.
unfoldable pub change_assignment : ScheduleEnv → Intent → ℕ → Editable → ScheduleDb Assignment
change_assignment env replace_assignment selected e = do
  hit ←
      update_assignment env (e.anchor).id (e.anchor).version
        (λ a. record a { employee_user_id = selected })
  found hit stale_version
change_assignment env add_coverage selected e = do
  created ←
      create_assignment env (env.fresh e.next_id) (e.period).id
        (record (target_of selected e.anchor) {
          shared_instruction = (e.anchor).shared_instruction;
        })
  needs ← gets (λ s. filter (is_need_of (e.anchor).id) s.skill_needs)
  modify (λ s. record s {
    skill_needs = s.skill_needs ++ needs_for env (e.next_id + 1) created.id needs;
  })
  pure created

abbrev pub action_of : Intent → String
action_of replace_assignment = "schedule_assignment.replaced"
action_of add_coverage = "schedule_assignment.coverage_added"

-- The checks of the selected employee, and the change itself.
unfoldable pub apply_change :
    ScheduleEnv → Actor → Intent → ℕ → Editable → ScheduleDb (Period × Assignment × EffectStatus)
apply_change env actor intent selected e = do
  visible_employee actor selected
  validate_references e.period (target_of selected e.anchor)
  assert_no_overlap e.period (target_of selected e.anchor) (excluded intent e.anchor)
  changed ← change_assignment env intent selected e
  current ← bump_period env e.period
  schedule_audit actor (action_of intent) current.id (
      (codes "assignmentId", number changed.id)
      ∷ (codes "anchorAssignmentId", number (e.anchor).id)
      ∷ (codes "employeeUserId", number selected)
      ∷ (codes "date", words (date_text (e.anchor).assignment_date))
      ∷ (codes "status", words (status_words current.status))
      ∷ (codes "replacementRequest", flag true)
      ∷ [])
  pure (current, changed, e.effect)

-- `applyReplacementEffect`
unfoldable pub apply_replacement_effect :
    ScheduleEnv → Actor → ℕ → ℕ → Intent → ScheduleDb (Period × Assignment × EffectStatus)
apply_replacement_effect env supplied anchor_id selected intent = do
  actor ← require_planner supplied
  held ← gets (assignment_row anchor_id)
  original ← found held not_found
  ensure (not (original.employee_user_id == selected)) conflict
  row ← gets (period_row original.schedule_period_id)
  period ← found row not_found
  e ← make_editable env actor original period period.status
  apply_change env actor intent selected e
