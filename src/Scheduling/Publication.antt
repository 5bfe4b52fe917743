-- ===== src/Scheduling/Publication.antt =====
-- modules/scheduling/service.ts: publication, and the revision of what is published.
use scope_is_team_management.Base.{
  ℕ, Bool, true, false, ◌&&◌, Option, none, some, List, [], ◌∷◌, ◌++◌, map, filter, unique,
  update_where, length, ◌+◌, ◌==◌, codes, ◌>>=◌, ◌>>◌, pure, gets, modify, ensure, found,
}
use scope_is_team_management.Shared.{Actor}
use scope_is_team_management.Audit.{number, words}
use scope_is_team_management.Leave.Repository.{published}
use scope_is_team_management.Tickets.Repository.{NotificationRow}
use scope_is_team_management.Tables.{Period, Assignment, SkillNeedRow, is_live, is_published}
use scope_is_team_management.Reporting.Windows.{date_text}
use scope_is_team_management.Scheduling.Repository.{
  not_found, stale_version, invalid_state, ScheduleStore, ScheduleEnv, ScheduleDb, Slot, slot_of,
  period_row, all_assignments, current_published, next_revision_number, create_period,
  update_period, create_assignment,
}
use scope_is_team_management.Scheduling.Checks.{mutate, validate_period_assignments}
use scope_is_team_management.Scheduling.Service.{
  schedule_audit, with_count, new_draft, require_proposed,
}

abbrev pub is_superseded : ℕ → Period → Bool
is_superseded id p = p.id == id && p.is_current

abbrev pub superseded : ScheduleEnv → Period → Period
superseded env p = record p { is_current = false; updated_at = env.now }

-- The previous publication gives way, without a new version.
unfoldable pub demote : ScheduleEnv → Option Period → ScheduleStore → ScheduleStore
demote env none s = s
demote env (some previous) s = record s {
  periods = update_where (is_superseded previous.id) (superseded env) s.periods;
}

abbrev pub to_published : ScheduleEnv → Period → Period
to_published env p = record p { status = published; is_current = true; published_at = some env.now }

abbrev published_notice : ℕ → ℕ → NotificationRow
published_notice period user = record {
  recipient_user_id = user;
  event_type = "schedule.published";
  related_record_type = "schedule_period";
  related_record_id = period;
}

abbrev earlier_assignments : Option Period → ScheduleStore → List Assignment
earlier_assignments none s = []
earlier_assignments (some previous) s = all_assignments previous.id s

-- `affected`
unfoldable pub affected : List Assignment → List Assignment → List ℕ
affected now earlier = unique (map (λ a. a.employee_user_id) (now ++ earlier))

-- The notices and the audit event of a publication.
unfoldable pub announce : Actor → Option Period → List Assignment → Period → ScheduleDb (Unit {0})
announce actor previous assignments row = do
  earlier ← gets (earlier_assignments previous)
  let users = affected assignments earlier
  modify (λ s. record s { notifications = s.notifications ++ map (published_notice row.id) users })
  schedule_audit actor "schedule.published" row.id
      (with_count row assignments ++ (codes "affectedEmployeeCount", number (length users)) ∷ [])

-- `publish`
unfoldable pub publish : ScheduleEnv → Actor → ℕ → ℕ → ScheduleDb Period
publish env supplied period expected = mutate supplied (λ actor. do
  current ← require_proposed period expected
  assignments ← validate_period_assignments actor current
  previous ← gets (current_published current.client_id current.planning_month)
  modify (demote env previous)
  hit ← update_period env current.id current.version (to_published env)
  row ← found hit stale_version
  announce actor previous assignments row
  pure row)

abbrev pub is_need_of : ℕ → SkillNeedRow → Bool
is_need_of assignment n = n.schedule_assignment_id == assignment && is_live n.archived_at

-- The skill requirements of a copy, with the ids from the given one on.
abbrev pub needs_for : ScheduleEnv → ℕ → ℕ → List SkillNeedRow → List SkillNeedRow
needs_for env at copy [] = []
needs_for env at copy (n ∷ ns) =
    record n { id = env.fresh at; schedule_assignment_id = copy; archived_at = none }
    ∷ needs_for env (at + 1) copy ns

abbrev pub copied_slot : Assignment → Slot
copied_slot a = record (slot_of a) { copied_from_assignment_id = some a.id }

-- The loop that copies the assignments of a period into its revision. Ids are used from the given
-- one on; the next one is returned.
unfoldable pub copy_assignments : ScheduleEnv → ℕ → ℕ → List Assignment → ScheduleDb ℕ
copy_assignments env at revision [] = pure at
copy_assignments env at revision (a ∷ rest) = do
  copied ← create_assignment env (env.fresh at) revision (copied_slot a)
  needs ← gets (λ s. filter (is_need_of a.id) s.skill_needs)
  modify (λ s. record s { skill_needs = s.skill_needs ++ needs_for env (at + 1) copied.id needs })
  copy_assignments env (at + 1 + length needs) revision rest

-- `createRevision`
unfoldable pub create_revision : ScheduleEnv → Actor → ℕ → ℕ → ScheduleDb Period
create_revision env supplied period expected = mutate supplied (λ actor. do
  held ← gets (period_row period)
  source ← found held not_found
  ensure (is_published source.status && source.is_current) invalid_state
  ensure (source.version == expected) stale_version
  assignments ← gets (all_assignments source.id)
  next ← gets (next_revision_number source.client_id source.planning_month)
  revision ←
      create_period (
        new_draft env source.client_id source.planning_month source.lineage_id next
          (some source.id))
  copy_assignments env 1 revision.id assignments
  schedule_audit actor "schedule.revision.created" revision.id (
      (codes "clientId", number revision.client_id)
      ∷ (codes "month", words (date_text revision.planning_month))
      ∷ (codes "sourcePeriodId", number source.id)
      ∷ (codes "assignmentCount", number (length assignments))
      ∷ (codes "revisionNumber", number revision.revision_number)
      ∷ [])
  pure revision)
