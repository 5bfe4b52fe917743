-- ===== src/Scheduling/Planned.antt =====
-- modules/scheduling/service.ts: `createPeriod` and `createRevision` add one Draft to the table of
-- periods.
use scope_is_team_management.Base.{
  ℕ, true, false, none, some, List, [], ◌∷◌, ◌++◌, ◌≡◌, refl, sym, ap, ◌∙◌, ◌==◌, Result, ok, err,
  ◌+◌, length, filter, ◌&&◌, any, >>=-eq-ok, ensure_passed, found_passed, Bool-cases, inl, inr,
  ok-injective,
}
use scope_is_team_management.Shared.{Actor}
use scope_is_team_management.Authorization.Operational.{has_client_management_scope}
use scope_is_team_management.Dates.{Date}
use scope_is_team_management.Tables.{ClientRow, Period, Assignment, is_published, is_in_use}
use scope_is_team_management.Scheduling.Repository.{
  SchedulingError, not_found, out_of_scope, stale_version, invalid_state, ScheduleStore,
  archived_record, ScheduleEnv, clashes, client_row, create_period, create_assignment,
  all_assignments, next_revision_number, period_row,
}
use scope_is_team_management.Scheduling.Checks.{require_client, grants}
use scope_is_team_management.Scheduling.Service.{
  recast, plan_period, open_month, new_draft, schedule_audit,
}
use scope_is_team_management.Scheduling.Publication.{is_need_of, copy_assignments, create_revision}
use scope_is_team_management.Scheduling.Fitness.{mutated}
use scope_is_team_management.Scheduling.Lifecycle.{drafted, stage_of}

pub created :
    (row : Period) (s s' : ScheduleStore) (r : Period)
    → create_period row s ≡ ok (r, s')
    → (r ≡ row) × (s'.periods ≡ s.periods ++ row ∷ []) × (any (clashes row) s.periods ≡ false)
unfolding create_period
created row s s' r h = elim (Bool-cases (any (clashes row) s.periods)) [
  | inl a ↦ let e = rw a at h in cc
  | inr a ↦
      let e = ok-injective _ refl (rw a at h) in
      (
        sym (ap (λ (k : Period × ScheduleStore). k.0) e),
        sym (ap (λ (k : Period × ScheduleStore). (k.1).periods) e),
        a,
      )
]

client_same :
    (actor : Actor) (owner : ℕ) (s s' : ScheduleStore) (c : ClientRow)
    → require_client actor owner true s ≡ ok (c, s')
    → s' ≡ s
unfolding require_client
client_same actor owner s s' c h =
    let (r, is_r, h₁) = found_passed (client_row owner s) not_found _ s h in
    let (reached, h₂) =
      ensure_passed (has_client_management_scope actor.role (grants actor s) owner) out_of_scope _ s
        h₁ in
    cc

recast-ok :
    (r : Result SchedulingError (Period × ScheduleStore)) (x : Period × ScheduleStore)
    → recast r ≡ ok x
    → r ≡ ok x
recast-ok (ok y) x h = h
recast-ok (err e) x h = cc

pub copies_same :
    (env : ScheduleEnv) (revision : ℕ) (rows : List Assignment) (at : ℕ) (s s' : ScheduleStore)
    (u : ℕ)
    → copy_assignments env at revision rows s ≡ ok (u, s')
    → s'.periods ≡ s.periods
unfolding copy_assignments create_assignment
copies_same env revision [] at s s' u h = cc
copies_same env revision (a ∷ rows) at s s' u h =
    copies_same env revision rows (at + 1 + length (filter (is_need_of a.id) s.skill_needs)) _ s' u
      h

-- A table with one new Draft besides the earlier rows.
abbrev pub IsPlanned : List Period → List Period → Type 0
IsPlanned ps ps' = (row : Period) × (stage_of row ≡ drafted) × (ps' ≡ ps ++ row ∷ [])

pub plans :
    (env : ScheduleEnv) (supplied : Actor) (owner : ℕ) (month : Date) (s s' : ScheduleStore)
    (row : Period)
    → plan_period env supplied owner month s ≡ ok (row, s')
    → IsPlanned s.periods s'.periods
unfolding plan_period open_month schedule_audit
plans env supplied owner month s s' row h =
    let (actor, h₁) =
      mutated supplied (λ (actor : Actor). open_month env actor owner month) s
        (recast-ok _ (row, s') h) in
    let (c, s₁, reached, h₂) = >>=-eq-ok (require_client actor owner true) _ s h₁ in
    let h₃ = rw (client_same actor owner s s₁ c reached) at h₂ in
    let (k, is_k, h₄) = found_passed (client_row owner s) archived_record _ s h₃ in
    let (in_use, h₅) = ensure_passed (is_in_use k.status) archived_record _ s h₄ in
    let fresh = new_draft env owner month (env.fresh 1) 1 none in
    let (r, s₂, made, h₆) = >>=-eq-ok (create_period fresh) _ s h₅ in
    let (is_r, after, free) = created fresh s s₂ r made in
    let e = ap (λ (k : Period × ScheduleStore). (k.1).periods) (ok-injective _ refl h₆) in
    (fresh, refl, sym e ∙ after)

pub revises :
    (env : ScheduleEnv) (supplied : Actor) (period expected : ℕ) (s s' : ScheduleStore)
    (row : Period)
    → create_revision env supplied period expected s ≡ ok (row, s')
    → IsPlanned s.periods s'.periods
unfolding create_revision schedule_audit
revises env supplied period expected s s' row h =
    let (actor, h₁) = mutated supplied _ s h in
    let (source, held, h₂) = found_passed (period_row period s) not_found _ s h₁ in
    let (state, h₃) =
      ensure_passed (is_published source.status && source.is_current) invalid_state _ s h₂ in
    let (at_version, h₄) = ensure_passed (source.version == expected) stale_version _ s h₃ in
    let fresh =
      new_draft env source.client_id source.planning_month source.lineage_id
        (next_revision_number source.client_id source.planning_month s) (some source.id) in
    let (r, s₁, made, h₅) = >>=-eq-ok (create_period fresh) _ s h₄ in
    let (is_r, after, free) = created fresh s s₁ r made in
    let (u, s₂, copied, h₆) =
      >>=-eq-ok (copy_assignments env 1 r.id (all_assignments source.id s)) _ s₁ h₅ in
    let e = ap (λ (k : Period × ScheduleStore). (k.1).periods) (ok-injective _ refl h₆) in
    (
      fresh,
      refl,
      sym e ∙ copies_same env r.id (all_assignments source.id s) 1 s₁ s₂ u copied ∙ after,
    )
