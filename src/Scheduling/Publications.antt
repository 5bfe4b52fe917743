-- ===== src/Scheduling/Publications.antt =====
-- modules/scheduling/service.ts: what `publish` guarantees of the period it publishes and of the
-- table of periods.
use mathlib.Core.Option
use scope_is_team_management.Base.{
  ℕ, true, Option, some, List, ◌≡◌, refl, sym, ap, subst, ◌∙◌, find, update_where, ◌==◌, ok, All,
  >>=-eq-ok, ensure_passed, found_passed, apart, ok-injective, apart-update_where,
}
use scope_is_team_management.Shared.{Actor}
use scope_is_team_management.Tables.{Period, Assignment, is_proposed}
use scope_is_team_management.Scheduling.Repository.{
  not_found, stale_version, invalid_state, ScheduleStore, ScheduleEnv, period_row, all_assignments,
  current_published, period_hit, period_bump, update_period,
}
use scope_is_team_management.Scheduling.Checks.{validate_period_assignments}
use scope_is_team_management.Scheduling.Service.{require_proposed, schedule_audit}
use scope_is_team_management.Scheduling.Publication.{demote, to_published, announce, publish}
use scope_is_team_management.Scheduling.Fitness.{IsFit, mutated, validated}
use scope_is_team_management.Scheduling.Rivals.{
  rivals, demoted_apart, none_current, published_rivals, demoted_at,
}

pub proposed_is :
    (period expected : ℕ) (s s' : ScheduleStore) (current : Period)
    → require_proposed period expected s ≡ ok (current, s')
    → (s' ≡ s)
      × (period_row period s ≡ some current)
      × (is_proposed current.status ≡ true)
      × ((current.version == expected) ≡ true)
unfolding require_proposed
proposed_is period expected s s' current h =
    let (c, is_c, h₁) = found_passed (period_row period s) not_found _ s h in
    let (state, h₂) = ensure_passed (is_proposed c.status) invalid_state _ s h₁ in
    let (at_version, h₃) = ensure_passed (c.version == expected) stale_version _ s h₂ in
    let e : c ≡ current = cc in
    (
      cc,
      subst (λ k. period_row period s ≡ some k) e is_c,
      subst (λ k. is_proposed k.status ≡ true) e state,
      subst (λ k. (k.version == expected) ≡ true) e at_version,
    )

-- The periods that a publication leaves.
abbrev pub published_periods : ScheduleEnv → Period → ScheduleStore → List Period
published_periods env current s =
    update_where (period_hit current.id current.version) (period_bump env (to_published env))
      (demote env (current_published current.client_id current.planning_month s) s).periods

announced :
    (actor : Actor) (previous : Option Period) (rows : List Assignment) (row : Period)
    (s s' : ScheduleStore) (u : Unit {0})
    → announce actor previous rows row s ≡ ok (u, s')
    → s'.periods ≡ s.periods
unfolding announce schedule_audit
announced actor previous rows row s s' u h = cc

pub publish-outcome :
    (env : ScheduleEnv) (supplied : Actor) (period expected : ℕ) (s s' : ScheduleStore)
    (row : Period)
    → publish env supplied period expected s ≡ ok (row, s')
    → (current : Period) × (period_row period s ≡ some current)
      × (is_proposed current.status ≡ true)
      × ((current.version == expected) ≡ true)
      × All (λ a. IsFit current a s) (all_assignments current.id s)
      × (s'.periods ≡ published_periods env current s)
unfolding publish update_period
publish-outcome env supplied period expected s s' row h =
    let (actor, h₁) = mutated supplied _ s h in
    let (current, s₁, held, h₂) = >>=-eq-ok (require_proposed period expected) _ s h₁ in
    let (same₁, is_held, state, at_version) = proposed_is period expected s s₁ current held in
    let (rows, s₂, valid, h₃) = >>=-eq-ok (validate_period_assignments actor current) _ s₁ h₂ in
    let valid' : validate_period_assignments actor current s ≡ ok (rows, s₂) =
      subst (λ k. validate_period_assignments actor current k ≡ ok (rows, s₂)) same₁ valid in
    let (same₂, rows_are, fit) = validated actor current s s₂ rows valid' in
    let h₄ = rw same₂ at h₃ in
    let previous = current_published current.client_id current.planning_month s in
    let (hit, is_hit, h₅) =
      found_passed
        (Option.map (period_bump env (to_published env))
          (find (period_hit current.id current.version) (demote env previous s).periods))
        stale_version _ _ h₄ in
    let (u, s₃, told, h₆) = >>=-eq-ok (announce actor previous rows hit) _ _ h₅ in
    let after = announced actor previous rows hit _ s₃ u told in
    let same₃ = ap (λ (k : Period × ScheduleStore). k.1) (ok-injective _ refl h₆) in
    (
      current,
      is_held,
      state,
      at_version,
      fit,
      sym (ap (λ (k : ScheduleStore). k.periods) same₃) ∙ after,
    )

-- A publication leaves the rows of the period table apart: no two rows have one id, and no client
-- has two current publications for a month. The rows have to be apart before.
pub publish_keeps_one_publication :
    (env : ScheduleEnv) (supplied : Actor) (period expected : ℕ) (s s' : ScheduleStore)
    (row : Period)
    → apart rivals s.periods ≡ true
    → publish env supplied period expected s ≡ ok (row, s')
    → apart rivals s'.periods ≡ true
publish_keeps_one_publication env supplied period expected s s' row apart_s h =
    let (current, held, state, at_version, fit, after) =
      publish-outcome env supplied period expected s s' row h in
    let previous = current_published current.client_id current.planning_month s in
    let hits = demoted_at env previous current period s apart_s held in
    let none_now = none_current env current.client_id current.planning_month s apart_s in
    subst (λ k. apart rivals k ≡ true) (sym after)
      (apart-update_where rivals (period_hit current.id current.version)
        (period_bump env (to_published env)) (demote env previous s).periods
        (demoted_apart env previous s apart_s)
        (λ p q m n.
          published_rivals env current p q (hits p m) (hits q n) (none_now p m) (none_now q n)))

-- What is published was checked: a publication that succeeds is of a Proposed period at the
-- expected version, and each assignment of that period is in the month of the period, starts
-- before it ends, stands at a location in use that is linked to a project of the client that is
-- not archived, and is of an active employee who is neither on approved leave nor booked that day;
-- every counting assignment of that employee that overlaps it is itself or the unchanged
-- assignment of the parent period that it is a copy of.
pub published-IsFit :
    (env : ScheduleEnv) (supplied : Actor) (period expected : ℕ) (s s' : ScheduleStore)
    (row : Period)
    → publish env supplied period expected s ≡ ok (row, s')
    → (current : Period) × (period_row period s ≡ some current)
      × (is_proposed current.status ≡ true)
      × ((current.version == expected) ≡ true)
      × All (λ a. IsFit current a s) (all_assignments current.id s)
published-IsFit env supplied period expected s s' row h =
    let (current, held, state, at_version, fit, after) =
      publish-outcome env supplied period expected s s' row h in
    (current, held, state, at_version, fit)
