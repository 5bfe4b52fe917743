-- ===== src/Scheduling/Stages.antt =====
-- modules/scheduling/service.ts: the operations that create a period or change its status, as moves
-- in the life of that period.
use Prim.Native.String.{String}
use scope_is_team_management.Base.{
  ℕ, Bool, true, false, Option, none, some, ◌≡◌, ◌⊎◌, refl, sym, ap, subst, ◌∙◌, ◌==◌,
  if◌then◌else◌, ok, arith, pure, throw, not, ◌&&◌, ◌||◌, ensure, any, >>=-eq-ok, ensure_passed,
  found_passed, Bool-cases, inl, inr, Memᴰ, apart, updated, mem-update_where,
}
use scope_is_team_management.Shared.{Actor, super_admin, admin, client, same_role}
use scope_is_team_management.Authorization.Operational.{row_grants}
use scope_is_team_management.Dates.{Date}
use scope_is_team_management.Tables.{Period, is_draft, is_published, Assignment, Intent}
use scope_is_team_management.Scheduling.Repository.{
  not_found, forbidden, out_of_scope, stale_version, invalid_state, ScheduleStore, ScheduleEnv,
  ScheduleDb, period_row, period_hit, period_bump, current_published,
}
use scope_is_team_management.Scheduling.Checks.{
  require_period, reaches_period, grants, validate_period_assignments,
}
use scope_is_team_management.Scheduling.Service.{
  to_proposed, propose, return_to_draft, require_draft, with_count, plan_period,
}
use scope_is_team_management.Scheduling.Publication.{
  is_superseded, superseded, demote, to_published, publish, create_revision,
}
use scope_is_team_management.Scheduling.Fitness.{mutated, validated}
use scope_is_team_management.Scheduling.Publications.{publish-outcome}
use scope_is_team_management.Scheduling.Rivals.{rivals, demoted_keeps}
use scope_is_team_management.Scheduling.Lifecycle.{
  in_review, live, stage_of, Move, stays, is_submitted, is_released, Advances, settled, moved,
  superseded_moves, hit_is_held, draft_is_drafted, proposed_is_in_review, returns_advance,
}
use scope_is_team_management.Scheduling.Replacement.{EffectStatus, apply_replacement_effect}
use scope_is_team_management.Scheduling.Replacing.{replaces}
use scope_is_team_management.Scheduling.Planned.{IsPlanned, plans, revises}

period_is :
    (actor : Actor) (id : ℕ) (management : Bool) (s s' : ScheduleStore) (p : Period)
    → require_period actor id management s ≡ ok (p, s')
    → (s' ≡ s) × (period_row id s ≡ some p)
unfolding require_period
period_is actor id management s s' p h =
    let (q, is_q, h₁) = found_passed (period_row id s) not_found _ s h in
    let rows = grants actor s in
    let (e, same) =
      admitted (same_role actor.role super_admin) (not (same_role actor.role admin))
        (not (is_published q.status && q.is_current)) (any (row_grants client q.client_id) rows)
        (management || not (reaches_period rows q s)) q p s s' h₁ in
    (same, subst (λ k. period_row id s ≡ some k) e is_q)
  where
    admitted :
        (a b c d e : Bool) (q p : Period) (s s' : ScheduleStore)
        → (let k : ScheduleDb Period =
              if a
              then pure q
              else if b
              then throw forbidden
              else if c
              then throw not_found
              else if d
              then pure q
              else if e
              then throw out_of_scope
              else pure q in
            k s)
          ≡ ok (p, s')
        → (q ≡ p) × (s' ≡ s)
    admitted true b c d e q p s s' h = (cc, cc)
    admitted false true c d e q p s s' h = cc
    admitted false false true d e q p s s' h = cc
    admitted false false false true e q p s s' h = (cc, cc)
    admitted false false false false true q p s s' h = cc
    admitted false false false false false q p s s' h = (cc, cc)

drafts :
    (current : Period) (expected : ℕ) (s s' : ScheduleStore) (u : Unit {0})
    → require_draft current expected s ≡ ok (u, s')
    → (s' ≡ s) × (is_draft current.status ≡ true)
unfolding require_draft
drafts current expected s s' u h =
    let (at_version, h₁) = ensure_passed (current.version == expected) stale_version _ s h in
    last (is_draft current.status) s s' u h₁
  where
    last :
        (b : Bool) (s s' : ScheduleStore) (u : Unit {0})
        → ensure b invalid_state s ≡ ok (u, s')
        → (s' ≡ s) × (b ≡ true)
    last true s s' u h = (cc, refl)
    last false s s' u h = cc

proposes_advance :
    (env : ScheduleEnv) (supplied : Actor) (period expected : ℕ) (s s' : ScheduleStore)
    (row : Period)
    → apart rivals s.periods ≡ true
    → propose env supplied period expected s ≡ ok (row, s')
    → (p' : Period) → Memᴰ p' s'.periods
    → Advances s.periods p'
unfolding propose
proposes_advance env supplied period expected s s' row apart_s h p' m =
    let (actor, h₁) = mutated supplied _ s h in
    let (current, s₁, held, h₂) = >>=-eq-ok (require_period actor period true) _ s h₁ in
    let (same₁, is_held) = period_is actor period true s s₁ current held in
    let h₃ = rw same₁ at h₂ in
    let (u, s₂, free, h₄) = >>=-eq-ok (require_draft current expected) _ s h₃ in
    let (same₂, state) = drafts current expected s s₂ u free in
    let h₅ = rw same₂ at h₄ in
    let (rows, s₃, valid, h₆) = >>=-eq-ok (validate_period_assignments actor current) _ s h₅ in
    let (same₃, rows_are, fit) = validated actor current s s₃ rows valid in
    let h₇ = rw same₃ at h₆ in
    let after =
      settled env current.id current.version (to_proposed env) actor "schedule.proposed"
        (λ (r : Period). with_count r rows) s s' row h₇ in
    moved env period current (to_proposed env) s apart_s is_held refl
      (subst (λ k. Move k in_review) (sym (draft_is_drafted current state)) is_submitted) p'
      (subst (λ k. Memᴰ p' k) after m)

demoted_id :
    (env : ScheduleEnv) (id : ℕ) (p : Period)
    → p.id ≡ (updated (is_superseded id) (superseded env) p).id
demoted_id env id p = elim (Bool-cases (is_superseded id p)) [
  | inl a ↦ rw a refl
  | inr a ↦ rw a refl
]

-- A row after the previous publication gave way, and the row that it was.
demoted_row :
    (env : ScheduleEnv) (previous : Option Period) (current : Period) (s : ScheduleStore)
    (p' : Period)
    → Memᴰ p' (demote env previous s).periods
    → (p : Period) × Memᴰ p s.periods
      × (p.id ≡ p'.id)
      × Move (stage_of p) (stage_of p')
      × (period_hit current.id current.version p' ≡ true → (p.id == current.id) ≡ true)
unfolding demote
demoted_row env none current s p' n =
    (p', n, refl, stays, λ (h : period_hit current.id current.version p' ≡ true). ground arith)
demoted_row env (some c) current s p' n =
    let (p, m, e) = mem-update_where (is_superseded c.id) (superseded env) p' s.periods n in
    (
      p,
      m,
      demoted_id env c.id p ∙ sym (ap (λ (k : Period). k.id) e),
      subst (λ (k : Period). Move (stage_of p) (stage_of k)) (sym e) (superseded_moves env c.id p),
      λ (h : period_hit current.id current.version p' ≡ true).
          (demoted_keeps env c.id current p
            (subst (λ k. period_hit current.id current.version k ≡ true) e h)).0,
    )

publishes_advance :
    (env : ScheduleEnv) (supplied : Actor) (period expected : ℕ) (s s' : ScheduleStore)
    (row : Period)
    → apart rivals s.periods ≡ true
    → publish env supplied period expected s ≡ ok (row, s')
    → (p' : Period) → Memᴰ p' s'.periods
    → Advances s.periods p'
publishes_advance env supplied period expected s s' row apart_s h p' m =
    let (current, is_held, state, at_version, fit, after) =
      publish-outcome env supplied period expected s s' row h in
    let previous = current_published current.client_id current.planning_month s in
    let (p₁, n₁, e₁) =
      mem-update_where (period_hit current.id current.version) (period_bump env (to_published env))
        p' (demote env previous s).periods (subst (λ k. Memᴰ p' k) after m) in
    let (p, n, same, moves, hits) = demoted_row env previous current s p₁ n₁ in
    elim (Bool-cases (period_hit current.id current.version p₁)) [
      | inl a ↦
          let is_it = hit_is_held period 0 current s apart_s is_held p n (hits a) in
          let e : p' ≡ period_bump env (to_published env) p₁ = rw a at e₁ in
          (
            p,
            n,
            same ∙ sym (ap (λ (k : Period). k.id) e),
            subst (λ (k : Period). Move (stage_of p) (stage_of k)) (sym e)
                (subst (λ k. Move k live)
                  (sym (ap stage_of is_it ∙ proposed_is_in_review current state)) is_released),
          )
      | inr a ↦
          let e : p' ≡ p₁ = rw a at e₁ in
          (
            p,
            n,
            same ∙ sym (ap (λ (k : Period). k.id) e),
            subst (λ (k : Period). Move (stage_of p) (stage_of k)) (sym e) moves,
          )
    ]

-- A call that creates a period or changes its status, and succeeds.
pub data Step (s s' : ScheduleStore) : Type 0 where
  planning :
      (env : ScheduleEnv) (actor : Actor) (owner : ℕ) (month : Date) (row : Period)
      → plan_period env actor owner month s ≡ ok (row, s')
      → Step s s'
  revising :
      (env : ScheduleEnv) (actor : Actor) (period expected : ℕ) (row : Period)
      → create_revision env actor period expected s ≡ ok (row, s')
      → Step s s'
  proposing :
      (env : ScheduleEnv) (actor : Actor) (period expected : ℕ) (row : Period)
      → propose env actor period expected s ≡ ok (row, s')
      → Step s s'
  returning :
      (env : ScheduleEnv) (actor : Actor) (period expected : ℕ) (reason : String) (row : Period)
      → return_to_draft env actor period expected reason s ≡ ok (row, s')
      → Step s s'
  publishing :
      (env : ScheduleEnv) (actor : Actor) (period expected : ℕ) (row : Period)
      → publish env actor period expected s ≡ ok (row, s')
      → Step s s'
  replacing :
      (env : ScheduleEnv) (actor : Actor) (anchor selected : ℕ) (intent : Intent)
      (r : Period × Assignment × EffectStatus)
      → apply_replacement_effect env actor anchor selected intent s ≡ ok (r, s')
      → Step s s'

-- The six calls of the scheduling service that create a period or change its status refine the life
-- of a period: drafted, in review, live, past. On a table whose rows are apart, a call that succeeds
-- either adds one drafted row and leaves the others, or each row of the new table has the id of a
-- row of the old one and stands where it stood or one move on: submitted, returned, released or
-- retired.
pub steps_advance :
    (s s' : ScheduleStore)
    → apart rivals s.periods ≡ true
    → Step s s'
    → (p' : Period) → Memᴰ p' s'.periods
    → IsPlanned s.periods s'.periods ⊎ Advances s.periods p'
steps_advance s s' h (planning env actor owner month row e) p' m =
    inl (plans env actor owner month s s' row e)
steps_advance s s' h (revising env actor period expected row e) p' m =
    inl (revises env actor period expected s s' row e)
steps_advance s s' h (proposing env actor period expected row e) p' m =
    inr (proposes_advance env actor period expected s s' row h e p' m)
steps_advance s s' h (returning env actor period expected reason row e) p' m =
    inr (returns_advance env actor period expected reason s s' row h e p' m)
steps_advance s s' h (publishing env actor period expected row e) p' m =
    inr (publishes_advance env actor period expected s s' row h e p' m)
steps_advance s s' h (replacing env actor anchor selected intent r e) p' m =
    replaces env actor anchor selected intent s s' r h e p' m
