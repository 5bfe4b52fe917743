-- ===== src/Scheduling/Replaced.antt =====
-- modules/scheduling/service.ts, `applyReplacementEffect`: what it does to the table of periods.
use scope_is_team_management.Base.{
  ℕ, true, false, Option, none, some, List, [], ◌∷◌, ◌++◌, ◌≡◌, refl, sym, ap, ◌∙◌, find, any,
  update_where, ok, arith, found, >>=-eq-ok, Bool-cases, inl, inr, Memᴰ, updated, mem-update_where,
  ok-injective,
}
use mathlib.Core.Option
use scope_is_team_management.Shared.{Actor}
use scope_is_team_management.Tables.{Period, Assignment, Intent, replace_assignment, add_coverage}
use scope_is_team_management.Scheduling.Repository.{
  SchedulingError, ScheduleStore, ScheduleEnv, Slot, stale_version, period_hit, period_bump,
  update_period, create_assignment, update_assignment, assignment_hit, assignment_bump, clashes,
}
use scope_is_team_management.Scheduling.Checks.{
  bump_period, visible_employee, validate_references, assert_no_overlap,
}
use scope_is_team_management.Scheduling.Service.{schedule_audit}
use scope_is_team_management.Scheduling.Replacement.{
  EffectStatus, Editable, change_assignment, apply_change, target_of, excluded,
}
use scope_is_team_management.Scheduling.Fitness.{visible_same, references_hold, no_overlap}
use scope_is_team_management.Scheduling.Lifecycle.{stage_of}

-- A period with a new version is at the same stage.
abbrev pub bumped : ScheduleEnv → Period → List Period → List Period
bumped env p ps = update_where (period_hit p.id p.version) (period_bump env (λ q. q)) ps

last_found :
    {A : Type 0} (o : Option A) (x : SchedulingError) (s s' : ScheduleStore) (a : A)
    → found o x s ≡ ok (a, s')
    → s' ≡ s
last_found none x s s' a h = cc
last_found (some b) x s s' a h = cc

bump_outcome :
    (env : ScheduleEnv) (p r : Period) (s s' : ScheduleStore)
    → bump_period env p s ≡ ok (r, s')
    → s'.periods ≡ bumped env p s.periods
unfolding bump_period update_period
bump_outcome env p r s s' h =
    ap (λ (k : ScheduleStore). k.periods)
      (last_found
        (Option.map (period_bump env (λ q. q)) (find (period_hit p.id p.version) s.periods))
        stale_version (record s { periods = bumped env p s.periods }) s' r h)

changed_same :
    (env : ScheduleEnv) (intent : Intent) (selected : ℕ) (e : Editable) (s s' : ScheduleStore)
    (a : Assignment)
    → change_assignment env intent selected e s ≡ ok (a, s')
    → s'.periods ≡ s.periods
unfolding change_assignment update_assignment create_assignment
changed_same env replace_assignment selected e s s' a h =
    ap (λ (k : ScheduleStore). k.periods)
      (last_found
        (Option.map (assignment_bump env (λ a. record a { employee_user_id = selected }))
          (find (assignment_hit (e.anchor).id (e.anchor).version) s.assignments))
        stale_version
        (record s {
          assignments =
              update_where (assignment_hit (e.anchor).id (e.anchor).version)
                (assignment_bump env (λ a. record a { employee_user_id = selected })) s.assignments;
        })
        s' a h)
changed_same env add_coverage selected e s s' a h =
    sym (ap (λ (k : Assignment × ScheduleStore). (k.1).periods) (ok-injective _ refl h))

references_same :
    (p : Period) (slot : Slot) (s s' : ScheduleStore) (u : Unit {0})
    → validate_references p slot s ≡ ok (u, s')
    → s' ≡ s
references_same p slot s s' u h =
    let a : Assignment = record {
      id = 0;
      schedule_period_id = 0;
      employee_user_id = slot.employee_user_id;
      project_id = slot.project_id;
      location_id = slot.location_id;
      assignment_date = slot.assignment_date;
      start_time = slot.start_time;
      end_time = slot.end_time;
      shared_instruction = slot.shared_instruction;
      copied_from_assignment_id = slot.copied_from_assignment_id;
      version = 0;
      updated_at = 0;
      omitted_at = none;
    } in
    (references_hold p a s s' u h).0

-- The checks and the change of an assignment leave the periods alone; then the period gets a new
-- version.
pub applied :
    (env : ScheduleEnv) (actor : Actor) (intent : Intent) (selected : ℕ) (e : Editable)
    (s s' : ScheduleStore) (r : Period × Assignment × EffectStatus)
    → apply_change env actor intent selected e s ≡ ok (r, s')
    → s'.periods ≡ bumped env e.period s.periods
unfolding apply_change schedule_audit
applied env actor intent selected e s s' r h =
    let (row, s₁, seen, h₁) = >>=-eq-ok (visible_employee actor selected) _ s h in
    let (u, s₂, refs, h₂) =
      >>=-eq-ok (validate_references e.period (target_of selected e.anchor)) _ s₁ h₁ in
    let (v, s₃, clear, h₃) =
      >>=-eq-ok
        (assert_no_overlap e.period (target_of selected e.anchor) (excluded intent e.anchor)) _ s₂
        h₂ in
    let (a, s₄, changed, h₄) = >>=-eq-ok (change_assignment env intent selected e) _ s₃ h₃ in
    let (p, s₅, raised, h₅) = >>=-eq-ok (bump_period env e.period) _ s₄ h₄ in
    let (same₃, free, stand) =
      no_overlap e.period (target_of selected e.anchor) (excluded intent e.anchor) s₂ s₃ v clear in
    let back : s₃ ≡ s =
      same₃
      ∙ references_same e.period (target_of selected e.anchor) s₁ s₂ u refs
      ∙ visible_same actor selected s s₁ row seen in
    let e₅ =
      ap (λ (k : (Period × Assignment × EffectStatus) × ScheduleStore). (k.1).periods)
        (ok-injective _ refl h₅) in
    sym e₅
    ∙ bump_outcome env e.period p s₄ s₅ raised
    ∙ ap (bumped env e.period) (
        changed_same env intent selected e s₃ s₄ a changed
        ∙ ap (λ (k : ScheduleStore). k.periods) back)

-- A new version changes no stage.
pub bumped_from :
    (env : ScheduleEnv) (p p' : Period) (ps : List Period)
    → Memᴰ p' (bumped env p ps)
    → (q : Period) × Memᴰ q ps × (q.id ≡ p'.id) × (stage_of q ≡ stage_of p')
bumped_from env p p' ps m =
    let (q, n, e) =
      mem-update_where (period_hit p.id p.version) (period_bump env (λ q. q)) p' ps m in
    (q, n, same_id q ∙ sym (ap (λ (k : Period). k.id) e), same_stage q ∙ sym (ap stage_of e))
  where
    same_id :
        (q : Period) → q.id ≡ (updated (period_hit p.id p.version) (period_bump env (λ q. q)) q).id
    same_id q = elim (Bool-cases (period_hit p.id p.version q)) [
      | inl a ↦ rw a refl
      | inr a ↦ rw a refl
    ]

    same_stage :
        (q : Period)
        → stage_of q ≡ stage_of (updated (period_hit p.id p.version) (period_bump env (λ q. q)) q)
    same_stage q = elim (Bool-cases (period_hit p.id p.version q)) [
      | inl a ↦ rw a refl
      | inr a ↦ rw a refl
    ]

-- A row that does not clash with the others is the only one that gets the new version.
pub bumped_last :
    (env : ScheduleEnv) (row : Period) (ps : List Period)
    → any (clashes row) ps ≡ false
    → bumped env row (ps ++ row ∷ []) ≡ ps ++ period_bump env (λ q. q) row ∷ []
bumped_last env row [] h =
    let hit : period_hit row.id row.version row ≡ true = ground arith in rw hit refl
bumped_last env row (p ∷ ps) h =
    let miss : period_hit row.id row.version p ≡ false = ground arith in
    rw (miss, bumped_last env row ps (ground arith)) refl
