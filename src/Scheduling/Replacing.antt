-- ===== src/Scheduling/Replacing.antt =====
-- modules/scheduling/service.ts, `applyReplacementEffect`: the period that it changes moves as the
-- other operations move it, or a new Draft is added.
use mathlib.Core.Option
use scope_is_team_management.Base.{
  ℕ, true, false, not, some, List, [], ◌∷◌, ◌++◌, ◌≡◌, ◌⊎◌, refl, sym, ap, subst, ◌∙◌, find, any,
  ◌==◌, ok, >>=-eq-ok, ensure_passed, found_passed, inl, inr, Memᴰ, apart, ok-injective,
}
use scope_is_team_management.Shared.{Actor}
use scope_is_team_management.Leave.Repository.{PeriodStatus, draft, proposed, published}
use scope_is_team_management.Tables.{Period, Assignment, Intent, is_proposed}
use scope_is_team_management.Scheduling.Repository.{
  ScheduleStore, ScheduleEnv, not_found, conflict, stale_version, invalid_state, period_row,
  assignment_row, all_assignments, next_revision_number, create_period, update_period, period_hit,
  period_bump, clashes,
}
use scope_is_team_management.Scheduling.Checks.{require_planner}
use scope_is_team_management.Scheduling.Service.{new_draft, to_draft, schedule_audit}
use scope_is_team_management.Scheduling.Publication.{copy_assignments}
use scope_is_team_management.Scheduling.Replacement.{
  EffectStatus, Editable, return_proposed, revise_published, make_editable,
  apply_replacement_effect, is_copy_of,
}
use scope_is_team_management.Scheduling.Rivals.{rivals}
use scope_is_team_management.Scheduling.Fitness.{planner_same}
use scope_is_team_management.Scheduling.Lifecycle.{
  drafted, stage_of, Move, stays, is_returned, Advances, moved, proposed_is_in_review,
}
use scope_is_team_management.Scheduling.Planned.{IsPlanned, created, copies_same}
use scope_is_team_management.Scheduling.Replaced.{applied, bumped, bumped_from, bumped_last}

-- What is made of the periods: each moves at most once, or a new Draft is to be changed.
abbrev IsReady : List Period → List Period → Period → Type 0
IsReady ps ps' chosen =
    ((p : Period) → Memᴰ p ps' → Advances ps p)
    ⊎ ((stage_of chosen ≡ drafted) × (ps' ≡ ps ++ chosen ∷ []) × (any (clashes chosen) ps ≡ false))

returned-IsReady :
    (env : ScheduleEnv) (actor : Actor) (original : Assignment) (period : Period) (id : ℕ)
    (s s' : ScheduleStore) (e : Editable)
    → apart rivals s.periods ≡ true
    → period_row id s ≡ some period
    → is_proposed period.status ≡ true
    → return_proposed env actor original period s ≡ ok (e, s')
    → IsReady s.periods s'.periods e.period
unfolding return_proposed update_period schedule_audit
returned-IsReady env actor original period id s s' e apart_s held state h =
    let values = to_draft "Approved replacement request requires an editable Draft." in
    let (r, is_r, h₁) =
      found_passed
        (Option.map (period_bump env values) (find (period_hit period.id period.version) s.periods))
        stale_version _ _ h in
    let after =
      sym (ap (λ (k : Editable × ScheduleStore). (k.1).periods) (ok-injective _ refl h₁)) in
    inl (λ p m.
      moved env id period values s apart_s held refl
        (subst (λ k. Move k drafted) (sym (proposed_is_in_review period state)) is_returned) p
        (subst (λ k. Memᴰ p k) after m))

revised-IsReady :
    (env : ScheduleEnv) (actor : Actor) (original : Assignment) (period : Period)
    (s s' : ScheduleStore) (e : Editable)
    → revise_published env actor original period s ≡ ok (e, s')
    → IsReady s.periods s'.periods e.period
unfolding revise_published schedule_audit
revised-IsReady env actor original period s s' e h =
    let (current, h₁) = ensure_passed period.is_current invalid_state _ s h in
    let fresh =
      new_draft env period.client_id period.planning_month period.lineage_id
        (next_revision_number period.client_id period.planning_month s) (some period.id) in
    let (r, s₁, made, h₂) = >>=-eq-ok (create_period fresh) _ s h₁ in
    let (is_r, after, free) = created fresh s s₁ r made in
    let (n, s₂, copied, h₃) =
      >>=-eq-ok (copy_assignments env 1 r.id (all_assignments period.id s)) _ s₁ h₂ in
    let (anchor, is_anchor, h₄) =
      found_passed (find (is_copy_of original.id) (all_assignments r.id s₂)) conflict _ s₂ h₃ in
    let done = ok-injective _ refl h₄ in
    let chosen : e.period ≡ fresh =
      sym (ap (λ (k : Editable × ScheduleStore). (k.0).period) done) ∙ is_r in
    let periods : s'.periods ≡ s.periods ++ fresh ∷ [] =
      sym (ap (λ (k : Editable × ScheduleStore). (k.1).periods) done)
      ∙ copies_same env r.id (all_assignments period.id s) 1 s₁ s₂ n copied
      ∙ after in
    inr (
      subst
        (λ (k : Period).
          (stage_of k ≡ drafted)
          × (s'.periods ≡ s.periods ++ k ∷ [])
          × (any (clashes k) s.periods ≡ false))
        (sym chosen) (refl, periods, free))

make_editable-IsReady :
    (env : ScheduleEnv) (actor : Actor) (original : Assignment) (period : Period)
    (status : PeriodStatus) (id : ℕ) (s s' : ScheduleStore) (e : Editable)
    → apart rivals s.periods ≡ true
    → period_row id s ≡ some period
    → period.status ≡ status
    → make_editable env actor original period status s ≡ ok (e, s')
    → IsReady s.periods s'.periods e.period
unfolding make_editable
make_editable-IsReady env actor original period draft id s s' e apart_s held is h =
    let same = ap (λ (k : Editable × ScheduleStore). (k.1).periods) (ok-injective _ refl h) in
    inl (λ p m. (p, subst (λ k. Memᴰ p k) (sym same) m, refl, stays))
make_editable-IsReady env actor original period proposed id s s' e apart_s held is h =
    returned-IsReady env actor original period id s s' e apart_s held
      (subst (λ k. is_proposed k ≡ true) (sym is) refl) h
make_editable-IsReady env actor original period published id s s' e apart_s held is h =
    revised-IsReady env actor original period s s' e h

pub replaces :
    (env : ScheduleEnv) (supplied : Actor) (anchor selected : ℕ) (intent : Intent)
    (s s' : ScheduleStore) (r : Period × Assignment × EffectStatus)
    → apart rivals s.periods ≡ true
    → apply_replacement_effect env supplied anchor selected intent s ≡ ok (r, s')
    → (p' : Period) → Memᴰ p' s'.periods
    → IsPlanned s.periods s'.periods ⊎ Advances s.periods p'
unfolding apply_replacement_effect
replaces env supplied anchor selected intent s s' r apart_s h p' m =
    let (actor, s₀, planner, h₀) = >>=-eq-ok (require_planner supplied) _ s h in
    let h₁ = rw (planner_same supplied s s₀ actor planner) at h₀ in
    let (original, is_original, h₂) = found_passed (assignment_row anchor s) not_found _ s h₁ in
    let (differs, h₃) =
      ensure_passed (not (original.employee_user_id == selected)) conflict _ s h₂ in
    let (period, held, h₄) =
      found_passed (period_row original.schedule_period_id s) not_found _ s h₃ in
    let (e, s₁, made, h₅) =
      >>=-eq-ok (make_editable env actor original period period.status) _ s h₄ in
    let after = applied env actor intent selected e s₁ s' r h₅ in
    elim (make_editable-IsReady env actor original period period.status original.schedule_period_id
      s s₁ e apart_s held refl made) [
        | inl advances ↦
            let (q, n, same, stage) =
              bumped_from env e.period p' s₁.periods (subst (λ k. Memᴰ p' k) after m) in
            let (p, n', same', move) = advances q n in
            inr (p, n', same' ∙ same, subst (λ k. Move (stage_of p) k) stage move)
        | inr (is_draft, added, free) ↦ inl (
          period_bump env (λ q. q) e.period,
          is_draft,
          after ∙ ap (bumped env e.period) added ∙ bumped_last env e.period s.periods free,
        )
      ]
