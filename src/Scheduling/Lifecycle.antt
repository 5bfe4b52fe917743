-- ===== src/Scheduling/Lifecycle.antt =====
-- modules/scheduling/service.ts: the life of a period, and that the operations which change the
-- state of periods go through it.
use Prim.Native.String.{String}
use scope_is_team_management.Base.{
  ℕ, Bool, true, false, Option, some, List, [], ◌∷◌, ◌++◌, ◌≡◌, refl, sym, ap, subst, ◌∙◌, find,
  update_where, ◌==◌, ok, arith, ◌>>=◌, ◌>>◌, pure, found, >>=-eq-ok, found_passed, Bool-cases, inl,
  inr, Memᴰ, find_sound, apart, updated, mem-update_where, find_unique, ok-injective, codes,
}
use mathlib.Core.Option
use scope_is_team_management.Shared.{Actor}
use scope_is_team_management.Audit.{Metadata, flag}
use scope_is_team_management.Leave.Repository.{PeriodStatus, draft, proposed, published}
use scope_is_team_management.Tables.{Period, is_draft, is_proposed}
use scope_is_team_management.Scheduling.Repository.{
  stale_version, ScheduleStore, ScheduleEnv, period_row, period_hit, period_bump, update_period,
}
use scope_is_team_management.Scheduling.Service.{
  schedule_audit, to_draft, return_to_draft, require_proposed, period_facts,
}
use scope_is_team_management.Scheduling.Publication.{is_superseded, superseded}
use scope_is_team_management.Scheduling.Fitness.{mutated}
use scope_is_team_management.Scheduling.Publications.{proposed_is}
use scope_is_team_management.Scheduling.Rivals.{rivals, same_id_are_rivals}

-- The stages of a period: what the status and the flag of a row mean.
pub data Stage : Type 0 where
  drafted in_review live past : Stage

abbrev published_stage : Bool → Stage
published_stage true = live
published_stage false = past

abbrev stage : PeriodStatus → Bool → Stage
stage draft _ = drafted
stage proposed _ = in_review
stage published current = published_stage current

abbrev pub stage_of : Period → Stage
stage_of p = stage p.status p.is_current

-- The moves of the life of a period.
pub data Move : Stage → Stage → Type 0 where
  stays : {a : Stage} → Move a a
  is_submitted : Move drafted in_review
  is_returned : Move in_review drafted
  is_released : Move in_review live
  is_retired : Move live past

-- The tail of an operation that gives a period a new status.
pub settled :
    (env : ScheduleEnv) (id version : ℕ) (values : Period → Period) (actor : Actor)
    (action : String) (facts : Period → Metadata) (s s' : ScheduleStore) (row : Period)
    → (update_period env id version values >>= λ (hit : Option Period).
          found hit stale_version >>= λ (r : Period).
          schedule_audit actor action r.id (facts r) >> pure r)
        s
      ≡ ok (row, s')
    → s'.periods ≡ update_where (period_hit id version) (period_bump env values) s.periods
unfolding update_period schedule_audit
settled env id version values actor action facts s s' row h =
    let (r, is_r, h₁) =
      found_passed (Option.map (period_bump env values) (find (period_hit id version) s.periods))
        stale_version _ _ h in
    sym (ap (λ (k : Period × ScheduleStore). (k.1).periods) (ok-injective _ refl h₁))

retired :
    (st : PeriodStatus) (current : Bool) → current ≡ true → Move (stage st current) (stage st false)
retired draft current h = stays
retired proposed current h = stays
retired published true h = is_retired
retired published false h = stays

pub superseded_moves :
    (env : ScheduleEnv) (id : ℕ) (p : Period)
    → Move (stage_of p) (stage_of (updated (is_superseded id) (superseded env) p))
superseded_moves env id p = elim (Bool-cases (is_superseded id p)) [
  | inl a ↦ rw a (retired p.status p.is_current (ground arith))
  | inr a ↦ rw a stays
]

-- A row of a table is the same period as one of the earlier table, some move later.
abbrev pub Advances : List Period → Period → Type 0
Advances ps p' = (p : Period) × Memᴰ p ps × (p.id ≡ p'.id) × Move (stage_of p) (stage_of p')

-- The row that a version check admits is the row that was read.
pub hit_is_held :
    (period v : ℕ) (current : Period) (s : ScheduleStore)
    → apart rivals s.periods ≡ true
    → period_row period s ≡ some current
    → (p : Period) → Memᴰ p s.periods
    → (p.id == current.id) ≡ true
    → p ≡ current
hit_is_held period v current s apart_s held p m hit =
    let named = find_sound (λ k. k.id == period) s.periods current held in
    find_unique rivals (λ k. k.id == period) s.periods current p apart_s (same_id_are_rivals period)
      held m (ground arith)

-- An update of the row that was read moves that row, and leaves the others.
pub moved :
    (env : ScheduleEnv) (period : ℕ) (current : Period) (values : Period → Period)
    (s : ScheduleStore)
    → apart rivals s.periods ≡ true
    → period_row period s ≡ some current
    → (values current).id ≡ current.id
    → Move (stage_of current) (stage_of (values current))
    → (p' : Period)
    → Memᴰ p'
        (update_where (period_hit current.id current.version) (period_bump env values) s.periods)
    → Advances s.periods p'
moved env period current values s apart_s held same move p' m =
    let (p, n, e) =
      mem-update_where (period_hit current.id current.version) (period_bump env values) p' s.periods
        m in
    elim (Bool-cases (period_hit current.id current.version p)) [
      | inl a ↦
          let is_it = hit_is_held period 0 current s apart_s held p n (ground arith) in
          let e' : p' ≡ period_bump env values p = rw a at e in
          let e'' = e' ∙ ap (period_bump env values) is_it in
          (
            p,
            n,
            ap (λ (k : Period). k.id) is_it ∙ sym same ∙ sym (ap (λ (k : Period). k.id) e''),
            subst (λ (k : Period). Move (stage_of p) (stage_of k)) (sym e'')
                (subst (λ (k : Period). Move (stage_of k) (stage_of (values current))) (sym is_it)
                  move),
          )
      | inr a ↦
          let e' : p' ≡ p = rw a at e in
          (
            p,
            n,
            sym (ap (λ (k : Period). k.id) e'),
            subst (λ (k : Period). Move (stage_of p) (stage_of k)) (sym e') stays,
          )
    ]

pub draft_is_drafted : (p : Period) → is_draft p.status ≡ true → stage_of p ≡ drafted
draft_is_drafted p h = go p.status p.is_current h
  where
    go : (st : PeriodStatus) (b : Bool) → is_draft st ≡ true → stage st b ≡ drafted
    go draft b h = refl
    go proposed b h = cc
    go published b h = cc

pub proposed_is_in_review : (p : Period) → is_proposed p.status ≡ true → stage_of p ≡ in_review
proposed_is_in_review p h = go p.status p.is_current h
  where
    go : (st : PeriodStatus) (b : Bool) → is_proposed st ≡ true → stage st b ≡ in_review
    go draft b h = cc
    go proposed b h = refl
    go published b h = cc

pub returns_advance :
    (env : ScheduleEnv) (supplied : Actor) (period expected : ℕ) (reason : String)
    (s s' : ScheduleStore) (row : Period)
    → apart rivals s.periods ≡ true
    → return_to_draft env supplied period expected reason s ≡ ok (row, s')
    → (p' : Period) → Memᴰ p' s'.periods
    → Advances s.periods p'
unfolding return_to_draft
returns_advance env supplied period expected reason s s' row apart_s h p' m =
    let (actor, h₁) = mutated supplied _ s h in
    let (current, s₁, held, h₂) = >>=-eq-ok (require_proposed period expected) _ s h₁ in
    let (same, is_held, state, at_version) = proposed_is period expected s s₁ current held in
    let h₃ = rw same at h₂ in
    let after =
      settled env current.id current.version (to_draft reason) actor "schedule.returned_to_draft"
        (λ (r : Period). period_facts r ++ (codes "reasonProvided", flag true) ∷ []) s s' row h₃ in
    moved env period current (to_draft reason) s apart_s is_held refl
      (subst (λ k. Move k drafted) (sym (proposed_is_in_review current state)) is_returned) p'
      (subst (λ k. Memᴰ p' k) after m)
