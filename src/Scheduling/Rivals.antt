-- ===== src/Scheduling/Rivals.antt =====
-- modules/scheduling/service.ts, `publish`: how it changes the table of periods, of which a unique
-- index keeps the current publications apart.
use scope_is_team_management.Base.{
  ℕ, Bool, true, false, ◌&&◌, ◌||◌, Option, none, some, ◌≡◌, ap, subst, ◌∙◌, update_where, ◌==◌,
  arith, Bool-cases, Option-cases, inl, inr, Memᴰ, find_sound, apart, updated, mem-update_where,
  find-none, apart-update_where, find_unique,
}
use scope_is_team_management.Dates.{Date, key}
use scope_is_team_management.Tables.{Period, is_published}
use scope_is_team_management.Scheduling.Repository.{
  ScheduleStore, ScheduleEnv, period_row, current_published, is_current_of, period_hit, period_bump,
}
use scope_is_team_management.Scheduling.Publication.{
  is_superseded, superseded, demote, to_published,
}

-- Two rows that the primary key, or the index of current publications, keeps apart.
abbrev pub rivals : Period → Period → Bool
rivals p q =
    p.id == q.id
    || (p.client_id == q.client_id
        && (key p.planning_month == key q.planning_month
            && ((is_published p.status && p.is_current)
                && (is_published q.status && q.is_current))))

demoted_rivals :
    (env : ScheduleEnv) (id : ℕ) (p q : Period)
    → rivals
        (updated (is_superseded id) (superseded env) p)
        (updated (is_superseded id) (superseded env) q)
      ≡ true
    → rivals p q ≡ true
demoted_rivals env id p q h = elim (Bool-cases (is_superseded id p)) [
  | inl a ↦ elim (Bool-cases (is_superseded id q)) [ inl b ↦ ground arith | inr b ↦ ground arith ]
  | inr a ↦ elim (Bool-cases (is_superseded id q)) [ inl b ↦ ground arith | inr b ↦ ground arith ]
]

pub demoted_apart :
    (env : ScheduleEnv) (previous : Option Period) (s : ScheduleStore)
    → apart rivals s.periods ≡ true
    → apart rivals (demote env previous s).periods ≡ true
unfolding demote
demoted_apart env none s h = h
demoted_apart env (some previous) s h =
    apart-update_where rivals (is_superseded previous.id) (superseded env) s.periods h
      (λ p q m n. demoted_rivals env previous.id p q)

current_are_rivals :
    (owner : ℕ) (month : Date) (p q : Period)
    → is_current_of owner month p ≡ true
    → is_current_of owner month q ≡ true
    → rivals p q ≡ true
current_are_rivals owner month p q h k = ground arith

pub same_id_are_rivals :
    (id : ℕ) (p q : Period) → (p.id == id) ≡ true → (q.id == id) ≡ true → rivals p q ≡ true
same_id_are_rivals id p q h k = ground arith

demoted_current :
    (env : ScheduleEnv) (id owner : ℕ) (month : Date) (p : Period)
    → is_current_of owner month (updated (is_superseded id) (superseded env) p) ≡ true
    → (is_current_of owner month p ≡ true) × ((p.id == id) ≡ false)
demoted_current env id owner month p h = elim (Bool-cases (is_superseded id p)) [
  | inl a ↦ (ground arith, ground arith)
  | inr a ↦ (ground arith, ground arith)
]

-- Once the previous publication has given way, the client has none for the month.
pub none_current :
    (env : ScheduleEnv) (owner : ℕ) (month : Date) (s : ScheduleStore)
    → apart rivals s.periods ≡ true
    → (p : Period) → Memᴰ p (demote env (current_published owner month s) s).periods
    → is_current_of owner month p ≡ true
    → false ≡ true
unfolding demote
none_current env owner month s apart_s p m now =
    elim (Option-cases (current_published owner month s)) [
      | inl nothing ↦
          let skipped =
            find-none (is_current_of owner month) s.periods p nothing (rw nothing at m) in
          ground arith
      | inr (c, is_c) ↦
          let m' : Memᴰ p (update_where (is_superseded c.id) (superseded env) s.periods) =
            rw is_c at m in
          let (q, n, e) = mem-update_where (is_superseded c.id) (superseded env) p s.periods m' in
          let (was, other) =
            demoted_current env c.id owner month q
              (subst (λ k. is_current_of owner month k ≡ true) e now) in
          let same =
            find_unique rivals (is_current_of owner month) s.periods c q apart_s
              (current_are_rivals owner month) is_c n was in
          let other' : (c.id == c.id) ≡ false = subst (λ k. (k.id == c.id) ≡ false) same other in
          ground arith
    ]

-- A row of the client and month of the publication.
abbrev is_at : Period → Period → Bool
is_at current p =
    p.client_id == current.client_id && key p.planning_month == key current.planning_month

pub published_rivals :
    (env : ScheduleEnv) (current p q : Period)
    → (period_hit current.id current.version p ≡ true → is_at current p ≡ true)
    → (period_hit current.id current.version q ≡ true → is_at current q ≡ true)
    → (is_current_of current.client_id current.planning_month p ≡ true → false ≡ true)
    → (is_current_of current.client_id current.planning_month q ≡ true → false ≡ true)
    → rivals
        (updated (period_hit current.id current.version) (period_bump env (to_published env)) p)
        (updated (period_hit current.id current.version) (period_bump env (to_published env)) q)
      ≡ true
    → rivals p q ≡ true
published_rivals env current p q at_p at_q no_p no_q h =
    elim (Bool-cases (period_hit current.id current.version p)) [
      | inl a ↦ elim (Bool-cases (period_hit current.id current.version q)) [
        | inl b ↦ ground arith
        | inr b ↦ let here = at_p a in ground arith
      ]
      | inr a ↦ elim (Bool-cases (period_hit current.id current.version q)) [
        | inl b ↦ let here = at_q b in ground arith
        | inr b ↦ ground arith
      ]
    ]

held_at :
    (current : Period) (period : ℕ) (s : ScheduleStore)
    → apart rivals s.periods ≡ true
    → period_row period s ≡ some current
    → (p : Period) → Memᴰ p s.periods
    → (p.id == current.id) ≡ true
    → is_at current p ≡ true
held_at current period s apart_s held p m same =
    let named = find_sound (λ k. k.id == period) s.periods current held in
    let e =
      find_unique rivals (λ k. k.id == period) s.periods current p apart_s
        (same_id_are_rivals period) held m (ground arith) in
    ground arith

pub demoted_keeps :
    (env : ScheduleEnv) (id : ℕ) (current p : Period)
    → period_hit current.id current.version (updated (is_superseded id) (superseded env) p) ≡ true
    → ((p.id == current.id) ≡ true)
      × (is_at current (updated (is_superseded id) (superseded env) p) ≡ is_at current p)
demoted_keeps env id current p h = elim (Bool-cases (is_superseded id p)) [
  | inl a ↦ (ground arith, ground arith)
  | inr a ↦ (ground arith, ground arith)
]

pub demoted_at :
    (env : ScheduleEnv) (previous : Option Period) (current : Period) (period : ℕ)
    (s : ScheduleStore)
    → apart rivals s.periods ≡ true
    → period_row period s ≡ some current
    → (p : Period) → Memᴰ p (demote env previous s).periods
    → period_hit current.id current.version p ≡ true
    → is_at current p ≡ true
unfolding demote
demoted_at env none current period s apart_s held p m hit =
    held_at current period s apart_s held p m (ground arith)
demoted_at env (some c) current period s apart_s held p m hit =
    let (q, n, e) = mem-update_where (is_superseded c.id) (superseded env) p s.periods m in
    let (same, at_q) =
      demoted_keeps env c.id current q
        (subst (λ k. period_hit current.id current.version k ≡ true) e hit) in
    ap (is_at current) e ∙ at_q ∙ held_at current period s apart_s held q n same
