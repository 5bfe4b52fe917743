-- ===== src/Leave/Rows.antt =====
-- modules/leave: the table of requests when one request changes, or one is added.
use scope_is_team_management.Base.{
  ℕ, Bool, true, false, ◌&&◌, Option, none, some, List, [], ◌∷◌, ◌++◌, find, filter, any, any_mono,
  update_where, ◌≡◌, ◌≢◌, ◌≤◌, ◌+◌, ◌==◌, arith, refl, subst, if◌then◌else◌, Bool-cases, inl, inr,
}
use scope_is_team_management.Dates.{Date}
use scope_is_team_management.Leave.DateRules.{intersection_days, sum}
use scope_is_team_management.Leave.Repository.{
  LeaveRow, LeaveEnv, pending, is_active, meets, leave_hit, leave_bump, is_approved_in,
}
use scope_is_team_management.Leave.Service.{used_days}

abbrev pub leave_by_id : ℕ → List LeaveRow → Option LeaveRow
leave_by_id id rows = find (λ r. r.id == id) rows

-- Two active requests of one employee that share a day.
abbrev pub clashes : LeaveRow → LeaveRow → Bool
clashes a b =
    a.employee_user_id == b.employee_user_id
    && (is_active a.status
        && (is_active b.status && meets a.start_date a.end_date b.start_date b.end_date))

-- No id stands twice, and no employee has two active requests that share a day.
abbrev pub LeavesValid : List LeaveRow → Type 0
LeavesValid [] = Unit
LeavesValid (r ∷ rows) =
    (leave_by_id r.id rows ≡ none) × (any (clashes r) rows ≡ false) × LeavesValid rows

-- New values that leave id, employee and dates alone.
pub record Keeps (values : LeaveRow → LeaveRow) : Type 0 where
  pub id : (r : LeaveRow) → (values r).id ≡ r.id
  pub employee : (r : LeaveRow) → (values r).employee_user_id ≡ r.employee_user_id
  pub start : (r : LeaveRow) → (values r).start_date ≡ r.start_date
  pub end : (r : LeaveRow) → (values r).end_date ≡ r.end_date

-- The days of a request in a year, if it passes a filter.
abbrev counted : (LeaveRow → Bool) → ℕ → LeaveRow → ℕ
counted p y r = if p r then intersection_days r.start_date r.end_date y else 0

counted-le :
    (p : LeaveRow → Bool) (y : ℕ) (r : LeaveRow)
    → counted p y r ≤ intersection_days r.start_date r.end_date y
counted-le p y r = ground arith

used_days-cons :
    (p : LeaveRow → Bool) (y : ℕ) (r : LeaveRow) (rows : List LeaveRow)
    → used_days (filter p (r ∷ rows)) y ≡ counted p y r + used_days (filter p rows) y
unfolding used_days sum
used_days-cons p y r rows = elim (Bool-cases (p r)) [
  | inl passes ↦ rw passes refl
  | inr fails ↦ rw fails (omega arith)
]

module _ (env : LeaveEnv) (values : LeaveRow → LeaveRow) (keeps : Keeps values) (c : LeaveRow)
    (was_pending : c.status ≡ pending) where
  abbrev new : LeaveRow
  new = leave_bump env values c

  abbrev changed : List LeaveRow → List LeaveRow
  changed rows = update_where (leave_hit c.id c.version) (leave_bump env values) rows

  changed_absent : (rows : List LeaveRow) → leave_by_id c.id rows ≡ none → changed rows ≡ rows
  changed_absent [] h = refl
  changed_absent (x ∷ rows) h = ground (arith, changed_absent rows)

  clash_after : (x : LeaveRow) → clashes x new ≡ true → clashes x c ≡ true
  clash_after x h =
      let is_now = rw (keeps.employee c, keeps.start c, keeps.end c) at h in
      rw was_pending (ground arith)

  clash_before : (x : LeaveRow) → clashes new x ≡ true → clashes c x ≡ true
  clash_before x h =
      let is_now = rw (keeps.employee c, keeps.start c, keeps.end c) at h in
      rw was_pending (ground arith)

  hit_self : leave_hit c.id c.version c ≡ true
  hit_self = ground arith

  none_after :
      (x : LeaveRow) (rows : List LeaveRow)
      → LeavesValid rows
      → leave_by_id c.id rows ≡ some c
      → any (clashes x) rows ≡ false
      → any (clashes x) (changed rows) ≡ false
  none_after x [] valid h free = refl
  none_after x (y ∷ rows) (y_new, y_free, valid) h free = elim (Bool-cases (y.id == c.id)) [
    | inl here ↦
        let first : y ≡ c = ground arith in
        let same =
          changed_absent rows
            (subst (λ (r : LeaveRow). leave_by_id r.id rows ≡ none) first y_new) in
        rw (first, hit_self, same) (ground (arith, clash_after x))
    | inr there ↦ ground (arith, none_after x rows valid)
  ]

  none_before :
      (rows : List LeaveRow) → any (clashes c) rows ≡ false → any (clashes new) rows ≡ false
  none_before rows h = ground (arith, any_mono (clashes new) (clashes c) clash_before rows)

  by_id_changed-none :
      (k : ℕ) (rows : List LeaveRow)
      → leave_by_id k rows ≡ none
      → leave_by_id k (changed rows) ≡ none
  by_id_changed-none k [] h = refl
  by_id_changed-none k (x ∷ rows) h = ground (arith, keeps.id x, by_id_changed-none k rows)

  -- Changing a pending request keeps the table valid.
  pub changed-LeavesValid :
      (rows : List LeaveRow)
      → LeavesValid rows
      → leave_by_id c.id rows ≡ some c
      → LeavesValid (changed rows)
  changed-LeavesValid [] valid h = tt
  changed-LeavesValid (x ∷ rows) (x_new, x_free, valid) h = elim (Bool-cases (x.id == c.id)) [
    | inl here ↦
        let first : x ≡ c = ground arith in
        let absent = subst (λ (r : LeaveRow). leave_by_id r.id rows ≡ none) first x_new in
        let free = subst (λ r. any (clashes r) rows ≡ false) first x_free in
        rw (first, hit_self, changed_absent rows absent)
          (rw (← keeps.id c) at absent, none_before rows free, valid)
    | inr there ↦
        let missed : leave_hit c.id c.version x ≡ false = ground arith in
        let later : leave_by_id c.id rows ≡ some c = ground arith in
        rw missed (
          by_id_changed-none x.id rows x_new,
          none_after x rows valid later x_free,
          changed-LeavesValid rows valid later,
        )
  ]

  -- The row that was changed, and the others.
  pub changed_self :
      (rows : List LeaveRow)
      → leave_by_id c.id rows ≡ some c
      → leave_by_id c.id (changed rows) ≡ some new
  changed_self [] h = cc
  changed_self (x ∷ rows) h = ground (arith, keeps.id x, changed_self rows)

  pub changed_ne :
      (k : ℕ) (rows : List LeaveRow) → k ≢ c.id → leave_by_id k (changed rows) ≡ leave_by_id k rows
  changed_ne k [] ne = refl
  changed_ne k (x ∷ rows) ne = ground (arith, keeps.id x, changed_ne k rows)

  same_days :
      (y : ℕ)
      → intersection_days new.start_date new.end_date y
        ≡ intersection_days c.start_date c.end_date y
  same_days y = rw (keeps.start c, keeps.end c) refl

  -- The days that approved requests use grow by at most the days of the request that changed.
  pub used_days-changed :
      (employee : ℕ) (start end : Date) (y : ℕ) (rows : List LeaveRow)
      → LeavesValid rows
      → leave_by_id c.id rows ≡ some c
      → used_days (filter (is_approved_in employee start end) (changed rows)) y
        ≤ used_days (filter (is_approved_in employee start end) rows) y
          + intersection_days c.start_date c.end_date y
  used_days-changed employee start end y [] valid h = cc
  used_days-changed employee start end y (x ∷ rows) (x_new, x_free, valid) h =
      elim (Bool-cases (x.id == c.id)) [
        | inl here ↦
            let first : x ≡ c = ground arith in
            let absent = subst (λ (r : LeaveRow). leave_by_id r.id rows ≡ none) first x_new in
            rw (first, hit_self, changed_absent rows absent)
              (omega (
                arith,
                used_days-cons (is_approved_in employee start end) y new rows,
                used_days-cons (is_approved_in employee start end) y c rows,
                counted-le (is_approved_in employee start end) y new,
                same_days y,
              ))
        | inr there ↦
            let missed : leave_hit c.id c.version x ≡ false = ground arith in
            rw missed (
              omega (
                arith,
                used_days-cons (is_approved_in employee start end) y x (changed rows),
                used_days-cons (is_approved_in employee start end) y x rows,
                used_days-changed employee start end y rows valid (ground arith),
              ))
      ]

clashes_free :
    (x n : LeaveRow)
    → n.status ≡ pending
    → (x.employee_user_id == n.employee_user_id
        && (is_active x.status && meets x.start_date x.end_date n.start_date n.end_date))
      ≡ false
    → clashes x n ≡ false
clashes_free x n p h = ground arith

by_id-append :
    (k : ℕ) (rows : List LeaveRow) (n : LeaveRow)
    → leave_by_id k rows ≡ none
    → n.id ≢ k
    → leave_by_id k (rows ++ n ∷ []) ≡ none
by_id-append k [] n h ne = ground arith
by_id-append k (x ∷ rows) n h ne = ground (arith, by_id-append k rows n)

any-append :
    (p : LeaveRow → Bool) (rows : List LeaveRow) (n : LeaveRow)
    → any p rows ≡ false
    → p n ≡ false
    → any p (rows ++ n ∷ []) ≡ false
any-append p [] n h e = ground arith
any-append p (x ∷ rows) n h e = ground (arith, any-append p rows n)

-- Adding a pending request that shares no day with an active one of its employee.
pub LeavesValid-append :
    (rows : List LeaveRow) (n : LeaveRow)
    → LeavesValid rows
    → leave_by_id n.id rows ≡ none
    → n.status ≡ pending
    → any
        (λ r.
          r.employee_user_id == n.employee_user_id
          && (is_active r.status && meets r.start_date r.end_date n.start_date n.end_date))
        rows
      ≡ false
    → LeavesValid (rows ++ n ∷ [])
LeavesValid-append [] n valid h p free = (refl, refl, tt)
LeavesValid-append (x ∷ rows) n (x_new, x_free, valid) h p free =
    let apart : n.id ≢ x.id = λ e. ground arith in
    let clear : clashes x n ≡ false = clashes_free x n p (ground arith) in
    (
      by_id-append x.id rows n x_new apart,
      any-append (clashes x) rows n x_free clear,
      LeavesValid-append rows n valid (ground arith) p (ground arith),
    )

-- A row that stands in the table still stands there when another is added.
pub by_id-kept :
    (k : ℕ) (rows : List LeaveRow) (n r : LeaveRow)
    → leave_by_id k rows ≡ some r
    → leave_by_id k (rows ++ n ∷ []) ≡ some r
by_id-kept k [] n r h = cc
by_id-kept k (x ∷ rows) n r h = ground (arith, by_id-kept k rows n r)
