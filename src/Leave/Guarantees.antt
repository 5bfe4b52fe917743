-- ===== src/Leave/Guarantees.antt =====
-- modules/leave/service.ts: what holds of leave requests and balances whatever is done.
use mathlib.Core.Option
use scope_is_team_management.Base.{
  update_where, ℕ, zero, suc, false, none, some, [], ◌∷◌, ◌++◌, any, map, ◌≡◌, ◌≢◌, ◌≤◌, ◌<◌, ◌+◌,
  ◌-◌, arith, ok, refl, sym, subst, exceeds_iff, ◌∙◌, ensure_passed, not, inl, inr, Bool-cases,
  ◌==◌, ap,
}
use scope_is_team_management.Shared.{Actor, employee, same_role}
use scope_is_team_management.Dates.{Date}
use scope_is_team_management.Leave.DateRules.{
  YearDays, year_days, years_from, working_days_by_year, intersection_days, year_start, year_end,
}
use scope_is_team_management.Leave.Repository.{
  LeaveStore, LeaveEnv, LeaveRow, pending, approved, forbidden, active_overlap, request_row,
  AllowanceRow, has_active_overlap, leave_bump, leave_hit, create_request, approved_intersecting,
  overlapping_bookings, published_impact,
}
use scope_is_team_management.Leave.Service.{
  submit, SubmitLeave, cancel, LeaveVersion, decide, LeaveDecision, approve, is_approval,
  decision_values, decided_status, used_days, approved_for, Balance, balance_of, over, leave_audit,
  notify_users,
}
use scope_is_team_management.Leave.Applied.{
  Changed, cancelled_values, cancel-Changed, decide-Changed, balances_then,
}
use scope_is_team_management.Leave.Rows.{
  leave_by_id, LeavesValid, Keeps, changed-LeavesValid, changed_ne, used_days-changed,
  LeavesValid-append, by_id-kept,
}

cancelled-Keeps : (env : LeaveEnv) → Keeps (cancelled_values env)
cancelled-Keeps env = record {
  id = λ r. refl;
  employee = λ r. refl;
  start = λ r. refl;
  end = λ r. refl;
}

decided-Keeps :
    (env : LeaveEnv) (actor : Actor) (p : LeaveDecision) → Keeps (decision_values env actor p)
decided-Keeps env actor p = record {
  id = λ r. refl;
  employee = λ r. refl;
  start = λ r. refl;
  end = λ r. refl;
}

change-LeavesValid :
    (env : LeaveEnv) (id version : ℕ) (values : LeaveRow → LeaveRow) (s s' : LeaveStore)
    (row : LeaveRow)
    → Keeps values
    → Changed env id version values s s' row
    → LeavesValid s.requests
    → LeavesValid s'.requests
change-LeavesValid env id version values s s' row keeps c valid =
    subst LeavesValid (sym c.requests)
      (changed-LeavesValid env values keeps c.current c.was_pending s.requests valid c.found_now)

submitted :
    (env : LeaveEnv) (actor : Actor) (p : SubmitLeave) (s s' : LeaveStore) (row : LeaveRow)
    → submit env actor p s ≡ ok (row, s')
    → (has_active_overlap actor.id p.start_date p.end_date s ≡ false)
      × (row.id ≡ env.new_id)
      × (row.status ≡ pending)
      × (row.employee_user_id ≡ actor.id)
      × (row.start_date ≡ p.start_date)
      × (row.end_date ≡ p.end_date)
      × (s'.requests ≡ s.requests ++ row ∷ [])
unfolding submit create_request leave_audit notify_users
submitted env actor p s s' row h =
    let (role, h₁) = ensure_passed (same_role actor.role employee) forbidden _ s h in
    let (free, h₂) =
      ensure_passed (not (has_active_overlap actor.id p.start_date p.end_date s)) active_overlap _ s
        h₁ in
    let (list, h₃) = balances_then _ _ _ h₂ in
    (
      ground arith,
      ground arith,
      ground arith,
      ground arith,
      ground arith,
      ground arith,
      ground arith,
    )

-- The operations that change requests. What a cancellation or a decision has seen before its
-- transaction may be any tables.
pub data Step (env : LeaveEnv) (s s' : LeaveStore) : Type 0 where
  submits :
      (actor : Actor) (p : SubmitLeave) (row : LeaveRow)
      → submit env actor p s ≡ ok (row, s')
      → Step env s s'
  cancels :
      (actor : Actor) (p : LeaveVersion) (seen : LeaveStore) (row : LeaveRow)
      → cancel env actor p seen s ≡ ok (row, s')
      → Step env s s'
  decides :
      (actor : Actor) (p : LeaveDecision) (seen : LeaveStore) (row : LeaveRow)
      → decide env actor p seen s ≡ ok (row, s')
      → Step env s s'

-- Steps one after the other, each with a new id from the database.
pub data Reaches : LeaveStore → LeaveStore → Type 0 where
  here : {s : LeaveStore} → Reaches s s
  then :
      {s s' s'' : LeaveStore} (env : LeaveEnv)
      → Reaches s s'
      → request_row env.new_id s' ≡ none
      → Step env s' s''
      → Reaches s s''

kept_valid :
    (env : LeaveEnv) (s s' : LeaveStore)
    → request_row env.new_id s ≡ none
    → Step env s s'
    → LeavesValid s.requests
    → LeavesValid s'.requests
unfolding has_active_overlap
kept_valid env s s' fresh (submits actor p row h) valid =
    let (free, id, is_pending, owner, start, end, rows) = submitted env actor p s s' row h in
    subst LeavesValid (sym rows) (
      LeavesValid-append s.requests row valid (rw id fresh) is_pending
        (rw (owner, start, end) free))
kept_valid env s s' fresh (cancels actor p seen row h) valid =
    change-LeavesValid env _ _ _ s s' row (cancelled-Keeps env)
      (cancel-Changed env actor p seen s s' row h) valid
kept_valid env s s' fresh (decides actor p seen row h) valid =
    change-LeavesValid env _ _ _ s s' row (decided-Keeps env actor p)
      (decide-Changed env actor p seen s s' row h).0 valid

-- Whatever sequence of successful submissions, cancellations and decisions follows a valid table, each
-- with an id from the database that no row has yet, the table stays valid: no employee has two active
-- requests that share a day, and no id stands twice.
pub never_two_active :
    (s s' : LeaveStore) → LeavesValid s.requests → Reaches s s' → LeavesValid s'.requests
never_two_active s s' valid here = valid
never_two_active s s'' valid (then {s' = middle} env before fresh step) =
    kept_valid env middle s'' fresh step (never_two_active s middle valid before)

row_is_pending :
    (k : ℕ) (s : LeaveStore) (r c : LeaveRow)
    → request_row k s ≡ some r
    → request_row k s ≡ some c
    → c.status ≡ pending
    → r.status ≡ pending
row_is_pending k s r c h k_c p =
    ap (λ (x : LeaveRow). x.status) (Option.some-injective _ _ (sym h ∙ k_c)) ∙ p

settled_by_change :
    (env : LeaveEnv) (id version k : ℕ) (values : LeaveRow → LeaveRow) (s s' : LeaveStore)
    (row r : LeaveRow)
    → Keeps values
    → Changed env id version values s s' row
    → request_row k s ≡ some r
    → r.status ≢ pending
    → request_row k s' ≡ some r
settled_by_change env id version k values s s' row r keeps c found_r settled =
    let other : k ≢ c.current.id = λ e. settled (
      row_is_pending k s r c.current found_r
        (subst (λ j. request_row j s ≡ some c.current) (sym e) c.found_now) c.was_pending) in
    subst (λ rows. leave_by_id k rows ≡ some r) (sym c.requests)
      (changed_ne env values keeps c.current c.was_pending k s.requests other ∙ found_r)

-- A request that is no longer pending is left as it is by every successful submission, cancellation and
-- decision.
pub settled_is_final :
    (env : LeaveEnv) (s s' : LeaveStore) (id : ℕ) (r : LeaveRow)
    → Step env s s'
    → request_row id s ≡ some r
    → r.status ≢ pending
    → request_row id s' ≡ some r
settled_is_final env s s' id r (submits actor p row h) found_r settled =
    let (free, _, _, _, _, _, rows) = submitted env actor p s s' row h in
    rw rows (by_id-kept id s.requests row r found_r)
settled_is_final env s s' id r (cancels actor p seen row h) found_r settled =
    settled_by_change env _ _ id _ s s' row r (cancelled-Keeps env)
      (cancel-Changed env actor p seen s s' row h) found_r settled
settled_is_final env s s' id r (decides actor p seen row h) found_r settled =
    settled_by_change env _ _ id _ s s' row r (decided-Keeps env actor p)
      (decide-Changed env actor p seen s s' row h).0 found_r settled

fits_in_year :
    (f : YearDays → Balance) (start end : Date) (count first y : ℕ)
    → any over (map f (years_from start end first count)) ≡ false
    → first ≤ y
    → y < first + count
    → over (f (year_days start end y)) ≡ false
unfolding years_from
fits_in_year f start end zero first y h le lt = absurd (omega (arith, le, lt))
fits_in_year f start end (suc count) first y h le lt = elim (Bool-cases (first == y)) [
  | inl this ↦
      let same : first ≡ y = ground arith in
      subst (λ k. over (f (year_days start end k)) ≡ false) same (ground arith)
  | inr not_yet ↦
      fits_in_year f start end count (suc first) y (ground arith) (ground arith) (omega (arith, lt))
]

intersection-le :
    (start end : Date) (y : ℕ)
    → intersection_days start end y ≤ (year_days start end y).working_days
unfolding intersection_days
intersection-le start end y = ground arith

within_allowance :
    (env : LeaveEnv) (actor : Actor) (p : LeaveDecision) (s s' : LeaveStore) (c : LeaveRow)
    (a : AllowanceRow) (y : ℕ)
    → LeavesValid s.requests
    → request_row c.id s ≡ some c
    → c.status ≡ pending
    → s'.requests
      ≡ update_where
          (leave_hit c.id c.version)
          (leave_bump env (decision_values env actor p))
          s.requests
    → over (balance_of c.status a (approved_for c s) (year_days c.start_date c.end_date y)) ≡ false
    → used_days (approved_for c s') y ≤ a.annual_working_days
unfolding approved_intersecting
within_allowance env actor p s s' c a y valid row status rows fits = rw rows (
    grind (
      arith,
      used_days-changed env (decision_values env actor p) (decided-Keeps env actor p) c status
          c.employee_user_id (year_start c.start_date.year) (year_end c.end_date.year) y s.requests
          valid row,
      exceeds_iff (year_days c.start_date c.end_date y).working_days a.annual_working_days
          (used_days (approved_for c s) y),
      intersection-le c.start_date c.end_date y,
    ))

-- An approval never overdraws. Where the table of requests is valid and an approval succeeds, the
-- request is approved; in each year from its first to its last, the days of the employee's approved
-- requests that meet those years, this one included, fit the allowance; and on its days the employee
-- had neither a client booking nor a published assignment.
pub approval_fits :
    (env : LeaveEnv) (actor : Actor) (p : LeaveDecision) (seen s s' : LeaveStore) (row : LeaveRow)
    → LeavesValid s.requests
    → p.decision ≡ approve
    → decide env actor p seen s ≡ ok (row, s')
    → (row.status ≡ approved)
      × (overlapping_bookings row.employee_user_id row.start_date row.end_date s ≡ [])
      × (published_impact row.employee_user_id row.start_date row.end_date s ≡ [])
      × ((a : AllowanceRow) × (s'.allowance ≡ some a)
          × ((y : ℕ)
              → row.start_date.year ≤ y
              → y ≤ row.end_date.year
              → used_days (approved_for row s') y ≤ a.annual_working_days))
unfolding working_days_by_year
approval_fits env actor p seen s s' row valid is_approve h =
    let (c, boss, fits) = decide-Changed env actor p seen s s' row h in
    let (a, set, within, free, clear) = fits (ap is_approval is_approve) in
    rw c.result (
      ap decided_status is_approve,
      free,
      clear,
      (
        a,
        c.allowance ∙ set,
        λ y first last.
            within_allowance env actor p s s' c.current a y valid c.found_now c.was_pending
              c.requests
              (fits_in_year (balance_of c.current.status a (approved_for c.current s))
                c.current.start_date c.current.end_date
                (suc c.current.end_date.year - c.current.start_date.year) c.current.start_date.year
                y within first (omega (arith, first, last))),
      ),
    )
