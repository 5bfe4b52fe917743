-- ===== src/Leave/Allowance.antt =====
-- modules/leave/service.ts: `updateAllowance` and the approved leave of the current year.
use scope_is_team_management.Base.{
  ℕ, Bool, true, false, some, List, [], ◌∷◌, map, filter, includes, unique, ◌≡◌, ◌≤◌, ◌<◌, ◌==◌,
  ◌+◌, ltb, arith, ok, refl, if◌then◌else◌, pure, not, inl, inr, Bool-cases, ensure_passed,
  found_passed, >>=-eq-ok, ==_iff, subst, ◌∙◌,
}
use scope_is_team_management.Shared.{Actor, super_admin, same_role}
use scope_is_team_management.Dates.{Date}
use scope_is_team_management.Leave.DateRules.{year_start, year_end, sum}
use scope_is_team_management.Leave.Repository.{
  LeaveRow, LeaveStore, LeaveEnv, AllowanceRow, is_approved, is_approved_in, approved_intersecting,
  approved_employee_ids, update_allowance, forbidden, stale_version, unsafe_allowance_reduction,
  missing_setting,
}
use scope_is_team_management.Leave.Service.{
  used_days, balance_used, check_employees, AllowanceUpdate, set_allowance, leave_audit,
}

includes-filter :
    (a x : ℕ) (ys : List ℕ)
    → (x == a) ≡ false
    → includes a ys ≡ true
    → includes a (filter (λ y. if y == x then false else true) ys) ≡ true
includes-filter a x [] ne h = h
includes-filter a x (y ∷ ys) ne h = ground (arith, includes-filter a x ys)

includes-unique : (a : ℕ) (xs : List ℕ) → includes a xs ≡ true → includes a (unique xs) ≡ true
includes-unique a [] h = h
includes-unique a (x ∷ xs) h = ground (arith, includes-unique a xs, includes-filter a x (unique xs))

no_approved :
    (id : ℕ) (start end : Date) (rows : List LeaveRow)
    → includes id (map (λ r. r.employee_user_id) (filter (λ r. is_approved r.status) rows)) ≡ false
    → filter (is_approved_in id start end) rows ≡ []
no_approved id start end [] h = refl
no_approved id start end (r ∷ rows) h = ground (arith, no_approved id start end rows)

-- The days that an employee's approved leave uses in a year.
abbrev pub used_in : ℕ → ℕ → LeaveStore → ℕ
used_in id y s = used_days (approved_intersecting id (year_start y) (year_end y) s) y

balance_used_sound :
    (id y used : ℕ) (s s' : LeaveStore)
    → balance_used id y s ≡ ok (used, s')
    → (s' ≡ s) × (used ≡ used_in id y s)
unfolding balance_used
balance_used_sound id y used s s' h =
    let (a, _, h₁) = found_passed s.allowance missing_setting _ s h in (ground arith, ground arith)

check_employees_sound :
    (days y : ℕ) (ids : List ℕ) (s s' : LeaveStore) (u : Unit {0})
    → check_employees days y ids s ≡ ok (u, s')
    → (s' ≡ s) × ((id : ℕ) → includes id ids ≡ true → used_in id y s ≤ days)
unfolding check_employees
check_employees_sound days y [] s s' u h = (ground arith, λ id e. cc)
check_employees_sound days y (i ∷ ids) s s' u h =
    let (used, s₁, got, h₁) = >>=-eq-ok (balance_used i y) _ s h in
    let (same, is_used) = balance_used_sound i y used s s₁ got in
    let (fits, h₂) = ensure_passed (not (ltb days used)) unsafe_allowance_reduction _ s₁ h₁ in
    let (same', rest) = check_employees_sound days y ids s₁ s' u h₂ in
    (
      same' ∙ same,
      λ id e. elim (Bool-cases (i == id)) [
        | inl this ↦
            let is_this = (==_iff i id).0 this in
            subst (λ k. used_in k y s ≤ days) is_this (subst (λ k. k ≤ days) is_used (ground arith))
        | inr other ↦
            subst (λ (t : LeaveStore). used_in id y t ≤ days) same (rest id (ground arith))
      ],
    )

everyone :
    (days y : ℕ) (s : LeaveStore)
    → ((id : ℕ) → includes id (approved_employee_ids s) ≡ true → used_in id y s ≤ days)
    → (id : ℕ) → used_in id y s ≤ days
unfolding approved_employee_ids approved_intersecting used_days sum
everyone days y s listed id =
    let owners : List ℕ =
      map (λ (r : LeaveRow). r.employee_user_id) (filter (λ r. is_approved r.status) s.requests) in
    elim (Bool-cases (includes id owners)) [
      | inl known ↦ listed id (includes-unique id owners known)
      | inr unknown ↦
          rw (no_approved id (year_start y) (year_end y) s.requests unknown) (omega arith)
    ]

checked :
    (b : Bool) (days y : ℕ) (s s' : LeaveStore) (u : Unit {0})
    → (if b then check_employees days y (approved_employee_ids s) else pure tt) s ≡ ok (u, s')
    → (s' ≡ s) × (b ≡ true → (id : ℕ) → used_in id y s ≤ days)
checked true days y s s' u h =
    let (same, listed) = check_employees_sound days y (approved_employee_ids s) s s' u h in
    (same, λ e. everyone days y s listed)
checked false days y s s' u h = (ground arith, λ e. cc)

-- Setting the allowance leaves the requests alone, counts the setting's version up, and stores the
-- new number of days; where that number is smaller, no employee's approved leave in the current year
-- exceeds it.
pub reduction_is_safe :
    (env : LeaveEnv) (actor : Actor) (p : AllowanceUpdate) (s s' : LeaveStore) (row : AllowanceRow)
    → set_allowance env actor p s ≡ ok (row, s')
    → (actor.role ≡ super_admin)
      × (s'.requests ≡ s.requests)
      × (s'.allowance ≡ some row)
      × (row.annual_working_days ≡ p.annual_working_days)
      × ((old : AllowanceRow) × (s.allowance ≡ some old)
          × (old.version ≡ p.expected_version)
          × (row.version ≡ old.version + 1)
          × (p.annual_working_days < old.annual_working_days
              → (id : ℕ) → used_in id env.current_year s ≤ row.annual_working_days))
unfolding set_allowance update_allowance leave_audit
reduction_is_safe env actor p s s' row h =
    let (boss, h₀) = ensure_passed (same_role actor.role super_admin) forbidden _ s h in
    let (old, is_old, h₁) = found_passed s.allowance stale_version _ s h₀ in
    let (at_version, h₂) = ensure_passed (old.version == p.expected_version) stale_version _ s h₁ in
    let (u, s₁, got, h₃) =
      >>=-eq-ok
        (if ltb p.annual_working_days old.annual_working_days
          then check_employees p.annual_working_days env.current_year (approved_employee_ids s)
          else pure tt)
        _ s h₂ in
    let (same, safe) =
      checked (ltb p.annual_working_days old.annual_working_days) p.annual_working_days
        env.current_year s s₁ u got in
    let h₄ = rw same at h₃ in
    (
      ground arith,
      ground arith,
      ground arith,
      ground arith,
      (
        old,
        is_old,
        ground arith,
        ground arith,
        λ less id.
            subst (λ k. used_in id env.current_year s ≤ k) (ground arith) (safe (ground arith) id),
      ),
    )
