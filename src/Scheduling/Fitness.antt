-- ===== src/Scheduling/Fitness.antt =====
-- modules/scheduling/service.ts: what the checks of a period's assignments establish. They read the
-- tables and change none.
use scope_is_team_management.Base.{
  ℕ, Bool, true, false, Option, some, List, [], ◌∷◌, ◌≡◌, refl, subst, filter, length, ◌==◌, ltb,
  ok, All, ensure, >>=-eq-ok, ensure_passed, found_passed, map,
}
use scope_is_team_management.Shared.{Actor, super_admin, same_role}
use scope_is_team_management.Tickets.Types.{UserRow}
use scope_is_team_management.Leave.Repository.{is_approved_in}
use scope_is_team_management.Tables.{
  Period, Assignment, StaffRow, ProjectRow, LocationRow, ProjectLocationRow,
}
use scope_is_team_management.Employees.Policy.{can_read_employee}
use scope_is_team_management.Reporting.Windows.{time_key}
use scope_is_team_management.Scheduling.Repository.{
  forbidden, validation_error, invalid_relationship, invalid_employee, overlap, conflict,
  no_employee_visibility, ScheduleStore, ScheduleDb, Slot, slot_of, user_row, project_row,
  location_row, project_location, employee_row, all_assignments, overlap_candidates, bookings_on,
}
use scope_is_team_management.Scheduling.Checks.{
  require_planner, mutate, visible_employee, may_stand, check_candidates, assert_no_overlap,
  in_month, related, is_worker, validate_references, validate_each, validate_period_assignments,
  is_planner, scope_grant, access_of, grants,
}

-- An assignment that may be worked as planned: in the month of its period, at a place of a project
-- of its client, by an active employee who is neither on leave nor booked that day, and at a time
-- at which every other counting assignment of the employee is the one it is a copy of.
abbrev pub IsFit : Period → Assignment → ScheduleStore → Type 0
IsFit period a s =
    (in_month period (slot_of a) ≡ true)
    × (ltb (time_key a.start_time) (time_key a.end_time) ≡ true)
    × ((work : ProjectRow) × (place : LocationRow) × (link : ProjectLocationRow) × (project_row
            a.project_id s
          ≡ some work)
        × (location_row a.location_id s ≡ some place)
        × (project_location a.project_id a.location_id s ≡ some link)
        × (related period work place ≡ true))
    × ((row : UserRow × StaffRow) × (employee_row a.employee_user_id s ≡ some row)
        × (is_worker row ≡ true))
    × ((length
            (filter (is_approved_in a.employee_user_id a.assignment_date a.assignment_date) s.leave)
          == 0)
        ≡ true)
    × ((length (bookings_on a.employee_user_id a.assignment_date s) == 0) ≡ true)
    × All (λ j. may_stand period (slot_of a) (some a.id) j ≡ true)
        (overlap_candidates (slot_of a) s)

pub planner_same :
    (supplied : Actor) (s s' : ScheduleStore) (actor : Actor)
    → require_planner supplied s ≡ ok (actor, s')
    → s' ≡ s
unfolding require_planner
planner_same supplied s s' actor h =
    let (role, p₁) = ensure_passed (same_role supplied.role super_admin) forbidden _ s h in
    let (current, is_current, p₂) = found_passed (user_row supplied.id s) forbidden _ s p₁ in
    let (admitted, p₃) = ensure_passed (is_planner supplied current) forbidden _ s p₂ in cc

-- `mutate` runs its operation on the tables as they are.
pub mutated :
    {A : Type 0} (supplied : Actor) (op : Actor → ScheduleDb A) (s : ScheduleStore)
    {r : A × ScheduleStore}
    → mutate supplied op s ≡ ok r
    → (actor : Actor) × (op actor s ≡ ok r)
unfolding mutate
mutated supplied op s {r} h =
    let (role, h₁) = ensure_passed (same_role supplied.role super_admin) forbidden _ s h in
    let (actor, s₁, planner, h₂) = >>=-eq-ok (require_planner supplied) op s h₁ in
    (actor, subst (λ k. op actor k ≡ ok r) (planner_same supplied s s₁ actor planner) h₂)

pub visible_same :
    (actor : Actor) (id : ℕ) (s s' : ScheduleStore) (row : UserRow × StaffRow)
    → visible_employee actor id s ≡ ok (row, s')
    → s' ≡ s
unfolding visible_employee
visible_same actor id s s' row h =
    let (r, is_r, h₁) = found_passed (employee_row id s) invalid_employee _ s h in
    let (worker, h₂) = ensure_passed (is_worker r) invalid_employee _ s h₁ in
    let (readable, h₃) =
      ensure_passed
        (can_read_employee (record actor { scopes = map scope_grant (grants actor s) })
          (access_of r))
        no_employee_visibility _ s h₂ in
    cc

candidates_stand :
    (period : Period) (slot : Slot) (exclude : Option ℕ) (js : List (Assignment × Period))
    (s s' : ScheduleStore) (u : Unit {0})
    → check_candidates period slot exclude js s ≡ ok (u, s')
    → (s' ≡ s) × All (λ j. may_stand period slot exclude j ≡ true) js
unfolding check_candidates
candidates_stand period slot exclude [] s s' u h = (cc, tt)
candidates_stand period slot exclude (j ∷ js) s s' u h =
    let (stands, h₁) = ensure_passed (may_stand period slot exclude j) overlap _ s h in
    let (same, rest) = candidates_stand period slot exclude js s s' u h₁ in (same, (stands, rest))

pub no_overlap :
    (period : Period) (slot : Slot) (exclude : Option ℕ) (s s' : ScheduleStore) (u : Unit {0})
    → assert_no_overlap period slot exclude s ≡ ok (u, s')
    → (s' ≡ s)
      × ((length (bookings_on slot.employee_user_id slot.assignment_date s) == 0) ≡ true)
      × All (λ j. may_stand period slot exclude j ≡ true) (overlap_candidates slot s)
unfolding assert_no_overlap
no_overlap period slot exclude s s' u h =
    let (free, h₁) =
      ensure_passed (length (bookings_on slot.employee_user_id slot.assignment_date s) == 0) overlap
        _ s h in
    let (same, stand) =
      candidates_stand period slot exclude (overlap_candidates slot s) s s' u h₁ in
    (same, free, stand)

pub references_hold :
    (period : Period) (a : Assignment) (s s' : ScheduleStore) (u : Unit {0})
    → validate_references period (slot_of a) s ≡ ok (u, s')
    → (s' ≡ s)
      × (in_month period (slot_of a) ≡ true)
      × (ltb (time_key a.start_time) (time_key a.end_time) ≡ true)
      × ((work : ProjectRow) × (place : LocationRow) × (link : ProjectLocationRow) × (project_row
              a.project_id s
            ≡ some work)
          × (location_row a.location_id s ≡ some place)
          × (project_location a.project_id a.location_id s ≡ some link)
          × (related period work place ≡ true))
      × ((row : UserRow × StaffRow) × (employee_row a.employee_user_id s ≡ some row)
          × (is_worker row ≡ true))
      × ((length (
              filter
                (is_approved_in a.employee_user_id a.assignment_date a.assignment_date)
                s.leave)
            == 0)
          ≡ true)
unfolding validate_references
references_hold period a s s' u h =
    let (month, h₁) = ensure_passed (in_month period (slot_of a)) validation_error _ s h in
    let (order, h₂) =
      ensure_passed (ltb (time_key a.start_time) (time_key a.end_time)) validation_error _ s h₁ in
    let (work, is_work, h₃) =
      found_passed (project_row a.project_id s) invalid_relationship _ s h₂ in
    let (place, is_place, h₄) =
      found_passed (location_row a.location_id s) invalid_relationship _ s h₃ in
    let (link, is_link, h₅) =
      found_passed (project_location a.project_id a.location_id s) invalid_relationship _ s h₄ in
    let (tied, h₆) = ensure_passed (related period work place) invalid_relationship _ s h₅ in
    let (row, is_row, h₇) =
      found_passed (employee_row a.employee_user_id s) invalid_employee _ s h₆ in
    let (worker, h₈) = ensure_passed (is_worker row) invalid_employee _ s h₇ in
    let (present, same) =
      present_after
        (length
            (filter (is_approved_in a.employee_user_id a.assignment_date a.assignment_date) s.leave)
          == 0)
        s s' u h₈ in
    (
      same,
      month,
      order,
      (work, place, link, is_work, is_place, is_link, tied),
      (row, is_row, worker),
      present,
    )
  where
    present_after :
        (b : Bool) (s s' : ScheduleStore) (u : Unit {0})
        → ensure b conflict s ≡ ok (u, s')
        → (b ≡ true) × (s' ≡ s)
    present_after true s s' u h = (refl, cc)
    present_after false s s' u h = cc

each-IsFit :
    (actor : Actor) (period : Period) (rows : List Assignment) (s s' : ScheduleStore) (u : Unit {0})
    → validate_each actor period rows s ≡ ok (u, s')
    → (s' ≡ s) × All (λ a. IsFit period a s) rows
unfolding validate_each
each-IsFit actor period [] s s' u h = (cc, tt)
each-IsFit actor period (a ∷ rest) s s' u h =
    let (u₁, s₁, refs, h₁) = >>=-eq-ok (validate_references period (slot_of a)) _ s h in
    let (same₁, month, order, tied, worker, present) = references_hold period a s s₁ u₁ refs in
    let (row, s₂, seen, h₂) = >>=-eq-ok (visible_employee actor a.employee_user_id) _ s₁ h₁ in
    let same₂ = visible_same actor a.employee_user_id s₁ s₂ row seen in
    let (u₃, s₃, clear, h₃) =
      >>=-eq-ok (assert_no_overlap period (slot_of a) (some a.id)) _ s₂ h₂ in
    let at_s : s₂ ≡ s = cc in
    let clear' : assert_no_overlap period (slot_of a) (some a.id) s ≡ ok (u₃, s₃) =
      subst (λ k. assert_no_overlap period (slot_of a) (some a.id) k ≡ ok (u₃, s₃)) at_s clear in
    let (same₃, free, stand) = no_overlap period (slot_of a) (some a.id) s s₃ u₃ clear' in
    let (same, others) =
      each-IsFit actor period rest s s' u
        (subst (λ k. validate_each actor period rest k ≡ ok (u, s')) same₃ h₃) in
    (same, ((month, order, tied, worker, present, free, stand), others))

-- The validation of a period returns its assignments, each of them fit.
pub validated :
    (actor : Actor) (period : Period) (s s' : ScheduleStore) (rows : List Assignment)
    → validate_period_assignments actor period s ≡ ok (rows, s')
    → (s' ≡ s)
      × (rows ≡ all_assignments period.id s)
      × All (λ a. IsFit period a s) (all_assignments period.id s)
unfolding validate_period_assignments
validated actor period s s' rows h =
    let (u, s₁, each, h₁) =
      >>=-eq-ok (validate_each actor period (all_assignments period.id s)) _ s h in
    let (same, fit) = each-IsFit actor period (all_assignments period.id s) s s₁ u each in
    (cc, cc, fit)
