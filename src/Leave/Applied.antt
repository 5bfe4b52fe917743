-- ===== src/Leave/Applied.antt =====
-- modules/leave/service.ts: what a successful cancellation or decision has done.
use scope_is_team_management.Base.{
  ℕ, Bool, true, false, some, List, [], ◌∷◌, any, ◌≡◌, arith, ok, find, find_sound, found_passed,
  ensure_passed, found, ◌>>=◌, ==_iff, update_where, refl, ◌∙◌, map, if◌then◌else◌, pure, subst,
  sym, ◌&&◌, >>=-eq-ok, length, ◌==◌,
}
use scope_is_team_management.Shared.{Actor, super_admin, employee, same_role}
use scope_is_team_management.Leave.Repository.{
  LeaveRow, LeaveStore, LeaveEnv, pending, cancelled, request_row, leave_hit, leave_bump,
  update_request, overlapping_bookings, published_impact, AllowanceRow, not_found, stale_version,
  forbidden, missing_setting, published_assignment_conflict, LeaveDb,
}
use scope_is_team_management.Leave.DateRules.{working_days_by_year}
use scope_is_team_management.Leave.Service.{
  current_pending, request_balances, leave_audit, notify_users, check_approval, LeaveVersion,
  cancel, LeaveDecision, decide, decision_values, is_approval, over, balance_of, approved_for,
  Balance,
}

pub current_pending_sound :
    (id version : ℕ) (s s' : LeaveStore) (r : LeaveRow)
    → current_pending id version s ≡ ok (r, s')
    → (s' ≡ s) × (request_row id s ≡ some r) × (r.version ≡ version) × (r.status ≡ pending)
unfolding current_pending
current_pending_sound id version s s' r h = ground arith

request_balances_sound :
    (r : LeaveRow) (s s' : LeaveStore) (l : List Balance)
    → request_balances r s ≡ ok (l, s')
    → (s' ≡ s)
      × ((a : AllowanceRow) × (s.allowance ≡ some a)
          × (l
              ≡ map
                  (balance_of r.status a (approved_for r s))
                  (working_days_by_year r.start_date r.end_date)))
unfolding request_balances
request_balances_sound r s s' l h =
    let (a, set, h₁) = found_passed s.allowance missing_setting _ s h in
    (ground arith, (a, set, ground arith))

-- What a request's change leaves in the tables: the request stood there with the expected version
-- and was pending, and its row, and no other, was given the new values.
pub record Changed (env : LeaveEnv) (id version : ℕ) (values : LeaveRow → LeaveRow)
    (s s' : LeaveStore) (row : LeaveRow) : Type 0 where
  pub current : LeaveRow
  pub asked : current.id ≡ id
  pub found_now : request_row current.id s ≡ some current
  pub at_version : current.version ≡ version
  pub was_pending : current.status ≡ pending
  pub result : row ≡ leave_bump env values current
  pub requests :
      s'.requests
      ≡ update_where (leave_hit current.id current.version) (leave_bump env values) s.requests
  pub allowance : s'.allowance ≡ s.allowance

id_of : (id : ℕ) (s : LeaveStore) (r : LeaveRow) → request_row id s ≡ some r → r.id ≡ id
id_of id s r h = (==_iff r.id id).0 (find_sound (λ (x : LeaveRow). x.id == id) s.requests r h)

hit-request :
    (id version : ℕ) (rows : List LeaveRow) (r : LeaveRow)
    → find (λ (x : LeaveRow). x.id == id) rows ≡ some r
    → r.version ≡ version
    → find (leave_hit id version) rows ≡ some r
hit-request id version [] r h v = cc
hit-request id version (x ∷ rows) r h v = ground (arith, hit-request id version rows r)

-- The request that a transaction of `cancel` or `decide` works on.
pending_then :
    (id version : ℕ) (k : LeaveRow → LeaveDb LeaveRow) (s : LeaveStore) {r : LeaveRow × LeaveStore}
    → (current_pending id version >>= k) s ≡ ok r
    → (c : LeaveRow) × (request_row id s ≡ some c)
      × (c.version ≡ version)
      × (c.id ≡ id)
      × (request_row c.id s ≡ some c)
      × (c.status ≡ pending)
      × (k c s ≡ ok r)
pending_then id version k s h =
    let (c, s₁, got, rest) = >>=-eq-ok (current_pending id version) k s h in
    let (same, row, version_is, status) = current_pending_sound id version s s₁ c got in
    (
      c,
      row,
      version_is,
      id_of id s c row,
      subst (λ k. request_row k s ≡ some c) (sym (id_of id s c row)) row,
      status,
      rw same at rest,
    )

-- The update of that request, which always hits.
update_then :
    (env : LeaveEnv) (c : LeaveRow) (values : LeaveRow → LeaveRow) (k : LeaveRow → LeaveDb LeaveRow)
    (s : LeaveStore) {r : LeaveRow × LeaveStore}
    → request_row c.id s ≡ some c
    → (update_request env c.id c.version values >>= λ hit. found hit stale_version >>= k) s ≡ ok r
    → k (leave_bump env values c) (record s {
      requests = update_where (leave_hit c.id c.version) (leave_bump env values) s.requests;
    })
      ≡ ok r
unfolding update_request
update_then env c values k s row h =
    let hit = hit-request c.id c.version s.requests c row refl in rw hit at h

abbrev pub cancelled_values : LeaveEnv → LeaveRow → LeaveRow
cancelled_values env r = record r { status = cancelled; cancelled_at = some env.now }

pub cancel-Changed :
    (env : LeaveEnv) (actor : Actor) (p : LeaveVersion) (seen s s' : LeaveStore) (row : LeaveRow)
    → cancel env actor p seen s ≡ ok (row, s')
    → Changed env p.leave_request_id p.expected_version
        (λ r. record r { status = cancelled; cancelled_at = some env.now })
        s
        s'
        row
unfolding cancel leave_audit
cancel-Changed env actor p seen s s' row h =
    let (request, found_then, h₁) =
      found_passed (request_row p.leave_request_id seen) not_found _ s h in
    let (_, h₂) =
      ensure_passed (request.employee_user_id == actor.id && same_role actor.role employee)
        not_found _ s h₁ in
    let (c, found_now, version_is, id, own, status, h₃) =
      pending_then request.id p.expected_version _ s h₂ in
    let same = id_of p.leave_request_id seen request found_then in
    let h₄ = update_then env c _ _ s (rw id found_now) h₃ in
    record {
      current = c;
      asked = id ∙ same;
      found_now = own;
      at_version = version_is;
      was_pending = status;
      result = ground arith;
      requests = ground arith;
      allowance = ground arith;
    }

-- What an approval has checked.
abbrev pub Fits : LeaveRow → LeaveStore → Type 0
Fits c s =
    (a : AllowanceRow) × (s.allowance ≡ some a)
    × (any over (
          map (balance_of c.status a (approved_for c s))
            (working_days_by_year c.start_date c.end_date))
        ≡ false)
    × (overlapping_bookings c.employee_user_id c.start_date c.end_date s ≡ [])
    × (published_impact c.employee_user_id c.start_date c.end_date s ≡ [])

length_zero : {A : Type 0} (xs : List A) → (length xs == 0) ≡ true → xs ≡ []
length_zero [] h = refl
length_zero (x ∷ xs) h = absurd (ground arith)

check_sound :
    (c : LeaveRow) (s s' : LeaveStore) (u : Unit {0})
    → check_approval c s ≡ ok (u, s')
    → (s' ≡ s) × Fits c s
unfolding check_approval
check_sound c s s' u h =
    let (free, h₁) =
      ensure_passed
        (length (overlapping_bookings c.employee_user_id c.start_date c.end_date s) == 0)
        published_assignment_conflict _ s h in
    let (clear, h₂) =
      ensure_passed (length (published_impact c.employee_user_id c.start_date c.end_date s) == 0)
        published_assignment_conflict _ s h₁ in
    let (list, s₁, got, h₃) = >>=-eq-ok (request_balances c) _ s h₂ in
    let (same, (a, set, is_list)) = request_balances_sound c s s₁ list got in
    let within : any over list ≡ false = ground arith in
    (ground arith, (a, set, rw is_list at within, length_zero _ free, length_zero _ clear))

guarded :
    (b : Bool) (c : LeaveRow) (s s' : LeaveStore) (u : Unit {0})
    → (if b then check_approval c else pure tt) s ≡ ok (u, s')
    → (s' ≡ s) × (b ≡ true → Fits c s)
guarded true c s s' u h = let (same, fits) = check_sound c s s' u h in (same, λ e. fits)
guarded false c s s' u h = (ground arith, λ e. cc)

pub balances_then :
    (r : LeaveRow) (k : List Balance → LeaveDb LeaveRow) (s : LeaveStore)
    {x : LeaveRow × LeaveStore}
    → (request_balances r >>= k) s ≡ ok x
    → (list : List Balance) × (k list s ≡ ok x)
balances_then r k s h =
    let (list, s₁, got, rest) = >>=-eq-ok (request_balances r) k s h in
    let same = (request_balances_sound r s s₁ list got).0 in (list, rw same at rest)

-- A decision changes the request as `decision_values` says, and an approval has passed its checks.
pub decide-Changed :
    (env : LeaveEnv) (actor : Actor) (p : LeaveDecision) (seen s s' : LeaveStore) (row : LeaveRow)
    → decide env actor p seen s ≡ ok (row, s')
    → (c : Changed env p.leave_request_id p.expected_version (decision_values env actor p) s s' row)
      × (actor.role ≡ super_admin)
      × (is_approval p.decision ≡ true → Fits c.current s)
unfolding decide leave_audit notify_users
decide-Changed env actor p seen s s' row h =
    let (boss, h₀) = ensure_passed (same_role actor.role super_admin) forbidden _ s h in
    let (request, found_then, h₁) =
      found_passed (request_row p.leave_request_id seen) not_found _ s h₀ in
    let (c, found_now, version_is, id, own, status, h₂) =
      pending_then request.id p.expected_version _ s h₁ in
    let (u, s₁, got, h₃) =
      >>=-eq-ok (if is_approval p.decision then check_approval c else pure tt) _ s h₂ in
    let (keeps, fits) = guarded (is_approval p.decision) c s s₁ u got in
    let h₄ = update_then env c (decision_values env actor p) _ s own (rw keeps at h₃) in
    let (list, h₅) = balances_then (leave_bump env (decision_values env actor p) c) _ _ h₄ in
    let same = id_of p.leave_request_id seen request found_then in
    (
      record {
        current = c;
        asked = id ∙ same;
        found_now = own;
        at_version = version_is;
        was_pending = status;
        result = ground arith;
        requests = ground arith;
        allowance = ground arith;
      },
      ground arith,
      fits,
    )
