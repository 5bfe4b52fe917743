-- ===== src/Leave/Tests.antt =====
-- modules/leave: a request over the turn of a year, submitted and approved, and examples.
use scope_is_team_management.Base.{
  ℕ, ◌≡◌, ◌≤◌, ◌<◌, ◌+◌, refl, none, some, [], map, arith, ok, err, Result, committed,
}
use scope_is_team_management.Shared.{Actor, super_admin, employee, password, uuid}
use scope_is_team_management.Dates.{
  Date, IsDate, month_length, day_number, days_in_months, days_before_year, is_leap,
}
use scope_is_team_management.Leave.DateRules.{
  working_days, working_days_by_year, sum, count_working, years_from, intersection_days, YearDays,
}
use scope_is_team_management.Leave.Rules.{sum-working_days_by_year}
use scope_is_team_management.Leave.Repository.{
  LeaveStore, LeaveEnv, LeaveError, LeaveRow, AllowanceRow, pending, approved, request_row,
  approved_intersecting, has_active_overlap, create_request, published_impact, overlapping_bookings,
  update_request, update_allowance, approved_employee_ids,
}
use scope_is_team_management.Leave.Service.{
  submit, SubmitLeave, decide, LeaveDecision, approve, AllowanceUpdate, set_allowance,
  check_employees, request_balances, leave_audit, notify_users, used_days, current_pending,
  check_approval, approved_for,
}
use scope_is_team_management.Leave.Rows.{LeavesValid}
use scope_is_team_management.Leave.Allowance.{used_in, reduction_is_safe}
use scope_is_team_management.Base.{true}
use scope_is_team_management.Leave.Repository.{forbidden}
use scope_is_team_management.Leave.Service.{balance_of}
use scope_is_team_management.Leave.Preview.{
  is_calendar_date, vacation_preview, dates_of, shown, vacation_preview-eq-balances,
}
use scope_is_team_management.Leave.Guarantees.{
  Step, submits, here, then, never_two_active, settled_is_final, approval_fits,
}

abbrev first_day : Date
first_day = record { year = 2026; month = 12; day = 30 }

abbrev last_day : Date
last_day = record { year = 2027; month = 1; day = 4 }

first_day-IsDate : IsDate first_day
unfolding month_length
first_day-IsDate = (omega arith, omega arith, omega arith, omega arith)

last_day-IsDate : IsDate last_day
unfolding month_length
last_day-IsDate = (omega arith, omega arith, omega arith, omega arith)

sum-working_days_by_year_example :
    sum (map (λ (y : YearDays). y.working_days) (working_days_by_year first_day last_day))
    ≡ working_days first_day last_day
sum-working_days_by_year_example =
    sum-working_days_by_year first_day last_day first_day-IsDate last_day-IsDate refl

-- From Wednesday to Monday, there are four working days.
four_days : working_days first_day last_day ≡ 4
unfolding working_days count_working day_number days_in_months days_before_year is_leap month_length
four_days = refl

abbrev worker : Actor
worker = record {
  id = 5;
  display_name = "Worker";
  role = employee;
  session_id = uuid 1;
  session_version = 1;
  scopes = [];
  authentication_mode = password;
}

abbrev boss : Actor
boss = record worker { id = 1; display_name = "Boss"; role = super_admin }

abbrev empty : LeaveStore
empty = record {
  users = [];
  requests = [];
  allowance = some (record { annual_working_days = 22; version = 1; updated_at = 0 });
  periods = [];
  assignments = [];
  bookings = [];
  audits = [];
  notifications = [];
}

abbrev env : LeaveEnv
env = record { now = 50; new_id = 7; current_year = 2026 }

abbrev wish : SubmitLeave
wish = record { start_date = first_day; end_date = last_day; private_reason = none }

abbrev row_of : Result LeaveError (LeaveRow × LeaveStore) → LeaveRow
row_of (ok (r, s)) = r
row_of (err e) = record {
  id = 0;
  employee_user_id = 0;
  start_date = first_day;
  end_date = first_day;
  status = pending;
  private_reason = none;
  decision_response = none;
  reviewed_by_user_id = none;
  decided_at = none;
  cancelled_at = none;
  version = 0;
  created_at = 0;
  updated_at = 0;
}

abbrev asking : Result LeaveError (LeaveRow × LeaveStore)
asking = submit env worker wish empty

abbrev asked : LeaveStore
asked = committed empty asking

abbrev answer : LeaveDecision
answer = record { leave_request_id = 7; expected_version = 1; decision = approve; response = none }

abbrev deciding : Result LeaveError (LeaveRow × LeaveStore)
deciding = decide env boss answer asked asked

abbrev decided : LeaveStore
decided = committed asked deciding

asking-eq-ok : asking ≡ ok (row_of asking, asked)
unfolding submit has_active_overlap create_request request_balances leave_audit notify_users
asking-eq-ok = refl

runs : Unit {0}
unfolding decide submit has_active_overlap create_request request_balances leave_audit notify_users
    current_pending check_approval overlapping_bookings published_impact working_days_by_year
    years_from used_days sum approved_intersecting working_days count_working day_number
    days_before_year days_in_months is_leap month_length intersection_days update_request
runs = tt

deciding-eq-ok : deciding ≡ ok (row_of deciding, decided)
unfolding runs
deciding-eq-ok = refl

asking-Step : Step env empty asked
asking-Step = submits worker wish (row_of asking) asking-eq-ok

never_two_active_example : LeavesValid asked.requests
never_two_active_example = never_two_active empty asked tt (then env here refl asking-Step)

valid_asked : LeavesValid asked.requests
valid_asked = never_two_active empty asked tt (then env here refl asking-Step)

approval_fits_example :
    ((row_of deciding).status ≡ approved)
    × (overlapping_bookings
          (row_of deciding).employee_user_id
          (row_of deciding).start_date
          (row_of deciding).end_date
          asked
        ≡ [])
    × (published_impact
          (row_of deciding).employee_user_id
          (row_of deciding).start_date
          (row_of deciding).end_date
          asked
        ≡ [])
    × ((a : AllowanceRow) × (decided.allowance ≡ some a)
        × ((y : ℕ)
            → (row_of deciding).start_date.year ≤ y
            → y ≤ (row_of deciding).end_date.year
            → used_days (approved_for (row_of deciding) decided) y ≤ a.annual_working_days))
approval_fits_example =
    approval_fits env boss answer asked asked decided (row_of deciding) valid_asked refl
      deciding-eq-ok

abbrev other : Actor
other = record worker { id = 6 }

abbrev env_next : LeaveEnv
env_next = record { now = 60; new_id = 8; current_year = 2026 }

abbrev asking_too : Result LeaveError (LeaveRow × LeaveStore)
asking_too = submit env_next other wish decided

asking_too-eq-ok : asking_too ≡ ok (row_of asking_too, committed decided asking_too)
unfolding runs
asking_too-eq-ok = refl

approved_row : request_row 7 decided ≡ some (row_of deciding)
unfolding runs
approved_row = refl

approved_now : (row_of deciding).status ≡ approved
unfolding runs
approved_now = refl

settled_is_final_example : request_row 7 (committed decided asking_too) ≡ some (row_of deciding)
settled_is_final_example =
    settled_is_final env_next decided (committed decided asking_too) 7 (row_of deciding)
      (submits other wish (row_of asking_too) asking_too-eq-ok) approved_row
      (λ e. cc (approved_now, e))

abbrev less : AllowanceUpdate
less = record { annual_working_days = 10; expected_version = 1 }

abbrev lowering : Result LeaveError (AllowanceRow × LeaveStore)
lowering = set_allowance env boss less asked

abbrev lower_row : AllowanceRow
lower_row = record { annual_working_days = 10; version = 2; updated_at = 50 }

lowering-eq-ok : lowering ≡ ok (lower_row, committed asked lowering)
unfolding runs set_allowance update_allowance approved_employee_ids check_employees
lowering-eq-ok = refl

reduction_is_safe_example :
    (super_admin ≡ super_admin)
    × ((committed asked lowering).requests ≡ asked.requests)
    × ((committed asked lowering).allowance ≡ some lower_row)
    × (lower_row.annual_working_days ≡ 10)
    × ((old : AllowanceRow) × (asked.allowance ≡ some old)
        × (old.version ≡ 1)
        × (lower_row.version ≡ old.version + 1)
        × (10 < old.annual_working_days
            → (id : ℕ) → used_in id 2026 asked ≤ lower_row.annual_working_days))
reduction_is_safe_example =
    reduction_is_safe env boss less asked (committed asked lowering) lower_row lowering-eq-ok

abbrev wished : LeaveRow
wished = record (row_of (err forbidden)) {
  id = 7;
  employee_user_id = 5;
  start_date = first_day;
  end_date = last_day;
}

abbrev setting : AllowanceRow
setting = record { annual_working_days = 22; version = 1; updated_at = 0 }

calendar_dates : (is_calendar_date first_day ≡ true) × (is_calendar_date last_day ≡ true)
unfolding is_calendar_date month_length
calendar_dates = (refl, refl)

vacation_preview-eq-balances_example :
    vacation_preview first_day last_day 22 (map dates_of (approved_for wished decided))
    ≡ some (
        map shown (
          map
            (balance_of pending setting (approved_for wished decided))
            (working_days_by_year first_day last_day)))
vacation_preview-eq-balances_example =
    vacation_preview-eq-balances wished setting decided refl calendar_dates.0 calendar_dates.1 refl
