-- ===== src/Scheduling/Tests.antt =====
-- modules/scheduling: a revision of a published month is published in its place.
use scope_is_team_management.Base.{
  ◌≡◌, refl, none, some, [], ◌∷◌, true, false, ok, Result, committed, apart, All, ◌⊎◌, Memᴰ, ◌==◌,
  ◌+◌, inner_join, paired, order_by, insert,
}
use scope_is_team_management.Shared.{Actor, super_admin, employee, password, uuid}
use scope_is_team_management.Dates.{Date}
use scope_is_team_management.Employees.Policy.{can_read_employee}
use scope_is_team_management.Leave.Repository.{proposed, published}
use scope_is_team_management.Tables.{Period, Assignment, active, running, is_proposed}
use scope_is_team_management.Scheduling.Repository.{
  SchedulingError, ScheduleStore, ScheduleEnv, period_row, employee_row, all_assignments,
  overlap_candidates, bookings_on, update_period,
}
use scope_is_team_management.Scheduling.Checks.{
  require_planner, mutate, grants, visible_employee, check_candidates, assert_no_overlap,
  validate_references, validate_each, validate_period_assignments,
}
use scope_is_team_management.Scheduling.Service.{schedule_audit, require_proposed}
use scope_is_team_management.Scheduling.Publication.{demote, affected, announce, publish}
use scope_is_team_management.Scheduling.Fitness.{IsFit}
use scope_is_team_management.Scheduling.Lifecycle.{Advances}
use scope_is_team_management.Scheduling.Planned.{IsPlanned}
use scope_is_team_management.Scheduling.Stages.{publishing, steps_advance}
use scope_is_team_management.Scheduling.Publications.{
  publish_keeps_one_publication, published-IsFit,
}
use scope_is_team_management.Scheduling.Rivals.{rivals}

abbrev boss : Actor
boss = record {
  id = 1;
  display_name = "Boss";
  role = super_admin;
  authentication_mode = password;
  session_id = uuid 0;
  session_version = 1;
  scopes = [];
}

abbrev june : Date
june = record { year = 2026; month = 6; day = 1 }

abbrev released : Period
released = record {
  id = 20;
  client_id = 7;
  planning_month = june;
  lineage_id = 30;
  revision_number = 1;
  parent_period_id = none;
  status = published;
  is_current = true;
  last_return_reason = none;
  proposed_at = none;
  published_at = some 5;
  version = 3;
  updated_at = 5;
}

abbrev revision : Period
revision = record released {
  id = 21;
  revision_number = 2;
  parent_period_id = some 20;
  status = proposed;
  is_current = false;
  version = 4;
}

abbrev shift : Assignment
shift = record {
  id = 40;
  schedule_period_id = 20;
  employee_user_id = 2;
  project_id = 8;
  location_id = 9;
  assignment_date = record june { day = 2 };
  start_time = record { hours = 8; minutes = 0 };
  end_time = record { hours = 16; minutes = 0 };
  shared_instruction = none;
  copied_from_assignment_id = none;
  version = 1;
  updated_at = 5;
  omitted_at = none;
}

abbrev copy : Assignment
copy = record shift { id = 41; schedule_period_id = 21; copied_from_assignment_id = some 40 }

abbrev tables : ScheduleStore
tables = record {
  users =
      (record {
        id = 1;
        display_name = "Boss";
        role = super_admin;
        active = true;
        session_version = 1;
      })
      ∷ (record {
        id = 2;
        display_name = "Worker";
        role = employee;
        active = true;
        session_version = 1;
      })
      ∷ [];
  staff = (record { user_id = 2; employee_code = "E2"; team = none }) ∷ [];
  grants = [];
  clients = (record { id = 7; company_name = "Client"; status = active }) ∷ [];
  projects = (record { id = 8; client_id = 7; name = "Project"; status = running }) ∷ [];
  locations = (record { id = 9; client_id = 7; name = "Place"; status = active }) ∷ [];
  project_locations = (record { project_id = 8; location_id = 9; archived_at = none }) ∷ [];
  periods = released ∷ revision ∷ [];
  assignments = shift ∷ copy ∷ [];
  skill_needs = [];
  leave = [];
  bookings = [];
  audits = [];
  notifications = [];
}

abbrev env : ScheduleEnv
env = record { now = 50; fresh = λ n. 100 + n }

abbrev released_now : Result SchedulingError (Period × ScheduleStore)
released_now = publish env boss 21 4 tables

abbrev row_of : Result SchedulingError (Period × ScheduleStore) → Period
row_of (ok (row, s)) = row
row_of _ = revision

runs : Unit {0}
unfolding publish mutate require_planner require_proposed validate_period_assignments validate_each
    validate_references visible_employee assert_no_overlap check_candidates employee_row
    all_assignments overlap_candidates bookings_on grants demote update_period announce affected
    schedule_audit inner_join paired can_read_employee order_by insert
runs = tt

released_now-eq-ok : released_now ≡ ok (row_of released_now, committed tables released_now)
unfolding runs
released_now-eq-ok = refl

released_row : Memᴰ (row_of released_now) (committed tables released_now).periods
unfolding runs
released_row = Memᴰ.tail (Memᴰ.head refl)

publish_keeps_one_publication_example : apart rivals (committed tables released_now).periods ≡ true
publish_keeps_one_publication_example =
    publish_keeps_one_publication env boss 21 4 tables (committed tables released_now)
      (row_of released_now) refl released_now-eq-ok

published-IsFit_example :
    (current : Period) × (period_row 21 tables ≡ some current)
    × (is_proposed current.status ≡ true)
    × ((current.version == 4) ≡ true)
    × All (λ a. IsFit current a tables) (all_assignments current.id tables)
published-IsFit_example =
    published-IsFit env boss 21 4 tables (committed tables released_now) (row_of released_now)
      released_now-eq-ok

steps_advance_example :
    IsPlanned tables.periods (committed tables released_now).periods
    ⊎ Advances tables.periods (row_of released_now)
steps_advance_example =
    steps_advance tables (committed tables released_now) refl
      (publishing env boss 21 4 (row_of released_now) released_now-eq-ok) (row_of released_now)
      released_row
