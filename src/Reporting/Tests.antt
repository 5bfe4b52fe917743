-- ===== src/Reporting/Tests.antt =====
-- modules/reporting: a store with one published assignment, and the reports over it.
use Prim.Native.String.{String}
use scope_is_team_management.Base.{
  Bool, true, false, ◌≡◌, ◌≢◌, ◌≤◌, refl, none, some, Option, List, [], ◌∷◌, Memᴰ, ok, arith,
  length, codes,
}
use scope_is_team_management.Shared.{Actor, super_admin, employee, password, uuid}
use scope_is_team_management.Audit.{AuditEvent, AuditRow, write_audit_event}
use scope_is_team_management.Authorization.Resolved.{
  ResolvedScope, CurrentActor, resolve_scope, resolve_current_actor,
}
use scope_is_team_management.Dates.{Date, IsDate, month_length, day_number}
use scope_is_team_management.Tickets.Types.{UserRow}
use scope_is_team_management.Leave.Repository.{published}
use scope_is_team_management.Tables.{Period, Assignment, active, running}
use scope_is_team_management.Reporting.Contracts.{published_allocation, approved_leave}
use scope_is_team_management.Reporting.Definitions.{reports}
use scope_is_team_management.Reporting.Windows.{DateWindow}
use scope_is_team_management.Reporting.Requests.{ReportQuery, WindowRequest, resolve_request}
use scope_is_team_management.Reporting.Filters.{ReportStore, AssignmentFilters}
use scope_is_team_management.Reporting.Queries.{
  AssignmentEntry, EmployeeEntry, published_assignments, unallocated_employees, assignment_query,
  published_assignment_count,
}
use scope_is_team_management.Reporting.Cells.{Built}
use scope_is_team_management.Reporting.Builders.{ResolvedRequest}
use scope_is_team_management.Reporting.Service.{
  ExportPayload, build, export_payload, current_actor, find_active_user, active_scope_grants,
}
use scope_is_team_management.Reporting.Exports.{generate}
use scope_is_team_management.Reporting.Defaults.{page_query, default_request_accepted}
use scope_is_team_management.Reporting.Accepted.{IsBounded, resolve_request-IsBounded}
use scope_is_team_management.Reporting.Scoped.{
  IsPublishedIn, published_rows_are_in_scope, allocated-unallocated_disjoint,
}
use scope_is_team_management.Reporting.Counts.{IsReferential, published_total-eq-rows}
use scope_is_team_management.Reporting.Exported.{export_request, generate_is_authorized}
use scope_is_team_management.Reporting.Shapes.{FitsColumns, build-FitsColumns}
use scope_is_team_management.Base.{
  page_of, order_by, insert, take, drop, inner_join, paired, same_text,
}
use scope_is_team_management.Reporting.Queries.{
  assignment_entries, planned, assignment_where, employed, allocated,
}
use scope_is_team_management.Reporting.Filters.{
  assignment_scope, selected_assignments, employee_scope, published_window,
}
use scope_is_team_management.Reporting.Requests.{
  parse_month, assert_supported_report_filters, fallback_window,
}
use scope_is_team_management.Reporting.Windows.{
  month_bounds, is_planning_month, assert_window, is_business_date, parse_day, inclusive_day_count,
  full_business_day, current_dubai_month,
}
use scope_is_team_management.Dates.{is_leap, days_before_year, days_in_months}
use scope_is_team_management.Dates.Civil.{date_of, year_from, month_from}
use scope_is_team_management.Reporting.Definitions.{
  report_definition, key_of, key_text, report_keys, can_view_report, can_export_report,
}
use scope_is_team_management.Reporting.Contracts.{
  approved_leave_report, published_allocation_report, ReportDefinition,
}
use scope_is_team_management.Reporting.Exports.{settle, finish, export_event}
use scope_is_team_management.Reporting.Service.{authorize}
use scope_is_team_management.Reporting.Builders.{build_published_allocation, assignment_row}
use scope_is_team_management.Tables.{is_published}

abbrev by_place : String → String → Bool
by_place a b = false

abbrev today : Date
today = record { year = 2026; month = 11; day = 25 }

today-IsDate : IsDate today
unfolding month_length
today-IsDate = (omega arith, omega arith, omega arith, omega arith)

abbrev november : DateWindow
november = record {
  from = record { year = 2026; month = 11; day = 1 };
  to = record { year = 2026; month = 11; day = 30 };
}

abbrev head_office : UserRow
head_office = record {
  id = 1;
  display_name = "Amal";
  role = super_admin;
  active = true;
  session_version = 1;
}

abbrev worker : UserRow
worker = record {
  id = 2;
  display_name = "Badr";
  role = employee;
  active = true;
  session_version = 1;
}

abbrev plan : Period
plan = record {
  id = 7;
  client_id = 3;
  planning_month = november.from;
  lineage_id = 7;
  revision_number = 1;
  parent_period_id = none;
  status = published;
  is_current = true;
  last_return_reason = none;
  proposed_at = none;
  published_at = none;
  version = 3;
  updated_at = 0;
}

abbrev shift : Assignment
shift = record {
  id = 9;
  schedule_period_id = 7;
  employee_user_id = 2;
  project_id = 4;
  location_id = 5;
  assignment_date = today;
  start_time = record { hours = 8; minutes = 0 };
  end_time = record { hours = 16; minutes = 30 };
  shared_instruction = none;
  copied_from_assignment_id = none;
  version = 1;
  updated_at = 0;
  omitted_at = none;
}

abbrev store : ReportStore
store = record {
  users = head_office ∷ worker ∷ [];
  grants = [];
  staff =
      record { user_id = 1; employee_code = "E1"; team = none }
      ∷ record { user_id = 2; employee_code = "E2"; team = some 6 }
      ∷ [];
  clients = record { id = 3; company_name = "Client"; status = active } ∷ [];
  projects = record { id = 4; client_id = 3; name = "Project"; status = running } ∷ [];
  locations = record { id = 5; client_id = 3; name = "Site"; status = active } ∷ [];
  periods = plan ∷ [];
  assignments = shift ∷ [];
  leave = [];
  allowance = none;
  replacements = [];
  skills = [];
  employee_skills = [];
  staffing = [];
  skill_needs = [];
  evidence = [];
}

abbrev everyone : ResolvedScope
everyone = record {
  role = super_admin;
  teams = [];
  client_ids = [];
  project_ids = [];
  location_ids = [];
  is_global = true;
}

abbrev no_filters : AssignmentFilters
no_filters = record { client_id = none; project_id = none; location_id = none }

abbrev entry : AssignmentEntry
entry = record {
  id = 9;
  assignment_date = today;
  start_time = record { hours = 8; minutes = 0 };
  end_time = record { hours = 16; minutes = 30 };
  employee_user_id = 2;
  employee_name = "Badr";
  client_name = "Client";
  project_name = "Project";
  location_name = "Site";
  planning_month = november.from;
  period_status = published;
  revision_number = 1;
}

abbrev idle : EmployeeEntry
idle = record { id = 1; display_name = "Amal"; team = none; employee_code = "E1" }

default_request_accepted_example :
    (r : WindowRequest) × (resolve_request today approved_leave (page_query (some 2)) store
      ≡ ok (r, store))
default_request_accepted_example =
    default_request_accepted approved_leave today (some 2) store today-IsDate

-- The request of that page.
abbrev asked : WindowRequest
asked = record {
  window = november;
  page = 2;
  offset = 100;
  limit = 100;
  month = record { year = 2026; month = 11 };
  conflict = record {
    date = today;
    start = record { hours = 0; minutes = 0 };
    end = record { hours = 24; minutes = 0 };
  };
  query = page_query (some 2);
}

runs : Unit {0}
unfolding published_assignments unallocated_employees page_of order_by insert take drop
    assignment_query assignment_entries inner_join paired planned assignment_where assignment_scope
    selected_assignments employed employee_scope allocated resolve_request parse_month
    assert_supported_report_filters fallback_window month_bounds is_planning_month month_length
    is_leap assert_window is_business_date parse_day date_of year_from month_from day_number
    days_before_year days_in_months inclusive_day_count full_business_day current_dubai_month
    reports approved_leave_report published_assignment_count published_window generate settle finish
    export_payload authorize report_definition key_of key_text report_keys same_text can_view_report
    can_export_report published_allocation_report build build_published_allocation assignment_row
    resolve_scope resolve_current_actor find_active_user active_scope_grants
runs = tt

one_row : published_assignments by_place everyone november 100 0 no_filters store ≡ entry ∷ []
unfolding runs
one_row = refl

one_idle : unallocated_employees by_place everyone november 100 0 store ≡ idle ∷ []
unfolding runs
one_idle = refl

asked_for : resolve_request today approved_leave (page_query (some 2)) store ≡ ok (asked, store)
unfolding runs
asked_for = refl

resolve_request-IsBounded_example : IsBounded approved_leave asked
resolve_request-IsBounded_example =
    resolve_request-IsBounded today approved_leave (page_query (some 2)) asked store store asked_for

in_report : Memᴰ entry (published_assignments by_place everyone november 100 0 no_filters store)
in_report = rw one_row (Memᴰ.head refl)

in_rest : Memᴰ idle (unallocated_employees by_place everyone november 100 0 store)
in_rest = rw one_idle (Memᴰ.head refl)

published_rows_are_in_scope_example :
    (a : Assignment) × (p : Period) × Memᴰ a store.assignments
    × Memᴰ p store.periods
    × (p.id ≡ a.schedule_period_id)
    × (a.id ≡ 9)
    × (a.employee_user_id ≡ 2)
    × IsPublishedIn everyone november a p
published_rows_are_in_scope_example =
    published_rows_are_in_scope by_place everyone november 100 0 no_filters store entry in_report

allocated-unallocated_disjoint_example : entry.employee_user_id ≢ idle.id
allocated-unallocated_disjoint_example =
    allocated-unallocated_disjoint by_place everyone november 100 0 100 0 no_filters store entry
      idle in_report in_rest

store-IsReferential : IsReferential store
store-IsReferential = (
  λ a m. elim m [ Memᴰ.head e ↦ rw e (refl, refl, refl) | Memᴰ.tail n ↦ elim n [ ] ],
  λ p m. elim m [ Memᴰ.head e ↦ rw e refl | Memᴰ.tail n ↦ elim n [ ] ],
)

published_total-eq-rows_example :
    length (assignment_query by_place everyone is_published november true no_filters store)
    ≡ published_assignment_count everyone november no_filters store
published_total-eq-rows_example =
    published_total-eq-rows by_place everyone november no_filters store store-IsReferential

-- An audit history without events.
abbrev no_history : ResolvedRequest → Built
no_history r = record { columns = []; rows = []; total = some 0; unavailable = false }

abbrev request : ResolvedRequest
request = record {
  actor_id = 1;
  window = november;
  page = 1;
  offset = 0;
  limit = 5001;
  conflict = asked.conflict;
  query = page_query none;
  scope = everyone;
  today = today;
}

build-FitsColumns_example :
    FitsColumns (build by_place no_history published_allocation request store)
build-FitsColumns_example =
    build-FitsColumns by_place no_history (λ r. tt) published_allocation request store

abbrev writes : AuditEvent → List AuditRow → Option (List AuditRow)
writes e rows = some (write_audit_event e rows)

abbrev amal : Actor
amal = record {
  id = 1;
  display_name = "Amal";
  role = super_admin;
  session_id = uuid 1;
  session_version = 1;
  scopes = [];
  authentication_mode = password;
}

abbrev query : ReportQuery
query = page_query none

abbrev file : ExportPayload
file = record {
  key = published_allocation;
  columns = (build by_place no_history published_allocation request store).columns;
  rows = (build by_place no_history published_allocation request store).rows;
  window = november;
}

abbrev logged : List AuditRow
logged = write_audit_event (export_event amal published_allocation_report file) []

exported :
    generate by_place no_history writes amal today
      (codes "published-allocation")
      none
      query
      store
      []
    ≡ (ok file, logged)
unfolding runs
exported = refl

generate_is_authorized_example :
    (current : CurrentActor) × (d : ReportDefinition) × (w : WindowRequest) × (current_actor 1 store
      ≡ some current)
    × (report_definition (codes "published-allocation") ≡ some d)
    × (can_export_report current.role d.key ≡ true)
    × (resolve_request today d.key query store ≡ ok (w, store))
    × (file.rows
        ≡ (build by_place no_history d.key
            (export_request 1 (resolve_scope current) today w 9000)
            store).rows)
    × (length file.rows ≤ 5000)
    × (writes (export_event amal d file) [] ≡ some logged)
generate_is_authorized_example =
    generate_is_authorized by_place no_history writes amal today (codes "published-allocation") none
      query store [] logged file (λ r n h w. refl) 9000 (omega arith) exported
