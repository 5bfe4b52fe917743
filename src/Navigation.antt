-- ===== src/Navigation.antt =====
-- modules/navigation/navigation.ts.
pub mod Laws
pub mod Tests
use Prim.Native.String.{String}
use scope_is_team_management.Base.{
  ℕ, Bool, true, false, not, Option, none, some, List, [], ◌∷◌, ◌++◌, map, any, filter, find,
  if◌then◌else◌,
}
use scope_is_team_management.Shared.{Role, employee, Actor, same_role}
use scope_is_team_management.Authorization.Capabilities.{
  ModuleKey, dashboard, tickets, employees, teams, designations, arrangements, accounts, skills,
  clients, projects, locations, schedule, map_view, leave, coverage, replacements, notifications,
  reports, audit, settings, profile, requests, Capability, view, can, same_key,
}

pub record ModuleDefinition : Type 0 where
  pub key : ModuleKey
  pub href : String
  pub label : String
  pub purpose : String
  pub phase : ℕ
  pub capability : Capability
  pub mobile_primary : Bool

abbrev entry : ModuleKey → (href label purpose : String) → ℕ → Bool → ModuleDefinition
entry key href label purpose phase mobile_primary = record {
  key = key;
  href = href;
  label = label;
  purpose = purpose;
  phase = phase;
  capability = view key;
  mobile_primary = mobile_primary;
}

-- `modules`, in the order of its keys.
unfoldable pub modules : List ModuleDefinition
modules =
    entry dashboard "/dashboard" "Home"
      "Role- and scope-aware operational summaries over the current Published schedule." 11 true
    ∷ entry tickets "/tickets" "Tickets"
        "Company workspaces, boards and tickets within your current access." 12 false
    ∷ entry employees "/employees" "People"
        "Employee records, directory, search, lifecycle, and self-service profile." 2 true
    ∷ entry teams "/teams" "Teams" "Create teams and manage their members." 2 false
    ∷ entry designations "/designations" "Job titles"
        "Manage job designations and membership separately from system roles." 2 false
    ∷ entry arrangements "/arrangements" "Assignment labels"
        "Super Admin management of descriptive arrangement labels." 2 false
    ∷ entry accounts "/accounts" "Accounts"
        "Super Admin-only account, credential, and password-reset administration. Passwords are never viewable."
        2 false
    ∷ entry skills "/skills" "Skills"
        "Controlled skills, Team-scoped planning filters, and transparent requirement warnings." 6
        false
    ∷ entry clients "/clients" "Clients" "Authorized Client records and operational relationships."
        3 false
    ∷ entry projects "/projects" "Projects"
        "Authorized Projects and their deliberately linked Locations." 3 false
    ∷ entry locations "/locations" "Locations"
        "Authorized same-client operational sites; no map or live tracking." 3 false
    ∷ entry schedule "/schedule" "Timetable"
        "Monthly Draft, Proposed, Published scheduling and My Schedule." 4 true
    ∷ entry map_view "/map" "Work map"
        "Published, selected-date static planning facts; never live tracking." 8 false
    ∷ entry leave "/leave" "Leave"
        "Annual leave requests, decisions, balances, and approved unavailability." 5 true
    ∷ entry coverage "/coverage" "Cover"
        "Request, edit, cancel and review cover from the published timetable." 7 false
    ∷ entry replacements "/replacements" "Cover requests"
        "Super Admin-reviewed replacement requests with Draft-only effects." 7 true
    ∷ entry notifications "/notifications" "Notifications"
        "Your in-application notification centre. Read, unread, and archive states stay independent."
        10 false
    ∷ entry reports "/reports" "Reports" "Authorized operational reports with bounded CSV exports."
        11 false
    ∷ entry audit "/audit" "Activity log"
        "Super Admin-only read-only audit history. Filtering and safe per-action metadata only." 10
        false
    ∷ entry settings "/settings" "Settings"
        "Foundation configuration surfaces will be introduced only when confirmed." 1 false
    ∷ entry profile "/profile" "My profile"
        "Your own work email, work phone, and professional summary." 2 true
    ∷ entry requests "/requests" "My requests"
        "The coverage and replacement requests you are named on, with participant-only discussion."
        10 false
    ∷ []

-- `workspaceHomeFor`
unfoldable pub workspace_home_for : Role → String
workspace_home_for role = if same_role role employee then "/tickets" else "/dashboard"

abbrev pub among : List ModuleKey → ModuleKey → Bool
among keys key = any (same_key key) keys

-- What a manager's entry shows.
abbrev for_manager : ModuleDefinition → ModuleDefinition
for_manager m = record m {
  label = if same_key m.key requests then "Conversations" else m.label;
  mobile_primary = among (dashboard ∷ schedule ∷ coverage ∷ map_view ∷ []) m.key;
}

-- What an employee's entry shows.
abbrev for_employee : ModuleDefinition → ModuleDefinition
for_employee m = record m {
  label =
      if same_key m.key schedule
      then "Schedule"
      else if same_key m.key leave
      then "Vacations"
      else m.label;
  mobile_primary = among (tickets ∷ schedule ∷ leave ∷ profile ∷ []) m.key;
}

abbrev pub employee_keys : List ModuleKey
employee_keys = tickets ∷ schedule ∷ leave ∷ profile ∷ dashboard ∷ notifications ∷ requests ∷ []

-- `keys.flatMap(key => authorized.filter(...))`
unfoldable pub in_key_order : List ModuleKey → List ModuleDefinition → List ModuleDefinition
in_key_order [] authorized = []
in_key_order (k ∷ ks) authorized =
    filter (λ m. same_key m.key k) authorized ++ in_key_order ks authorized

-- `navigationFor`
unfoldable pub navigation_for : Actor → List ModuleDefinition
navigation_for actor =
    let authorized = filter (λ m. can actor m.capability none) modules in
    if not (same_role actor.role employee)
    then map for_manager (filter (λ m. not (same_key m.key replacements)) authorized)
    else map for_employee (in_key_order employee_keys authorized)
