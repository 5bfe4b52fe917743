-- ===== src/Authorization/Tests.antt =====
-- modules/authorization: examples.
use scope_is_team_management.Base.{◌≡◌, ◌↔◌, ◌⊎◌, true, false, some, [], ◌∷◌, any, ok, err, arith}
use scope_is_team_management.Shared.{
  Actor, super_admin, admin, password, uuid, ScopeGrant, team, client, project, location,
  out_of_scope, grants_to,
}
use scope_is_team_management.Authorization.Capabilities.{
  tickets, view, can, has_role_capability, require_capability,
}
use scope_is_team_management.Authorization.Operational.{
  OperationalScopeRow, on_client, has_client_management_scope, has_operational_target_scope,
}
use scope_is_team_management.Authorization.Resolved.{
  CurrentActor, AssignmentTarget, resolve_scope, employee_in_scope, assignment_in_scope,
}
use scope_is_team_management.Authorization.Laws.{
  require_capability-ok_iff, require_capability-out_of_scope_iff, client_management-eq-operational,
  employee_in_scope-eq-can_read, assignment_in_scope_iff,
}
use scope_is_team_management.Employees.Policy.{EmployeeAccessRecord, can_read_employee}
use scope_is_team_management.Shared.{employee}

abbrev lead : Actor
lead = record {
  id = 2;
  display_name = "Lead";
  role = admin;
  session_id = uuid 1;
  session_version = 1;
  scopes = record { type = team; reference = 8 } ∷ record { type = client; reference = 4 } ∷ [];
  authentication_mode = password;
}

abbrev elsewhere : ScopeGrant
elsewhere = record { type = team; reference = 9 }

require_capability-ok_iff_example :
    (require_capability lead (view tickets) (some elsewhere) ≡ ok lead)
    ↔ (can lead (view tickets) (some elsewhere) ≡ true)
require_capability-ok_iff_example = require_capability-ok_iff lead (view tickets) (some elsewhere)

require_capability-out_of_scope_iff_example :
    (require_capability lead (view tickets) (some elsewhere) ≡ err out_of_scope) ↔ (
      (admin ≡ admin)
      × (has_role_capability admin (view tickets) ≡ true)
      × (any (grants_to team 9) lead.scopes ≡ false))
require_capability-out_of_scope_iff_example =
    require_capability-out_of_scope_iff lead (view tickets) elsewhere

abbrev on_four : OperationalScopeRow
on_four = record { scope_type = client; scope_reference = 4; not_inactive = true }

client_management-eq-operational_example :
    has_client_management_scope admin (on_four ∷ []) 4
    ≡ has_operational_target_scope admin (on_four ∷ []) on_client 4 4
client_management-eq-operational_example = client_management-eq-operational admin (on_four ∷ []) 4

abbrev worker : EmployeeAccessRecord
worker = record { user_id = 5; team = some 8; role = employee }

employee_in_scope-eq-can_read_example :
    employee_in_scope
      (resolve_scope (record { id = 2; role = admin; scopes = lead.scopes }))
      (some 8)
    ≡ can_read_employee lead worker
employee_in_scope-eq-can_read_example =
    employee_in_scope-eq-can_read lead worker (λ e. omega (arith, e))

abbrev reader : CurrentActor
reader = record { id = 2; role = admin; scopes = lead.scopes }

abbrev visit : AssignmentTarget
visit = record { client_id = 4; project_id = 1; location_id = 1 }

assignment_in_scope_iff_example : (assignment_in_scope (resolve_scope reader) visit ≡ true) ↔ (
    (admin ≡ super_admin)
    ⊎ ((admin ≡ admin)
        × ((any (grants_to client 4) reader.scopes ≡ true)
            ⊎ (any (grants_to project 1) reader.scopes ≡ true)
            ⊎ (any (grants_to location 1) reader.scopes ≡ true))))
assignment_in_scope_iff_example = assignment_in_scope_iff reader visit
