-- ===== src/Authorization/Laws.antt =====
-- modules/authorization: who passes each check, and that the checks of different modules agree.
use scope_is_team_management.Base.{
  ℕ, ◌≡◌, ◌↔◌, ◌≢◌, true, false, Option, none, some, List, [], ◌∷◌, arith, ok, err, any, includes,
  Option-cases, inl, inr, any_congr, any_mono, ◌&&◌, ◌⊎◌,
}
use scope_is_team_management.Shared.{
  Actor, Role, super_admin, admin, ScopeGrant, ScopeType, team, client, project, location,
  out_of_scope, grants_to,
}
use scope_is_team_management.Authorization.Capabilities.{
  Capability, has_role_capability, can, require_capability,
}
use scope_is_team_management.Authorization.Operational.{
  on_client, has_operational_target_scope, has_client_management_scope, TargetType,
  OperationalScopeRow, row_grants, reaches_target,
}
use scope_is_team_management.Authorization.Resolved.{
  CurrentActor, resolve_scope, by_type, employee_in_scope, assignment_in_scope, AssignmentTarget,
}
use scope_is_team_management.Employees.Policy.{EmployeeAccessRecord, can_read_employee}

-- `requireCapability` lets an actor through exactly when `can` answers true, and hands that actor on.
pub require_capability-ok_iff :
    (actor : Actor) (c : Capability) (r : Option ScopeGrant)
    → (require_capability actor c r ≡ ok actor) ↔ (can actor c r ≡ true)
unfolding require_capability can
require_capability-ok_iff actor c none = ground arith
require_capability-ok_iff actor c (some scope) = ground arith

-- With a resource scope, the error says out of scope exactly to an Admin who has the capability and
-- lacks the grant.
pub require_capability-out_of_scope_iff :
    (actor : Actor) (c : Capability) (scope : ScopeGrant)
    → (require_capability actor c (some scope) ≡ err out_of_scope) ↔ (
        (actor.role ≡ admin)
        × (has_role_capability actor.role c ≡ true)
        × (any (grants_to scope.type scope.reference) actor.scopes ≡ false))
unfolding require_capability
require_capability-out_of_scope_iff actor c scope = ground arith

-- Management of a client is operational scope on that client, neither more nor less.
pub client_management-eq-operational :
    (role : Role) (grants : List OperationalScopeRow) (client_id : ℕ)
    → has_client_management_scope role grants client_id
      ≡ has_operational_target_scope role grants on_client client_id client_id
unfolding has_client_management_scope has_operational_target_scope
client_management-eq-operational role grants client_id = ground (
  arith,
  any_congr (λ (g : OperationalScopeRow). g.not_inactive && row_grants client client_id g)
      (reaches_target on_client client_id client_id) (λ g. ground arith) grants,
)

-- Management of a client reaches every project and location of the client.
client_management-reaches :
    (role : Role) (grants : List OperationalScopeRow) (t : TargetType) (target_id client_id : ℕ)
    → has_client_management_scope role grants client_id ≡ true
    → has_operational_target_scope role grants t target_id client_id ≡ true
unfolding has_client_management_scope has_operational_target_scope
client_management-reaches role grants t target_id client_id h = ground (
  arith,
  any_mono (λ (g : OperationalScopeRow). g.not_inactive && row_grants client client_id g)
      (reaches_target t target_id client_id) (λ g passes. ground arith) grants,
)

includes-by_type :
    (t : ScopeType) (r : ℕ) (scopes : List ScopeGrant)
    → includes r (by_type t scopes) ≡ any (grants_to t r) scopes
includes-by_type t r [] = ground arith
includes-by_type t r (g ∷ scopes) = ground (arith, includes-by_type t r scopes)

-- The report rule for employees agrees with `canReadEmployee` for every record but the actor's own.
pub employee_in_scope-eq-can_read :
    (actor : Actor) (r : EmployeeAccessRecord)
    → actor.id ≢ r.user_id
    → employee_in_scope
        (resolve_scope (record { id = actor.id; role = actor.role; scopes = actor.scopes }))
        r.team
      ≡ can_read_employee actor r
unfolding employee_in_scope resolve_scope can_read_employee
employee_in_scope-eq-can_read actor r other = elim (Option-cases r.team) [
  | inl none_team ↦ rw none_team (ground arith)
  | inr (t, is_team) ↦ rw is_team (ground (arith, includes-by_type team t actor.scopes))
]

-- An assignment is in a report's scope exactly when the actor is a Super Admin, or an Admin with a
-- grant on its client, its project or its location.
pub assignment_in_scope_iff :
    (actor : CurrentActor) (a : AssignmentTarget)
    → (assignment_in_scope (resolve_scope actor) a ≡ true) ↔ (
        (actor.role ≡ super_admin)
        ⊎ ((actor.role ≡ admin)
            × ((any (grants_to client a.client_id) actor.scopes ≡ true)
                ⊎ (any (grants_to project a.project_id) actor.scopes ≡ true)
                ⊎ (any (grants_to location a.location_id) actor.scopes ≡ true))))
unfolding assignment_in_scope resolve_scope
assignment_in_scope_iff actor a = ground (
  arith,
  includes-by_type client a.client_id actor.scopes,
  includes-by_type project a.project_id actor.scopes,
  includes-by_type location a.location_id actor.scopes,
)
