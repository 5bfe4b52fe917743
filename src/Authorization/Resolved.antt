-- ===== src/Authorization/Resolved.antt =====
-- modules/authorization/current-actor.ts: the acting user is read again from the database, and
-- every report applies one definition of "in scope".
use scope_is_team_management.Base.{
  ℕ, Bool, true, false, ◌||◌, not, Option, none, some, List, map, filter, includes, if◌then◌else◌,
}
use scope_is_team_management.Shared.{
  Role, super_admin, admin, ScopeType, team, client, project, location, ScopeGrant, same_role,
  same_type,
}

pub record CurrentActor : Type 0 where
  pub id : ℕ
  pub role : Role
  pub scopes : List ScopeGrant

-- What `foundationRepository.findActiveUser` returns.
pub record ActiveUser : Type 0 where
  pub id : ℕ
  pub role : Role

-- `resolveCurrentActor`, over the two queries of the foundation repository.
unfoldable pub resolve_current_actor :
    (find_active_user : ℕ → Option ActiveUser) (active_scope_grants : ℕ → List ScopeGrant)
    → ℕ
    → Option CurrentActor
resolve_current_actor find_active_user active_scope_grants id = elim (find_active_user id) [
  | none ↦ none
  | some user ↦
      some (record { id = user.id; role = user.role; scopes = active_scope_grants user.id })
]

pub record ResolvedScope : Type 0 where
  pub role : Role
  pub teams : List ℕ
  pub client_ids : List ℕ
  pub project_ids : List ℕ
  pub location_ids : List ℕ
  pub is_global : Bool

abbrev pub by_type : ScopeType → List ScopeGrant → List ℕ
by_type t scopes = map (λ g. g.reference) (filter (λ g. same_type g.type t) scopes)

unfoldable pub resolve_scope : CurrentActor → ResolvedScope
resolve_scope actor = record {
  role = actor.role;
  is_global = same_role actor.role super_admin;
  teams = by_type team actor.scopes;
  client_ids = by_type client actor.scopes;
  project_ids = by_type project actor.scopes;
  location_ids = by_type location actor.scopes;
}

abbrev pub includes_option : Option ℕ → List ℕ → Bool
includes_option none xs = false
includes_option (some a) xs = includes a xs

-- `employeeInScope`
unfoldable pub employee_in_scope : ResolvedScope → Option ℕ → Bool
employee_in_scope scope home =
    if scope.is_global
    then true
    else if not (same_role scope.role admin)
    then false
    else includes_option home scope.teams

pub record AssignmentTarget : Type 0 where
  pub client_id : ℕ
  pub project_id : ℕ
  pub location_id : ℕ

-- `assignmentInScope`
unfoldable pub assignment_in_scope : ResolvedScope → AssignmentTarget → Bool
assignment_in_scope scope a =
    if scope.is_global
    then true
    else if not (same_role scope.role admin)
    then false
    else (includes a.client_id scope.client_ids
        || (includes a.project_id scope.project_ids || includes a.location_id scope.location_ids))
