-- ===== src/Authorization/Operational.antt =====
-- modules/authorization/operational-scope.ts: the grants of an Admin on clients, projects and
-- locations. A grant row whose `active` is absent counts as active.
use scope_is_team_management.Base.{ℕ, Bool, true, false, ◌&&◌, ◌||◌, List, any, ◌==◌, if◌then◌else◌}
use scope_is_team_management.Shared.{
  Role, super_admin, admin, ScopeType, client, project, location, same_role, same_type,
}

pub record OperationalScopeRow : Type 0 where
  pub scope_type : ScopeType
  pub scope_reference : ℕ
  -- `active !== false`
  pub not_inactive : Bool

-- The target types of `hasOperationalTargetScope`.
pub data TargetType : Type 0 where
  on_client on_project on_location : TargetType

abbrev is_project : TargetType → Bool
is_project on_project = true
is_project _ = false

abbrev is_location : TargetType → Bool
is_location on_location = true
is_location _ = false

abbrev pub row_grants : ScopeType → ℕ → OperationalScopeRow → Bool
row_grants t r grant = same_type grant.scope_type t && grant.scope_reference == r

abbrev pub reaches_target : TargetType → ℕ → ℕ → OperationalScopeRow → Bool
reaches_target target_type target_id client_id grant =
    grant.not_inactive
    && (row_grants client client_id grant
        || ((is_project target_type && row_grants project target_id grant)
            || (is_location target_type && row_grants location target_id grant)))

-- `hasOperationalTargetScope`
unfoldable pub has_operational_target_scope :
    Role → List OperationalScopeRow → TargetType → ℕ → ℕ → Bool
has_operational_target_scope role grants target_type target_id client_id =
    if same_role role super_admin
    then true
    else (same_role role admin && any (reaches_target target_type target_id client_id) grants)

-- `hasClientManagementScope`
unfoldable pub has_client_management_scope : Role → List OperationalScopeRow → ℕ → Bool
has_client_management_scope role grants client_id =
    same_role role super_admin
    || (same_role role admin && any (λ g. g.not_inactive && row_grants client client_id g) grants)
