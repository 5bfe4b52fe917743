-- ===== src/Authorization/Capabilities.antt =====
-- modules/authorization/capabilities.ts and authorization-service.ts.
use scope_is_team_management.Base.{
  ℕ, Bool, true, false, ◌&&◌, ◌||◌, not, Option, none, some, List, [], ◌∷◌, ◌++◌, map, any, ◌==◌,
  if◌then◌else◌, is_some, Result, ok, err,
}
use scope_is_team_management.Shared.{
  Role, super_admin, admin, employee, ScopeGrant, Actor, AppError, forbidden, out_of_scope,
  same_role, grants_to,
}

-- `moduleKeys`
pub data ModuleKey : Type 0 where
  dashboard tickets employees teams designations arrangements accounts skills : ModuleKey
  clients projects locations schedule map_view leave coverage replacements : ModuleKey
  notifications reports audit settings profile requests : ModuleKey

pub data Capability : Type 0 where
  view : ModuleKey → Capability
  scope_probe : Capability

abbrev key_code : ModuleKey → ℕ
key_code dashboard = 0
key_code tickets = 1
key_code employees = 2
key_code teams = 3
key_code designations = 4
key_code arrangements = 5
key_code accounts = 6
key_code skills = 7
key_code clients = 8
key_code projects = 9
key_code locations = 10
key_code schedule = 11
key_code map_view = 12
key_code leave = 13
key_code coverage = 14
key_code replacements = 15
key_code notifications = 16
key_code reports = 17
key_code audit = 18
key_code settings = 19
key_code profile = 20
key_code requests = 21

-- `a === b` on module keys.
abbrev pub same_key : ModuleKey → ModuleKey → Bool
same_key a b = key_code a == key_code b

abbrev same_capability : Capability → Capability → Bool
same_capability (view a) (view b) = same_key a b
same_capability (view a) scope_probe = false
same_capability scope_probe (view b) = false
same_capability scope_probe scope_probe = true

-- `moduleKeys`, in the order of the source.
abbrev pub module_keys : List ModuleKey
module_keys =
    dashboard ∷ tickets ∷ employees ∷ teams ∷ designations ∷ arrangements ∷ accounts ∷ skills
    ∷ clients ∷ projects ∷ locations ∷ schedule ∷ map_view ∷ leave ∷ coverage ∷ replacements
    ∷ notifications ∷ reports ∷ audit ∷ settings ∷ profile ∷ requests ∷ []

-- `roleCapabilities`
unfoldable pub role_capabilities : Role → List Capability
role_capabilities super_admin = map view module_keys ++ scope_probe ∷ []
role_capabilities admin =
    map view (
      dashboard ∷ tickets ∷ employees ∷ skills ∷ clients ∷ projects ∷ locations ∷ schedule
      ∷ map_view ∷ coverage ∷ replacements ∷ notifications ∷ profile ∷ requests ∷ [])
    ++ scope_probe ∷ []
role_capabilities employee =
    map view
      (dashboard ∷ tickets ∷ skills ∷ schedule ∷ leave ∷ profile ∷ notifications ∷ requests ∷ [])

unfoldable pub has_role_capability : Role → Capability → Bool
unfolding role_capabilities
has_role_capability role capability = any (same_capability capability) (role_capabilities role)

abbrev pub in_scopes : Actor → ScopeGrant → Bool
in_scopes actor scope = any (grants_to scope.type scope.reference) actor.scopes

abbrev any_scope : Option ScopeGrant → Actor → Bool
any_scope none actor = false
any_scope (some scope) actor = in_scopes actor scope

-- `can`
unfoldable pub can : Actor → Capability → Option ScopeGrant → Bool
can actor capability resource =
    if not (has_role_capability actor.role capability)
    then false
    else if not (is_some resource) || same_role actor.role super_admin
    then true
    else if not (same_role actor.role admin)
    then false
    else any_scope resource actor

-- The two guards of `requireCapability` that look at the resource scope.
check_scope : Actor → Option ScopeGrant → Result AppError Actor
check_scope actor none = ok actor
check_scope actor (some scope) =
    if same_role actor.role admin && not (in_scopes actor scope)
    then err out_of_scope
    else if same_role actor.role employee
    then err forbidden
    else ok actor

-- `requireCapability`
unfoldable pub require_capability : Actor → Capability → Option ScopeGrant → Result AppError Actor
unfolding check_scope
require_capability actor capability resource =
    if not (has_role_capability actor.role capability)
    then err forbidden
    else check_scope actor resource
