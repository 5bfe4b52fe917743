-- ===== src/Employees/Policy.antt =====
-- modules/employees/employee-policy.ts: who reads an employee record and a management note.
use scope_is_team_management.Base.{
  ℕ, Bool, true, false, ◌&&◌, ◌||◌, not, Option, none, some, any, ◌==◌, if◌then◌else◌, Result, ok,
  err,
}
use scope_is_team_management.Shared.{
  Role, super_admin, admin, employee, team, Actor, same_role, grants_to,
}

pub record EmployeeAccessRecord : Type 0 where
  pub user_id : ℕ
  pub team : Option ℕ
  pub role : Role

pub data NoteVisibility : Type 0 where
  private_to_author shared_upward : NoteVisibility

-- The codes of `EmployeeDomainError` that the policy throws, and `errors.forbidden()`.
pub data PolicyError : Type 0 where
  domain_out_of_scope domain_forbidden app_forbidden : PolicyError

-- `team !== null && scopes.some(scope => scope.type === "TEAM" && scope.reference === team)`
abbrev pub has_team_grant : Actor → Option ℕ → Bool
has_team_grant actor none = false
has_team_grant actor (some t) = any (grants_to team t) actor.scopes

-- `canReadEmployee`
unfoldable pub can_read_employee : Actor → EmployeeAccessRecord → Bool
can_read_employee actor r =
    if same_role actor.role super_admin || actor.id == r.user_id
    then true
    else (same_role actor.role admin && has_team_grant actor r.team)

-- `requireEmployeeRead`
unfoldable pub require_employee_read : Actor → EmployeeAccessRecord → Result PolicyError (Unit {0})
require_employee_read actor r =
    if not (can_read_employee actor r)
    then err (if same_role actor.role admin then domain_out_of_scope else domain_forbidden)
    else ok tt

-- `canEditOwnSafeProfile`
unfoldable pub can_edit_own_safe_profile : Actor → ℕ → Bool
can_edit_own_safe_profile actor user_id = actor.id == user_id

-- `requireEmployeeAdministration`
unfoldable pub require_employee_administration : Actor → Result PolicyError (Unit {0})
require_employee_administration actor =
    if not (same_role actor.role super_admin) then err app_forbidden else ok tt

-- `requireSuperAdmin`
unfoldable pub require_super_admin : Actor → Result PolicyError (Unit {0})
require_super_admin actor =
    if not (same_role actor.role super_admin) then err domain_forbidden else ok tt

-- `requireOwnEditableProfile`
unfoldable pub require_own_editable_profile : Actor → ℕ → Result PolicyError (Unit {0})
require_own_editable_profile actor user_id =
    if not (actor.id == user_id) then err domain_forbidden else ok tt

-- `canCreateManagementNote`
unfoldable pub can_create_management_note : Actor → EmployeeAccessRecord → Bool
can_create_management_note actor subject =
    if same_role actor.role super_admin
    then not (same_role subject.role super_admin)
    else (same_role actor.role admin
        && (same_role subject.role employee && can_read_employee actor subject))

pub record ManagementNote : Type 0 where
  pub author_user_id : ℕ
  pub subject_user_id : ℕ
  pub author_role : Role
  pub visibility : NoteVisibility
  pub subject : EmployeeAccessRecord

abbrev is_shared_upward : NoteVisibility → Bool
is_shared_upward shared_upward = true
is_shared_upward private_to_author = false

-- `canReadManagementNote`
unfoldable pub can_read_management_note : Actor → ManagementNote → Bool
can_read_management_note actor note =
    if actor.id == note.subject_user_id
    then false
    else if same_role actor.role employee
    then false
    else if not (can_read_employee actor note.subject)
    then false
    else if actor.id == note.author_user_id
    then true
    else if not (is_shared_upward note.visibility)
    then false
    else same_role actor.role super_admin
