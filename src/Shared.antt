-- ===== src/Shared.antt =====
-- shared/types/foundation.ts and shared/errors/app-error.ts: roles, scope grants, the authenticated
-- actor, and the application errors. User ids, record ids and scope references are texts that the
-- program only compares, so they are numbers here.
use Prim.Native.String.{String}
use scope_is_team_management.Base.{ℕ, Bool, ◌&&◌, Option, none, some, List, ◌==◌}

pub data Role : Type 0 where
  super_admin admin employee : Role

pub data ScopeType : Type 0 where
  team client project location : ScopeType

pub record ScopeGrant : Type 0 where
  pub type : ScopeType
  pub reference : ℕ

pub data AuthMode : Type 0 where
  mock password : AuthMode

-- An id as a caller writes it: a text in the form of a uuid, or any other text.
pub data RecordId : Type 0 where
  uuid : ℕ → RecordId
  malformed : RecordId

pub record Actor : Type 0 where
  pub id : ℕ
  pub display_name : String
  pub role : Role
  pub session_id : RecordId
  pub session_version : ℕ
  pub scopes : List ScopeGrant
  pub authentication_mode : AuthMode

-- The error codes of app-error.ts, with `unavailable` for the 404 of the ticket service.
pub data AppError : Type 0 where
  invalid_credentials auth_unavailable unauthenticated forbidden out_of_scope : AppError
  validation session_expired mock_unavailable stale provider_not_configured : AppError
  database unavailable : AppError

-- The HTTP status that each error carries.
unfoldable pub status : AppError → ℕ
status invalid_credentials = 401
status auth_unavailable = 503
status unauthenticated = 401
status forbidden = 403
status out_of_scope = 403
status validation = 400
status session_expired = 401
status mock_unavailable = 503
status stale = 409
status provider_not_configured = 503
status database = 500
status unavailable = 404

abbrev role_code : Role → ℕ
role_code super_admin = 0
role_code admin = 1
role_code employee = 2

-- `a === b` on roles.
abbrev pub same_role : Role → Role → Bool
same_role a b = role_code a == role_code b

abbrev type_code : ScopeType → ℕ
type_code team = 0
type_code client = 1
type_code project = 2
type_code location = 3

-- `a === b` on scope types.
abbrev pub same_type : ScopeType → ScopeType → Bool
same_type a b = type_code a == type_code b

-- `grant.type === type && grant.reference === reference`
abbrev pub grants_to : ScopeType → ℕ → ScopeGrant → Bool
grants_to t r g = same_type g.type t && g.reference == r

abbrev pub uuid_of : RecordId → Option ℕ
uuid_of (uuid n) = some n
uuid_of malformed = none
