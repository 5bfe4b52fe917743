-- ===== src/Audit.antt =====
-- modules/audit/audit-service.ts: an event is appended with its metadata, from which keys that may
-- hold secrets or private text are removed.
use Prim.Native.String.{String}
use text.Mathlib.Text.{◌==◌ as str_eq}
pub mod Laws
pub mod Actions
pub mod Presentation
pub mod Shown
pub mod Tests
use scope_is_team_management.Base.{
  ℕ, ℤ, Bool, true, false, ◌&&◌, ◌||◌, not, Option, none, some, List, [], ◌∷◌, ◌++◌, map, any,
  filter, ◌==◌, leb, if◌then◌else◌, ◌+◌, Text, codes, same_text,
}
use scope_is_team_management.Shared.{Role, AuthMode, mock, Actor}

-- A metadata value that the services write.
pub data MetaValue : Type 0 where
  flag : Bool → MetaValue
  number : ℕ → MetaValue
  words : Text → MetaValue
  balances : List (List (Text × ℤ)) → MetaValue

-- The id of what an event is about: a record's, a fixed word, or a text.
pub data TargetId : Type 0 where
  of_record : ℕ → TargetId
  named : String → TargetId
  spelled : Text → TargetId

abbrev pub Metadata : Type 0
Metadata = List (Text × MetaValue)

abbrev pub blocked_metadata_keys : List Text
blocked_metadata_keys =
    codes "token"
    ∷ codes "session"
    ∷ codes "cookie"
    ∷ codes "password"
    ∷ codes "reason"
    ∷ codes "address"
    ∷ codes "coordinates"
    ∷ codes "authorization"
    ∷ []

-- `toLowerCase` on a code unit, as far as it can give an ASCII letter: A to Z, and the Kelvin sign.
unfoldable pub lower_unit : ℕ → ℕ
lower_unit c = if leb 65 c && leb c 90 then c + 32 else if c == 8490 then 107 else c

abbrev pub is_blocked : Text → Bool
is_blocked key = any (same_text (map lower_unit key)) blocked_metadata_keys

abbrev pub refusal_codes : List Text
refusal_codes = codes "forbidden" ∷ codes "out_of_scope" ∷ codes "too_large" ∷ []

abbrev pub is_refusal_code : MetaValue → Bool
is_refusal_code (words v) = any (same_text v) refusal_codes
is_refusal_code _ = false

-- The fixed outcome code of a refused export.
unfoldable pub is_refusal_reason : String → Text × MetaValue → Bool
is_refusal_reason action (key, value) =
    str_eq action "report.export.refused"
    && (same_text key (codes "reason") && is_refusal_code value)

-- `sanitizeAuditMetadata`
unfoldable pub sanitize_audit_metadata : Metadata → String → Metadata
unfolding is_refusal_reason
sanitize_audit_metadata input action =
    filter (λ e. is_refusal_reason action e || not (is_blocked e.0)) input

pub record AuditRow : Type 0 where
  pub actor_user_id : Option ℕ
  pub actor_role : Option Role
  pub authentication_mode : AuthMode
  pub action : String
  pub target_type : String
  pub target_id : Option TargetId
  pub metadata : Metadata

pub record AuditEvent : Type 0 where
  pub actor : Option Actor
  pub action : String
  pub target_type : String
  pub target_id : Option TargetId
  pub metadata : Metadata

abbrev actor_id : Option Actor → Option ℕ
actor_id none = none
actor_id (some a) = some a.id

abbrev actor_role : Option Actor → Option Role
actor_role none = none
actor_role (some a) = some a.role

abbrev mode_of : Option Actor → AuthMode
mode_of none = mock
mode_of (some a) = a.authentication_mode

-- The row that `writeAuditEvent` inserts.
unfoldable pub audit_row : AuditEvent → AuditRow
audit_row e = record {
  actor_user_id = actor_id e.actor;
  actor_role = actor_role e.actor;
  authentication_mode = mode_of e.actor;
  action = e.action;
  target_type = e.target_type;
  target_id = e.target_id;
  metadata = sanitize_audit_metadata e.metadata e.action;
}

-- `writeAuditEvent`, on the table of audit events.
unfoldable pub write_audit_event : AuditEvent → List AuditRow → List AuditRow
write_audit_event e rows = rows ++ audit_row e ∷ []
