-- ===== src/Audit/Presentation.antt =====
-- modules/audit/presentation.ts: what the audit history shows of an event's metadata.
use Prim.Native.String.{String}
use text.Mathlib.Text.{◌==◌ as str_eq}
use scope_is_team_management.Base.{
  ℕ, zero, suc, Bool, true, false, ◌&&◌, ◌||◌, not, ◌^◌, Option, none, some, List, [], ◌∷◌, ◌++◌,
  any, all, find, length, ◌==◌, ltb, leb, if◌then◌else◌, Text, codes, same_text, take,
}
use scope_is_team_management.Audit.{MetaValue, flag, number, words, balances, Metadata}
use scope_is_team_management.Audit.Actions.{AuditAction, audit_actions}

-- `GENERIC_AUDIT_LABEL`
abbrev pub generic_audit_label : String
generic_audit_label = "Recorded system action"

-- `auditActions[action]`
unfoldable pub action_named : String → Option AuditAction
action_named action = find (λ a. str_eq a.action action) audit_actions

-- `auditActionLabel`
unfoldable pub audit_action_label : String → String
audit_action_label action = elim (action_named action) [
  | none ↦ generic_audit_label
  | some a ↦ a.label
]

-- A displayed value: the text of a flag, of a number, or a text.
pub data Display : Type 0 where
  shown_flag : Bool → Display
  shown_number : ℕ → Display
  shown_text : Text → Display

-- `displayValue`, of a value that may be missing: a text over 80 units is cut to 77 and dots.
unfoldable pub display_value : Option MetaValue → Option Display
display_value none = none
display_value (some (flag b)) = some (shown_flag b)
display_value (some (number n)) = some (shown_number n)
display_value (some (words t)) =
    some (shown_text (if ltb 80 (length t) then take 77 t ++ codes "..." else t))
display_value (some (balances _)) = none

-- `["...", ...].includes(text)`
abbrev pub one_of : Text → List Text → Bool
one_of t ts = any (same_text t) ts

-- `action.startsWith(prefix)`
unfoldable pub starts_with : Text → Text → Bool
starts_with [] t = true
starts_with (c ∷ p) [] = false
starts_with (c ∷ p) (d ∷ t) = c == d && starts_with p t

abbrev is_digit : ℕ → Bool
is_digit c = leb 48 c && leb c 57

abbrev is_letter : ℕ → Bool
is_letter c = (leb 97 c && leb c 122) || (leb 65 c && leb c 90)

-- `/[a-zA-Z0-9:_-]/`
abbrev is_id_unit : ℕ → Bool
is_id_unit c = is_letter c || (is_digit c || (c == 58 || (c == 95 || c == 45)))

-- `/^[a-zA-Z0-9:_-]{1,80}$/`
unfoldable pub is_user_id : Text → Bool
is_user_id t = leb 1 (length t) && (leb (length t) 80 && all is_id_unit t)

-- `/[0-9a-f]/i`
abbrev is_hex : ℕ → Bool
is_hex c = is_digit c || ((leb 97 c && leb c 102) || (leb 65 c && leb c 70))

-- The first units are so many hexadecimal digits, and the rest passes a test.
unfoldable pub hexes : ℕ → (Text → Bool) → Text → Bool
hexes zero rest t = rest t
hexes (suc n) rest [] = false
hexes (suc n) rest (c ∷ t) = is_hex c && hexes n rest t

abbrev dash : (Text → Bool) → Text → Bool
dash rest [] = false
dash rest (c ∷ t) = c == 45 && rest t

abbrev at_end : Text → Bool
at_end [] = true
at_end (_ ∷ _) = false

-- `/^[0-9a-f]{8}-[0-9a-f]{4}-[0-9a-f]{4}-[0-9a-f]{4}-[0-9a-f]{12}$/i`
unfoldable pub is_uuid : Text → Bool
is_uuid = hexes 8 (dash (hexes 4 (dash (hexes 4 (dash (hexes 4 (dash (hexes 12 at_end))))))))

-- A value that is a text passing a test.
abbrev pub shown_words : (Text → Bool) → Option MetaValue → Option Display
shown_words test none = none
shown_words test (some (flag b)) = none
shown_words test (some (number n)) = none
shown_words test (some (words t)) = if test t then some (shown_text t) else none
shown_words test (some (balances _)) = none

-- A value that is a safe integer.
abbrev pub shown_count : Option MetaValue → Option Display
shown_count (some (number n)) = if ltb n (2 ^ 53) then some (shown_number n) else none
shown_count _ = none

abbrev pub shown_linked : Option MetaValue → Option Display
shown_linked (some (flag b)) = some (shown_flag b)
shown_linked _ = none

abbrev pub board_statuses : List Text
board_statuses = codes "DRAFT" ∷ codes "PUBLISHED" ∷ codes "ARCHIVED" ∷ []

abbrev pub ticket_statuses : List Text
ticket_statuses =
    codes "PLANNED" ∷ codes "OPEN" ∷ codes "IN_PROGRESS" ∷ codes "ON_HOLD" ∷ codes "CLOSED" ∷ []

abbrev pub content_types : List Text
content_types =
    codes "application/pdf"
    ∷ codes "image/jpeg"
    ∷ codes "image/png"
    ∷ codes "application/vnd.openxmlformats-officedocument.wordprocessingml.document"
    ∷ []

abbrev pub count_keys : List Text
count_keys =
    codes "version" ∷ codes "fileVersion" ∷ codes "participantCount" ∷ codes "byteSize" ∷ []

-- `ticketDisplayValue`
unfoldable pub ticket_display_value : String → Text → Option MetaValue → Option Display
ticket_display_value action key value =
    let statuses =
      if starts_with (codes "ticket.board_") (codes action)
      then board_statuses
      else ticket_statuses in
    if one_of key count_keys
    then shown_count value
    else if same_text key (codes "linked")
    then shown_linked value
    else if same_text key (codes "status")
    then shown_words (λ t. one_of t statuses) value
    else if same_text key (codes "contentType")
    then shown_words (λ t. one_of t content_types) value
    else if same_text key (codes "userId")
    then shown_words is_user_id value
    else shown_words is_uuid value

-- `record[key]`
unfoldable pub meta_value : Text → Metadata → Option MetaValue
meta_value key metadata = elim (find (λ e. same_text e.0 key) metadata) [
  | none ↦ none
  | some e ↦ some e.1
]

abbrev pub reads : List Text → Option MetaValue → Bool
reads texts (some (words t)) = one_of t texts
reads texts _ = false

abbrev pub refusal_reasons : List Text
refusal_reasons = codes "invalid_credentials" ∷ codes "inactive" ∷ codes "locked" ∷ []

abbrev pub outcomes : List Text
outcomes = codes "initialized" ∷ codes "unchanged" ∷ []

abbrev pub listed : Text → Option Display → List (Text × Display)
listed key none = []
listed key (some d) = (key, d) ∷ []

-- The field that one allowed key shows.
unfoldable pub shown_field : String → Metadata → Text → List (Text × Display)
shown_field action metadata key =
    let value = meta_value key metadata in
    let display =
      if starts_with (codes "ticket.") (codes action)
      then ticket_display_value action key value
      else display_value value in
    if str_eq action "auth.password_session.refused" && not (reads refusal_reasons value)
    then []
    else if str_eq action "auth.credentials.bootstrapped"
        && (same_text key (codes "outcome") && not (reads outcomes value))
    then []
    else listed key display

unfoldable pub shown_fields : String → Metadata → List Text → List (Text × Display)
shown_fields action metadata [] = []
shown_fields action metadata (key ∷ keys) =
    shown_field action metadata key ++ shown_fields action metadata keys

-- `auditMetadataFields`
unfoldable pub audit_metadata_fields : String → Metadata → List (Text × Display)
audit_metadata_fields action metadata = elim (action_named action) [
  | none ↦ []
  | some a ↦ shown_fields action metadata a.fields
]
