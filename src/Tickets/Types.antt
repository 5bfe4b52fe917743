-- ===== src/Tickets/Types.antt =====
-- modules/tickets/types.ts and the rows of db/schema/tickets.ts. A timestamp is a number of
-- milliseconds, a business date the number yyyymmdd, which orders as its ISO text does, and a text
-- the list of its UTF-16 code units. The integer columns are unbounded here.
use Prim.Native.String.{String}
use scope_is_team_management.Base.{ℕ, Bool, true, false, Option, none, some, ◌==◌, Text}
use scope_is_team_management.Shared.{Role, ScopeType, AuthMode}

pub data TicketStatus : Type 0 where
  planned open_ticket in_progress on_hold closed : TicketStatus

pub data TicketPriority : Type 0 where
  critical high medium low : TicketPriority

pub data BoardStatus : Type 0 where
  draft published archived : BoardStatus

pub data ParticipantRole : Type 0 where
  assignee observer : ParticipantRole

abbrev status_code : TicketStatus → ℕ
status_code planned = 0
status_code open_ticket = 1
status_code in_progress = 2
status_code on_hold = 3
status_code closed = 4

-- `a === b` on ticket statuses.
abbrev pub same_status : TicketStatus → TicketStatus → Bool
same_status a b = status_code a == status_code b

abbrev board_code : BoardStatus → ℕ
board_code draft = 0
board_code published = 1
board_code archived = 2

-- `a === b` on board statuses.
abbrev pub same_board_status : BoardStatus → BoardStatus → Bool
same_board_status a b = board_code a == board_code b

-- `participation === "ASSIGNEE"`
abbrev pub is_assignee : Option ParticipantRole → Bool
is_assignee p = elim p [ none ↦ false | some r ↦ elim r [ assignee ↦ true | observer ↦ false ] ]

pub record TicketPermissions : Type 0 where
  pub edit : Bool
  pub manage_people : Bool
  pub archive : Bool
  pub restore : Bool
  pub log : Bool
  pub files : Bool

-- `users`, the columns that the ticket service reads.
pub record UserRow : Type 0 where
  pub id : ℕ
  pub display_name : String
  pub role : Role
  pub active : Bool
  pub session_version : ℕ

-- `employee_profiles`, the columns that the ticket service reads.
pub record ProfileRow : Type 0 where
  pub user_id : ℕ
  pub team : Option ℕ

pub record SessionRow : Type 0 where
  pub id : ℕ
  pub user_id : ℕ
  pub authentication_mode : AuthMode
  pub session_version : ℕ
  pub expires_at : ℕ
  pub revoked_at : Option ℕ

pub record CredentialRow : Type 0 where
  pub user_id : ℕ
  pub must_change_password : Bool

-- `admin_scope_grants`
pub record GrantRow : Type 0 where
  pub user_id : ℕ
  pub scope_type : ScopeType
  pub scope_reference : ℕ
  pub active : Bool

-- `clients` and `projects`, the columns that the ticket service reads.
pub data ClientStatus : Type 0 where
  client_active client_archived : ClientStatus

pub record ClientRow : Type 0 where
  pub id : ℕ
  pub status : ClientStatus

pub record ProjectRow : Type 0 where
  pub id : ℕ
  pub client_id : ℕ
  pub is_archived : Bool

-- `ticketWorkspaces`
pub record WorkspaceRow : Type 0 where
  pub id : ℕ
  pub name : Text
  pub description : Option Text
  pub client_id : Option ℕ
  pub project_id : Option ℕ
  pub created_by_user_id : ℕ
  pub version : ℕ
  pub created_at : ℕ
  pub updated_at : ℕ

-- `ticketWorkspaceMembers`; its surrogate id is never read.
pub record MemberRow : Type 0 where
  pub workspace_id : ℕ
  pub user_id : ℕ
  pub active : Bool
  pub granted_by_user_id : ℕ
  pub created_at : ℕ
  pub updated_at : ℕ

-- `ticketBoards`
pub record BoardRow : Type 0 where
  pub id : ℕ
  pub workspace_id : ℕ
  pub name : Text
  pub status : BoardStatus
  pub created_by_user_id : ℕ
  pub version : ℕ
  pub created_at : ℕ
  pub updated_at : ℕ

-- `tickets`
pub record TicketRow : Type 0 where
  pub id : ℕ
  pub number : ℕ
  pub board_id : ℕ
  pub subject : Text
  pub status : TicketStatus
  pub priority : TicketPriority
  pub ticket_date : ℕ
  pub due_date : Option ℕ
  pub summary : Option Text
  pub planning : Option Text
  pub work_completed : Option Text
  pub notes : Option Text
  pub on_hold_reason : Option Text
  pub creator_user_id : ℕ
  pub archived_at : Option ℕ
  pub archived_by_user_id : Option ℕ
  pub version : ℕ
  pub created_at : ℕ
  pub updated_at : ℕ

-- `ticketParticipants`; its surrogate id is never read.
pub record ParticipantRow : Type 0 where
  pub ticket_id : ℕ
  pub user_id : ℕ
  pub role : ParticipantRole
  pub active : Bool
  pub granted_by_user_id : ℕ
  pub created_at : ℕ
  pub updated_at : ℕ

-- `ticketWorkLogs`
pub record WorkLogRow : Type 0 where
  pub id : ℕ
  pub ticket_id : ℕ
  pub author_user_id : ℕ
  pub description : Text
  pub logged_at : ℕ
  pub duration_minutes : Option ℕ
  pub version : ℕ
  pub created_at : ℕ
  pub updated_at : ℕ

-- `ticketFiles`, the columns that decide who manages a ticket.
pub record FileRow : Type 0 where
  pub id : ℕ
  pub ticket_id : ℕ
  pub owner_user_id : ℕ
  pub uploader_user_id : ℕ
