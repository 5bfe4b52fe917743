-- ===== src/Tickets/Validation.antt =====
-- modules/tickets/validation.ts: the commands as the schemas hand them on, and the checks that
-- stand outside the schemas. A field that a patch leaves out is `none`; the service does not tell
-- `null` from `undefined` where one `Option` stands for both.
use scope_is_team_management.Base.{ℕ, Bool, ◌&&◌, not, Option, List, any, includes, Text, is_blank}
use scope_is_team_management.Tickets.Types.{
  TicketStatus, on_hold, TicketPriority, BoardStatus, same_status,
}

pub record CreateWorkspace : Type 0 where
  pub name : Text
  pub description : Option Text
  pub client_id : Option ℕ
  pub project_id : Option ℕ

pub record UpdateWorkspace : Type 0 where
  pub workspace_id : ℕ
  pub version : ℕ
  pub name : Option Text
  pub description : Option (Option Text)

pub record SetWorkspaceMember : Type 0 where
  pub workspace_id : ℕ
  pub user_id : ℕ
  pub active : Bool
  pub version : ℕ

pub record CreateBoard : Type 0 where
  pub workspace_id : ℕ
  pub name : Text
  pub status : BoardStatus
  pub version : ℕ

pub record UpdateBoard : Type 0 where
  pub board_id : ℕ
  pub name : Option Text
  pub status : Option BoardStatus
  pub version : ℕ

pub record CreateTicket : Type 0 where
  pub board_id : ℕ
  pub version : ℕ
  pub subject : Text
  pub ticket_date : ℕ
  pub due_date : Option ℕ
  pub status : TicketStatus
  pub priority : TicketPriority
  pub summary : Option Text
  pub planning : Option Text
  pub work_completed : Option Text
  pub notes : Option Text
  pub on_hold_reason : Option Text
  pub assignee_ids : List ℕ
  pub observer_ids : List ℕ

pub record UpdateTicket : Type 0 where
  pub ticket_id : ℕ
  pub version : ℕ
  pub subject : Option Text
  pub ticket_date : Option ℕ
  pub due_date : Option (Option ℕ)
  pub status : Option TicketStatus
  pub priority : Option TicketPriority
  pub summary : Option (Option Text)
  pub planning : Option (Option Text)
  pub work_completed : Option (Option Text)
  pub notes : Option (Option Text)
  pub on_hold_reason : Option (Option Text)

pub record ChangeTicketStatus : Type 0 where
  pub ticket_id : ℕ
  pub version : ℕ
  pub status : TicketStatus
  pub on_hold_reason : Option Text

pub record SetParticipants : Type 0 where
  pub ticket_id : ℕ
  pub version : ℕ
  pub assignee_ids : List ℕ
  pub observer_ids : List ℕ

pub record WorkLogInput : Type 0 where
  pub ticket_id : ℕ
  pub version : ℕ
  pub description : Text
  pub logged_at : Option ℕ
  pub duration_minutes : Option ℕ

-- `TicketCommand`, one constructor for each `action`.
pub data TicketCommand : Type 0 where
  create_workspace : CreateWorkspace → TicketCommand
  update_workspace : UpdateWorkspace → TicketCommand
  set_workspace_member : SetWorkspaceMember → TicketCommand
  create_board : CreateBoard → TicketCommand
  update_board : UpdateBoard → TicketCommand
  create_ticket : CreateTicket → TicketCommand
  update_ticket : UpdateTicket → TicketCommand
  change_ticket_status : ChangeTicketStatus → TicketCommand
  set_participants : SetParticipants → TicketCommand
  add_work_log : WorkLogInput → TicketCommand
  edit_work_log : (work_log_id : ℕ) → WorkLogInput → TicketCommand
  archive_ticket : (ticket_id version : ℕ) → TicketCommand
  restore_ticket : (ticket_id version : ℕ) → TicketCommand

-- `validateTicketState`: a ticket on hold has a reason that is not blank.
unfoldable pub valid_ticket_state : TicketStatus → Option Text → Bool
valid_ticket_state status on_hold_reason =
    not (same_status status on_hold && is_blank on_hold_reason)

-- `validateParticipantIds`: nobody is assignee and observer at once.
unfoldable pub valid_participant_ids : List ℕ → List ℕ → Bool
valid_participant_ids assignee_ids observer_ids =
    not (any (λ id. includes id observer_ids) assignee_ids)
