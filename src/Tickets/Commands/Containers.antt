-- ===== src/Tickets/Commands/Containers.antt =====
-- modules/tickets/service.ts: the commands on workspaces and boards, and the creation of a ticket.
use scope_is_team_management.Base.{
  ℕ, Bool, true, false, ◌&&◌, ◌||◌, not, Option, none, some, List, [], ◌∷◌, ◌++◌, find, filter, any,
  all, includes, ◌==◌, if◌then◌else◌, is_some, Text, codes, ◌>>=◌, ◌>>◌, pure, gets, modify, ensure,
  found, length, same_option,
}
use scope_is_team_management.Shared.{employee, Actor, same_role, unavailable, stale, validation}
use scope_is_team_management.Audit.{flag, number, words}
use scope_is_team_management.Tickets.Types.{
  BoardStatus, draft, published, archived, same_board_status, TicketStatus, planned, open_ticket,
  in_progress, on_hold, closed, same_status, ClientStatus, client_active, client_archived,
  ProjectRow, WorkspaceRow, BoardRow, TicketRow,
}
use scope_is_team_management.Tickets.Policy.{can_manage_ticket_workspace, ticket_person_in_scope}
use scope_is_team_management.Tickets.Repository
use scope_is_team_management.Tickets.Repository.{
  Store, Env, Db, workspace_row, board_row, people, set_member,
}
use scope_is_team_management.Tickets.Validation.{
  CreateWorkspace, UpdateWorkspace, SetWorkspaceMember, CreateBoard, UpdateBoard, CreateTicket,
  valid_ticket_state, valid_participant_ids,
}
use scope_is_team_management.Tickets.Access.{
  current_actor, manages_workspace, can_grant_workspace_member, scoped, person_row,
}
use scope_is_team_management.Tickets.Notify.{active_person, audit, notify_ticket, notify_all}

-- What a command returns.
pub record Reply : Type 0 where
  pub id : ℕ
  pub version : ℕ
  pub work_log_id : Option ℕ

abbrev pub reply : ℕ → ℕ → Reply
reply id version = record { id = id; version = version; work_log_id = none }

abbrev pub board_status_text : BoardStatus → Text
board_status_text draft = codes "DRAFT"
board_status_text published = codes "PUBLISHED"
board_status_text archived = codes "ARCHIVED"

abbrev pub status_text : TicketStatus → Text
status_text planned = codes "PLANNED"
status_text open_ticket = codes "OPEN"
status_text in_progress = codes "IN_PROGRESS"
status_text on_hold = codes "ON_HOLD"
status_text closed = codes "CLOSED"

abbrev is_active_client : ClientStatus → Bool
is_active_client client_active = true
is_active_client client_archived = false

-- The linked project: absent where none is asked for, and an error where it is not open.
abbrev open_project : Option ℕ → Store → Option ProjectRow
open_project none s = none
open_project (some id) s = find (λ p. p.id == id && not p.is_archived) s.projects

-- `parsed.clientId ?? project?.clientId ?? null`
abbrev linked_client : Option ℕ → Option ProjectRow → Option ℕ
linked_client (some c) p = some c
linked_client none none = none
linked_client none (some p) = some p.client_id

abbrev project_id_of : Option ProjectRow → Option ℕ
project_id_of none = none
project_id_of (some p) = some p.id

abbrev client_is_open : Option ℕ → Store → Bool
client_is_open none s = true
client_is_open (some c) s = any (λ k. k.id == c && is_active_client k.status) s.clients

abbrev project_fits : Option ProjectRow → Option ℕ → Bool
project_fits none c = true
project_fits (some p) c = same_option (some p.client_id) c

-- The action `createWorkspace`.
unfoldable pub create_workspace : Env → Actor → CreateWorkspace → Db Reply
create_workspace env supplied parsed = do
  actor ← current_actor env supplied
  ensure (not (same_role actor.role employee)) unavailable
  linked ← gets (open_project parsed.project_id)
  ensure (not (is_some parsed.project_id) || is_some linked) unavailable
  let client_id = linked_client parsed.client_id linked
  ensure (← gets (client_is_open client_id)) unavailable
  ensure (project_fits linked client_id) validation
  ensure
      (can_manage_ticket_workspace actor
        (record { client_id = client_id; project_id = project_id_of linked }) true)
      unavailable
  workspace ←
      Repository.create_workspace env parsed.name parsed.description client_id
        (project_id_of linked) actor.id
  set_member env workspace.id actor.id true actor.id
  audit actor "ticket.workspace_created" workspace.id "ticket_workspace"
      ((codes "linked", flag (is_some client_id || is_some linked)) ∷ [])
  pure (reply workspace.id workspace.version)

-- `requireWorkspace`
unfoldable pub require_workspace : Env → Actor → ℕ → Db (Actor × WorkspaceRow)
require_workspace env supplied id = do
  actor ← current_actor env supplied
  workspace ← found (← gets (workspace_row id)) unavailable
  ensure (← gets (manages_workspace actor workspace)) unavailable
  pure (actor, workspace)

abbrev or_keep {ℓ} : {A : Type ℓ} → Option A → A → A
or_keep none a = a
or_keep (some b) a = b

-- The action `updateWorkspace`.
unfoldable pub update_workspace : Env → Actor → UpdateWorkspace → Db Reply
update_workspace env supplied parsed = do
  got ← require_workspace env supplied parsed.workspace_id
  ensure (got.1.version == parsed.version) stale
  hit ← Repository.update_workspace env got.1.id parsed.version (λ w. record w {
    name = or_keep parsed.name w.name;
    description = or_keep parsed.description w.description;
  })
  updated ← found hit stale
  audit got.0 "ticket.workspace_updated" got.1.id "ticket_workspace"
      ((codes "version", number updated.version) ∷ [])
  pure (reply updated.id updated.version)

-- The action `createBoard`. `touchWorkspace` counts the workspace's version up.
unfoldable pub create_board : Env → Actor → CreateBoard → Db Reply
create_board env supplied parsed = do
  got ← require_workspace env supplied parsed.workspace_id
  ensure (got.1.version == parsed.version) stale
  board ← Repository.create_board env (record {
    id = env.new_id;
    workspace_id = got.1.id;
    name = parsed.name;
    status = parsed.status;
    created_by_user_id = got.0.id;
    version = 1;
    created_at = env.now;
    updated_at = env.now;
  })
  Repository.update_workspace env got.1.id got.1.version (λ w. w)
  audit got.0 "ticket.board_created" board.id "ticket_board" (
      (codes "workspaceId", number got.1.id)
      ∷ (codes "status", words (board_status_text board.status))
      ∷ [])
  pure (reply board.id board.version)

-- The action `setWorkspaceMember`.
unfoldable pub set_workspace_member : Env → Actor → SetWorkspaceMember → Db Reply
set_workspace_member env supplied parsed = do
  got ← require_workspace env supplied parsed.workspace_id
  ensure (got.1.version == parsed.version) stale
  person ← found (← gets (person_row parsed.user_id)) unavailable
  allowed ← gets (λ s.
      if parsed.active
      then can_grant_workspace_member got.0 got.1 person s
      else ticket_person_in_scope got.0 (scoped person))
  ensure allowed unavailable
  set_member env got.1.id parsed.user_id parsed.active got.0.id
  hit ← Repository.update_workspace env got.1.id parsed.version (λ w. w)
  updated ← found hit stale
  audit got.0 (if parsed.active then "ticket.member_granted" else "ticket.member_revoked") got.1.id
      "ticket_workspace" ((codes "userId", number parsed.user_id) ∷ [])
  pure (reply got.1.id updated.version)

-- The start of the actions on a board: the board, the actor, the workspace, and whether the actor
-- supervises it. A board's workspace exists by the foreign key; a missing one is `unavailable`.
unfoldable pub board_context : Env → Actor → ℕ → Db (Actor × BoardRow × Bool)
board_context env supplied board_id = do
  board ← found (← gets (board_row board_id)) unavailable
  actor ← current_actor env supplied
  workspace ← found (← gets (workspace_row board.workspace_id)) unavailable
  manager ← gets (manages_workspace actor workspace)
  pure (actor, board, manager)

abbrev live_tickets_on : ℕ → Store → List TicketRow
live_tickets_on board_id s =
    filter (λ t. t.board_id == board_id && not (is_some t.archived_at)) s.tickets

-- The action `updateBoard`. Publication tells the people of every live ticket on the board.
unfoldable pub update_board : Env → Actor → UpdateBoard → Db Reply
update_board env supplied parsed = do
  got ← board_context env supplied parsed.board_id
  ensure got.2 unavailable
  ensure (got.1.version == parsed.version) stale
  tickets ← gets (live_tickets_on got.1.id)
  hit ←
      Repository.update_board env got.1.id parsed.version (λ b. record b {
        name = or_keep parsed.name b.name;
        status = or_keep parsed.status b.status;
      })
  updated ← found hit stale
  audit got.0 "ticket.board_updated" got.1.id "ticket_board"
      ((codes "status", words (board_status_text updated.status)) ∷ [])
  modify (λ s.
      if same_board_status updated.status published
        && not (same_board_status got.1.status published)
      then notify_all tickets got.0 "ticket.board_published" s
      else s)
  pure (reply updated.id updated.version)

-- The method `participants`: every chosen person exists and is active.
unfoldable pub check_participants : List ℕ → List ℕ → Db (Unit {0})
check_participants assignee_ids observer_ids = do
  ensure (valid_participant_ids assignee_ids observer_ids) validation
  ensure (← gets (λ s. all (λ id. is_some (active_person id s)) (assignee_ids ++ observer_ids)))
      unavailable

-- The row that `createTicket` asks to insert.
abbrev pub new_ticket : Env → CreateTicket → ℕ → TicketRow
new_ticket env parsed creator = record {
  id = env.new_id;
  number = env.new_number;
  board_id = parsed.board_id;
  subject = parsed.subject;
  status = parsed.status;
  priority = parsed.priority;
  ticket_date = parsed.ticket_date;
  due_date = parsed.due_date;
  summary = parsed.summary;
  planning = parsed.planning;
  work_completed = parsed.work_completed;
  notes = parsed.notes;
  on_hold_reason = if same_status parsed.status on_hold then parsed.on_hold_reason else none;
  creator_user_id = creator;
  archived_at = none;
  archived_by_user_id = none;
  version = 1;
  created_at = env.now;
  updated_at = env.now;
}

-- The action `createTicket`.
unfoldable pub create_ticket : Env → Actor → CreateTicket → Db Reply
create_ticket env supplied parsed = do
  got ← board_context env supplied parsed.board_id
  ensure
      (not (same_board_status got.1.status archived)
        && (got.2 || same_board_status got.1.status published))
      unavailable
  ensure (got.1.version == parsed.version) stale
  ensure (not (includes got.0.id (parsed.assignee_ids ++ parsed.observer_ids))) validation
  ensure (valid_ticket_state parsed.status parsed.on_hold_reason) validation
  check_participants parsed.assignee_ids parsed.observer_ids
  ticket ← Repository.create_ticket env (new_ticket env parsed got.0.id)
  Repository.set_participants env ticket.id parsed.assignee_ids parsed.observer_ids got.0.id
  audit got.0 "ticket.created" ticket.id "ticket" (
      (codes "boardId", number got.1.id)
      ∷ (codes "status", words (status_text ticket.status))
      ∷ (codes "participantCount", number (length (parsed.assignee_ids ++ parsed.observer_ids)))
      ∷ [])
  notify_ticket ticket got.0 "ticket.created"
  pure (reply ticket.id ticket.version)
