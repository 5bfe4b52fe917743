-- ===== src/Tickets/Repository.antt =====
-- modules/tickets/repositories.ts: the tables and the queries on them. Row locks are not modelled:
-- a transaction runs alone here. `orderBy` decides only the order of rows that are found by id.
use Prim.Native.String.{String}
use mathlib.Core.Option
use scope_is_team_management.Base.{
  ℕ, Bool, true, false, ◌&&◌, Option, none, some, List, [], ◌∷◌, ◌++◌, map, find, filter, any,
  update_where, ◌==◌, ◌+◌, if◌then◌else◌, Text, ok, Tx,
}
use scope_is_team_management.Shared.{ScopeGrant, AppError}
use scope_is_team_management.Audit.{AuditRow}
use scope_is_team_management.Tickets.Types.{
  UserRow, ProfileRow, SessionRow, CredentialRow, GrantRow, ClientRow, ProjectRow, WorkspaceRow,
  MemberRow, BoardRow, TicketRow, ParticipantRow, WorkLogRow, FileRow, ParticipantRole, assignee,
  observer,
}

-- A row of `notifications`, as `createNotification` inserts it.
pub record NotificationRow : Type 0 where
  pub recipient_user_id : ℕ
  pub event_type : String
  pub related_record_type : String
  pub related_record_id : ℕ

-- The tables that the ticket service reads and writes.
pub record Store : Type 0 where
  pub users : List UserRow
  pub profiles : List ProfileRow
  pub sessions : List SessionRow
  pub credentials : List CredentialRow
  pub grants : List GrantRow
  pub clients : List ClientRow
  pub projects : List ProjectRow
  pub workspaces : List WorkspaceRow
  pub members : List MemberRow
  pub boards : List BoardRow
  pub tickets : List TicketRow
  pub participants : List ParticipantRow
  pub logs : List WorkLogRow
  pub files : List FileRow
  pub audits : List AuditRow
  pub notifications : List NotificationRow

-- What a call takes from outside: the clock, the id and the serial number that the database
-- generates for a new row, and whether mock sessions are accepted.
pub record Env : Type 0 where
  pub now : ℕ
  pub new_id : ℕ
  pub new_number : ℕ
  pub mock_allowed : Bool

abbrev pub Db : Type 0 → Type 0
Db A = Tx Store AppError A

-- `ticketRepository.user` and its siblings: the row with that id.
abbrev pub user_row : ℕ → Store → Option UserRow
user_row id s = find (λ u. u.id == id) s.users

abbrev pub session_row : ℕ → Store → Option SessionRow
session_row id s = find (λ r. r.id == id) s.sessions

abbrev pub credential_row : ℕ → Store → Option CredentialRow
credential_row id s = find (λ r. r.user_id == id) s.credentials

abbrev as_scope : GrantRow → ScopeGrant
as_scope g = record { type = g.scope_type; reference = g.scope_reference }

-- `grants`: the active grants of a user, as scopes of an actor.
unfoldable pub active_scopes : ℕ → Store → List ScopeGrant
active_scopes id s = map as_scope (filter (λ g. g.user_id == id && g.active) s.grants)

-- A row of `people`: a user with the team of its profile, if it has one.
pub record Person : Type 0 where
  pub user : UserRow
  pub team : Option ℕ

abbrev team_of : Option ProfileRow → Option ℕ
team_of none = none
team_of (some p) = p.team

abbrev with_team : List ProfileRow → UserRow → Person
with_team profiles u = record { user = u; team = team_of (find (λ p. p.user_id == u.id) profiles) }

-- `people`
unfoldable pub people : Store → List Person
people s = map (with_team s.profiles) s.users

abbrev pub workspace_row : ℕ → Store → Option WorkspaceRow
workspace_row id s = find (λ w. w.id == id) s.workspaces

abbrev pub board_row : ℕ → Store → Option BoardRow
board_row id s = find (λ b. b.id == id) s.boards

abbrev pub ticket_row : ℕ → Store → Option TicketRow
ticket_row id s = find (λ t. t.id == id) s.tickets

abbrev pub log_row : ℕ → Store → Option WorkLogRow
log_row id s = find (λ l. l.id == id) s.logs

-- `createWorkspace`
unfoldable pub create_workspace :
    Env
    → (name : Text) (description : Option Text) (client_id project_id : Option ℕ) (creator : ℕ)
    → Db WorkspaceRow
create_workspace env name description client_id project_id creator s =
    let row : WorkspaceRow = record {
      id = env.new_id;
      name = name;
      description = description;
      client_id = client_id;
      project_id = project_id;
      created_by_user_id = creator;
      version = 1;
      created_at = env.now;
      updated_at = env.now;
    } in
    ok (row, record s { workspaces = s.workspaces ++ row ∷ [] })

abbrev pub workspace_hit : ℕ → ℕ → WorkspaceRow → Bool
workspace_hit id version w = w.id == id && w.version == version

abbrev pub workspace_bump : Env → (WorkspaceRow → WorkspaceRow) → WorkspaceRow → WorkspaceRow
workspace_bump env values w = record (values w) { version = w.version + 1; updated_at = env.now }

-- `updateWorkspace`, and `touchWorkspace` where the values are the identity.
unfoldable pub update_workspace :
    Env → ℕ → ℕ → (WorkspaceRow → WorkspaceRow) → Db (Option WorkspaceRow)
update_workspace env id version values s = ok (
  Option.map (workspace_bump env values) (find (workspace_hit id version) s.workspaces),
  record s {
    workspaces = update_where (workspace_hit id version) (workspace_bump env values) s.workspaces;
  },
)

abbrev pub member_hit : ℕ → ℕ → MemberRow → Bool
member_hit workspace_id user_id m = m.workspace_id == workspace_id && m.user_id == user_id

-- `setMember`: an insert that updates on conflict.
unfoldable pub set_member : Env → ℕ → ℕ → Bool → ℕ → Db (Unit {0})
set_member env workspace_id user_id active actor_id s = ok (
  tt,
  record s {
    members =
        if any (member_hit workspace_id user_id) s.members
        then update_where (member_hit workspace_id user_id)
            (λ m. record m { active = active; granted_by_user_id = actor_id; updated_at = env.now })
            s.members
        else s.members
          ++ record {
            workspace_id = workspace_id;
            user_id = user_id;
            active = active;
            granted_by_user_id = actor_id;
            created_at = env.now;
            updated_at = env.now;
          }
            ∷ [];
  },
)

-- `createBoard`
unfoldable pub create_board : Env → BoardRow → Db BoardRow
create_board env values s =
    let row : BoardRow = record values {
      id = env.new_id;
      version = 1;
      created_at = env.now;
      updated_at = env.now;
    } in
    ok (row, record s { boards = s.boards ++ row ∷ [] })

abbrev pub board_hit : ℕ → ℕ → BoardRow → Bool
board_hit id version b = b.id == id && b.version == version

abbrev pub board_bump : Env → (BoardRow → BoardRow) → BoardRow → BoardRow
board_bump env values b = record (values b) { version = b.version + 1; updated_at = env.now }

-- `updateBoard`
unfoldable pub update_board : Env → ℕ → ℕ → (BoardRow → BoardRow) → Db (Option BoardRow)
update_board env id version values s = ok (
  Option.map (board_bump env values) (find (board_hit id version) s.boards),
  record s { boards = update_where (board_hit id version) (board_bump env values) s.boards },
)

-- `createTicket`: the id, the number, the version and the times are the database's.
unfoldable pub create_ticket : Env → TicketRow → Db TicketRow
create_ticket env values s =
    let row : TicketRow = record values {
      id = env.new_id;
      number = env.new_number;
      version = 1;
      created_at = env.now;
      updated_at = env.now;
    } in
    ok (row, record s { tickets = s.tickets ++ row ∷ [] })

abbrev pub ticket_hit : ℕ → ℕ → TicketRow → Bool
ticket_hit id version t = t.id == id && t.version == version

abbrev pub ticket_bump : Env → (TicketRow → TicketRow) → TicketRow → TicketRow
ticket_bump env values t = record (values t) { version = t.version + 1; updated_at = env.now }

-- `updateTicket`: sets the values, counts the version up, and gives nothing where no row has that
-- id and version.
unfoldable pub update_ticket : Env → ℕ → ℕ → (TicketRow → TicketRow) → Db (Option TicketRow)
update_ticket env id version values s = ok (
  Option.map (ticket_bump env values) (find (ticket_hit id version) s.tickets),
  record s { tickets = update_where (ticket_hit id version) (ticket_bump env values) s.tickets },
)

abbrev pub participant_hit : ℕ → ℕ → ParticipantRow → Bool
participant_hit ticket_id user_id p = p.ticket_id == ticket_id && p.user_id == user_id

-- One participant: an insert that updates on conflict.
unfoldable pub upsert_participant :
    Env → ℕ → ParticipantRole → ℕ → ℕ → List ParticipantRow → List ParticipantRow
upsert_participant env ticket_id role actor_id user_id rows =
    if any (participant_hit ticket_id user_id) rows
    then update_where (participant_hit ticket_id user_id)
        (λ p. record p {
          role = role;
          active = true;
          granted_by_user_id = actor_id;
          updated_at = env.now;
        })
        rows
    else rows
      ++ record {
        ticket_id = ticket_id;
        user_id = user_id;
        role = role;
        active = true;
        granted_by_user_id = actor_id;
        created_at = env.now;
        updated_at = env.now;
      }
        ∷ []

unfoldable pub upsert_all :
    Env → ℕ → ParticipantRole → ℕ → List ℕ → List ParticipantRow → List ParticipantRow
upsert_all env ticket_id role actor_id [] rows = rows
upsert_all env ticket_id role actor_id (id ∷ ids) rows =
    upsert_all env ticket_id role actor_id ids
      (upsert_participant env ticket_id role actor_id id rows)

-- `setParticipants`: all rows of the ticket are switched off, then each listed person is written.
unfoldable pub set_participants : Env → ℕ → List ℕ → List ℕ → ℕ → Db (Unit {0})
set_participants env ticket_id assignee_ids observer_ids actor_id s =
    let cleared =
      update_where (λ (p : ParticipantRow). p.ticket_id == ticket_id)
        (λ p. record p { active = false; updated_at = env.now }) s.participants in
    ok (
      tt,
      record s {
        participants =
            upsert_all env ticket_id observer actor_id observer_ids
              (upsert_all env ticket_id assignee actor_id assignee_ids cleared);
      },
    )

-- `createLog`
unfoldable pub create_log : Env → (ticket_id author : ℕ) → Text → ℕ → Option ℕ → Db WorkLogRow
create_log env ticket_id author description logged_at duration s =
    let row : WorkLogRow = record {
      id = env.new_id;
      ticket_id = ticket_id;
      author_user_id = author;
      description = description;
      logged_at = logged_at;
      duration_minutes = duration;
      version = 1;
      created_at = env.now;
      updated_at = env.now;
    } in
    ok (row, record s { logs = s.logs ++ row ∷ [] })

-- `updateLog`
unfoldable pub update_log : Env → ℕ → Text → ℕ → Option ℕ → Db (Unit {0})
update_log env id description logged_at duration s = ok (
  tt,
  record s {
    logs =
        update_where (λ (l : WorkLogRow). l.id == id)
          (λ l. record l {
            description = description;
            logged_at = logged_at;
            duration_minutes = duration;
            version = l.version + 1;
            updated_at = env.now;
          })
          s.logs;
  },
)
