-- ===== src/Tickets/Access.antt =====
-- modules/tickets/service.ts: the current actor, and the context in which an actor sees a ticket.
pub mod Laws
use scope_is_team_management.Base.{
  ℕ, Bool, true, false, ◌&&◌, ◌||◌, not, Option, none, some, List, ◌∷◌, ◌++◌, map, find, filter,
  any, all, ◌==◌, ltb, if◌then◌else◌, is_some, ◌>>=◌, ◌>>◌, pure, gets, ensure, found,
}
use scope_is_team_management.Shared.{
  super_admin, admin, employee, AuthMode, mock, password, RecordId, uuid, Actor, same_role, uuid_of,
  unauthenticated, unavailable, stale,
}
use scope_is_team_management.Tickets.Types.{
  UserRow, SessionRow, CredentialRow, WorkspaceRow, BoardRow, TicketRow, ParticipantRole,
  TicketPermissions,
}
use scope_is_team_management.Tickets.Policy.{
  WorkspaceLinks, can_manage_ticket_workspace, ScopedPerson, ticket_person_in_scope, PolicyInput,
  can_read_ticket, ticket_permissions,
}
use scope_is_team_management.Tickets.Repository.{
  Store, Env, Db, user_row, session_row, credential_row, active_scopes, Person, people, board_row,
  ticket_row, workspace_row,
}

abbrev is_mock : AuthMode → Bool
is_mock mock = true
is_mock password = false

abbrev must_change : Option CredentialRow → Bool
must_change none = false
must_change (some c) = c.must_change_password

-- The conditions of `currentActor` on the rows that it has read.
unfoldable pub is_current : Env → Actor → UserRow → SessionRow → Option CredentialRow → Bool
is_current env supplied user session credential =
    user.active
    && (session.user_id == user.id
        && (not (is_some session.revoked_at)
            && (ltb env.now session.expires_at
                && (session.session_version == user.session_version
                    && (supplied.session_version == user.session_version
                        && (not (must_change credential)
                            && not
                                (is_mock session.authentication_mode && not env.mock_allowed)))))))

abbrev pub actor_of : UserRow → SessionRow → Store → Actor
actor_of user session s = record {
  id = user.id;
  display_name = user.display_name;
  role = user.role;
  session_id = uuid session.id;
  session_version = user.session_version;
  authentication_mode = session.authentication_mode;
  scopes = active_scopes user.id s;
}

-- `currentActor`: the identity as the database has it now.
unfoldable pub current_actor : Env → Actor → Db Actor
current_actor env supplied = do
  session_id ← found (uuid_of supplied.session_id) unauthenticated
  user ← found (← gets (user_row supplied.id)) unauthenticated
  session ← found (← gets (session_row session_id)) unauthenticated
  credential ← gets (credential_row supplied.id)
  ensure (is_current env supplied user session credential) unauthenticated
  gets (actor_of user session)

-- `isMember`
unfoldable pub is_member : Store → ℕ → ℕ → Bool
is_member s workspace_id user_id =
    any (λ m. m.workspace_id == workspace_id && (m.user_id == user_id && m.active)) s.members

abbrev pub links : WorkspaceRow → WorkspaceLinks
links w = record { client_id = w.client_id; project_id = w.project_id }

-- `managesWorkspace`
unfoldable pub manages_workspace : Actor → WorkspaceRow → Store → Bool
manages_workspace actor workspace s =
    can_manage_ticket_workspace actor (links workspace) (is_member s workspace.id actor.id)

abbrev pub scoped : Person → ScopedPerson
scoped p = record { id = p.user.id; role = p.user.role; team = p.team }

abbrev pub person_row : ℕ → Store → Option Person
person_row id s = find (λ p. p.user.id == id) (people s)

-- `canGrantWorkspaceMember`
unfoldable pub can_grant_workspace_member : Actor → WorkspaceRow → Person → Store → Bool
can_grant_workspace_member actor workspace person s =
    if not person.user.active || not (ticket_person_in_scope actor (scoped person))
    then false
    else if not (same_role person.user.role admin)
    then true
    else can_manage_ticket_workspace
        (record actor {
          id = person.user.id;
          role = person.user.role;
          scopes = active_scopes person.user.id s;
        })
        (links workspace) true

-- One id of `peopleInScope`.
abbrev pub id_in_scope : Actor → Store → ℕ → Bool
id_in_scope actor s id = elim (person_row id s) [
  | none ↦ false
  | some p ↦ not (same_role p.user.role employee) || ticket_person_in_scope actor (scoped p)
]

-- `peopleInScope`
unfoldable pub people_in_scope : Actor → List ℕ → Store → Bool
people_in_scope actor ids s = all (id_in_scope actor s) ids

-- Everyone whose facts a ticket holds: its creator, active participants, and the people of its work
-- log and its files.
unfoldable pub ticket_people : TicketRow → Store → List ℕ
ticket_people ticket s =
    ticket.creator_user_id
      ∷ map (λ p. p.user_id) (filter (λ p. p.ticket_id == ticket.id && p.active) s.participants)
    ++ map (λ l. l.author_user_id) (filter (λ l. l.ticket_id == ticket.id) s.logs)
    ++ map (λ f. f.uploader_user_id) (filter (λ f. f.ticket_id == ticket.id) s.files)
    ++ map (λ f. f.owner_user_id) (filter (λ f. f.ticket_id == ticket.id) s.files)

-- `managesTicket`
unfoldable pub manages_ticket : Actor → TicketRow → WorkspaceRow → Store → Bool
manages_ticket actor ticket workspace s =
    if not (manages_workspace actor workspace s)
    then false
    else if same_role actor.role super_admin
    then true
    else people_in_scope actor (ticket_people ticket s) s

pub record TicketContext : Type 0 where
  pub actor : Actor
  pub ticket : TicketRow
  pub workspace : WorkspaceRow
  pub permissions : TicketPermissions
  pub manager : Bool

-- The actor's active participation in a ticket.
unfoldable pub participation_of : Store → ℕ → ℕ → Option ParticipantRole
participation_of s ticket_id user_id =
    elim (find (λ p. p.ticket_id == ticket_id && (p.user_id == user_id && p.active))
      s.participants) [ none ↦ none | some p ↦ some p.role ]

-- The policy's input for an actor and a ticket.
unfoldable pub policy_input : Actor → TicketRow → BoardRow → WorkspaceRow → Store → PolicyInput
policy_input actor ticket board workspace s = record {
  manager = manages_ticket actor ticket workspace s;
  member = is_member s workspace.id actor.id;
  board_status = board.status;
  creator_user_id = ticket.creator_user_id;
  participation = participation_of s ticket.id actor.id;
  is_archived = is_some ticket.archived_at;
}

-- The last part of `ticketContext`, once board and workspace are found.
unfoldable pub context_on :
    Actor → TicketRow → BoardRow → WorkspaceRow → Store → Option TicketContext
context_on actor ticket board workspace s =
    let input = policy_input actor ticket board workspace s in
    if not (can_read_ticket actor input)
    then none
    else some (record {
      actor = actor;
      ticket = ticket;
      workspace = workspace;
      permissions = ticket_permissions actor input;
      manager = input.manager;
    })

-- `ticketContext`
unfoldable pub ticket_context : Actor → TicketRow → Store → Option TicketContext
ticket_context actor ticket s = elim (board_row ticket.board_id s) [
  | none ↦ none
  | some board ↦ elim (workspace_row board.workspace_id s) [
    | none ↦ none
    | some workspace ↦ context_on actor ticket board workspace s
  ]
]

abbrev pub version_matches : Option ℕ → ℕ → Bool
version_matches none v = true
version_matches (some expected) v = v == expected

-- `loadTicketContext`, after `lockTicketTree`; `write` asks for the permission on files.
unfoldable pub load_ticket_context :
    Env → Actor → RecordId → (write : Bool) (version : Option ℕ) → Db TicketContext
load_ticket_context env supplied id write version = do
  ticket_id ← found (uuid_of id) unavailable
  locked ← found (← gets (ticket_row ticket_id)) unavailable
  found (← gets (board_row locked.board_id)) unavailable
  actor ← current_actor env supplied
  ticket ← found (← gets (ticket_row ticket_id)) unavailable
  context ← found (← gets (ticket_context actor ticket)) unavailable
  ensure (not write || context.permissions.files) unavailable
  ensure (version_matches version context.ticket.version) stale
  pure context
