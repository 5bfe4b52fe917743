-- ===== src/Tickets/Policy.antt =====
-- modules/tickets/policy.ts.
pub mod Laws
use scope_is_team_management.Base.{
  ℕ, Bool, true, false, ◌&&◌, ◌||◌, not, Option, none, some, List, any, ◌==◌, is_ref, is_some,
  if◌then◌else◌,
}
use scope_is_team_management.Shared.{
  Role, super_admin, admin, employee, team, client, project, ScopeGrant, Actor, same_role,
  same_type, grants_to,
}
use scope_is_team_management.Tickets.Types.{
  BoardStatus, published, archived, ParticipantRole, TicketPermissions, same_board_status,
  is_assignee,
}

-- The two links of a workspace that its supervision depends on.
pub record WorkspaceLinks : Type 0 where
  pub client_id : Option ℕ
  pub project_id : Option ℕ

-- A CLIENT or PROJECT grant on a link of the workspace.
abbrev pub links_grant : WorkspaceLinks → ScopeGrant → Bool
links_grant w g =
    (same_type g.type client && is_ref g.reference w.client_id)
    || (same_type g.type project && is_ref g.reference w.project_id)

abbrev pub is_team_grant : ScopeGrant → Bool
is_team_grant g = same_type g.type team

-- `canManageTicketWorkspace`
unfoldable pub can_manage_ticket_workspace : Actor → WorkspaceLinks → Bool → Bool
can_manage_ticket_workspace actor workspace is_member =
    if same_role actor.role super_admin
    then true
    else if not (same_role actor.role admin)
        || (not is_member || not (any is_team_grant actor.scopes))
    then false
    else any (links_grant workspace) actor.scopes

-- What the policy reads of a person.
pub record ScopedPerson : Type 0 where
  pub id : ℕ
  pub role : Role
  pub team : Option ℕ

abbrev pub holds_team : Actor → Option ℕ → Bool
holds_team actor none = false
holds_team actor (some t) = any (grants_to team t) actor.scopes

-- `ticketPersonInScope`
unfoldable pub ticket_person_in_scope : Actor → ScopedPerson → Bool
ticket_person_in_scope actor person =
    if same_role actor.role super_admin || actor.id == person.id
    then true
    else (same_role actor.role admin
        && (same_role person.role employee && holds_team actor person.team))

-- The `input` of `ticketPermissions`.
pub record PolicyInput : Type 0 where
  pub manager : Bool
  pub member : Bool
  pub board_status : BoardStatus
  pub creator_user_id : ℕ
  pub participation : Option ParticipantRole
  pub is_archived : Bool

-- `canReadTicket`
unfoldable pub can_read_ticket : Actor → PolicyInput → Bool
can_read_ticket actor input =
    input.manager
    || (same_board_status input.board_status published
        && (input.creator_user_id == actor.id || is_some input.participation))

-- `ticketPermissions`
unfoldable pub ticket_permissions : Actor → PolicyInput → TicketPermissions
ticket_permissions actor input =
    let visible =
      input.manager
      || (same_board_status input.board_status published
          && (input.creator_user_id == actor.id || is_some input.participation)) in
    let owns = input.creator_user_id == actor.id in
    let can_work = visible && (input.manager || (owns || is_assignee input.participation)) in
    let board_open = not (same_board_status input.board_status archived) in
    record {
      edit = can_work && (not input.is_archived && board_open);
      manage_people = visible && ((input.manager || owns) && (not input.is_archived && board_open));
      archive = visible && (not input.is_archived && (input.manager || owns));
      restore = visible && (input.is_archived && ((input.manager || owns) && board_open));
      log = can_work && (not input.is_archived && board_open);
      files = can_work && (not input.is_archived && board_open);
    }
