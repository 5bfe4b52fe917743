-- ===== src/Tickets/Commands/Contained.antt =====
-- modules/tickets/service.ts: what every successful action on a workspace or a board has done, and
-- the creation of a ticket.
use Prim.Native.String.{String}
use scope_is_team_management.Base.{
  ℕ, ◌≡◌, ◌⊎◌, refl, ◌+◌, ◌++◌, ◌∷◌, [], Bool, true, false, List, length, arith, ok, ◌>>=◌,
  >>=-eq-ok, includes,
}
use scope_is_team_management.Shared.{Actor}
use scope_is_team_management.Audit.Laws.{length-write_audit_event}
use scope_is_team_management.Tickets.Types.{published, draft, TicketRow, BoardRow, WorkspaceRow}
use scope_is_team_management.Tickets.Repository
use scope_is_team_management.Tickets.Repository.{Store, Env, Db}
use scope_is_team_management.Tickets.Access.{current_actor}
use scope_is_team_management.Tickets.Access.Laws.{current_actor_sound}
use scope_is_team_management.Tickets.Notify.{audit, notify_ticket, notify_all}
use scope_is_team_management.Tickets.Validation.{
  CreateWorkspace, UpdateWorkspace, SetWorkspaceMember, CreateBoard, UpdateBoard, CreateTicket,
  valid_ticket_state,
}
use scope_is_team_management.Tickets.Commands.Containers
use scope_is_team_management.Tickets.Commands.Containers.{
  Reply, require_workspace, board_context, check_participants, new_ticket,
}
use scope_is_team_management.Tickets.Commands.Applied.{IsHoldValid}

-- The caller is authenticated, no ticket changed, and one audit event was written.
pub record Contained (env : Env) (supplied : Actor) (s s' : Store) : Type 0 where
  pub actor : Actor
  pub authenticated : current_actor env supplied s ≡ ok (actor, s)
  pub tickets : s'.tickets ≡ s.tickets
  pub audited : length s'.audits ≡ length s.audits + 1

-- An action that begins with the current actor.
acting :
    {A : Type 0} (env : Env) (supplied : Actor) (k : Actor → Db A) (s s' : Store) (a : A)
    → (current_actor env supplied >>= k) s ≡ ok (a, s')
    → (actor : Actor) × (current_actor env supplied s ≡ ok (actor, s)) × (k actor s ≡ ok (a, s'))
acting env supplied k s s' a h =
    let (actor, s₁, got, rest) = >>=-eq-ok (current_actor env supplied) k s h in
    let same = (current_actor_sound env supplied actor s s₁ got).0 in
    (actor, rw same at got, rw same at rest)

pub create_workspace-Contained :
    (env : Env) (supplied : Actor) (p : CreateWorkspace) (s s' : Store) (r : Reply)
    → Containers.create_workspace env supplied p s ≡ ok (r, s')
    → Contained env supplied s s'
unfolding Containers.create_workspace Repository.create_workspace Repository.set_member audit
create_workspace-Contained env supplied p s s' r h =
    let (actor, auth, rest) = acting env supplied _ s s' r h in
    record {
      actor = actor;
      authenticated = auth;
      tickets = ground arith;
      audited = grind (arith, length-write_audit_event);
    }

require_workspace_sound :
    (env : Env) (supplied : Actor) (id : ℕ) (s s' : Store) (got : Actor × WorkspaceRow)
    → require_workspace env supplied id s ≡ ok (got, s')
    → (s' ≡ s) × (current_actor env supplied s ≡ ok (got.0, s))
unfolding require_workspace
require_workspace_sound env supplied id s s' got h =
    let (actor, auth, rest) = acting env supplied _ s s' got h in ground arith

-- An action that begins with `requireWorkspace`.
in_workspace :
    (env : Env) (supplied : Actor) (id : ℕ) (k : Actor × WorkspaceRow → Db Reply) (s s' : Store)
    (r : Reply)
    → (require_workspace env supplied id >>= k) s ≡ ok (r, s')
    → (got : Actor × WorkspaceRow) × (current_actor env supplied s ≡ ok (got.0, s))
      × (k got s ≡ ok (r, s'))
in_workspace env supplied id k s s' r h =
    let (got, s₁, e, rest) = >>=-eq-ok (require_workspace env supplied id) k s h in
    let (same, auth) = require_workspace_sound env supplied id s s₁ got e in
    (got, auth, rw same at rest)

pub update_workspace-Contained :
    (env : Env) (supplied : Actor) (p : UpdateWorkspace) (s s' : Store) (r : Reply)
    → Containers.update_workspace env supplied p s ≡ ok (r, s')
    → Contained env supplied s s'
unfolding Containers.update_workspace Repository.update_workspace audit
update_workspace-Contained env supplied p s s' r h =
    let (got, auth, rest) = in_workspace env supplied p.workspace_id _ s s' r h in
    record {
      actor = got.0;
      authenticated = auth;
      tickets = ground arith;
      audited = grind (arith, length-write_audit_event);
    }

pub create_board-Contained :
    (env : Env) (supplied : Actor) (p : CreateBoard) (s s' : Store) (r : Reply)
    → Containers.create_board env supplied p s ≡ ok (r, s')
    → Contained env supplied s s'
unfolding Containers.create_board Repository.create_board Repository.update_workspace audit
create_board-Contained env supplied p s s' r h =
    let (got, auth, rest) = in_workspace env supplied p.workspace_id _ s s' r h in
    record {
      actor = got.0;
      authenticated = auth;
      tickets = ground arith;
      audited = grind (arith, length-write_audit_event);
    }

pub set_workspace_member-Contained :
    (env : Env) (supplied : Actor) (p : SetWorkspaceMember) (s s' : Store) (r : Reply)
    → Containers.set_workspace_member env supplied p s ≡ ok (r, s')
    → Contained env supplied s s'
unfolding Containers.set_workspace_member Repository.update_workspace Repository.set_member audit
set_workspace_member-Contained env supplied p s s' r h =
    let (got, auth, rest) = in_workspace env supplied p.workspace_id _ s s' r h in
    record {
      actor = got.0;
      authenticated = auth;
      tickets = ground arith;
      audited = grind (arith, length-write_audit_event);
    }

board_context_sound :
    (env : Env) (supplied : Actor) (id : ℕ) (s s' : Store) (got : Actor × BoardRow × Bool)
    → board_context env supplied id s ≡ ok (got, s')
    → (s' ≡ s) × (current_actor env supplied s ≡ ok (got.0, s))
unfolding board_context
board_context_sound env supplied id s s' got h = grind (arith, current_actor_sound)

on_board :
    (env : Env) (supplied : Actor) (id : ℕ) (k : Actor × BoardRow × Bool → Db Reply) (s s' : Store)
    (r : Reply)
    → (board_context env supplied id >>= k) s ≡ ok (r, s')
    → (got : Actor × BoardRow × Bool) × (board_context env supplied id s ≡ ok (got, s))
      × (current_actor env supplied s ≡ ok (got.0, s))
      × (k got s ≡ ok (r, s'))
on_board env supplied id k s s' r h =
    let (got, s₁, e, rest) = >>=-eq-ok (board_context env supplied id) k s h in
    let (same, auth) = board_context_sound env supplied id s s₁ got e in
    (got, rw same at e, auth, rw same at rest)

notify_all_keeps :
    (ts : List TicketRow) (actor : Actor) (event : String) (s : Store)
    → ((notify_all ts actor event s).tickets ≡ s.tickets)
      × ((notify_all ts actor event s).audits ≡ s.audits)
unfolding notify_all
notify_all_keeps [] actor event s = (refl, refl)
notify_all_keeps (t ∷ ts) actor event s = notify_all_keeps ts actor event _

pub update_board-Contained :
    (env : Env) (supplied : Actor) (p : UpdateBoard) (s s' : Store) (r : Reply)
    → Containers.update_board env supplied p s ≡ ok (r, s')
    → Contained env supplied s s'
unfolding Containers.update_board Repository.update_board audit
update_board-Contained env supplied p s s' r h =
    let (got, context, auth, rest) = on_board env supplied p.board_id _ s s' r h in
    record {
      actor = got.0;
      authenticated = auth;
      tickets = grind (arith, notify_all_keeps);
      audited = grind (arith, notify_all_keeps, length-write_audit_event);
    }

-- A created ticket: the actor is its creator and takes no other part in it, the board was at the
-- expected version and not archived, and it is published or the actor supervises its workspace.
pub record Created (env : Env) (supplied : Actor) (p : CreateTicket) (s s' : Store) (r : Reply)
    : Type 0 where
  pub actor : Actor
  pub authenticated : current_actor env supplied s ≡ ok (actor, s)
  pub board : BoardRow
  pub manager : Bool
  pub on_board : board_context env supplied p.board_id s ≡ ok ((actor, board, manager), s)
  pub board_version : board.version ≡ p.version
  pub board_open : (board.status ≡ published) ⊎ ((manager ≡ true) × (board.status ≡ draft))
  pub not_self : includes actor.id (p.assignee_ids ++ p.observer_ids) ≡ false
  pub tickets : s'.tickets ≡ s.tickets ++ new_ticket env p actor.id ∷ []
  pub hold : IsHoldValid (new_ticket env p actor.id)
  pub audited : length s'.audits ≡ length s.audits + 1
  pub replied : (r.id ≡ env.new_id) × (r.version ≡ 1)

pub create_ticket-Created :
    (env : Env) (supplied : Actor) (p : CreateTicket) (s s' : Store) (r : Reply)
    → Containers.create_ticket env supplied p s ≡ ok (r, s')
    → Created env supplied p s s' r
unfolding Containers.create_ticket Repository.create_ticket Repository.set_participants audit
    notify_ticket check_participants valid_ticket_state
create_ticket-Created env supplied p s s' r h =
    let (got, context, auth, rest) = on_board env supplied p.board_id _ s s' r h in
    record {
      actor = got.0;
      authenticated = auth;
      board = got.1;
      manager = got.2;
      on_board = context;
      board_version = ground arith;
      board_open = ground arith;
      not_self = ground arith;
      tickets = ground arith;
      hold = ground arith;
      audited = grind (arith, length-write_audit_event);
      replied = ground arith;
    }
