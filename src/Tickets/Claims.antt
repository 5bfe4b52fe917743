-- ===== src/Tickets/Claims.antt =====
-- modules/tickets/service.ts: a command does not depend on what its caller claims about itself.
use scope_is_team_management.Base.{◌≡◌, refl, ap, ◌∙◌}
use scope_is_team_management.Shared.{Actor}
use scope_is_team_management.Tickets.Repository.{Store, Env}
use scope_is_team_management.Tickets.Validation.{
  TicketCommand, create_workspace, update_workspace, set_workspace_member, create_board,
  update_board, create_ticket, update_ticket, change_ticket_status, set_participants, add_work_log,
  edit_work_log, archive_ticket, restore_ticket,
}
use scope_is_team_management.Tickets.Access.{current_actor, load_ticket_context, is_current}
use scope_is_team_management.Tickets.Commands.{command}
use scope_is_team_management.Tickets.Commands.Containers
use scope_is_team_management.Tickets.Commands.Changes

-- The caller `a`, with the claims of `b`.
abbrev claiming : Actor → Actor → Actor
claiming a b = record b {
  id = a.id;
  session_id = a.session_id;
  session_version = a.session_version;
}

claims_unread :
    (env : Env) (a b : Actor) (c : TicketCommand) (s : Store)
    → command env a c s ≡ command env (claiming a b) c s
unfolding command current_actor load_ticket_context is_current Containers.create_workspace
    Containers.require_workspace Containers.update_workspace Containers.create_board
    Containers.set_workspace_member Containers.board_context Containers.update_board
    Containers.create_ticket Changes.access Changes.archive_ticket Changes.restore_ticket
    Changes.set_participants Changes.change_ticket_status Changes.update_ticket Changes.add_work_log
    Changes.edit_work_log
claims_unread env a b (create_workspace p) s = refl
claims_unread env a b (update_workspace p) s = refl
claims_unread env a b (set_workspace_member p) s = refl
claims_unread env a b (create_board p) s = refl
claims_unread env a b (update_board p) s = refl
claims_unread env a b (create_ticket p) s = refl
claims_unread env a b (update_ticket p) s = refl
claims_unread env a b (change_ticket_status p) s = refl
claims_unread env a b (set_participants p) s = refl
claims_unread env a b (add_work_log p) s = refl
claims_unread env a b (edit_work_log id p) s = refl
claims_unread env a b (archive_ticket id version) s = refl
claims_unread env a b (restore_ticket id version) s = refl

-- Two callers with the same user id, session id and session version get the same reply and the same
-- tables from every command, whatever role, name, grants and kind of session they claim.
pub command_ignores_claims :
    (env : Env) (a b : Actor) (c : TicketCommand) (s : Store)
    → a.id ≡ b.id
    → a.session_id ≡ b.session_id
    → a.session_version ≡ b.session_version
    → command env a c s ≡ command env b c s
command_ignores_claims env a b c s i r v =
    claims_unread env a b c s
    ∙ (let same : claiming a b ≡ b = rw (i, r, v) refl in ap (λ x. command env x c s) same)
