-- ===== src/Tickets/Commands.antt =====
-- modules/tickets/service.ts: `command`, which dispatches on the action. Each action runs in one
-- database transaction, so an error leaves the tables as they were.
pub mod Containers
pub mod Changes
pub mod Applied
pub mod Contained
use scope_is_team_management.Base.{◌≡◌}
use scope_is_team_management.Shared.{Actor}
use scope_is_team_management.Tickets.Validation.{
  TicketCommand, create_workspace, update_workspace, set_workspace_member, create_board,
  update_board, create_ticket, update_ticket, change_ticket_status, set_participants, add_work_log,
  edit_work_log, archive_ticket, restore_ticket,
}
use scope_is_team_management.Tickets.Repository.{Env, Db}
use Containers.{Reply}

-- `command`, on a parsed input.
unfoldable pub command : Env → Actor → TicketCommand → Db Reply
command env supplied (create_workspace p) = Containers.create_workspace env supplied p
command env supplied (update_workspace p) = Containers.update_workspace env supplied p
command env supplied (set_workspace_member p) = Containers.set_workspace_member env supplied p
command env supplied (create_board p) = Containers.create_board env supplied p
command env supplied (update_board p) = Containers.update_board env supplied p
command env supplied (create_ticket p) = Containers.create_ticket env supplied p
command env supplied (update_ticket p) = Changes.update_ticket env supplied p
command env supplied (change_ticket_status p) = Changes.change_ticket_status env supplied p
command env supplied (set_participants p) = Changes.set_participants env supplied p
command env supplied (add_work_log p) = Changes.add_work_log env supplied p
command env supplied (edit_work_log id p) = Changes.edit_work_log env supplied id p
command env supplied (archive_ticket id version) = Changes.archive_ticket env supplied id version
command env supplied (restore_ticket id version) = Changes.restore_ticket env supplied id version
