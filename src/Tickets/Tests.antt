-- ===== src/Tickets/Tests.antt =====
-- modules/tickets: a concrete database, two runs of an action on it, and examples.
use scope_is_team_management.Base.{
  ℕ, ◌≡◌, ◌≢◌, refl, true, false, none, some, [], ◌∷◌, length, ◌+◌, arith, ◌↔◌, ◌⊎◌, codes, ok, err,
  Result, committed, Memᴰ, inl,
}
use scope_is_team_management.Shared.{
  Actor, super_admin, admin, employee, password, uuid, AppError, ScopeGrant, team, client, project,
}
use scope_is_team_management.Tickets.Types.{
  published, draft, archived, open_ticket, medium, UserRow, SessionRow, TicketRow, assignee,
}
use scope_is_team_management.Tickets.Policy.{
  PolicyInput, ticket_person_in_scope, can_read_ticket, ticket_permissions,
  can_manage_ticket_workspace, WorkspaceLinks, ScopedPerson,
}
use scope_is_team_management.Tickets.Policy.Laws.{
  edit_iff, archive_restore_iff, unpublished_is_private, can_manage_iff, ticket_person_in_scope_iff,
  IsLive, Leads,
}
use scope_is_team_management.Tickets.Repository.{Store, Env, ticket_row, update_ticket}
use scope_is_team_management.Tickets.Notify.{audit, notify_ticket}
use scope_is_team_management.Tickets.Commands.Changes.{archive_ticket, access, write_ticket, finish}
use scope_is_team_management.Tickets.Validation.{TicketCommand}
use scope_is_team_management.Tickets.Access.{
  current_actor, actor_of, load_ticket_context, TicketContext, is_current, ticket_context,
  context_on, policy_input, manages_ticket, manages_workspace,
}
use scope_is_team_management.Tickets.Access.Laws.{
  Speaks, current_actor_sound, current_actor_complete,
}
use scope_is_team_management.Tickets.Commands.{command}
use scope_is_team_management.Tickets.Commands.Containers.{Reply}
use scope_is_team_management.Tickets.Claims.{command_ignores_claims}
use scope_is_team_management.Tickets.Rows.{TicketsValid}
use scope_is_team_management.Tickets.Guarantees.{
  command_change, second_writer_fails, command_is_authenticated, command_is_audited,
  command_keeps_valid, Target,
}

abbrev boss_row : UserRow
boss_row = record {
  id = 1;
  display_name = "Boss";
  role = super_admin;
  active = true;
  session_version = 3;
}

abbrev boss_session : SessionRow
boss_session = record {
  id = 100;
  user_id = 1;
  authentication_mode = password;
  session_version = 3;
  expires_at = 1000;
  revoked_at = none;
}

abbrev ticket : TicketRow
ticket = record {
  id = 30;
  number = 1;
  board_id = 20;
  subject = codes "Printer";
  status = open_ticket;
  priority = medium;
  ticket_date = 20260105;
  due_date = none;
  summary = none;
  planning = none;
  work_completed = none;
  notes = none;
  on_hold_reason = none;
  creator_user_id = 1;
  archived_at = none;
  archived_by_user_id = none;
  version = 5;
  created_at = 10;
  updated_at = 10;
}

abbrev before : Store
before = record {
  users = boss_row ∷ [];
  profiles = [];
  sessions = boss_session ∷ [];
  credentials = [];
  grants = [];
  clients = [];
  projects = [];
  workspaces =
      record {
        id = 10;
        name = codes "Help desk";
        description = none;
        client_id = none;
        project_id = none;
        created_by_user_id = 1;
        version = 1;
        created_at = 10;
        updated_at = 10;
      }
      ∷ [];
  members = [];
  boards =
      record {
        id = 20;
        workspace_id = 10;
        name = codes "Inbox";
        status = published;
        created_by_user_id = 1;
        version = 1;
        created_at = 10;
        updated_at = 10;
      }
      ∷ [];
  tickets = ticket ∷ [];
  participants = [];
  logs = [];
  files = [];
  audits = [];
  notifications = [];
}

abbrev env : Env
env = record { now = 50; new_id = 77; new_number = 2; mock_allowed = false }

-- The caller, with a role and a grant that the database does not know of.
abbrev boss : Actor
boss = record {
  id = 1;
  display_name = "?";
  role = employee;
  session_id = uuid 100;
  session_version = 3;
  scopes = record { type = team; reference = 8 } ∷ [];
  authentication_mode = password;
}

abbrev put_away : TicketCommand
put_away = TicketCommand.archive_ticket 30 5

abbrev run : Result AppError (Reply × Store)
run = command env boss put_away before

abbrev reply_of : Result AppError (Reply × Store) → Reply
reply_of (ok (r, s)) = r
reply_of (err e) = record { id = 0; version = 0; work_log_id = none }

abbrev after : Store
after = committed before run

opened : Unit {0}
unfolding command current_actor load_ticket_context is_current ticket_context context_on
    can_read_ticket policy_input manages_ticket manages_workspace can_manage_ticket_workspace
    ticket_permissions archive_ticket access write_ticket finish update_ticket audit notify_ticket
    ticket_person_in_scope
opened = tt

run-eq-ok : command env boss put_away before ≡ ok (reply_of run, after)
unfolding opened
run-eq-ok = refl

valid_before : TicketsValid before.tickets
valid_before = ground arith

fresh : ticket_row env.new_id before ≡ none
fresh = refl

speaks : Speaks env boss before boss_row boss_session
speaks = record {
  user_found = refl;
  session_found = (100, refl, refl);
  user_active = refl;
  owner = refl;
  not_revoked = refl;
  not_expired = omega arith;
  session_version = refl;
  supplied_version = refl;
  no_change_due = λ c h. cc;
  mode = inl refl;
}

abbrev on_ticket : Target
on_ticket = record { id = 30; version = 5; permission = λ p. p.archive }

command_change_example :
    (context : TicketContext) × (updated : TicketRow) × (current_actor env boss before
      ≡ ok (context.actor, before))
    × (ticket_row 30 before ≡ some context.ticket)
    × (context.ticket.version ≡ 5)
    × (ticket_context context.actor context.ticket before ≡ some context)
    × (context.permissions.archive ≡ true)
    × (ticket_row 30 after ≡ some updated)
    × (updated.version ≡ 6)
    × ((reply_of run).id ≡ 30)
    × ((reply_of run).version ≡ 6)
    × ((other : ℕ) → other ≢ 30 → ticket_row other after ≡ ticket_row other before)
command_change_example =
    command_change env boss put_away on_ticket before after (reply_of run) refl run-eq-ok

second_writer_fails_example : command env boss put_away after ≢ ok (reply_of run, after)
second_writer_fails_example =
    second_writer_fails env env boss boss put_away put_away on_ticket on_ticket before after after
      (reply_of run) (reply_of run) refl refl refl refl run-eq-ok

command_is_authenticated_example :
    (user : UserRow) × (session : SessionRow) × Speaks env boss before user session
command_is_authenticated_example =
    command_is_authenticated env boss put_away before after (reply_of run) run-eq-ok

command_is_audited_example : length after.audits ≡ length before.audits + 1
command_is_audited_example =
    command_is_audited env boss put_away before after (reply_of run) run-eq-ok

command_keeps_valid_example : TicketsValid after.tickets
command_keeps_valid_example =
    command_keeps_valid env boss put_away before after (reply_of run) fresh valid_before run-eq-ok

current_actor_complete_example :
    current_actor env boss before ≡ ok (actor_of boss_row boss_session before, before)
current_actor_complete_example = current_actor_complete env boss before boss_row boss_session speaks

current_actor_sound_example :
    (before ≡ before)
    × ((user : UserRow) × (session : SessionRow) × Speaks env boss before user session
        × (actor_of boss_row boss_session before ≡ actor_of user session before))
current_actor_sound_example =
    current_actor_sound env boss (actor_of boss_row boss_session before) before before
      (current_actor_complete env boss before boss_row boss_session speaks)

-- An Admin with a TEAM grant and a grant on a client, and what the policy reads of a ticket.
abbrev supervisor : Actor
supervisor = record boss {
  id = 2;
  role = admin;
  scopes = record { type = team; reference = 8 } ∷ record { type = client; reference = 4 } ∷ [];
}

abbrev shared_ticket : PolicyInput
shared_ticket = record {
  manager = false;
  member = true;
  board_status = published;
  creator_user_id = 1;
  participation = some assignee;
  is_archived = false;
}

edit_iff_example : ((ticket_permissions supervisor shared_ticket).edit ≡ true) ↔ (
    (can_read_ticket supervisor shared_ticket ≡ true)
    × IsLive shared_ticket
    × (Leads supervisor shared_ticket ⊎ (some assignee ≡ some assignee)))
edit_iff_example = edit_iff supervisor shared_ticket

archive_restore_iff_example :
    (((ticket_permissions supervisor shared_ticket).archive ≡ true) ↔ (
      (can_read_ticket supervisor shared_ticket ≡ true)
      × (false ≡ false)
      × Leads supervisor shared_ticket))
    × (((ticket_permissions supervisor shared_ticket).restore ≡ true) ↔ (
        (can_read_ticket supervisor shared_ticket ≡ true)
        × (false ≡ true)
        × Leads supervisor shared_ticket
        × (published ≢ archived)))
archive_restore_iff_example = archive_restore_iff supervisor shared_ticket

unpublished_is_private_example :
    can_read_ticket supervisor (record shared_ticket { board_status = draft }) ≡ false
unpublished_is_private_example =
    unpublished_is_private supervisor (record shared_ticket { board_status = draft }) (λ e. cc)

abbrev linked : WorkspaceLinks
linked = record { client_id = some 4; project_id = none }

can_manage_iff_example : (can_manage_ticket_workspace supervisor linked true ≡ true) ↔ (
    (admin ≡ super_admin)
    ⊎ ((admin ≡ admin)
        × (true ≡ true)
        × ((g : ScopeGrant) × Memᴰ g supervisor.scopes × (g.type ≡ team))
        × ((g : ScopeGrant) × Memᴰ g supervisor.scopes
            × (((g.type ≡ client) × (some 4 ≡ some g.reference))
                ⊎ ((g.type ≡ project) × (none ≡ some g.reference))))))
can_manage_iff_example = can_manage_iff supervisor linked true

abbrev worker : ScopedPerson
worker = record { id = 5; role = employee; team = some 8 }

ticket_person_in_scope_iff_example : (ticket_person_in_scope supervisor worker ≡ true) ↔ (
    (supervisor.role ≡ super_admin)
    ⊎ ((supervisor.id ≡ worker.id)
        ⊎ ((supervisor.role ≡ admin)
            × (worker.role ≡ employee)
            × ((t : ℕ) × (worker.team ≡ some t)
                × ((g : ScopeGrant) × Memᴰ g supervisor.scopes
                    × (g.type ≡ team)
                    × (g.reference ≡ t))))))
ticket_person_in_scope_iff_example = ticket_person_in_scope_iff supervisor worker

command_ignores_claims_example :
    command env boss put_away before
    ≡ command env (record boss { role = super_admin; scopes = [] }) put_away before
command_ignores_claims_example =
    command_ignores_claims env boss (record boss { role = super_admin; scopes = [] }) put_away
      before refl refl refl
