-- ===== src/Tickets/Commands/Changes.antt =====
-- modules/tickets/service.ts: the commands on an existing ticket.
use Prim.Native.String.{String}
use scope_is_team_management.Base.{
  ℕ, false, ◌&&◌, not, Option, none, some, [], ◌∷◌, ◌++◌, includes, ◌==◌, if◌then◌else◌, codes,
  Text, ◌>>=◌, ◌>>◌, pure, gets, ensure, found,
}
use scope_is_team_management.Shared.{uuid, Actor, unavailable, stale, validation}
use scope_is_team_management.Audit.{Metadata, number}
use scope_is_team_management.Tickets.Types.{on_hold, same_status, TicketRow}
use scope_is_team_management.Tickets.Repository
use scope_is_team_management.Tickets.Repository.{Store, Env, Db, log_row}
use scope_is_team_management.Tickets.Validation.{
  UpdateTicket, ChangeTicketStatus, SetParticipants, WorkLogInput, valid_ticket_state,
}
use scope_is_team_management.Tickets.Access.{TicketContext, load_ticket_context}
use scope_is_team_management.Tickets.Notify.{audit, notify_ticket}
use scope_is_team_management.Tickets.Commands.Containers.{Reply, check_participants}

abbrev log_metadata : Option ℕ → Metadata
log_metadata none = []
log_metadata (some id) = (codes "workLogId", number id) ∷ []

-- The end of every action on a ticket: a lost update is stale, then audit and notifications.
unfoldable pub finish : Actor → ℕ → String → Option ℕ → Option TicketRow → Db Reply
finish actor ticket_id event work_log_id hit = do
  updated ← found hit stale
  audit actor event ticket_id "ticket"
      ((codes "version", number updated.version) ∷ log_metadata work_log_id)
  notify_ticket updated actor event
  pure (record { id = updated.id; version = updated.version; work_log_id = work_log_id })

-- The write of the ticket's row, where it still has the version that was read, and then `finish`.
unfoldable pub write_ticket :
    Env → TicketContext → (TicketRow → TicketRow) → String → Option ℕ → Db Reply
write_ticket env context values event work_log_id = do
  hit ← Repository.update_ticket env context.ticket.id context.ticket.version values
  finish context.actor context.ticket.id event work_log_id hit

-- The start of every action on a ticket: the context at the version that the caller saw.
unfoldable pub access : Env → Actor → ℕ → ℕ → Db TicketContext
access env supplied ticket_id version =
    load_ticket_context env supplied (uuid ticket_id) false (some version)

-- The action `archiveTicket`.
unfoldable pub archive_ticket : Env → Actor → ℕ → ℕ → Db Reply
archive_ticket env supplied ticket_id version = do
  context ← access env supplied ticket_id version
  ensure context.permissions.archive unavailable
  write_ticket env context
      (λ t. record t { archived_at = some env.now; archived_by_user_id = some context.actor.id })
      "ticket.archived" none

-- The action `restoreTicket`.
unfoldable pub restore_ticket : Env → Actor → ℕ → ℕ → Db Reply
restore_ticket env supplied ticket_id version = do
  context ← access env supplied ticket_id version
  ensure context.permissions.restore unavailable
  write_ticket env context (λ t. record t { archived_at = none; archived_by_user_id = none })
      "ticket.restored" none

-- The action `setParticipants`.
unfoldable pub set_participants : Env → Actor → SetParticipants → Db Reply
set_participants env supplied parsed = do
  context ← access env supplied parsed.ticket_id parsed.version
  ensure context.permissions.manage_people unavailable
  ensure
      (not (includes context.ticket.creator_user_id (parsed.assignee_ids ++ parsed.observer_ids)))
      validation
  check_participants parsed.assignee_ids parsed.observer_ids
  Repository.set_participants env context.ticket.id parsed.assignee_ids parsed.observer_ids
      context.actor.id
  write_ticket env context (λ t. t) "ticket.participants_updated" none

-- The values that a status change writes.
abbrev pub status_values : ChangeTicketStatus → TicketRow → TicketRow
status_values parsed t = record t {
  status = parsed.status;
  on_hold_reason = if same_status parsed.status on_hold then parsed.on_hold_reason else none;
}

-- The action `changeTicketStatus`.
unfoldable pub change_ticket_status : Env → Actor → ChangeTicketStatus → Db Reply
change_ticket_status env supplied parsed = do
  context ← access env supplied parsed.ticket_id parsed.version
  ensure context.permissions.edit unavailable
  let values = status_values parsed context.ticket
  ensure (valid_ticket_state values.status values.on_hold_reason) validation
  write_ticket env context (status_values parsed) "ticket.updated" none

abbrev pub or_keep {ℓ} : {A : Type ℓ} → Option A → A → A
or_keep none a = a
or_keep (some b) a = b

-- `{ ...ticket, ...values }`
abbrev pub merged : UpdateTicket → TicketRow → TicketRow
merged parsed t = record t {
  subject = or_keep parsed.subject t.subject;
  ticket_date = or_keep parsed.ticket_date t.ticket_date;
  due_date = or_keep parsed.due_date t.due_date;
  status = or_keep parsed.status t.status;
  priority = or_keep parsed.priority t.priority;
  summary = or_keep parsed.summary t.summary;
  planning = or_keep parsed.planning t.planning;
  work_completed = or_keep parsed.work_completed t.work_completed;
  notes = or_keep parsed.notes t.notes;
  on_hold_reason = or_keep parsed.on_hold_reason t.on_hold_reason;
}

-- `values.onHoldReason ?? ticket.onHoldReason`
abbrev pub kept_reason : Option (Option Text) → Option Text → Option Text
kept_reason none old = old
kept_reason (some none) old = old
kept_reason (some (some r)) old = some r

-- What `updateTicket` writes into a row, with status and reason taken from the row it has read.
abbrev pub update_values : UpdateTicket → TicketRow → TicketRow → TicketRow
update_values parsed read t = record (merged parsed t) {
  on_hold_reason =
      if same_status (or_keep parsed.status read.status) on_hold
      then kept_reason parsed.on_hold_reason read.on_hold_reason
      else none;
}

-- The action `updateTicket`.
unfoldable pub update_ticket : Env → Actor → UpdateTicket → Db Reply
update_ticket env supplied parsed = do
  context ← access env supplied parsed.ticket_id parsed.version
  ensure context.permissions.edit unavailable
  let values = merged parsed context.ticket
  ensure (valid_ticket_state values.status values.on_hold_reason) validation
  write_ticket env context (update_values parsed context.ticket) "ticket.updated" none

-- The action `addWorkLog`.
unfoldable pub add_work_log : Env → Actor → WorkLogInput → Db Reply
add_work_log env supplied parsed = do
  context ← access env supplied parsed.ticket_id parsed.version
  ensure context.permissions.log unavailable
  log ←
      Repository.create_log env context.ticket.id context.actor.id parsed.description
        (or_keep parsed.logged_at env.now) parsed.duration_minutes
  write_ticket env context (λ t. t) "ticket.work_log_created" (some log.id)

-- The action `editWorkLog`: only the author edits an entry, and only on its own ticket.
unfoldable pub edit_work_log : Env → Actor → ℕ → WorkLogInput → Db Reply
edit_work_log env supplied work_log_id parsed = do
  context ← access env supplied parsed.ticket_id parsed.version
  ensure context.permissions.log unavailable
  log ← found (← gets (log_row work_log_id)) unavailable
  ensure (log.ticket_id == context.ticket.id && log.author_user_id == context.actor.id) unavailable
  Repository.update_log env log.id parsed.description (or_keep parsed.logged_at log.logged_at)
      parsed.duration_minutes
  write_ticket env context (λ t. t) "ticket.work_log_updated" (some log.id)
