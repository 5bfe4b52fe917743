-- ===== src/Tickets/Notify.antt =====
-- modules/tickets/service.ts: `notifyTicket` and `audit`.
pub mod Laws
use Prim.Native.String.{String}
use scope_is_team_management.Base.{
  ℕ, Bool, false, ◌&&◌, not, Option, none, some, List, [], ◌∷◌, ◌++◌, map, find, filter, unique,
  ◌==◌, is_some, modify,
}
use scope_is_team_management.Shared.{employee, Actor, same_role}
use scope_is_team_management.Audit.{Metadata, of_record, write_audit_event}
use scope_is_team_management.Tickets.Types.{TicketRow}
use scope_is_team_management.Tickets.Repository.{
  Store, Db, NotificationRow, Person, people, active_scopes,
}
use scope_is_team_management.Tickets.Access.{ticket_context}

-- The candidates of a ticket's notification: its people and everyone in management, once each.
unfoldable pub recipient_ids : TicketRow → Store → List ℕ
recipient_ids ticket s = unique (
    ticket.creator_user_id
      ∷ map (λ p. p.user_id) (filter (λ p. p.ticket_id == ticket.id && p.active) s.participants)
    ++ map (λ p. p.user.id) (filter (λ p. not (same_role p.user.role employee)) (people s)))

abbrev pub active_person : ℕ → Store → Option Person
active_person id s = find (λ p. p.user.id == id && p.user.active) (people s)

abbrev pub recipient : Actor → Person → ℕ → Store → Actor
recipient actor person id s = record actor {
  id = id;
  role = person.user.role;
  scopes = active_scopes id s;
}

-- Whether a candidate is told: an active person other than the actor who can read the ticket.
unfoldable pub is_told : TicketRow → Actor → Store → ℕ → Bool
is_told ticket actor s id = elim (active_person id s) [
  | none ↦ false
  | some person ↦
      not (id == actor.id) && is_some (ticket_context (recipient actor person id s) ticket s)
]

abbrev notice : TicketRow → String → ℕ → NotificationRow
notice ticket event_type id = record {
  recipient_user_id = id;
  event_type = event_type;
  related_record_type = "ticket";
  related_record_id = ticket.id;
}

-- The notifications that one call inserts.
unfoldable pub notices : TicketRow → Actor → String → Store → List NotificationRow
unfolding is_told recipient_ids
notices ticket actor event_type s =
    map (notice ticket event_type) (filter (is_told ticket actor s) (recipient_ids ticket s))

-- `notifyTicket`
unfoldable pub notify_ticket : TicketRow → Actor → String → Db (Unit {0})
notify_ticket ticket actor event_type =
    modify (λ s. record s { notifications = s.notifications ++ notices ticket actor event_type s })

-- `notifyTicket` for each ticket of a list.
unfoldable pub notify_all : List TicketRow → Actor → String → Store → Store
notify_all [] actor event_type s = s
notify_all (t ∷ ts) actor event_type s =
    notify_all ts actor event_type
      (record s { notifications = s.notifications ++ notices t actor event_type s })

-- `audit`
unfoldable pub audit : Actor → String → ℕ → String → Metadata → Db (Unit {0})
audit actor action id target_type metadata = modify (λ s. record s {
  audits =
      write_audit_event
        (record {
          actor = some actor;
          action = action;
          target_type = target_type;
          target_id = some (of_record id);
          metadata = metadata;
        })
        s.audits;
})
