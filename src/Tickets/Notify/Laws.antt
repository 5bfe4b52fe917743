-- ===== src/Tickets/Notify/Laws.antt =====
-- modules/tickets/service.ts: who is told of a change of a ticket.
use Prim.Native.String.{String}
use scope_is_team_management.Base.{
  ℕ, ◌≡◌, ◌≢◌, ◌⊎◌, Bool, true, not, ◌&&◌, ◌==◌, some, List, map, filter, Memᴰ,
}
use scope_is_team_management.Shared.{Actor, employee, same_role}
use scope_is_team_management.Tickets.Types.{TicketRow, ParticipantRow, BoardRow, WorkspaceRow}
use scope_is_team_management.Tickets.Policy.{can_read_ticket}
use scope_is_team_management.Tickets.Repository.{
  Store, NotificationRow, Person, people, board_row, workspace_row,
}
use scope_is_team_management.Tickets.Access.{policy_input}
use scope_is_team_management.Tickets.Notify.{active_person, recipient}

-- Someone whom a change of a ticket may concern: its creator, an active participant, or anyone who
-- is not an employee.
abbrev pub IsConcerned : TicketRow → Store → ℕ → Type 0
IsConcerned ticket s id =
    (id ≡ ticket.creator_user_id)
    ⊎ (((p : ParticipantRow) × Memᴰ p s.participants
          × (p.ticket_id ≡ ticket.id)
          × (p.active ≡ true)
          × (p.user_id ≡ id))
        ⊎ ((q : Person) × Memᴰ q (people s) × (q.user.role ≢ employee) × (q.user.id ≡ id)))

-- The ticket stands on a board of a workspace, and the policy lets the actor read it.
abbrev pub MaySee : Actor → TicketRow → Store → Type 0
MaySee actor ticket s =
    (board : BoardRow) × (workspace : WorkspaceRow) × (board_row ticket.board_id s ≡ some board)
    × (workspace_row board.workspace_id s ≡ some workspace)
    × (can_read_ticket actor (policy_input actor ticket board workspace s) ≡ true)

-- Someone who is to be told: a concerned and active person other than the actor, whom the policy
-- lets read the ticket with the role and the grants that the database has for that person.
abbrev pub IsAddressed : TicketRow → Actor → Store → ℕ → Type 0
IsAddressed ticket actor s id =
    IsConcerned ticket s id
    × (id ≢ actor.id)
    × ((person : Person) × (active_person id s ≡ some person)
        × MaySee (recipient actor person id s) ticket s)

abbrev takes_part : TicketRow → ParticipantRow → Bool
takes_part ticket p = p.ticket_id == ticket.id && p.active

abbrev is_senior : Person → Bool
is_senior p = not (same_role p.user.role employee)

abbrev those_taking_part : TicketRow → Store → List ℕ
those_taking_part ticket s = map (λ p. p.user_id) (filter (takes_part ticket) s.participants)

abbrev seniors : Store → List ℕ
seniors s = map (λ p. p.user.id) (filter is_senior (people s))

-- The notification that one person gets.
abbrev pub told : TicketRow → String → ℕ → NotificationRow
told ticket event_type id = record {
  recipient_user_id = id;
  event_type = event_type;
  related_record_type = "ticket";
  related_record_id = ticket.id;
}
