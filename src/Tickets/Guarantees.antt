-- ===== src/Tickets/Guarantees.antt =====
-- modules/tickets/service.ts: what `command` guarantees, whatever the action.
use mathlib.Core.Option
use scope_is_team_management.Base.{
  ℕ, ◌≡◌, ◌≢◌, ◌+◌, refl, sym, ap, subst, Bool, true, Option, none, some, List, length, arith, ok,
  ◌∙◌,
}
use scope_is_team_management.Shared.{Actor}
use scope_is_team_management.Tickets.Types.{TicketRow, TicketPermissions, UserRow, SessionRow}
use scope_is_team_management.Tickets.Repository.{Store, Env, ticket_row, ticket_bump}
use scope_is_team_management.Tickets.Validation.{
  TicketCommand, create_workspace, update_workspace, set_workspace_member, create_board,
  update_board, create_ticket, update_ticket, change_ticket_status, set_participants, add_work_log,
  edit_work_log, archive_ticket, restore_ticket,
}
use scope_is_team_management.Tickets.Access.{current_actor, TicketContext, ticket_context}
use scope_is_team_management.Tickets.Access.Laws.{Speaks, current_actor_sound}
use scope_is_team_management.Tickets.Commands.{command}
use scope_is_team_management.Tickets.Commands.Containers.{Reply, new_ticket}
use scope_is_team_management.Tickets.Commands.Applied.{
  Applied, archive_ticket-Applied, restore_ticket-Applied, change_ticket_status-Applied,
  update_ticket-Applied, set_participants-Applied, add_work_log-Applied, edit_work_log-Applied,
}
use scope_is_team_management.Tickets.Commands.Contained.{
  Contained, Created, create_workspace-Contained, update_workspace-Contained,
  create_board-Contained, set_workspace_member-Contained, update_board-Contained,
  create_ticket-Created,
}
use scope_is_team_management.Tickets.Rows.{
  TicketsValid, by_id, by_id-updated_self, by_id-updated_ne, updated-TicketsValid,
  TicketsValid-append,
}

-- The ticket that a command changes, the version that it expects, and the permission that it needs.
pub record Target : Type 0 where
  pub id : ℕ
  pub version : ℕ
  pub permission : TicketPermissions → Bool

abbrev pub target : TicketCommand → Option Target
target (update_ticket p) =
    some (record { id = p.ticket_id; version = p.version; permission = λ q. q.edit })
target (change_ticket_status p) =
    some (record { id = p.ticket_id; version = p.version; permission = λ q. q.edit })
target (set_participants p) =
    some (record { id = p.ticket_id; version = p.version; permission = λ q. q.manage_people })
target (add_work_log p) =
    some (record { id = p.ticket_id; version = p.version; permission = λ q. q.log })
target (edit_work_log id p) =
    some (record { id = p.ticket_id; version = p.version; permission = λ q. q.log })
target (archive_ticket id version) =
    some (record { id = id; version = version; permission = λ q. q.archive })
target (restore_ticket id version) =
    some (record { id = id; version = version; permission = λ q. q.restore })
target _ = none

-- What a successful command has done, by the kind of its action.
abbrev Change : Env → Actor → Target → Store → Store → Reply → Type 0
Change env supplied t s s' r =
    (values : TicketContext → TicketRow → TicketRow) × Applied env supplied t.id t.version
      t.permission values s s' r

data Effect (env : Env) (supplied : Actor) (s s' : Store) (r : Reply) : TicketCommand → Type 0 where
  changed :
      {c : TicketCommand} (t : Target)
      → target c ≡ some t
      → Change env supplied t s s' r
      → Effect env supplied s s' r c
  contained :
      {c : TicketCommand}
      → target c ≡ none
      → Contained env supplied s s'
      → Effect env supplied s s' r c
  created :
      {c : TicketCommand} (p : _)
      → c ≡ create_ticket p
      → Created env supplied p s s' r
      → Effect env supplied s s' r c

effect :
    (env : Env) (supplied : Actor) (c : TicketCommand) (s s' : Store) (r : Reply)
    → command env supplied c s ≡ ok (r, s')
    → Effect env supplied s s' r c
unfolding command
effect env supplied (create_workspace p) s s' r h =
    contained refl (create_workspace-Contained env supplied p s s' r h)
effect env supplied (update_workspace p) s s' r h =
    contained refl (update_workspace-Contained env supplied p s s' r h)
effect env supplied (set_workspace_member p) s s' r h =
    contained refl (set_workspace_member-Contained env supplied p s s' r h)
effect env supplied (create_board p) s s' r h =
    contained refl (create_board-Contained env supplied p s s' r h)
effect env supplied (update_board p) s s' r h =
    contained refl (update_board-Contained env supplied p s s' r h)
effect env supplied (create_ticket p) s s' r h =
    created p refl (create_ticket-Created env supplied p s s' r h)
effect env supplied (update_ticket p) s s' r h =
    changed _ refl (_, update_ticket-Applied env supplied p s s' r h)
effect env supplied (change_ticket_status p) s s' r h =
    changed _ refl (_, change_ticket_status-Applied env supplied p s s' r h)
effect env supplied (set_participants p) s s' r h =
    changed _ refl (_, set_participants-Applied env supplied p s s' r h)
effect env supplied (add_work_log p) s s' r h =
    changed _ refl (_, add_work_log-Applied env supplied p s s' r h)
effect env supplied (edit_work_log id p) s s' r h =
    changed _ refl (_, edit_work_log-Applied env supplied id p s s' r h)
effect env supplied (archive_ticket id version) s s' r h =
    changed _ refl (_, archive_ticket-Applied env supplied id version s s' r h)
effect env supplied (restore_ticket id version) s s' r h =
    changed _ refl (_, restore_ticket-Applied env supplied id version s s' r h)

inverted :
    (env : Env) (supplied : Actor) (c : TicketCommand) (t : Target) (s s' : Store) (r : Reply)
    → target c ≡ some t
    → Effect env supplied s s' r c
    → Change env supplied t s s' r
inverted env supplied c t s s' r e (changed u f change) =
    subst (λ v. Change env supplied v s s' r) (Option.some-injective _ _ (sym f ∙ e)) change
inverted env supplied c t s s' r e (contained f _) = cc
inverted env supplied c t s s' r e (created p f _) = cc (ap target f)

-- A successful command whose action names a ticket and a version: the caller is authenticated; the ticket stood in the table at
-- the expected version; the actor, as the database has it, could see it and held the permission
-- that the action needs; afterwards the row has the next version, which is the one that the reply
-- names, and every other ticket is as it was.
pub command_change :
    (env : Env) (supplied : Actor) (c : TicketCommand) (t : Target) (s s' : Store) (r : Reply)
    → target c ≡ some t
    → command env supplied c s ≡ ok (r, s')
    → (context : TicketContext) × (updated : TicketRow) × (current_actor env supplied s
        ≡ ok (context.actor, s))
      × (ticket_row t.id s ≡ some context.ticket)
      × (context.ticket.version ≡ t.version)
      × (ticket_context context.actor context.ticket s ≡ some context)
      × (t.permission context.permissions ≡ true)
      × (ticket_row t.id s' ≡ some updated)
      × (updated.version ≡ t.version + 1)
      × (r.id ≡ t.id)
      × (r.version ≡ t.version + 1)
      × ((other : ℕ) → other ≢ t.id → ticket_row other s' ≡ ticket_row other s)
command_change env supplied c t s s' r e h =
    let (values, a) = inverted env supplied c t s s' r e (effect env supplied c s s' r h) in
    (
      a.context,
      ticket_bump env (values a.context) a.context.ticket,
      a.authenticated,
      a.row,
      a.at_version,
      a.seen,
      a.permitted,
      subst
          (λ (xs : List TicketRow).
            by_id t.id xs ≡ some (ticket_bump env (values a.context) a.context.ticket))
          (sym a.written)
          (by_id-updated_self env t.id t.version (values a.context) a.keeps_id s.tickets
            a.context.ticket a.row a.at_version),
      omega (arith, a.at_version),
      a.reply_id,
      a.reply_version,
      λ other ne.
          subst (λ (xs : List TicketRow). by_id other xs ≡ by_id other s.tickets) (sym a.written)
            (by_id-updated_ne env t.id t.version (values a.context) a.keeps_id other s.tickets ne),
    )

-- Optimistic concurrency: once a command has changed a ticket, no command that still expects the
-- old version of that ticket succeeds, whoever sends it and whatever it asks for.
pub second_writer_fails :
    (env env' : Env) (supplied supplied' : Actor) (c c' : TicketCommand) (t t' : Target)
    (s s' s'' : Store) (r r' : Reply)
    → target c ≡ some t
    → target c' ≡ some t'
    → t'.id ≡ t.id
    → t'.version ≡ t.version
    → command env supplied c s ≡ ok (r, s')
    → command env' supplied' c' s' ≢ ok (r', s'')
second_writer_fails env env' supplied supplied' c c' t t' s s' s'' r r' e e' same_id same_version h
      h' =
    let first = command_change env supplied c t s s' r e h in
    let second = command_change env' supplied' c' t' s' s'' r' e' h' in
    let rows = sym first.7 ∙ subst (λ k. ticket_row k s' ≡ some second.0.ticket) same_id second.3 in
    let one = ap (λ (x : TicketRow). x.version) (Option.some-injective _ _ rows) in
    absurd (omega (arith, one, first.8, second.4))

spoken :
    (env : Env) (supplied : Actor) (s : Store) (actor : Actor)
    → current_actor env supplied s ≡ ok (actor, s)
    → (user : UserRow) × (session : SessionRow) × Speaks env supplied s user session
spoken env supplied s actor h =
    let (user, session, speaks, _) = (current_actor_sound env supplied actor s s h).1 in
    (user, session, speaks)

-- Every successful command rests on a user and a session, as the database has them, that speak for the
-- caller.
pub command_is_authenticated :
    (env : Env) (supplied : Actor) (c : TicketCommand) (s s' : Store) (r : Reply)
    → command env supplied c s ≡ ok (r, s')
    → (user : UserRow) × (session : SessionRow) × Speaks env supplied s user session
command_is_authenticated env supplied c s s' r h = elim (effect env supplied c s s' r h) [
  | changed t _ change ↦ spoken env supplied s _ change.1.authenticated
  | contained _ done ↦ spoken env supplied s done.actor done.authenticated
  | created p _ done ↦ spoken env supplied s done.actor done.authenticated
]

-- Every successful command adds exactly one row to the audit events.
pub command_is_audited :
    (env : Env) (supplied : Actor) (c : TicketCommand) (s s' : Store) (r : Reply)
    → command env supplied c s ≡ ok (r, s')
    → length s'.audits ≡ length s.audits + 1
command_is_audited env supplied c s s' r h = elim (effect env supplied c s s' r h) [
  | changed t _ change ↦ change.1.audited
  | contained _ done ↦ done.audited
  | created p _ done ↦ done.audited
]

-- A valid ticket table stays valid under every successful command, where no ticket has the id that the
-- database generates: no id stands twice, a ticket on hold has a reason that is not blank, and no
-- other ticket keeps one.
pub command_keeps_valid :
    (env : Env) (supplied : Actor) (c : TicketCommand) (s s' : Store) (r : Reply)
    → ticket_row env.new_id s ≡ none
    → TicketsValid s.tickets
    → command env supplied c s ≡ ok (r, s')
    → TicketsValid s'.tickets
command_keeps_valid env supplied c s s' r fresh valid h = elim (effect env supplied c s s' r h) [
  | changed t _ (values, a) ↦ subst TicketsValid (sym a.written) (
      updated-TicketsValid env t.id t.version (values a.context) a.keeps_id s.tickets
        a.context.ticket valid a.row a.at_version a.keeps_hold)
  | contained _ done ↦ subst TicketsValid (sym done.tickets) valid
  | created p _ done ↦
      subst TicketsValid (sym done.tickets)
        (TicketsValid-append s.tickets (new_ticket env p done.actor.id) valid fresh done.hold)
]
