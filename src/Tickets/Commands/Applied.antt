-- ===== src/Tickets/Commands/Applied.antt =====
-- modules/tickets/service.ts: what every successful action on an existing ticket has done.
use Prim.Native.String.{String}
use mathlib.Core.Option
use scope_is_team_management.Base.{
  ℕ, ◌≡◌, ◌≢◌, ◌⊎◌, is_blank, refl, ◌+◌, Bool, true, false, Option, none, some, List, find,
  update_where, length, arith, ok, committed, Option-cases, inl, inr, >>=-eq-ok, ◌==◌, ==_iff,
  find_sound, ◌∙◌, ◌>>=◌,
}
use scope_is_team_management.Shared.{Actor}
use scope_is_team_management.Audit.Laws.{length-write_audit_event}
use scope_is_team_management.Tickets.Types.{on_hold, TicketRow, TicketPermissions}
use scope_is_team_management.Tickets.Repository
use scope_is_team_management.Tickets.Repository.{
  Store, Env, Db, ticket_row, ticket_hit, ticket_bump, log_row,
}
use scope_is_team_management.Tickets.Access.{current_actor, TicketContext, ticket_context}
use scope_is_team_management.Tickets.Access.Laws.{load_ticket_context_sound}
use scope_is_team_management.Tickets.Notify.{audit, notify_ticket}
use scope_is_team_management.Tickets.Validation.{
  UpdateTicket, ChangeTicketStatus, SetParticipants, WorkLogInput, valid_ticket_state,
}
use scope_is_team_management.Tickets.Commands.Containers.{Reply, check_participants}
use scope_is_team_management.Tickets.Commands.Changes
use scope_is_team_management.Tickets.Commands.Changes.{
  access, finish, write_ticket, status_values, update_values, or_keep,
}

-- The table's constraint on a hold reason, and that only a ticket on hold has one.
abbrev pub IsHoldValid : TicketRow → Type 0
IsHoldValid t =
    ((t.status ≡ on_hold) × (is_blank t.on_hold_reason ≡ false))
    ⊎ ((t.status ≢ on_hold) × (t.on_hold_reason ≡ none))

-- A successful action on a ticket: the caller is authenticated, the ticket was there at the expected
-- version and the actor saw it with the permission that the action needs; exactly that row got new
-- values and the next version, one audit event was written, and the reply names the new version.
pub record Applied (env : Env) (supplied : Actor) (id version : ℕ)
    (permission : TicketPermissions → Bool) (values : TicketContext → TicketRow → TicketRow)
    (s s' : Store) (r : Reply) : Type 0 where
  pub context : TicketContext
  pub authenticated : current_actor env supplied s ≡ ok (context.actor, s)
  pub row : ticket_row id s ≡ some context.ticket
  pub at_version : context.ticket.version ≡ version
  pub seen : ticket_context context.actor context.ticket s ≡ some context
  pub permitted : permission context.permissions ≡ true
  pub keeps_id : (t : TicketRow) → (values context t).id ≡ t.id
  pub keeps_hold : IsHoldValid context.ticket → IsHoldValid (values context context.ticket)
  pub written :
      s'.tickets ≡ update_where (ticket_hit id version) (ticket_bump env (values context)) s.tickets
  pub audited : length s'.audits ≡ length s.audits + 1
  pub reply_id : r.id ≡ id
  pub reply_version : r.version ≡ version + 1

finish_sound :
    (actor : Actor) (ticket_id : ℕ) (event : String) (log : Option ℕ) (hit : Option TicketRow)
    (s s' : Store) (r : Reply)
    → finish actor ticket_id event log hit s ≡ ok (r, s')
    → (updated : TicketRow) × (hit ≡ some updated)
      × (s'.tickets ≡ s.tickets)
      × (length s'.audits ≡ length s.audits + 1)
      × (r.id ≡ updated.id)
      × (r.version ≡ updated.version)
unfolding finish audit notify_ticket
finish_sound actor ticket_id event log none s s' r h = cc
finish_sound actor ticket_id event log (some updated) s s' r h = (
  updated,
  refl,
  ground arith,
  grind (arith, length-write_audit_event),
  ground arith,
  ground arith,
)

hit-ticket :
    (id version : ℕ) (env : Env) (values : TicketRow → TicketRow) (xs : List TicketRow)
    (u : TicketRow)
    → ((t : TicketRow) → (values t).id ≡ t.id)
    → Option.map (ticket_bump env values) (find (ticket_hit id version) xs) ≡ some u
    → (u.id ≡ id) × (u.version ≡ version + 1)
hit-ticket id version env values xs u keeps h =
    let (t, e, same) = (Option.map-eq-some_iff _ _).0 h in
    let passes = find_sound (ticket_hit id version) xs t e in rw (← same) (ground (arith, keeps t))

-- The end of an action.
write_sound :
    (env : Env) (c : TicketContext) (values : TicketRow → TicketRow) (event : String)
    (log : Option ℕ) (s s' : Store) (r : Reply)
    → ((t : TicketRow) → (values t).id ≡ t.id)
    → write_ticket env c values event log s ≡ ok (r, s')
    → (s'.tickets
        ≡ update_where (ticket_hit c.ticket.id c.ticket.version) (ticket_bump env values) s.tickets)
      × (length s'.audits ≡ length s.audits + 1)
      × (r.id ≡ c.ticket.id)
      × (r.version ≡ c.ticket.version + 1)
unfolding write_ticket Repository.update_ticket
write_sound env c values event log s s' r keeps h =
    let (u, hit, rows, audits, rid, rversion) =
      finish_sound c.actor c.ticket.id event log _ _ s' r h in
    let (uid, uversion) =
      hit-ticket c.ticket.id c.ticket.version env values s.tickets u keeps hit in
    (rows, audits, rid ∙ uid, rversion ∙ uversion)

-- What `access` has established.
pub record Opened (env : Env) (supplied : Actor) (id version : ℕ) (s : Store) (c : TicketContext)
    : Type 0 where
  pub authenticated : current_actor env supplied s ≡ ok (c.actor, s)
  pub row : ticket_row id s ≡ some c.ticket
  pub at_version : c.ticket.version ≡ version
  pub at_id : c.ticket.id ≡ id
  pub seen : ticket_context c.actor c.ticket s ≡ some c

access_sound :
    (env : Env) (supplied : Actor) (id version : ℕ) (s s' : Store) (c : TicketContext)
    → access env supplied id version s ≡ ok (c, s')
    → (s' ≡ s) × Opened env supplied id version s c
unfolding access
access_sound env supplied id version s s' c h =
    let (same, row, at, auth, seen) = load_ticket_context_sound env supplied id version s s' c h in
    (
      same,
      record {
        authenticated = auth;
        row = row;
        at_version = at;
        at_id = (==_iff c.ticket.id id).0 (find_sound (λ t. t.id == id) s.tickets c.ticket row);
        seen = seen;
      },
    )

-- An action that begins with `access`: the context, and the rest from the same tables.
opened :
    (env : Env) (supplied : Actor) (id version : ℕ) (k : TicketContext → Db Reply) (s s' : Store)
    (r : Reply)
    → (access env supplied id version >>= k) s ≡ ok (r, s')
    → (c : TicketContext) × Opened env supplied id version s c × (k c s ≡ ok (r, s'))
opened env supplied id version k s s' r h =
    let (c, s₁, got, rest) = >>=-eq-ok (access env supplied id version) k s h in
    let (same, o) = access_sound env supplied id version s s₁ c got in (c, o, rw same at rest)

-- The end of an action, from tables `s₁` whose tickets and audit events are those of `s`.
module _ (env : Env) (supplied : Actor) (id version : ℕ) (permission : TicketPermissions → Bool)
    (values : TicketContext → TicketRow → TicketRow) where
  applied :
      (s s₁ s' : Store) (r : Reply) (c : TicketContext) (event : String) (log : Option ℕ)
      → Opened env supplied id version s c
      → permission c.permissions ≡ true
      → ((t : TicketRow) → (values c t).id ≡ t.id)
      → (IsHoldValid c.ticket → IsHoldValid (values c c.ticket))
      → s₁.tickets ≡ s.tickets
      → s₁.audits ≡ s.audits
      → write_ticket env c (values c) event log s₁ ≡ ok (r, s')
      → Applied env supplied id version permission values s s' r
  applied s s₁ s' r c event log o permitted keeps hold same_tickets same_audits h =
      let (rows, audits, rid, rversion) = write_sound env c (values c) event log s₁ s' r keeps h in
      record {
        context = c;
        authenticated = o.authenticated;
        row = o.row;
        at_version = o.at_version;
        seen = o.seen;
        permitted = permitted;
        keeps_id = keeps;
        keeps_hold = hold;
        written = rw (← o.at_id, ← o.at_version, ← same_tickets) rows;
        audited = rw (← same_audits) audits;
        reply_id = rid ∙ o.at_id;
        reply_version = rw (← o.at_version) rversion;
      }

pub archive_ticket-Applied :
    (env : Env) (supplied : Actor) (id version : ℕ) (s s' : Store) (r : Reply)
    → Changes.archive_ticket env supplied id version s ≡ ok (r, s')
    → Applied env supplied id version
        (λ p. p.archive)
        (λ c t. record t { archived_at = some env.now; archived_by_user_id = some c.actor.id })
        s
        s'
        r
unfolding Changes.archive_ticket
archive_ticket-Applied env supplied id version s s' r h =
    let (c, o, rest) = opened env supplied id version _ s s' r h in
    applied env supplied id version _ _ s s s' r c "ticket.archived" none o (ground arith)
      (λ t. refl) (λ v. v) refl refl (ground arith)

pub restore_ticket-Applied :
    (env : Env) (supplied : Actor) (id version : ℕ) (s s' : Store) (r : Reply)
    → Changes.restore_ticket env supplied id version s ≡ ok (r, s')
    → Applied env supplied id version
        (λ p. p.restore)
        (λ _ t. record t { archived_at = none; archived_by_user_id = none })
        s
        s'
        r
unfolding Changes.restore_ticket
restore_ticket-Applied env supplied id version s s' r h =
    let (c, o, rest) = opened env supplied id version _ s s' r h in
    applied env supplied id version _ _ s s s' r c "ticket.restored" none o (ground arith)
      (λ t. refl) (λ v. v) refl refl (ground arith)

pub change_ticket_status-Applied :
    (env : Env) (supplied : Actor) (p : ChangeTicketStatus) (s s' : Store) (r : Reply)
    → Changes.change_ticket_status env supplied p s ≡ ok (r, s')
    → Applied env supplied p.ticket_id p.version (λ q. q.edit) (λ _. status_values p) s s' r
unfolding Changes.change_ticket_status valid_ticket_state
change_ticket_status-Applied env supplied p s s' r h =
    let (c, o, rest) = opened env supplied p.ticket_id p.version _ s s' r h in
    applied env supplied p.ticket_id p.version _ _ s s s' r c "ticket.updated" none o (ground arith)
      (λ t. refl) (λ v. ground arith) refl refl (ground arith)

pub update_ticket-Applied :
    (env : Env) (supplied : Actor) (p : UpdateTicket) (s s' : Store) (r : Reply)
    → Changes.update_ticket env supplied p s ≡ ok (r, s')
    → Applied env supplied p.ticket_id p.version
        (λ q. q.edit)
        (λ c. update_values p c.ticket)
        s
        s'
        r
unfolding Changes.update_ticket valid_ticket_state
update_ticket-Applied env supplied p s s' r h =
    let (c, o, rest) = opened env supplied p.ticket_id p.version _ s s' r h in
    applied env supplied p.ticket_id p.version _ _ s s s' r c "ticket.updated" none o (ground arith)
      (λ t. refl) (λ v. ground arith) refl refl (ground arith)

check_participants_same :
    (assignee_ids observer_ids : List ℕ) (s s' : Store)
    → check_participants assignee_ids observer_ids s ≡ ok (tt, s')
    → s' ≡ s
unfolding check_participants
check_participants_same assignee_ids observer_ids s s' h = ground arith

pub set_participants-Applied :
    (env : Env) (supplied : Actor) (p : SetParticipants) (s s' : Store) (r : Reply)
    → Changes.set_participants env supplied p s ≡ ok (r, s')
    → Applied env supplied p.ticket_id p.version (λ q. q.manage_people) (λ _ t. t) s s' r
unfolding Changes.set_participants Repository.set_participants check_participants
set_participants-Applied env supplied p s s' r h =
    let (c, o, rest) = opened env supplied p.ticket_id p.version _ s s' r h in
    let s₁ : Store =
      committed s
        (Repository.set_participants env c.ticket.id p.assignee_ids p.observer_ids c.actor.id s) in
    applied env supplied p.ticket_id p.version _ _ s s₁ s' r c "ticket.participants_updated" none o
      (ground arith) (λ t. refl) (λ v. v) refl refl (ground arith)

pub add_work_log-Applied :
    (env : Env) (supplied : Actor) (p : WorkLogInput) (s s' : Store) (r : Reply)
    → Changes.add_work_log env supplied p s ≡ ok (r, s')
    → Applied env supplied p.ticket_id p.version (λ q. q.log) (λ _ t. t) s s' r
unfolding Changes.add_work_log Repository.create_log
add_work_log-Applied env supplied p s s' r h =
    let (c, o, rest) = opened env supplied p.ticket_id p.version _ s s' r h in
    let s₁ : Store = committed s (
      Repository.create_log env c.ticket.id c.actor.id p.description (or_keep p.logged_at env.now)
        p.duration_minutes s) in
    applied env supplied p.ticket_id p.version _ _ s s₁ s' r c "ticket.work_log_created"
      (some env.new_id) o (ground arith) (λ t. refl) (λ v. v) refl refl (ground arith)

pub edit_work_log-Applied :
    (env : Env) (supplied : Actor) (log_id : ℕ) (p : WorkLogInput) (s s' : Store) (r : Reply)
    → Changes.edit_work_log env supplied log_id p s ≡ ok (r, s')
    → Applied env supplied p.ticket_id p.version (λ q. q.log) (λ _ t. t) s s' r
unfolding Changes.edit_work_log Repository.update_log
edit_work_log-Applied env supplied log_id p s s' r h =
    let (c, o, rest) = opened env supplied p.ticket_id p.version _ s s' r h in
    elim (Option-cases (log_row log_id s)) [
      | inl missing ↦ absurd (ground arith)
      | inr (log, e) ↦
          let s₁ : Store = committed s (
            Repository.update_log env log.id p.description (or_keep p.logged_at log.logged_at)
              p.duration_minutes s) in
          applied env supplied p.ticket_id p.version _ _ s s₁ s' r c "ticket.work_log_updated"
            (some log.id) o (ground arith) (λ t. refl) (λ v. v) refl refl (ground arith)
    ]
