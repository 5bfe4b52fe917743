-- ===== src/Tickets/Access/Laws.antt =====
-- modules/tickets/service.ts: what the current actor and a loaded ticket context have established.
use scope_is_team_management.Base.{
  ℕ, ◌≡◌, ◌⊎◌, ◌<◌, true, false, none, some, arith, ok, err, Option-cases, inl, inr, refl,
}
use scope_is_team_management.Shared.{Actor, uuid, uuid_of, AppError, password, unauthenticated}
use scope_is_team_management.Tickets.Types.{TicketRow, UserRow, SessionRow, CredentialRow}
use scope_is_team_management.Tickets.Repository.{
  Store, Env, user_row, session_row, credential_row, ticket_row,
}
use scope_is_team_management.Tickets.Access.{
  is_current, actor_of, current_actor, TicketContext, ticket_context, context_on,
  load_ticket_context,
}

-- A session and a user that speak for a call: the session is the named one and belongs to the
-- user, who is active; it is neither revoked nor expired; no version is behind; no password change
-- is due; and a mock session is accepted only where mock sign-in is.
pub record Speaks (env : Env) (supplied : Actor) (s : Store) (user : UserRow) (session : SessionRow)
    : Type 0 where
  pub user_found : user_row supplied.id s ≡ some user
  pub session_found : (id : ℕ) × (supplied.session_id ≡ uuid id) × (session_row id s ≡ some session)
  pub user_active : user.active ≡ true
  pub owner : session.user_id ≡ user.id
  pub not_revoked : session.revoked_at ≡ none
  pub not_expired : env.now < session.expires_at
  pub session_version : session.session_version ≡ user.session_version
  pub supplied_version : supplied.session_version ≡ user.session_version
  pub no_change_due :
      (c : CredentialRow) → credential_row supplied.id s ≡ some c → c.must_change_password ≡ false
  pub mode : (session.authentication_mode ≡ password) ⊎ (env.mock_allowed ≡ true)

is_current-Speaks :
    (env : Env) (supplied : Actor) (s : Store) (user : UserRow) (session : SessionRow) (id : ℕ)
    → user_row supplied.id s ≡ some user
    → supplied.session_id ≡ uuid id
    → session_row id s ≡ some session
    → is_current env supplied user session (credential_row supplied.id s) ≡ true
    → Speaks env supplied s user session
unfolding is_current
is_current-Speaks env supplied s user session id u i r h = record {
  user_found = u;
  session_found = (id, i, r);
  user_active = ground arith;
  owner = ground arith;
  not_revoked = ground arith;
  not_expired = ground arith;
  session_version = ground arith;
  supplied_version = ground arith;
  no_change_due = λ c e. ground arith;
  mode = ground arith;
}

-- A call that gets an actor leaves the tables alone, and some session speaks for it; the actor is
-- the user as the database has it, with the active grants of the database.
pub current_actor_sound :
    (env : Env) (supplied actor : Actor) (s s' : Store)
    → current_actor env supplied s ≡ ok (actor, s')
    → (s' ≡ s)
      × ((user : UserRow) × (session : SessionRow) × Speaks env supplied s user session
          × (actor ≡ actor_of user session s))
unfolding current_actor
current_actor_sound env supplied actor s s' h = elim (Option-cases (uuid_of supplied.session_id)) [
  | inl malformed_id ↦ absurd (ground arith)
  | inr (id, i) ↦ elim (Option-cases (user_row supplied.id s)) [
    | inl no_user ↦ absurd (ground arith)
    | inr (user, u) ↦ elim (Option-cases (session_row id s)) [
      | inl no_session ↦ absurd (ground arith)
      | inr (session, r) ↦ (
        ground arith,
        (
          user,
          session,
          is_current-Speaks env supplied s user session id u (ground arith) r (ground arith),
          ground arith,
        ),
      )
    ]
  ]
]

-- A user and a session that speak for a call give it its actor: that user with the active grants of
-- the database.
pub current_actor_complete :
    (env : Env) (supplied : Actor) (s : Store) (user : UserRow) (session : SessionRow)
    → Speaks env supplied s user session
    → current_actor env supplied s ≡ ok (actor_of user session s, s)
unfolding current_actor is_current
current_actor_complete env supplied s user session h =
    let (id, named, row) = h.session_found in
    elim (Option-cases (credential_row supplied.id s)) [
      | inl no_credential ↦ rw (named, h.user_found, row, no_credential) (ground arith)
      | inr (c, e) ↦ rw (named, h.user_found, row, e) (ground (arith, h.no_change_due c e))
    ]

-- The only error is that the caller is not authenticated.
pub current_actor-err :
    (env : Env) (supplied : Actor) (s : Store) (e : AppError)
    → current_actor env supplied s ≡ err e
    → e ≡ unauthenticated
unfolding current_actor
current_actor-err env supplied s e h = ground arith

-- What a caller claims about its name, role, grants and kind of session is never used.
pub current_actor_ignores_claims :
    (env : Env) (a b : Actor) (s : Store)
    → a.id ≡ b.id
    → a.session_id ≡ b.session_id
    → a.session_version ≡ b.session_version
    → current_actor env a s ≡ current_actor env b s
unfolding current_actor is_current
current_actor_ignores_claims env a b s i r v = rw (i, r, v) refl

ticket_context_fields :
    (actor : Actor) (ticket : TicketRow) (s : Store) (context : TicketContext)
    → ticket_context actor ticket s ≡ some context
    → (context.actor ≡ actor) × (context.ticket ≡ ticket)
unfolding ticket_context context_on
ticket_context_fields actor ticket s context h = ground arith

-- A loaded context: the ticket stands in the table under the given id at the expected version, and
-- the context is the current actor's.
pub load_ticket_context_sound :
    (env : Env) (supplied : Actor) (id version : ℕ) (s s' : Store) (context : TicketContext)
    → load_ticket_context env supplied (uuid id) false (some version) s ≡ ok (context, s')
    → (s' ≡ s)
      × (ticket_row id s ≡ some context.ticket)
      × (context.ticket.version ≡ version)
      × (current_actor env supplied s ≡ ok (context.actor, s))
      × (ticket_context context.actor context.ticket s ≡ some context)
unfolding load_ticket_context
load_ticket_context_sound env supplied id version s s' context h =
    grind (arith, ticket_context_fields, current_actor_sound)
