-- ===== src/Tickets/Rows.antt =====
-- modules/tickets/repositories.ts: the ticket table under an update of one row.
use scope_is_team_management.Base.{
  ℕ, ◌≡◌, ◌≢◌, refl, subst, Option, none, some, List, [], ◌∷◌, ◌++◌, find, update_where, arith,
  ◌==◌, Bool-cases, inl, inr,
}
use scope_is_team_management.Tickets.Types.{TicketRow}
use scope_is_team_management.Tickets.Repository.{Env, ticket_hit, ticket_bump}
use scope_is_team_management.Tickets.Commands.Applied.{IsHoldValid}

abbrev pub by_id : ℕ → List TicketRow → Option TicketRow
by_id id xs = find (λ t. t.id == id) xs

-- No id stands twice, and every row's hold reason fits its status.
abbrev pub TicketsValid : List TicketRow → Type 0
TicketsValid [] = Unit
TicketsValid (t ∷ xs) = IsHoldValid t × (by_id t.id xs ≡ none) × TicketsValid xs

module _ (env : Env) (id version : ℕ) (values : TicketRow → TicketRow)
    (keeps : (t : TicketRow) → (values t).id ≡ t.id) where
  abbrev updated : List TicketRow → List TicketRow
  updated xs = update_where (ticket_hit id version) (ticket_bump env values) xs

  pub by_id-updated_self :
      (xs : List TicketRow) (t : TicketRow)
      → by_id id xs ≡ some t
      → t.version ≡ version
      → by_id id (updated xs) ≡ some (ticket_bump env values t)
  by_id-updated_self [] t h v = cc
  by_id-updated_self (x ∷ xs) t h v = ground (arith, keeps x, by_id-updated_self xs t)

  pub by_id-updated_ne :
      (other : ℕ) (xs : List TicketRow) → other ≢ id → by_id other (updated xs) ≡ by_id other xs
  by_id-updated_ne other [] ne = refl
  by_id-updated_ne other (x ∷ xs) ne = ground (arith, keeps x, by_id-updated_ne other xs ne)

  by_id-updated-none :
      (k : ℕ) (xs : List TicketRow) → by_id k xs ≡ none → by_id k (updated xs) ≡ none
  by_id-updated-none k [] h = refl
  by_id-updated-none k (x ∷ xs) h = ground (arith, keeps x, by_id-updated-none k xs)

  updated_absent : (xs : List TicketRow) → by_id id xs ≡ none → updated xs ≡ xs
  updated_absent [] h = refl
  updated_absent (x ∷ xs) h = ground (arith, updated_absent xs)

  -- Updating the row that was read keeps the table valid, if the new values are.
  pub updated-TicketsValid :
      (xs : List TicketRow) (t : TicketRow)
      → TicketsValid xs
      → by_id id xs ≡ some t
      → t.version ≡ version
      → (IsHoldValid t → IsHoldValid (values t))
      → TicketsValid (updated xs)
  updated-TicketsValid [] t valid h v hold = cc
  updated-TicketsValid (x ∷ xs) t (x_valid, x_new, valid) h v hold =
      elim (Bool-cases (x.id == id)) [
        | inl here ↦
            let absent : by_id id xs ≡ none = subst (λ k. by_id k xs ≡ none) (ground arith) x_new in
            let same = updated_absent xs absent in
            let first : x ≡ t = ground arith in
            let new_valid : IsHoldValid (values x) = rw first (hold (rw (← first) x_valid)) in
            (ground arith, rw same (ground (arith, keeps x)), rw same valid)
        | inr there ↦ (
          ground arith,
          ground (arith, by_id-updated-none x.id xs x_new),
          updated-TicketsValid xs t valid (ground arith) v hold,
        )
      ]

by_id-append :
    (k : ℕ) (xs : List TicketRow) (t : TicketRow)
    → by_id k xs ≡ none
    → by_id k (xs ++ t ∷ []) ≡ by_id k (t ∷ [])
by_id-append k [] t h = refl
by_id-append k (x ∷ xs) t h = ground (arith, by_id-append k xs t)

pub TicketsValid-append :
    (xs : List TicketRow) (t : TicketRow)
    → TicketsValid xs
    → by_id t.id xs ≡ none
    → IsHoldValid t
    → TicketsValid (xs ++ t ∷ [])
TicketsValid-append [] t valid new hold = (hold, refl, tt)
TicketsValid-append (x ∷ xs) t (x_valid, x_new, valid) new hold = (
  x_valid,
  ground (arith, by_id-append x.id xs t x_new),
  TicketsValid-append xs t valid (ground arith) hold,
)
