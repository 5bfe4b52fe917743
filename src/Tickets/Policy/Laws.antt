-- ===== src/Tickets/Policy/Laws.antt =====
-- modules/tickets/policy.ts: who holds each permission.
use scope_is_team_management.Base.{
  ℕ, Option, none, ◌≡◌, refl, ◌≢◌, ◌↔◌, ◌⊎◌, Bool, true, false, some, arith, any, Memᴰ, any-mem,
  any_of_mem, inl, inr,
}
use scope_is_team_management.Shared.{
  Actor, super_admin, admin, employee, ScopeGrant, team, client, project, grants_to,
}
use scope_is_team_management.Tickets.Types.{published, archived, assignee}
use scope_is_team_management.Tickets.Policy.{
  WorkspaceLinks, links_grant, is_team_grant, can_manage_ticket_workspace, PolicyInput,
  can_read_ticket, ticket_permissions, ScopedPerson, holds_team, ticket_person_in_scope,
}

-- The actor supervises the ticket or created it.
abbrev pub Leads : Actor → PolicyInput → Type 0
Leads actor input = (input.manager ≡ true) ⊎ (input.creator_user_id ≡ actor.id)

-- A live ticket: neither it nor its board is archived.
abbrev pub IsLive : PolicyInput → Type 0
IsLive input = (input.is_archived ≡ false) × (input.board_status ≢ archived)

-- The permission to edit is held exactly by a reader of a live ticket who supervises it, created it
-- or is assigned to it.
pub edit_iff :
    (actor : Actor) (input : PolicyInput)
    → ((ticket_permissions actor input).edit ≡ true) ↔ (
        (can_read_ticket actor input ≡ true)
        × IsLive input
        × (Leads actor input ⊎ (input.participation ≡ some assignee)))
unfolding ticket_permissions can_read_ticket
edit_iff actor input = ground arith

pub log_and_files-eq-edit :
    (actor : Actor) (input : PolicyInput)
    → ((ticket_permissions actor input).log ≡ (ticket_permissions actor input).edit)
      × ((ticket_permissions actor input).files ≡ (ticket_permissions actor input).edit)
unfolding ticket_permissions
log_and_files-eq-edit actor input = (refl, refl)

-- Archiving and restoring exclude one another, and both belong to those who lead the ticket; a
-- ticket on an archived board can be archived but not restored.
pub archive_restore_iff :
    (actor : Actor) (input : PolicyInput)
    → (((ticket_permissions actor input).archive ≡ true)
        ↔ ((can_read_ticket actor input ≡ true) × (input.is_archived ≡ false) × Leads actor input))
      × (((ticket_permissions actor input).restore ≡ true) ↔ (
          (can_read_ticket actor input ≡ true)
          × (input.is_archived ≡ true)
          × Leads actor input
          × (input.board_status ≢ archived)))
unfolding ticket_permissions can_read_ticket
archive_restore_iff actor input = ground arith

-- Managing people is a permission of those who lead a live ticket, and implies editing it.
pub manage_people_iff :
    (actor : Actor) (input : PolicyInput)
    → ((ticket_permissions actor input).manage_people ≡ true)
      ↔ ((can_read_ticket actor input ≡ true) × IsLive input × Leads actor input)
unfolding ticket_permissions can_read_ticket
manage_people_iff actor input = ground arith

-- Outside a published board only supervision opens a ticket.
pub unpublished_is_private :
    (actor : Actor) (input : PolicyInput)
    → input.board_status ≢ published
    → can_read_ticket actor input ≡ input.manager
unfolding can_read_ticket
unpublished_is_private actor input h = ground arith

links_grant_iff :
    (w : WorkspaceLinks) (g : ScopeGrant)
    → (links_grant w g ≡ true) ↔ (
        ((g.type ≡ client) × (w.client_id ≡ some g.reference))
        ⊎ ((g.type ≡ project) × (w.project_id ≡ some g.reference)))
links_grant_iff w g = ground arith

is_team_grant_iff : (g : ScopeGrant) → (is_team_grant g ≡ true) ↔ (g.type ≡ team)
is_team_grant_iff g = ground arith

tests_iff :
    (actor : Actor) (w : WorkspaceLinks) (is_member : Bool)
    → (can_manage_ticket_workspace actor w is_member ≡ true) ↔ (
        (actor.role ≡ super_admin)
        ⊎ ((actor.role ≡ admin)
            × (is_member ≡ true)
            × (any is_team_grant actor.scopes ≡ true)
            × (any (links_grant w) actor.scopes ≡ true)))
unfolding can_manage_ticket_workspace
tests_iff actor w is_member = ground arith

-- A workspace is supervised by a Super Admin, and by an Admin who is a member, holds some TEAM
-- grant, and holds a grant on the workspace's client or project; by nobody else.
pub can_manage_iff :
    (actor : Actor) (w : WorkspaceLinks) (is_member : Bool)
    → (can_manage_ticket_workspace actor w is_member ≡ true) ↔ (
        (actor.role ≡ super_admin)
        ⊎ ((actor.role ≡ admin)
            × (is_member ≡ true)
            × ((g : ScopeGrant) × Memᴰ g actor.scopes × (g.type ≡ team))
            × ((g : ScopeGrant) × Memᴰ g actor.scopes
                × (((g.type ≡ client) × (w.client_id ≡ some g.reference))
                    ⊎ ((g.type ≡ project) × (w.project_id ≡ some g.reference))))))
can_manage_iff actor w is_member = (
  λ h. elim ((tests_iff actor w is_member).0 h) [
    | inl boss ↦ inl boss
    | inr (role, member, teams, links) ↦
        let (g, g_in, g_team) = any-mem is_team_grant actor.scopes teams in
        let (k, k_in, k_links) = any-mem (links_grant w) actor.scopes links in
        inr (
          role,
          member,
          (g, g_in, (is_team_grant_iff g).0 g_team),
          (k, k_in, (links_grant_iff w k).0 k_links),
        )
  ],
  λ h. (tests_iff actor w is_member).1 (elim h [
    | inl boss ↦ inl boss
    | inr (role, member, (g, g_in, g_team), (k, k_in, k_links)) ↦ inr (
      role,
      member,
      any_of_mem is_team_grant g actor.scopes g_in ((is_team_grant_iff g).1 g_team),
      any_of_mem (links_grant w) k actor.scopes k_in ((links_grant_iff w k).1 k_links),
    )
  ]),
)

grants_to_team_iff :
    (t : ℕ) (g : ScopeGrant) → (grants_to team t g ≡ true) ↔ ((g.type ≡ team) × (g.reference ≡ t))
grants_to_team_iff t g = ground arith

person_tests_iff :
    (actor : Actor) (p : ScopedPerson)
    → (ticket_person_in_scope actor p ≡ true) ↔ (
        (actor.role ≡ super_admin)
        ⊎ ((actor.id ≡ p.id)
            ⊎ ((actor.role ≡ admin) × (p.role ≡ employee) × (holds_team actor p.team ≡ true))))
unfolding ticket_person_in_scope
person_tests_iff actor p = ground arith

holds_team_iff :
    (actor : Actor) (home : Option ℕ)
    → (holds_team actor home ≡ true) ↔ (
        (t : ℕ) × (home ≡ some t)
        × ((g : ScopeGrant) × Memᴰ g actor.scopes × (g.type ≡ team) × (g.reference ≡ t)))
holds_team_iff actor none = ((λ h. absurd (ground arith)), (λ (t, e, rest). absurd (cc)))
holds_team_iff actor (some k) = (
  λ h.
      let (g, m, e) = any-mem (grants_to team k) actor.scopes h in
      let (is_team, is_ref) = (grants_to_team_iff k g).0 e in (k, refl, (g, m, is_team, is_ref)),
  λ (t, e, (g, m, is_team, is_ref)).
      any_of_mem (grants_to team k) g actor.scopes m ((grants_to_team_iff k g).1 (is_team, cc)),
)

-- A person is in an actor's scope exactly when the actor is a Super Admin, is that person, or is an
-- Admin with a grant for the team of that person, who is an employee.
pub ticket_person_in_scope_iff :
    (actor : Actor) (p : ScopedPerson)
    → (ticket_person_in_scope actor p ≡ true) ↔ (
        (actor.role ≡ super_admin)
        ⊎ ((actor.id ≡ p.id)
            ⊎ ((actor.role ≡ admin)
                × (p.role ≡ employee)
                × ((t : ℕ) × (p.team ≡ some t)
                    × ((g : ScopeGrant) × Memᴰ g actor.scopes
                        × (g.type ≡ team)
                        × (g.reference ≡ t))))))
ticket_person_in_scope_iff actor p = (
  λ h. elim ((person_tests_iff actor p).0 h) [
    | inl boss ↦ inl boss
    | inr (inl same) ↦ inr (inl same)
    | inr (inr (role, worker, teams)) ↦
        inr (inr (role, worker, (holds_team_iff actor p.team).0 teams))
  ],
  λ h. (person_tests_iff actor p).1 (elim h [
    | inl boss ↦ inl boss
    | inr (inl same) ↦ inr (inl same)
    | inr (inr (role, worker, granted)) ↦
        inr (inr (role, worker, (holds_team_iff actor p.team).1 granted))
  ]),
)
