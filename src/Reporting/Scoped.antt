-- ===== src/Reporting/Scoped.antt =====
-- modules/reporting/repositories.ts: what the rows of the assignment reports are, how many there
-- are, and how the reports exclude each other.
use Prim.Native.String.{String}
use scope_is_team_management.Base.{
  ℕ, Bool, true, false, ◌≡◌, ◌≢◌, ◌&&◌, arith, ap, sym, ◌∙◌, List, filter, includes, Memᴰ,
  mem-filter, mem-order_by, mem_of_filter, mem-page_of, mem-map, mem_of_map, mem-inner_join, ◌==◌,
  ==_iff, any_of_mem, none,
}
use scope_is_team_management.Authorization.Resolved.{
  ResolvedScope, assignment_in_scope, employee_in_scope,
}
use scope_is_team_management.Tickets.Types.{UserRow}
use scope_is_team_management.Leave.Repository.{published}
use scope_is_team_management.Tables.{Period, Assignment, StaffRow, is_live, is_published}
use scope_is_team_management.Reporting.Windows.{DateWindow}
use scope_is_team_management.Reporting.Filters.{
  ReportStore, employee_scope, assignment_scope, AssignmentFilters, date_in,
}
use scope_is_team_management.Reporting.Queries.{
  planned, AssignmentEntry, unpublished, assignment_columns, assignment_entries, assignment_where,
  assignment_query, published_assignments, planning_assignments, EmployeeEntry, employee_columns,
  unallocated_where, unallocated_employees, allocated, employed,
}

-- The conditions that the reports' queries put on assignments and employees are the rules that
-- `assignmentInScope` and `employeeInScope` state, for every scope.
pub query_scope-eq-resolved :
    (scope : ResolvedScope) (a : Assignment) (p : Period) (e : StaffRow)
    → (assignment_scope scope (a, p)
        ≡ assignment_in_scope scope (record {
          client_id = p.client_id;
          project_id = a.project_id;
          location_id = a.location_id;
        }))
      × (employee_scope scope e ≡ employee_in_scope scope e.team)
unfolding assignment_scope assignment_in_scope employee_scope employee_in_scope
query_scope-eq-resolved scope a p e = ground arith

-- The row of a report comes from an assignment of a period that passed the query's conditions.
entry_source :
    (where_ : Assignment × Period → Bool) (s : ReportStore) (d : AssignmentEntry)
    → Memᴰ d (assignment_entries where_ s)
    → (j : Assignment × Period) × Memᴰ j (filter where_ (planned s))
      × ((j.0).id ≡ d.id)
      × ((j.0).employee_user_id ≡ d.employee_user_id)
      × ((j.1).status ≡ d.period_status)
unfolding assignment_entries
entry_source where_ s d m =
    let (j5, m5, e) = mem-map assignment_columns d _ m in
    let (m4, _, _) = mem-inner_join _ j5 _ s.locations m5 in
    let (m3, _, _) = mem-inner_join _ j5.0 _ s.projects m4 in
    let (m2, _, _) = mem-inner_join _ (j5.0).0 _ s.clients m3 in
    let (m1, _, _) = mem-inner_join _ (j5.0).0.0 _ s.users m2 in
    (
      (j5.0).0.0.0,
      m1,
      ap (λ x. x.id) e,
      ap (λ x. x.employee_user_id) e,
      ap (λ x. x.period_status) e,
    )

-- An assignment that counts as published in a window: not omitted, in a current Published period,
-- on a date of the window, and within the scope.
abbrev pub IsPublishedIn : ResolvedScope → DateWindow → Assignment → Period → Type 0
IsPublishedIn scope window a p =
    (is_live a.omitted_at ≡ true)
    × (p.status ≡ published)
    × (p.is_current ≡ true)
    × (date_in window a.assignment_date ≡ true)
    × (assignment_in_scope scope (record {
      client_id = p.client_id;
      project_id = a.project_id;
      location_id = a.location_id;
    })
        ≡ true)

passed :
    (scope : ResolvedScope) (window : DateWindow) (filters : AssignmentFilters) (a : Assignment)
    (p : Period)
    → assignment_where scope is_published window true filters (a, p) ≡ true
    → (assignment_scope scope (a, p) ≡ true)
      × (is_live a.omitted_at ≡ true)
      × (p.status ≡ published)
      × (p.is_current ≡ true)
      × (date_in window a.assignment_date ≡ true)
unfolding assignment_where
passed scope window filters a p h = ground arith

-- Every row of the published-allocation report, on any page and with any filters, stands for an
-- assignment of the tables that is not omitted, lies in a current Published period, falls inside
-- the window and is within the reader's scope as `assignmentInScope` states it.
pub published_rows_are_in_scope :
    (name_before : String → String → Bool) (scope : ResolvedScope) (window : DateWindow)
    (limit offset : ℕ) (filters : AssignmentFilters) (s : ReportStore) (d : AssignmentEntry)
    → Memᴰ d (published_assignments name_before scope window limit offset filters s)
    → (a : Assignment) × (p : Period) × Memᴰ a s.assignments
      × Memᴰ p s.periods
      × (p.id ≡ a.schedule_period_id)
      × (a.id ≡ d.id)
      × (a.employee_user_id ≡ d.employee_user_id)
      × IsPublishedIn scope window a p
unfolding published_assignments assignment_query planned
published_rows_are_in_scope name_before scope window limit offset filters s d m =
    let w = assignment_where scope is_published window true filters in
    let n = mem-order_by _ d _ (mem-page_of limit offset d _ m) in
    let (j, k, same_id, same_employee, _) = entry_source w s d n in
    let (in_tables, ok_where) = mem-filter w j (planned s) k in
    let (in_a, in_p, joined) = mem-inner_join _ j s.assignments s.periods in_tables in
    let (scoped, live, is_pub, current, dated) = passed scope window filters j.0 j.1 ok_where in
    let rule =
      (query_scope-eq-resolved scope j.0 j.1
        (record { user_id = 0; employee_code = ""; team = none })).0 in
    (
      j.0,
      j.1,
      in_a,
      in_p,
      (==_iff (j.1).id (j.0).schedule_period_id).0 joined,
      same_id,
      same_employee,
      (live, is_pub, current, dated, sym rule ∙ scoped),
    )

unpublished_where :
    (scope : ResolvedScope) (window : DateWindow) (filters : AssignmentFilters) (a : Assignment)
    (p : Period)
    → assignment_where scope unpublished window false filters (a, p) ≡ true
    → p.status ≢ published
unfolding assignment_where
unpublished_where scope window filters a p h = ground arith

-- No row of the planning report has the status Published, whatever the scope, window and filters.
pub planning_rows_are_unpublished :
    (name_before : String → String → Bool) (scope : ResolvedScope) (window : DateWindow)
    (limit offset : ℕ) (filters : AssignmentFilters) (s : ReportStore) (d : AssignmentEntry)
    → Memᴰ d (planning_assignments name_before scope window limit offset filters s)
    → d.period_status ≢ published
unfolding planning_assignments assignment_query
planning_rows_are_unpublished name_before scope window limit offset filters s d m is_pub =
    let w = assignment_where scope unpublished window false filters in
    let n = mem-order_by _ d _ (mem-page_of limit offset d _ m) in
    let (j, k, _, _, status) = entry_source w s d n in
    let (_, ok_where) = mem-filter w j (planned s) k in
    unpublished_where scope window filters j.0 j.1 ok_where (status ∙ is_pub)

-- The condition of a published row is, without filters, the one whose employees are subtracted.
allocated_of_where :
    (scope : ResolvedScope) (window : DateWindow) (filters : AssignmentFilters) (a : Assignment)
    (p : Period)
    → assignment_where scope is_published window true filters (a, p) ≡ true
    → (is_live a.omitted_at
        && (is_published p.status
            && (p.is_current
                && (date_in window a.assignment_date && assignment_scope scope (a, p)))))
      ≡ true
unfolding assignment_where
allocated_of_where scope window filters a p h = ground arith

true≢false : true ≢ false
true≢false h = cc

not_included :
    (scope : ResolvedScope) (ids : List ℕ) (u : UserRow) (e : StaffRow)
    → unallocated_where scope ids (u, e) ≡ true
    → includes u.id ids ≡ false
not_included scope ids u e h = ground arith

included : (a b : ℕ) (ids : List ℕ) → Memᴰ a ids → a ≡ b → includes b ids ≡ true
included a b ids m e = any_of_mem (λ i. i == b) a ids m ((==_iff a b).1 e)

-- Nobody is at once in the report of published assignments and in the report of employees without
-- one: for the same scope and window, with any filters and on any pages, no row of the first names
-- an employee of the second.
pub allocated-unallocated_disjoint :
    (name_before : String → String → Bool) (scope : ResolvedScope) (window : DateWindow)
    (limit offset limit' offset' : ℕ) (filters : AssignmentFilters) (s : ReportStore)
    (d : AssignmentEntry) (e : EmployeeEntry)
    → Memᴰ d (published_assignments name_before scope window limit offset filters s)
    → Memᴰ e (unallocated_employees name_before scope window limit' offset' s)
    → d.employee_user_id ≢ e.id
unfolding published_assignments assignment_query unallocated_employees allocated
allocated-unallocated_disjoint name_before scope window limit offset limit' offset' filters s d e m
      m' same =
    let w = assignment_where scope is_published window true filters in
    let (j, k, _, employee, _) =
      entry_source w s d (mem-order_by _ d _ (mem-page_of limit offset d _ m)) in
    let (in_tables, ok_where) = mem-filter w j (planned s) k in
    let counts = allocated_of_where scope window filters j.0 j.1 ok_where in
    let in_allocated : Memᴰ (j.0).employee_user_id (allocated scope window s) =
      mem_of_map _ j _ (mem_of_filter _ j (planned s) in_tables counts) in
    let (i, k', id) =
      mem-map employee_columns e _ (mem-order_by _ e _ (mem-page_of limit' offset' e _ m')) in
    let (_, left_out) =
      mem-filter (unallocated_where scope (allocated scope window s)) i (employed s) k' in
    let absent = not_included scope (allocated scope window s) i.0 i.1 left_out in
    let there =
      included (j.0).employee_user_id (i.0).id (allocated scope window s) in_allocated
        (employee ∙ (same ∙ sym (ap (λ x. x.id) id))) in
    true≢false (sym there ∙ absent)
