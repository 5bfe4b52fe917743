-- ===== src/Reporting/Counts.antt =====
-- modules/reporting/repositories.ts: the count beside a list of assignments is the number of its
-- rows.
use Prim.Native.String.{String}
use scope_is_team_management.Base.{
  ℕ, Bool, true, ◌≡◌, arith, refl, ◌∙◌, List, [], ◌∷◌, filter, length, Memᴰ, mem-filter,
  mem-inner_join, length-inner_join, length-map, length-order_by, ◌==◌,
}
use scope_is_team_management.Authorization.Resolved.{ResolvedScope}
use scope_is_team_management.Tables.{Period, Assignment, is_published}
use scope_is_team_management.Reporting.Windows.{DateWindow}
use scope_is_team_management.Reporting.Filters.{ReportStore, AssignmentFilters, published_window}
use scope_is_team_management.Reporting.Queries.{
  planned, assignment_columns, assignment_entries, assignment_where, assignment_query,
  published_assignment_count,
}

same_condition :
    (scope : ResolvedScope) (window : DateWindow) (filters : AssignmentFilters)
    (j : Assignment × Period)
    → assignment_where scope is_published window true filters j
      ≡ published_window scope window filters j
unfolding assignment_where published_window
same_condition scope window filters j = ground arith

filter_congr :
    {A : Type 0} (p q : A → Bool)
    → ((x : A) → p x ≡ q x)
    → (xs : List A) → length (filter p xs) ≡ length (filter q xs)
filter_congr p q e [] = refl
filter_congr p q e (x ∷ xs) = ground (arith, e x, filter_congr p q e xs)

-- A key names exactly one row.
abbrev One : {A : Type 0} → (A → ℕ) → List A → ℕ → Type 0
One key rows id = length (filter (λ r. key r == id) rows) ≡ 1

-- The foreign keys of assignments and periods: each refers to exactly one row.
abbrev pub IsReferential : ReportStore → Type 0
IsReferential s =
    ((a : Assignment)
      → Memᴰ a s.assignments
      → One (λ u. u.id) s.users a.employee_user_id
        × One (λ r. r.id) s.projects a.project_id
        × One (λ l. l.id) s.locations a.location_id)
    × ((p : Period) → Memᴰ p s.periods → One (λ c. c.id) s.clients p.client_id)

in_tables :
    (where_ : Assignment × Period → Bool) (s : ReportStore) (j : Assignment × Period)
    → Memᴰ j (filter where_ (planned s))
    → Memᴰ j.0 s.assignments × Memᴰ j.1 s.periods
unfolding planned
in_tables where_ s j m =
    let (a, p, _) =
      mem-inner_join _ j s.assignments s.periods (mem-filter where_ j (planned s) m).0 in
    (a, p)

-- Where the foreign keys hold, the joins to names lose and repeat no row.
pub length-assignment_entries :
    (where_ : Assignment × Period → Bool) (s : ReportStore)
    → IsReferential s
    → length (assignment_entries where_ s) ≡ length (filter where_ (planned s))
unfolding assignment_entries
length-assignment_entries where_ s (of_a, of_p) =
    let rows = filter where_ (planned s) in
    length-map assignment_columns _
    ∙ (length-inner_join _ _ s.locations (λ j m.
          let (m3, _, _) = mem-inner_join _ j _ s.projects m in
          let (m2, _, _) = mem-inner_join _ j.0 _ s.clients m3 in
          let (m1, _, _) = mem-inner_join _ (j.0).0 rows s.users m2 in
          (of_a ((j.0).0.0).0 (in_tables where_ s ((j.0).0.0) m1).0).2)
        ∙ (length-inner_join _ _ s.projects (λ j m.
              let (m2, _, _) = mem-inner_join _ j _ s.clients m in
              let (m1, _, _) = mem-inner_join _ j.0 rows s.users m2 in
              (of_a ((j.0).0).0 (in_tables where_ s ((j.0).0) m1).0).1)
            ∙ (length-inner_join _ _ s.clients (λ j m.
                  let (m1, _, _) = mem-inner_join _ j rows s.users m in
                  of_p (j.0).1 (in_tables where_ s j.0 m1).1)
                ∙ length-inner_join _ rows s.users
                    (λ j m. (of_a j.0 (in_tables where_ s j m).0).0))))

-- Where the foreign keys hold, the total of the published-allocation report is the number of rows
-- that its query returns before it is cut into pages, for any scope, window and filters, and in
-- whatever order names sort.
pub published_total-eq-rows :
    (name_before : String → String → Bool) (scope : ResolvedScope) (window : DateWindow)
    (filters : AssignmentFilters) (s : ReportStore)
    → IsReferential s
    → length (assignment_query name_before scope is_published window true filters s)
      ≡ published_assignment_count scope window filters s
unfolding assignment_query published_assignment_count
published_total-eq-rows name_before scope window filters s referential =
    let w = assignment_where scope is_published window true filters in
    length-order_by _ (assignment_entries w s)
    ∙ (length-assignment_entries w s referential
        ∙ filter_congr w (published_window scope window filters)
            (same_condition scope window filters) (planned s))
