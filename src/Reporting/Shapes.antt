-- ===== src/Reporting/Shapes.antt =====
-- modules/reporting/service.ts: every row of a report has a value for each column and no other.
use Prim.Native.String.{String}
use scope_is_team_management.Base.{
  Bool, ◌≡◌, refl, inl, inr, Option-cases, Bool-cases, List, [], ◌∷◌, map, All,
}
use scope_is_team_management.Reporting.Contracts.{
  ReportKey, published_allocation, unallocated_employees, scheduled_hours, planning_unpublished,
  approved_leave, leave_balance, coverage_replacement, skills_coverage, skill_gaps,
  certification_status, evidence_review_queue, schedule_lifecycle, audit_history,
}
use scope_is_team_management.Reporting.Filters.{ReportStore}
use scope_is_team_management.Reporting.Cells.{Built, keys}
use scope_is_team_management.Reporting.Builders.{
  ResolvedRequest, assignment_row, assignment_columns, build_published_allocation,
  build_unallocated_employees, build_scheduled_hours, build_planning_unpublished,
  build_approved_leave,
}
use scope_is_team_management.Reporting.Summaries.{
  build_leave_balance, build_coverage_replacement, build_skills_coverage, build_skill_gaps,
  build_evidence_review_queue,
}
use scope_is_team_management.Reporting.Service.{
  build, build_certification_status, build_schedule_lifecycle,
}

-- The keys of each row are those of the columns, in their order.
abbrev pub FitsColumns : Built → Type 0
FitsColumns built = All (λ row. keys row ≡ keys built.columns) built.rows

map-All :
    {A B : Type 0} (P : B → Type 0) (f : A → B)
    → ((x : A) → P (f x))
    → (xs : List A) → All P (map f xs)
map-All P f p [] = tt
map-All P f p (x ∷ xs) = (p x, map-All P f p xs)

module _ (name_before : String → String → Bool) where
  balance_fits :
      (r : ResolvedRequest) (s : ReportStore) → FitsColumns (build_leave_balance name_before r s)
  unfolding build_leave_balance
  balance_fits r s = elim (Option-cases s.allowance) [
    | inl missing ↦ rw (missing, build_leave_balance) tt
    | inr (setting, e) ↦ rw (e, build_leave_balance) (map-All _ _ (λ b. refl) _)
  ]

  certification_fits :
      (r : ResolvedRequest) (s : ReportStore)
      → FitsColumns (build_certification_status name_before r s)
  unfolding build_certification_status
  certification_fits r s = elim (Bool-cases (r.scope).is_global) [
    | inl everywhere ↦ rw (everywhere, build_certification_status) (map-All _ _ (λ c. refl) _)
    | inr scoped ↦ rw (scoped, build_certification_status) (map-All _ _ (λ c. refl) _)
  ]

  -- Every row of every report has exactly the keys of the report's columns, in their order, if the
  -- rows of the audit history have; so a file has a value under each header.
  pub build-FitsColumns :
      (history : ResolvedRequest → Built)
      → ((r : ResolvedRequest) → FitsColumns (history r))
      → (k : ReportKey) (r : ResolvedRequest) (s : ReportStore)
      → FitsColumns (build name_before history k r s)
  unfolding build build_published_allocation build_unallocated_employees build_scheduled_hours
      build_planning_unpublished build_approved_leave build_coverage_replacement
      build_skills_coverage build_skill_gaps build_evidence_review_queue build_schedule_lifecycle
      assignment_row assignment_columns
  build-FitsColumns history fits published_allocation r s = map-All _ _ (λ e. refl) _
  build-FitsColumns history fits unallocated_employees r s = map-All _ _ (λ e. refl) _
  build-FitsColumns history fits scheduled_hours r s = map-All _ _ (λ e. refl) _
  build-FitsColumns history fits planning_unpublished r s = map-All _ _ (λ e. refl) _
  build-FitsColumns history fits approved_leave r s = map-All _ _ (λ e. refl) _
  build-FitsColumns history fits leave_balance r s = balance_fits r s
  build-FitsColumns history fits coverage_replacement r s = map-All _ _ (λ e. refl) _
  build-FitsColumns history fits skills_coverage r s = map-All _ _ (λ e. refl) _
  build-FitsColumns history fits skill_gaps r s = map-All _ _ (λ e. refl) _
  build-FitsColumns history fits certification_status r s = certification_fits r s
  build-FitsColumns history fits evidence_review_queue r s = map-All _ _ (λ e. refl) _
  build-FitsColumns history fits schedule_lifecycle r s = map-All _ _ (λ e. refl) _
  build-FitsColumns history fits audit_history r s = fits r
