-- ===== src/Reporting/Complete.antt =====
-- modules/reporting/service.ts, `builders`: a page that is not full holds all the rows of a report.
use Prim.Native.String.{String}
use scope_is_team_management.Base.{
  ℕ, Bool, zero, suc, ◌≡◌, ◌≤◌, ◌<◌, refl, ap, List, [], ◌∷◌, map, length, take, drop, page_of,
  arith, Option-cases, inl, inr, length-map, subst,
}
use scope_is_team_management.Reporting.Contracts.{
  ReportKey, published_allocation, unallocated_employees, scheduled_hours, planning_unpublished,
  approved_leave, leave_balance, coverage_replacement, skills_coverage, skill_gaps,
  certification_status, evidence_review_queue, schedule_lifecycle, audit_history,
}
use scope_is_team_management.Reporting.Filters.{ReportStore}
use scope_is_team_management.Reporting.Cells.{Built}
use scope_is_team_management.Reporting.Queries.{
  published_assignments, planning_assignments, scheduled_hours as hours_page,
  unallocated_employees as idle_page,
}
use scope_is_team_management.Reporting.Records.{replacement_requests, approved_leave as leave_page}
use scope_is_team_management.Reporting.Snapshots.{
  evidence_awaiting_review, certifications, schedule_lifecycle as lifecycle_page,
}
use scope_is_team_management.Reporting.Builders.{
  ResolvedRequest, build_published_allocation, build_unallocated_employees, build_scheduled_hours,
  build_planning_unpublished, build_approved_leave,
}
use scope_is_team_management.Reporting.Summaries.{
  build_leave_balance, build_coverage_replacement, build_skills_coverage, build_skill_gaps,
  build_evidence_review_queue, operational_gaps, assignment_gaps,
}
use scope_is_team_management.Reporting.Service.{
  build, build_certification_status, build_schedule_lifecycle,
}

module _ {A : Type 0} where
  take_all : (k n : ℕ) (xs : List A) → length (take k xs) < k → k ≤ n → take n xs ≡ take k xs
  unfolding take
  take_all zero n xs h w = ground arith
  take_all (suc k) zero xs h w = ground arith
  take_all (suc k) (suc n) [] h w = refl
  take_all (suc k) (suc n) (x ∷ xs) h w =
      ap (λ ys. x ∷ ys) (take_all k n xs (ground arith) (ground arith))

  page_all :
      (k n offset : ℕ) (xs : List A)
      → length (page_of k offset xs) < k
      → k ≤ n
      → page_of n offset xs ≡ page_of k offset xs
  unfolding page_of
  page_all k n offset xs h w = take_all k n (drop offset xs) h w

map_page_all :
    {A B : Type 0} (f : A → B) (k n offset : ℕ) (xs : List A)
    → length (map f (page_of k offset xs)) < k
    → k ≤ n
    → map f (page_of n offset xs) ≡ map f (page_of k offset xs)
map_page_all f k n offset xs h w =
    ap (map f)
      (page_all k n offset xs (subst (λ m. m < k) (length-map f (page_of k offset xs)) h) w)

twice_page_all :
    {A B C : Type 0} (f : B → C) (g : A → B) (k n offset : ℕ) (xs : List A)
    → length (map f (map g (page_of k offset xs))) < k
    → k ≤ n
    → map f (map g (page_of n offset xs)) ≡ map f (map g (page_of k offset xs))
twice_page_all f g k n offset xs h w = ap (map f) (
    map_page_all g k n offset xs (subst (λ m. m < k) (length-map f (map g (page_of k offset xs))) h)
      w)

-- Another limit for the same request.
abbrev pub limited : ℕ → ResolvedRequest → ResolvedRequest
limited n r = record r { limit = n }

-- A builder whose page, when it is not full, is what every larger page is.
abbrev pub IsPaged : (ResolvedRequest → Built) → Type 0
IsPaged built =
    (r : ResolvedRequest) (n : ℕ)
    → length (built r).rows < r.limit
    → r.limit ≤ n
    → (built (limited n r)).rows ≡ (built r).rows

module _ (name_before : String → String → Bool) where
  balance-IsPaged : (s : ReportStore) → IsPaged (λ r. build_leave_balance name_before r s)
  unfolding build_leave_balance
  balance-IsPaged s r n h w = elim (Option-cases s.allowance) [
    | inl missing ↦ rw (missing, build_leave_balance) refl
    | inr (setting, e) ↦
        rw (e, build_leave_balance)
          (map_page_all _ r.limit n r.offset _ (rw (e, build_leave_balance) at h) w)
  ]

  certification-IsPaged :
      (s : ReportStore) → IsPaged (λ r. build_certification_status name_before r s)
  unfolding build_certification_status certifications
  certification-IsPaged s r n h w = twice_page_all _ _ r.limit n r.offset _ h w

  pub build-IsPaged :
      (history : ResolvedRequest → Built)
      → IsPaged history
      → (k : ReportKey) (s : ReportStore) → IsPaged (λ r. build name_before history k r s)
  unfolding build build_published_allocation build_unallocated_employees build_scheduled_hours
      build_planning_unpublished build_approved_leave build_coverage_replacement
      build_skills_coverage build_skill_gaps build_evidence_review_queue build_schedule_lifecycle
      published_assignments planning_assignments hours_page idle_page replacement_requests
      leave_page evidence_awaiting_review lifecycle_page operational_gaps assignment_gaps
  build-IsPaged history paged published_allocation s r n h w =
      map_page_all _ r.limit n r.offset _ h w
  build-IsPaged history paged unallocated_employees s r n h w =
      map_page_all _ r.limit n r.offset _ h w
  build-IsPaged history paged scheduled_hours s r n h w = map_page_all _ r.limit n r.offset _ h w
  build-IsPaged history paged planning_unpublished s r n h w =
      map_page_all _ r.limit n r.offset _ h w
  build-IsPaged history paged approved_leave s r n h w = map_page_all _ r.limit n r.offset _ h w
  build-IsPaged history paged coverage_replacement s r n h w =
      map_page_all _ r.limit n r.offset _ h w
  build-IsPaged history paged skills_coverage s r n h w = map_page_all _ r.limit n r.offset _ h w
  build-IsPaged history paged skill_gaps s r n h w = map_page_all _ r.limit n r.offset _ h w
  build-IsPaged history paged evidence_review_queue s r n h w =
      map_page_all _ r.limit n r.offset _ h w
  build-IsPaged history paged schedule_lifecycle s r n h w = map_page_all _ r.limit n r.offset _ h w
  build-IsPaged history paged leave_balance s r n h w = balance-IsPaged s r n h w
  build-IsPaged history paged certification_status s r n h w = certification-IsPaged s r n h w
  build-IsPaged history paged audit_history s r n h w = paged r n h w
