-- ===== src/Reporting/Snapshots.antt =====
-- modules/reporting/repositories.ts: the queries on evidence, the lifecycle of schedules, one
-- employee's own rows, and the options of the filters.
use Prim.Native.String.{String}
use scope_is_team_management.Base.{
  ℕ, Bool, true, false, ◌&&◌, ◌||◌, not, Option, none, some, List, [], ◌∷◌, any, map, filter,
  includes, length, ◌==◌, ltb, if◌then◌else◌, inner_join, left_join, order_by, page_of, then_by,
  asc, desc, take,
}
use scope_is_team_management.Shared.{admin, same_role}
use scope_is_team_management.Authorization.Resolved.{ResolvedScope}
use scope_is_team_management.Dates.{Date, key, before}
use scope_is_team_management.Tickets.Types.{UserRow}
use scope_is_team_management.Leave.Repository.{PeriodStatus, published, proposed, draft}
use scope_is_team_management.Tables.{
  ClientRow, Period, StaffRow, SkillRow, EvidenceRow, EvidenceKind, certification, ReviewState,
  unreviewed, is_live, is_published, is_proposed, is_in_use,
}
use scope_is_team_management.Reporting.Windows.{DateWindow, time_key}
use scope_is_team_management.Reporting.Filters.{
  ReportStore, employee_scope, AssignmentFilters, lifecycle_scope, date_in,
}
use scope_is_team_management.Reporting.Queries.{planned, AssignmentEntry, assignment_entries}

abbrev is_certification : EvidenceKind → Bool
is_certification certification = true
is_certification _ = false

abbrev is_unreviewed : ReviewState → Bool
is_unreviewed unreviewed = true
is_unreviewed _ = false

-- Evidence with the profile of its owner.
unfoldable pub owned : ReportStore → List (EvidenceRow × StaffRow)
owned s = inner_join (λ v e. e.user_id == v.owner_user_id) s.evidence s.staff

abbrev of_owner : Option ℕ → ResolvedScope → EvidenceRow × StaffRow → Bool
of_owner none scope (v, e) = employee_scope scope e
of_owner (some owner) scope (v, e) = v.owner_user_id == owner

abbrev certified : Option ℕ → ResolvedScope → EvidenceRow × StaffRow → Bool
certified owner scope (v, e) =
    is_certification v.kind && (is_live v.archived_at && of_owner owner scope (v, e))

-- A row of `certifications`.
pub record CertificationEntry : Type 0 where
  pub id : ℕ
  pub title : String
  pub issuer : Option String
  pub issue_date : Option Date
  pub expiry_date : Option Date
  pub review_state : ReviewState
  pub owner_name : String
  pub skill_name : Option String
  pub details : Option String
  pub external_url : Option String

abbrev skill_name_of : Option SkillRow → Option String
skill_name_of none = none
skill_name_of (some k) = some k.name

abbrev is_skill : Option ℕ → SkillRow → Bool
is_skill none k = false
is_skill (some id) k = k.id == id

abbrev kept : Bool → Option String → Option String
kept include_private value = if include_private then value else none

abbrev certification_columns :
    Bool → ((EvidenceRow × StaffRow) × UserRow) × Option SkillRow → CertificationEntry
certification_columns include_private (((v, e), u), k) = record {
  id = v.id;
  title = v.title;
  issuer = v.issuer;
  issue_date = v.issue_date;
  expiry_date = v.expiry_date;
  review_state = v.review_state;
  owner_name = u.display_name;
  skill_name = skill_name_of k;
  details = kept include_private v.details;
  external_url = kept include_private v.external_url;
}

-- `asc nulls last` and `asc nulls first`
abbrev nulls_last : Option Date → Option Date → Bool
nulls_last none _ = false
nulls_last (some a) none = true
nulls_last (some a) (some b) = before a b

abbrev nulls_first : Option ℕ → Option ℕ → Bool
nulls_first _ none = false
nulls_first none (some b) = true
nulls_first (some a) (some b) = ltb a b

-- `certificationCount`
unfoldable pub certification_count : ResolvedScope → Option ℕ → ReportStore → ℕ
certification_count scope owner s = length (filter (certified owner scope) (owned s))

abbrev has_expired : Date → Option Date → Bool
has_expired today none = false
has_expired today (some expiry) = before expiry today

-- `expiredCertificationCount`
unfoldable pub expired_certification_count : ResolvedScope → Date → ReportStore → ℕ
expired_certification_count scope today s =
    length (filter (λ j. certified none scope j && has_expired today (j.0).expiry_date) (owned s))

abbrev awaits_review : EvidenceRow → Bool
awaits_review v = is_unreviewed v.review_state && is_live v.archived_at

-- `evidenceAwaitingReview`
unfoldable pub evidence_awaiting_review : ℕ → ℕ → ReportStore → List (EvidenceRow × UserRow)
evidence_awaiting_review limit offset s = page_of limit offset (
    order_by
      (then_by (λ x y. nulls_first (x.0).last_submitted_at (y.0).last_submitted_at)
        (asc (λ x. (x.0).id)))
      (inner_join (λ v u. u.id == v.owner_user_id) (filter awaits_review s.evidence) s.users))

-- `evidenceAwaitingReviewCount`
unfoldable pub evidence_awaiting_review_count : ReportStore → ℕ
evidence_awaiting_review_count s = length (filter awaits_review s.evidence)

-- `evidenceStateCounts`
unfoldable pub evidence_state_counts : ℕ → ReportStore → List EvidenceRow
evidence_state_counts owner s =
    filter (λ v. v.owner_user_id == owner && is_live v.archived_at) s.evidence

abbrev max_of : List ℕ → Option ℕ
max_of [] = none
max_of (n ∷ ns) = elim (max_of ns) [ none ↦ some n | some m ↦ some (if ltb m n then n else m) ]

abbrev is_effective : Period → Bool
is_effective p = is_published p.status && p.is_current

abbrev present : List (Option ℕ) → List ℕ
present [] = []
present (none ∷ xs) = present xs
present (some n ∷ xs) = n ∷ present xs

-- A row of `scheduleLifecycle`: the periods of a client and a month.
pub record LifecycleRow : Type 0 where
  pub client_id : ℕ
  pub client_name : String
  pub planning_month : Date
  pub latest_revision : Option ℕ
  pub published_revision : Option ℕ
  pub effective_state : PeriodStatus
  pub proposed_at : Option ℕ
  pub published_at : Option ℕ
  pub published_period_id : Option ℕ

-- `effectiveState`
unfoldable pub effective_state : List Period → PeriodStatus
effective_state periods =
    if any is_effective periods
    then published
    else if any (λ p. is_proposed p.status) periods
    then proposed
    else draft

abbrev lifecycle_row : List (Period × ClientRow) → Period × ClientRow → LifecycleRow
lifecycle_row rows (q, c) =
    let group =
      map (λ j. j.0)
        (filter
          (λ j. (j.0).client_id == q.client_id && key (j.0).planning_month == key q.planning_month)
          rows) in
    record {
      client_id = q.client_id;
      client_name = c.company_name;
      planning_month = q.planning_month;
      latest_revision = max_of (map (λ p. p.revision_number) group);
      published_revision = max_of (map (λ p. p.revision_number) (filter is_effective group));
      effective_state = effective_state group;
      proposed_at = max_of (present (map (λ p. p.proposed_at) group));
      published_at =
          max_of (present (map (λ p. p.published_at) (filter (λ p. p.is_current) group)));
      published_period_id = max_of (map (λ p. p.id) (filter is_effective group));
    }

-- The first period of each client and month.
unfoldable pub first_of_groups : {B : Type 0} → List (Period × B) → List (Period × B)
first_of_groups [] = []
first_of_groups (j ∷ js) =
    j
    ∷ filter
        (λ i. not (
          (i.0).client_id == (j.0).client_id
          && key (i.0).planning_month == key (j.0).planning_month))
        (first_of_groups js)

abbrev of_clients :
    ResolvedScope → Option DateWindow → AssignmentFilters → ReportStore → List (Period × ClientRow)
of_clients scope window filters s =
    inner_join (λ p c. c.id == p.client_id)
      (filter (lifecycle_scope scope window filters) s.periods) s.clients

-- `scheduleLifecycleCount`: pairs of a client and a month.
unfoldable pub schedule_lifecycle_count :
    ResolvedScope → Option DateWindow → AssignmentFilters → ReportStore → ℕ
schedule_lifecycle_count scope window filters s =
    length (
      first_of_groups
        (map (λ p. (p, tt)) (filter (lifecycle_scope scope window filters) s.periods)))

-- `publishedAssignmentCountByPeriod`, the count of one period.
unfoldable pub published_assignment_count_by_period : ℕ → ReportStore → ℕ
published_assignment_count_by_period period_id s = length (
    filter (λ (a, p). is_live a.omitted_at && (is_effective p && a.schedule_period_id == period_id))
      (planned s))

module _ (name_before : String → String → Bool) where
  -- `certifications`
  unfoldable pub certifications :
      ResolvedScope → Bool → Option ℕ → ℕ → ℕ → ReportStore → List CertificationEntry
  certifications scope include_private owner limit offset s =
      map (certification_columns include_private) (
        page_of limit offset (
          order_by
            (then_by (λ x y. nulls_last ((x.0).0.0).expiry_date ((y.0).0.0).expiry_date)
              (then_by (λ x y. name_before ((x.0).1).display_name ((y.0).1).display_name)
                (asc (λ x. ((x.0).0.0).id))))
            (left_join (λ j k. is_skill ((j.0).0).related_skill_id k)
              (inner_join (λ j u. u.id == (j.0).owner_user_id)
                (filter (certified owner scope) (owned s)) s.users)
              s.skills)))

  -- `scheduleLifecycle`
  unfoldable pub schedule_lifecycle :
      ResolvedScope
      → ℕ
      → ℕ
      → Option DateWindow
      → AssignmentFilters
      → ReportStore
      → List LifecycleRow
  schedule_lifecycle scope limit offset window filters s =
      let rows = of_clients scope window filters s in
      page_of limit offset (
        order_by
          (then_by (desc (λ r. key r.planning_month))
            (λ q r. name_before q.client_name r.client_name))
          (map (lifecycle_row rows) (first_of_groups rows)))

abbrev grants_any : ResolvedScope → Bool
grants_any scope = scope.is_global || same_role scope.role admin

-- `filterOptions`, the ids that each list of options holds.
unfoldable pub client_options : ResolvedScope → ReportStore → List ℕ
client_options scope s =
    map (λ c. c.id)
      (filter
        (λ c.
          is_in_use c.status
          && (grants_any scope && (scope.is_global || includes c.id scope.client_ids)))
        s.clients)

unfoldable pub project_options : ResolvedScope → ReportStore → List ℕ
project_options scope s =
    map (λ p. p.id)
      (filter
        (λ p.
          grants_any scope
          && (scope.is_global
              || (includes p.id scope.project_ids || includes p.client_id scope.client_ids)))
        s.projects)

unfoldable pub location_options : ResolvedScope → ReportStore → List ℕ
location_options scope s =
    map (λ l. l.id)
      (filter
        (λ l.
          grants_any scope
          && (scope.is_global
              || (includes l.id scope.location_ids || includes l.client_id scope.client_ids)))
        s.locations)

-- `myPublishedAssignments`
unfoldable pub my_published_assignments : ℕ → DateWindow → ℕ → ReportStore → List AssignmentEntry
my_published_assignments employee window limit s = take limit (
    order_by
      (then_by (asc (λ e. key e.assignment_date))
        (then_by (asc (λ e. time_key e.start_time)) (asc (λ e. e.id))))
      (assignment_entries
        (λ (a, p).
          is_live a.omitted_at
          && (a.employee_user_id == employee
              && (is_effective p && date_in window a.assignment_date)))
        s))

-- `myRecordedSkillCount`
unfoldable pub my_recorded_skill_count : ℕ → ReportStore → ℕ
my_recorded_skill_count employee s =
    length (filter (λ r. r.employee_user_id == employee && is_live r.archived_at) s.employee_skills)
