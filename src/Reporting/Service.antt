-- ===== src/Reporting/Service.antt =====
-- modules/reporting/service.ts and export-service.ts: who may open a report, the page that the
-- report shows, and the export. The acting user's current row and grants are read by the queries of
-- server/repositories/foundation-repository.ts. The audit history, which has a service of its own,
-- is a parameter.
use Prim.Native.String.{String}
use mathlib.Core.Option
use scope_is_team_management.Base.{
  ℕ, Bool, false, ◌+◌, ◌==◌, ltb, Option, none, some, List, [], ◌∷◌, map, length, if◌then◌else◌, Tx,
  find, filter, ◌&&◌, pure, ensure, found, ◌>>=◌, ◌>>◌, Text, gets,
}
use scope_is_team_management.Authorization.Resolved.{
  ResolvedScope, CurrentActor, ActiveUser, resolve_current_actor, resolve_scope,
}
use scope_is_team_management.Shared.{ScopeGrant}
use scope_is_team_management.Tickets.Types.{UserRow, GrantRow}
use scope_is_team_management.Dates.{Date}
use scope_is_team_management.Reporting.Contracts.{
  ReportKey, ReportDefinition, published_allocation, unallocated_employees, scheduled_hours,
  planning_unpublished, approved_leave, leave_balance, coverage_replacement, skills_coverage,
  skill_gaps, certification_status, evidence_review_queue, schedule_lifecycle, audit_history,
}
use scope_is_team_management.Reporting.Definitions.{
  report_definition, can_view_report, can_export_report,
}
use scope_is_team_management.Reporting.Windows.{ReportError, not_found, DateWindow}
use scope_is_team_management.Reporting.Requests.{ReportQuery, WindowRequest, resolve_request}
use scope_is_team_management.Reporting.Filters.{ReportStore}
use scope_is_team_management.Reporting.Snapshots.{
  certifications, certification_count, CertificationEntry, schedule_lifecycle as lifecycle_page,
  schedule_lifecycle_count, LifecycleRow, published_assignment_count_by_period,
}
use scope_is_team_management.Reporting.Cells.{
  words_cell, number_cell, month_cell, status_cell, review_cell, expiry_cell, Column, Row, Built,
  or_words,
}
use scope_is_team_management.Reporting.Builders.{
  ResolvedRequest, filters_of, derive_expiry_status, build_published_allocation,
  build_unallocated_employees, build_scheduled_hours, build_planning_unpublished,
  build_approved_leave,
}
use scope_is_team_management.Reporting.Summaries.{
  or_date, or_number, or_instant, build_leave_balance, build_coverage_replacement,
  build_skills_coverage, build_skill_gaps, build_evidence_review_queue,
}

abbrev certification_cells : Date → CertificationEntry → Row
certification_cells today c =
    ("title", words_cell c.title)
    ∷ ("issuer", or_words "Not recorded" c.issuer)
    ∷ ("issue_date", or_date "Not recorded" c.issue_date)
    ∷ ("expiry_date", or_date "No expiry date" c.expiry_date)
    ∷ ("expiry_state", expiry_cell (derive_expiry_status c.expiry_date today))
    ∷ ("review_state", review_cell c.review_state)
    ∷ ("related_skill", or_words "Not recorded" c.skill_name)
    ∷ []

abbrev summary_columns : List Column
summary_columns =
    ("title", "Title")
    ∷ ("issuer", "Issuer")
    ∷ ("issue_date", "Issue date")
    ∷ ("expiry_date", "Expiry date")
    ∷ ("expiry_state", "Expiry state")
    ∷ ("review_state", "Review state")
    ∷ ("related_skill", "Related skill")
    ∷ []

abbrev assignments_of : Option ℕ → ReportStore → ℕ
assignments_of none s = 0
assignments_of (some period) s = published_assignment_count_by_period period s

abbrev lifecycle_cells : ReportStore → LifecycleRow → Row
lifecycle_cells s row =
    ("planning_month", month_cell row.planning_month)
    ∷ ("client_name", words_cell row.client_name)
    ∷ ("effective_state", status_cell row.effective_state)
    ∷ ("latest_revision", or_number row.latest_revision)
    ∷ ("published_revision", or_number row.published_revision)
    ∷ ("published_assignments", number_cell (assignments_of row.published_period_id s))
    ∷ ("published_at", or_instant row.published_at)
    ∷ []

-- `ReportView`, without its labels.
pub record ReportView : Type 0 where
  pub key : ReportKey
  pub columns : List Column
  pub rows : List Row
  pub page : ℕ
  pub page_size : ℕ
  pub total_rows : Option ℕ
  pub has_next : Bool
  pub has_previous : Bool
  pub planning : Bool
  pub exportable : Bool
  pub window : DateWindow
  pub unavailable : Bool

-- `hasNext`
unfoldable pub has_next_page : ℕ → ℕ → ℕ → Option ℕ → Bool
has_next_page offset limit shown none = shown == limit
has_next_page offset limit shown (some total) = ltb (offset + shown) total

pub record ExportPayload : Type 0 where
  pub key : ReportKey
  pub columns : List Column
  pub rows : List Row
  pub window : DateWindow

-- `MAX_EXPORT_ROWS`
abbrev pub max_export_rows : ℕ
max_export_rows = 5000

abbrev active_user : UserRow → ActiveUser
active_user u = record { id = u.id; role = u.role }

-- `foundationRepository.findActiveUser`
unfoldable pub find_active_user : ReportStore → ℕ → Option ActiveUser
find_active_user s id = Option.map active_user (find (λ u. u.id == id && u.active) s.users)

abbrev grant_scope : GrantRow → ScopeGrant
grant_scope g = record { type = g.scope_type; reference = g.scope_reference }

-- `foundationRepository.activeScopeGrants`
unfoldable pub active_scope_grants : ReportStore → ℕ → List ScopeGrant
active_scope_grants s id = map grant_scope (filter (λ g. g.user_id == id && g.active) s.grants)

-- `resolveCurrentActor` on the tables.
abbrev pub current_actor : ℕ → ReportStore → Option CurrentActor
current_actor id s = resolve_current_actor (find_active_user s) (active_scope_grants s) id

module _ (name_before : String → String → Bool) where
  -- `builders["certification-status"]`
  unfoldable pub build_certification_status : ResolvedRequest → ReportStore → Built
  build_certification_status r s =
      let include_private = (r.scope).is_global in
      record {
        columns =
            (if include_private
              then ("employee_name", "Employee") ∷ summary_columns
              else summary_columns);
        rows =
            map
              (λ c.
                if include_private
                then ("employee_name", words_cell c.owner_name) ∷ certification_cells r.today c
                else certification_cells r.today c)
              (certifications name_before r.scope include_private none r.limit r.offset s);
        total = some (certification_count r.scope none s);
        unavailable = false;
      }

  -- `builders["schedule-lifecycle"]`
  unfoldable pub build_schedule_lifecycle : ResolvedRequest → ReportStore → Built
  build_schedule_lifecycle r s = record {
    columns =
        ("planning_month", "Planning month")
        ∷ ("client_name", "Client")
        ∷ ("effective_state", "Effective state")
        ∷ ("latest_revision", "Latest revision")
        ∷ ("published_revision", "Published revision")
        ∷ ("published_assignments", "Published assignments")
        ∷ ("published_at", "Published at")
        ∷ [];
    rows =
        map (lifecycle_cells s)
          (lifecycle_page name_before r.scope r.limit r.offset (some r.window) (filters_of r) s);
    total = some (schedule_lifecycle_count r.scope (some r.window) (filters_of r) s);
    unavailable = false;
  }

  module _ (history : ResolvedRequest → Built) where
    -- `builders[key]`
    unfoldable pub build : ReportKey → ResolvedRequest → ReportStore → Built
    build published_allocation r s = build_published_allocation name_before r s
    build unallocated_employees r s = build_unallocated_employees name_before r s
    build scheduled_hours r s = build_scheduled_hours name_before r s
    build planning_unpublished r s = build_planning_unpublished name_before r s
    build approved_leave r s = build_approved_leave name_before r s
    build leave_balance r s = build_leave_balance name_before r s
    build coverage_replacement r s = build_coverage_replacement name_before r s
    build skills_coverage r s = build_skills_coverage name_before r s
    build skill_gaps r s = build_skill_gaps name_before r s
    build certification_status r s = build_certification_status r s
    build evidence_review_queue r s = build_evidence_review_queue name_before r s
    build schedule_lifecycle r s = build_schedule_lifecycle r s
    build audit_history r s = history r

    -- `authorize`
    unfoldable pub authorize :
        ℕ → Text → Tx ReportStore ReportError ((CurrentActor × ResolvedScope) × ReportDefinition)
    authorize actor_id report_key = do
      resolved ← gets (current_actor actor_id)
      current ← found resolved not_found
      definition ← found (report_definition report_key) not_found
      ensure (can_view_report current.role definition.key) not_found
      pure ((current, resolve_scope current), definition)

    abbrev resolved_request : ℕ → ResolvedScope → Date → WindowRequest → ResolvedRequest
    resolved_request actor_id scope today w = record {
      actor_id = actor_id;
      window = w.window;
      page = w.page;
      offset = w.offset;
      limit = w.limit;
      conflict = w.conflict;
      query = w.query;
      scope = scope;
      today = today;
    }

    -- `report`
    unfoldable pub report : ℕ → Date → Text → ReportQuery → Tx ReportStore ReportError ReportView
    report actor_id today report_key query = do
      access ← authorize actor_id report_key
      let definition = access.1
      w ← resolve_request today definition.key query
      let request = resolved_request actor_id (access.0).1 today w
      built ← gets (build definition.key request)
      pure (record {
        key = definition.key;
        columns = built.columns;
        rows = built.rows;
        page = w.page;
        page_size = w.limit;
        total_rows = built.total;
        has_next = has_next_page w.offset w.limit (length built.rows) built.total;
        has_previous = ltb 1 w.page;
        planning = definition.planning;
        exportable = can_export_report ((access.0).0).role definition.key;
        window = w.window;
        unavailable = built.unavailable;
      })

    -- `exportPayload`: one row more than an export may have.
    unfoldable pub export_payload :
        ℕ → Date → Text → ReportQuery → Tx ReportStore ReportError ExportPayload
    export_payload actor_id today report_key query = do
      access ← authorize actor_id report_key
      let definition = access.1
      w ← resolve_request today definition.key query
      let request = record (resolved_request actor_id (access.0).1 today w) {
        offset = 0;
        limit = max_export_rows + 1;
      }
      built ← gets (build definition.key request)
      pure (record {
        key = definition.key;
        columns = built.columns;
        rows = built.rows;
        window = w.window;
      })
