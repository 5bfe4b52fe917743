-- ===== src/Reporting/Definitions.antt =====
-- modules/reporting/definitions.ts, the registry: the keys, the reports by key, the filters each
-- report accepts, and the roles that may open and export it.
use scope_is_team_management.Base.{
  Bool, ◌&&◌, Option, none, some, List, [], ◌∷◌, any, find, ◌==◌, Text, codes, same_text, ℕ, ◌++◌,
}
use scope_is_team_management.Shared.{Role, super_admin, same_role}
use scope_is_team_management.Reporting.Contracts.{
  ReportKey, published_allocation, unallocated_employees, scheduled_hours, planning_unpublished,
  approved_leave, leave_balance, coverage_replacement, skills_coverage, skill_gaps,
  certification_status, evidence_review_queue, schedule_lifecycle, audit_history, ReportDefinition,
  published_allocation_report, unallocated_employees_report, scheduled_hours_report,
  planning_unpublished_report, approved_leave_report, leave_balance_report,
  coverage_replacement_report, skills_coverage_report, skill_gaps_report,
  certification_status_report, evidence_review_queue_report, schedule_lifecycle_report,
  audit_history_report,
}

-- The texts of the keys.
unfoldable pub key_text : ReportKey → Text
key_text published_allocation = codes "published-allocation"
key_text unallocated_employees = codes "unallocated-employees"
key_text scheduled_hours = codes "scheduled-hours"
key_text planning_unpublished = codes "planning-unpublished"
key_text approved_leave = codes "approved-leave"
key_text leave_balance = codes "leave-balance"
key_text coverage_replacement = codes "coverage-replacement"
key_text skills_coverage = codes "skills-coverage"
key_text skill_gaps = codes "skill-gaps"
key_text certification_status = codes "certification-status"
key_text evidence_review_queue = codes "evidence-review-queue"
key_text schedule_lifecycle = codes "schedule-lifecycle"
key_text audit_history = codes "audit-history"

-- `reportKeys`
unfoldable pub report_keys : List ReportKey
report_keys =
    published_allocation ∷ unallocated_employees ∷ scheduled_hours ∷ planning_unpublished
    ∷ approved_leave ∷ leave_balance ∷ coverage_replacement ∷ skills_coverage ∷ skill_gaps
    ∷ certification_status ∷ evidence_review_queue ∷ schedule_lifecycle ∷ audit_history ∷ []

-- `reports[key]`
unfoldable pub reports : ReportKey → ReportDefinition
reports published_allocation = published_allocation_report
reports unallocated_employees = unallocated_employees_report
reports scheduled_hours = scheduled_hours_report
reports planning_unpublished = planning_unpublished_report
reports approved_leave = approved_leave_report
reports leave_balance = leave_balance_report
reports coverage_replacement = coverage_replacement_report
reports skills_coverage = skills_coverage_report
reports skill_gaps = skill_gaps_report
reports certification_status = certification_status_report
reports evidence_review_queue = evidence_review_queue_report
reports schedule_lifecycle = schedule_lifecycle_report
reports audit_history = audit_history_report

-- `ReportFilter`: `from` and `to`, `month`, `date`, `start`, `end` and the ids.
pub data ReportFilter : Type 0 where
  from_filter to_filter month_filter date_filter start_filter end_filter : ReportFilter
  client_filter project_filter location_filter : ReportFilter
  action_filter target_type_filter actor_filter : ReportFilter

abbrev window_filters : List ReportFilter
window_filters = from_filter ∷ to_filter ∷ month_filter ∷ []

abbrev assignment_filters : List ReportFilter
assignment_filters = window_filters ++ client_filter ∷ project_filter ∷ location_filter ∷ []

-- `reportFilters[key]`
unfoldable pub report_filters : ReportKey → List ReportFilter
report_filters published_allocation = assignment_filters
report_filters unallocated_employees = window_filters
report_filters scheduled_hours = assignment_filters
report_filters planning_unpublished = assignment_filters
report_filters approved_leave = window_filters ++ date_filter ∷ start_filter ∷ end_filter ∷ []
report_filters leave_balance = []
report_filters coverage_replacement = assignment_filters
report_filters skills_coverage = []
report_filters skill_gaps = []
report_filters certification_status = []
report_filters evidence_review_queue = []
report_filters schedule_lifecycle = window_filters ++ client_filter ∷ []
report_filters audit_history =
    window_filters ++ action_filter ∷ target_type_filter ∷ actor_filter ∷ []

abbrev pub filter_code : ReportFilter → ℕ
filter_code from_filter = 0
filter_code to_filter = 1
filter_code month_filter = 2
filter_code date_filter = 3
filter_code start_filter = 4
filter_code end_filter = 5
filter_code client_filter = 6
filter_code project_filter = 7
filter_code location_filter = 8
filter_code action_filter = 9
filter_code target_type_filter = 10
filter_code actor_filter = 11

-- `reportFilters[key].includes(filter)`
unfoldable pub supports : ReportKey → ReportFilter → Bool
unfolding report_filters
supports key filter = any (λ f. filter_code f == filter_code filter) (report_filters key)

-- The definition of the first listed key with the text.
unfoldable pub key_of : Text → List ReportKey → Option ReportKey
unfolding key_text
key_of text keys = find (λ k. same_text (key_text k) text) keys

-- `reportDefinition`
unfoldable pub report_definition : Text → Option ReportDefinition
unfolding key_of report_keys reports
report_definition text = elim (key_of text report_keys) [
  | none ↦ none
  | some key ↦ some (reports key)
]

-- `canViewReport`
unfoldable pub can_view_report : Role → ReportKey → Bool
unfolding reports
can_view_report role key =
    same_role role super_admin && any (λ r. same_role r role) (reports key).view_roles

-- `canExportReport`
unfoldable pub can_export_report : Role → ReportKey → Bool
unfolding reports
can_export_report role key =
    same_role role super_admin && any (λ r. same_role r role) (reports key).export_roles
