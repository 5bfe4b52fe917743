-- ===== src/Reporting/Registry.antt =====
-- modules/reporting/definitions.ts and domain-error.ts: what the registry of reports promises.
use mathlib.Core.Option
use scope_is_team_management.Base.{
  true, ◌≡◌, ◌≢◌, ◌↔◌, arith, refl, inl, inr, none, some, Text, same_text_iff, same_text,
  find_sound, Option-cases, sym, ◌∙◌,
}
use scope_is_team_management.Shared.{Role, super_admin}
use scope_is_team_management.Reporting.Contracts.{
  ReportKey, published_allocation, unallocated_employees, scheduled_hours, planning_unpublished,
  approved_leave, leave_balance, coverage_replacement, skills_coverage, skill_gaps,
  certification_status, evidence_review_queue, schedule_lifecycle, audit_history, ReportDefinition,
  published_allocation_report, unallocated_employees_report, scheduled_hours_report,
  planning_unpublished_report, approved_leave_report, leave_balance_report,
  coverage_replacement_report, skills_coverage_report, skill_gaps_report,
  certification_status_report, evidence_review_queue_report, schedule_lifecycle_report,
  audit_history_report,
}
use scope_is_team_management.Reporting.Definitions.{
  key_text, report_keys, reports, key_of, report_definition, can_view_report, can_export_report,
}
use scope_is_team_management.Reporting.Windows.{
  ReportError, not_found, message, error_status, is_non_enumerating,
}

key_of-key_text : (k : ReportKey) → key_of (key_text k) report_keys ≡ some k
unfolding key_of key_text report_keys same_text
key_of-key_text published_allocation = refl
key_of-key_text unallocated_employees = refl
key_of-key_text scheduled_hours = refl
key_of-key_text planning_unpublished = refl
key_of-key_text approved_leave = refl
key_of-key_text leave_balance = refl
key_of-key_text coverage_replacement = refl
key_of-key_text skills_coverage = refl
key_of-key_text skill_gaps = refl
key_of-key_text certification_status = refl
key_of-key_text evidence_review_queue = refl
key_of-key_text schedule_lifecycle = refl
key_of-key_text audit_history = refl

-- A report is found under the text of its key, whichever report it is.
pub report_definition-key_text : (k : ReportKey) → report_definition (key_text k) ≡ some (reports k)
unfolding report_definition
report_definition-key_text k = rw (report_definition, key_of-key_text k) refl

none≢some : (d : ReportDefinition) → none ≢ some d
none≢some d h = cc

-- What is found under a text is the report whose key has that text, so a text that is no key finds
-- nothing.
pub report_definition_sound :
    (text : Text) (d : ReportDefinition)
    → report_definition text ≡ some d
    → (k : ReportKey) × (key_text k ≡ text) × (reports k ≡ d)
unfolding report_definition key_of
report_definition_sound text d h = elim (Option-cases (key_of text report_keys)) [
  | inl nothing ↦ absurd (none≢some d (sym (rw (report_definition, nothing) refl) ∙ h))
  | inr (k, e) ↦
      let named : same_text (key_text k) text ≡ true =
        find_sound (λ i. same_text (key_text i) text) report_keys k e in
      let same : some (reports k) ≡ some d = sym (rw (report_definition, e) refl) ∙ h in
      (k, (same_text_iff (key_text k) text).0 named, Option.some-injective _ _ same)
]

-- A role that may export a report may open it, only a Super Admin may do either, and nobody
-- exports the audit history.
pub exporters_are_viewers :
    (role : Role) (k : ReportKey)
    → can_export_report role k ≡ true
    → (can_view_report role k ≡ true) × (role ≡ super_admin) × (k ≢ audit_history)
unfolding can_export_report can_view_report reports published_allocation_report
    unallocated_employees_report scheduled_hours_report planning_unpublished_report
    approved_leave_report leave_balance_report coverage_replacement_report skills_coverage_report
    skill_gaps_report certification_status_report evidence_review_queue_report
    schedule_lifecycle_report audit_history_report
exporters_are_viewers role k h = ground arith

-- The codes that must not tell whether a record exists are exactly those with status 404, and all
-- of them carry one message.
pub non_enumerating_iff :
    (code : ReportError)
    → ((is_non_enumerating code ≡ true) ↔ (error_status code ≡ 404))
      × (is_non_enumerating code ≡ true → message code ≡ message not_found)
unfolding is_non_enumerating error_status message
non_enumerating_iff code = ground arith
