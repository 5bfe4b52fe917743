-- ===== src/Reporting/Exports.antt =====
-- modules/reporting/export-service.ts: an export, its refusals, and the audit event of each. The
-- writer of audit events is a parameter that may fail; what it has written stays written when the
-- export then fails.
use Prim.Native.String.{String}
use scope_is_team_management.Base.{
  Bool, true, false, ◌||◌, not, ltb, Option, none, some, List, [], ◌∷◌, length, Text, codes,
  same_text, ◌||◌, ◌==◌, ok, err, Result, if◌then◌else◌,
}
use scope_is_team_management.Shared.{Role, Actor}
use scope_is_team_management.Audit.{AuditEvent, AuditRow, words, number, spelled, Metadata}
use scope_is_team_management.Dates.{Date}
use scope_is_team_management.Reporting.Contracts.{ReportDefinition}
use scope_is_team_management.Reporting.Definitions.{
  report_definition, can_export_report, key_text, key_of, report_keys,
}
use scope_is_team_management.Reporting.Windows.{
  ReportError, not_found, validation_error, window_too_large, export_too_large, error_status,
  date_text,
}
use scope_is_team_management.Reporting.Requests.{ReportQuery}
use scope_is_team_management.Reporting.Filters.{ReportStore}
use scope_is_team_management.Reporting.Cells.{Built}
use scope_is_team_management.Reporting.Builders.{ResolvedRequest}
use scope_is_team_management.Reporting.Service.{
  ExportPayload, export_payload, max_export_rows, current_actor,
}

-- `RefusalReason`
pub data RefusalReason : Type 0 where
  too_large_refusal out_of_scope_refusal forbidden_refusal : RefusalReason

abbrev reason_text : RefusalReason → Text
reason_text too_large_refusal = codes "too_large"
reason_text out_of_scope_refusal = codes "out_of_scope"
reason_text forbidden_refusal = codes "forbidden"

-- `normalizedKey`
unfoldable pub normalized_key : Text → Text
normalized_key value = elim (key_of value report_keys) [ none ↦ codes "unknown" | some key ↦ value ]

-- What `generate` throws: an error of the reports, or that of an audit writer.
pub data ExportError : Type 0 where
  report_error : ReportError → ExportError
  audit_failed : ExportError

-- The outcome of an export, with the audit events written by then.
abbrev pub Outcome : Type 0
Outcome = Result ExportError ExportPayload × List AuditRow

abbrev pub is_window_error : ReportError → Bool
is_window_error window_too_large = true
is_window_error _ = false

abbrev pub is_empty : List Role → Bool
is_empty [] = true
is_empty (_ ∷ _) = false

abbrev pub is_404 : ReportError → Bool
is_404 error = error_status error == 404

-- `format ?? "csv"` must be "csv".
abbrev pub is_csv : Option Text → Bool
is_csv none = true
is_csv (some format) = same_text format (codes "csv")

-- The name of an export's row count in its audit event, and of its window.
abbrev generated_metadata : ReportDefinition → ExportPayload → Metadata
generated_metadata definition payload =
    (codes "reportKey", words (key_text definition.key))
    ∷ (codes "format", words (codes "csv"))
    ∷ (codes "from", words (date_text payload.window.from))
    ∷ (codes "to", words (date_text payload.window.to))
    ∷ (codes "rowCount", number (length payload.rows))
    ∷ (codes "outcome", words (codes "generated"))
    ∷ []

abbrev event : Actor → String → Text → Metadata → AuditEvent
event actor action target metadata = record {
  actor = some actor;
  action = action;
  target_type = "report";
  target_id = some (spelled target);
  metadata = metadata;
}

abbrev pub export_event : Actor → ReportDefinition → ExportPayload → AuditEvent
export_event actor definition payload =
    event actor "report.export.generated" (key_text definition.key)
      (generated_metadata definition payload)

module _ (name_before : String → String → Bool) (history : ResolvedRequest → Built)
    (write : AuditEvent → List AuditRow → Option (List AuditRow)) where
  -- An audit that fails is passed over.
  abbrev attempted : AuditEvent → List AuditRow → List AuditRow
  attempted e audits = elim (write e audits) [ none ↦ audits | some written ↦ written ]

  -- `refuse`
  unfoldable pub refuse : Actor → Text → RefusalReason → ReportError → List AuditRow → Outcome
  refuse actor report_key reason error audits =
      let key = normalized_key report_key in
      let metadata =
        (codes "reportKey", words key) ∷ (codes "reason", words (reason_text reason)) ∷ [] in
      (
        err (report_error error),
        attempted (event actor "report.export.refused" key metadata) audits,
      )

  -- The audit is written before the response, so an audit that fails prevents the export.
  unfoldable pub finish : Actor → ReportDefinition → ExportPayload → List AuditRow → Outcome
  finish actor definition payload audits =
      elim (write (export_event actor definition payload) audits) [
        | none ↦ (err audit_failed, audits)
        | some written ↦ (ok payload, written)
      ]

  -- What follows a payload, or the error that the report threw.
  unfoldable pub settle :
      Actor
      → Text
      → ReportDefinition
      → Result ReportError (ExportPayload × ReportStore)
      → List AuditRow
      → Outcome
  settle actor report_key definition (err error) audits =
      if is_window_error error
      then refuse actor report_key too_large_refusal error audits
      else if is_404 error
      then refuse actor report_key out_of_scope_refusal not_found audits
      else (err (report_error error), audits)
  settle actor report_key definition (ok (payload, _)) audits =
      if ltb max_export_rows (length payload.rows)
      then refuse actor report_key too_large_refusal export_too_large audits
      else finish actor definition payload audits

  -- `generate`
  unfoldable pub generate :
      Actor → Date → Text → Option Text → ReportQuery → ReportStore → List AuditRow → Outcome
  generate actor today report_key format query s audits =
      if not (is_csv format)
      then (err (report_error validation_error), audits)
      else elim (current_actor actor.id s) [
        | none ↦ (err (report_error not_found), audits)
        | some current ↦ elim (report_definition report_key) [
          | none ↦ refuse actor report_key forbidden_refusal not_found audits
          | some definition ↦
              if not (can_export_report current.role definition.key)
                || is_empty definition.export_roles
              then refuse actor report_key forbidden_refusal not_found audits
              else settle actor report_key definition
                  (export_payload name_before history actor.id today report_key query s) audits
        ]
      ]
