-- ===== src/Audit/Tests.antt =====
-- modules/audit/audit-service.ts and presentation.ts: examples.
use scope_is_team_management.Base.{◌↔◌, ◌⊎◌, ◌∷◌, [], codes}
use scope_is_team_management.Audit.{Metadata, words, number, sanitize_audit_metadata}
use scope_is_team_management.Audit.Laws.{IsFree, IsOutcome, sanitize_iff}
use scope_is_team_management.Base.{Memᴰ}

abbrev refusal : Metadata
refusal =
    (codes "Password", words (codes "secret")) ∷ (codes "reason", words (codes "too_large")) ∷ []

sanitize_iff_example :
    Memᴰ
      (codes "Password", words (codes "secret"))
      (sanitize_audit_metadata refusal "report.export.refused")
    ↔ (Memᴰ (codes "Password", words (codes "secret")) refusal
        × (IsFree (codes "Password")
            ⊎ IsOutcome "report.export.refused" (codes "Password", words (codes "secret"))))
sanitize_iff_example =
    sanitize_iff refusal "report.export.refused" (codes "Password", words (codes "secret"))

abbrev archived_metadata : Metadata
archived_metadata =
    (codes "version", number 3) ∷ (codes "title", words (codes "Private title")) ∷ []
