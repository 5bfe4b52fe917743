-- ===== src/Audit/Actions.antt =====
-- modules/audit/presentation.ts: the actions that the audit history knows, each with its label and
-- the metadata keys that it may show.
use Prim.Native.String.{String}
use scope_is_team_management.Base.{List, [], ◌∷◌, ◌++◌, Text, codes}

pub record AuditAction : Type 0 where
  pub action : String
  pub label : String
  pub fields : List Text

abbrev shared : List Text
shared =
    codes "version"
    ∷ codes "previousVersion"
    ∷ codes "state"
    ∷ codes "previousState"
    ∷ codes "status"
    ∷ codes "count"
    ∷ codes "targetType"
    ∷ codes "targetId"
    ∷ []

abbrev known : String → String → List Text → AuditAction
known action label fields = record { action = action; label = label; fields = fields }

unfoldable pub account_actions : List AuditAction
account_actions =
    known "auth.password_session.started" "Signed in" []
    ∷ known "auth.password_session.refused" "Sign in refused" (codes "reason" ∷ [])
    ∷ known "auth.password_session.ended" "Signed out" []
    ∷ known "auth.credentials.bootstrapped" "Existing-user credentials initialized"
        (codes "count" ∷ codes "outcome" ∷ [])
    ∷ known "auth.account.created" "Account created"
        (codes "role" ∷ codes "signInEnabled" ∷ codes "mustChangePassword" ∷ [])
    ∷ known "auth.credentials.enabled" "Sign-in enabled for existing record"
        (codes "signInEnabled" ∷ codes "mustChangePassword" ∷ [])
    ∷ known "auth.password.reset" "Password reset" (
        codes "sessionsRevoked"
        ∷ codes "mustChangePassword"
        ∷ codes "credentialVersion"
        ∷ codes "signInEnabled"
        ∷ [])
    ∷ known "auth.password.changed" "Password changed"
        (codes "mustChangePassword" ∷ codes "credentialVersion" ∷ [])
    ∷ known "foundation.scope_grant.created" "Scope grant created"
        (shared ++ codes "scopeType" ∷ [])
    ∷ known "foundation.scope_grant.updated" "Scope grant updated"
        (shared ++ codes "scopeType" ∷ [])
    ∷ known "employee_profile.created" "Employee record created" (shared ++ codes "role" ∷ [])
    ∷ known "employee_profile.self_updated" "Employee self-profile updated"
        (shared ++ codes "fieldCount" ∷ [])
    ∷ known "employee_profile.management_updated" "Employee record updated by management"
        (shared ++ codes "fieldCount" ∷ [])
    ∷ known "employee_profile.role_updated" "Employee system role updated"
        (shared ++ codes "previousRole" ∷ codes "role" ∷ [])
    ∷ known "employee_profile.assignments_updated" "Employee designation updated" shared
    ∷ []

unfoldable pub employee_planning_location_actions : List AuditAction
employee_planning_location_actions =
    known "employee_planning_location.saved" "Employee planning coordinate saved" shared
    ∷ known "employee_planning_location.cleared" "Employee planning coordinate cleared" shared
    ∷ known "employee_skill.created" "Employee skill recorded"
        (shared ++ codes "coverageEligible" ∷ [])
    ∷ known "employee_skill.updated" "Employee skill updated"
        (shared ++ codes "coverageEligible" ∷ [])
    ∷ known "client.created" "Client created" shared
    ∷ known "client.updated" "Client updated" shared
    ∷ known "project.created" "Project created" (shared ++ codes "clientId" ∷ [])
    ∷ known "project.updated" "Project updated" (shared ++ codes "clientId" ∷ [])
    ∷ known "location.created" "Location created" (shared ++ codes "clientId" ∷ [])
    ∷ known "location.updated" "Location updated" (shared ++ codes "clientId" ∷ [])
    ∷ known "project_location.linked" "Project location linked"
        (shared ++ codes "projectId" ∷ codes "locationId" ∷ [])
    ∷ known "project_location.unlinked" "Project location unlinked"
        (shared ++ codes "projectId" ∷ codes "locationId" ∷ [])
    ∷ known "operational_contact.created" "Operational contact added" shared
    ∷ known "staffing_requirement.created" "Staffing requirement added"
        (shared ++ codes "requiredSkillId" ∷ [])
    ∷ known "operational_employee_relation.created" "Operational employee association added"
        (shared ++ codes "employeeUserId" ∷ [])
    ∷ []

unfoldable pub operational_note_actions : List AuditAction
operational_note_actions =
    known "operational_note.created" "Shared operational note added" shared
    ∷ known "operational_note.updated" "Shared operational note edited" shared
    ∷ known "operational_note.revision_created" "Shared note previous version preserved"
        (shared ++ codes "contentLength" ∷ [])
    ∷ known "operational_note.archived" "Shared operational note archived"
        (shared ++ codes "archiveReasonProvided" ∷ [])
    ∷ known "management_note.created" "Employee-management note created" (
        shared
        ++ codes "subjectUserId"
          ∷ codes "visibility"
          ∷ codes "authorRole"
          ∷ codes "contentLength"
          ∷ [])
    ∷ known "management_note.archived" "Employee-management note archived"
        (shared ++ codes "subjectUserId" ∷ codes "visibility" ∷ codes "reasonProvided" ∷ [])
    ∷ known "admin_scope_grant.granted" "Operational scope granted"
        (shared ++ codes "adminUserId" ∷ codes "scopeType" ∷ codes "scopeTargetId" ∷ [])
    ∷ known "admin_scope_grant.revoked" "Operational scope revoked"
        (shared ++ codes "adminUserId" ∷ codes "scopeType" ∷ codes "scopeTargetId" ∷ [])
    ∷ known "schedule.created" "Schedule period created" (shared ++ codes "month" ∷ [])
    ∷ known "schedule.proposed" "Schedule proposed"
        (shared ++ codes "month" ∷ codes "assignmentCount" ∷ [])
    ∷ known "schedule.published" "Schedule published"
        (shared ++ codes "month" ∷ codes "assignmentCount" ∷ codes "affectedEmployeeCount" ∷ [])
    ∷ known "schedule.returned_to_draft" "Schedule returned to draft" (shared ++ codes "month" ∷ [])
    ∷ []

unfoldable pub schedule_assignment_actions : List AuditAction
schedule_assignment_actions =
    known "schedule_assignment.created" "Schedule assignment created"
      (shared ++ codes "employeeUserId" ∷ [])
    ∷ known "schedule_assignment.updated" "Schedule assignment updated"
        (shared ++ codes "employeeUserId" ∷ [])
    ∷ known "schedule_assignment.removed" "Schedule assignment removed"
        (shared ++ codes "employeeUserId" ∷ [])
    ∷ known "schedule_assignment.replaced" "Schedule assignment employee replaced"
        (shared ++ codes "previousEmployeeUserId" ∷ codes "employeeUserId" ∷ [])
    ∷ known "schedule_assignment.coverage_added" "Coverage assignment added"
        (shared ++ codes "employeeUserId" ∷ [])
    ∷ known "skill_requirement.created" "Assignment skill requirement added"
        (shared ++ codes "requiredSkillId" ∷ [])
    ∷ known "skill_requirement.archived" "Assignment skill requirement archived"
        (shared ++ codes "requiredSkillId" ∷ [])
    ∷ known "leave.submitted" "Leave request submitted" (
        shared
        ++ codes "employeeUserId" ∷ codes "startDate" ∷ codes "endDate" ∷ codes "workingDays" ∷ [])
    ∷ known "leave.requested" "Leave requested" (
        shared
        ++ codes "employeeUserId"
          ∷ codes "startDate"
          ∷ codes "endDate"
          ∷ codes "workingDays"
          ∷ codes "projectedRemaining"
          ∷ codes "reasonProvided"
          ∷ [])
    ∷ known "leave.approved" "Leave approved" (
        shared
        ++ codes "employeeUserId"
          ∷ codes "workingDays"
          ∷ codes "allowance"
          ∷ codes "remaining"
          ∷ codes "scheduleImpactCount"
          ∷ codes "responseProvided"
          ∷ [])
    ∷ known "leave.rejected" "Leave rejected" (
        shared
        ++ codes "employeeUserId"
          ∷ codes "workingDays"
          ∷ codes "allowance"
          ∷ codes "remaining"
          ∷ codes "scheduleImpactCount"
          ∷ codes "responseProvided"
          ∷ [])
    ∷ known "leave.cancelled" "Leave cancelled" (shared ++ codes "employeeUserId" ∷ [])
    ∷ known "leave.allowance_updated" "Leave allowance updated"
        (shared ++ codes "employeeUserId" ∷ codes "allowance" ∷ [])
    ∷ []

unfoldable pub coverage_actions : List AuditAction
coverage_actions =
    known "coverage.replacement_requested" "Replacement requested" (
      shared
      ++ codes "intent"
        ∷ codes "requiredCount"
        ∷ codes "eligibleCount"
        ∷ codes "nomineeProvided"
        ∷ [])
    ∷ known "coverage.replacement_approved" "Replacement request approved" (
        shared
        ++ codes "intent"
          ∷ codes "selectedEmployeeUserId"
          ∷ codes "effectStatus"
          ∷ codes "effectPeriodId"
          ∷ [])
    ∷ known "coverage.replacement_edited" "Cover request edited"
        (shared ++ codes "intent" ∷ codes "nomineeProvided" ∷ [])
    ∷ known "coverage.replacement_cancelled" "Cover request cancelled"
        (shared ++ codes "intent" ∷ [])
    ∷ known "coverage.replacement_rejected" "Replacement request rejected"
        (shared ++ codes "intent" ∷ [])
    ∷ []

unfoldable pub evidence_actions : List AuditAction
evidence_actions =
    known "evidence.created" "Capability evidence created" (
      shared
      ++ codes "kind"
        ∷ codes "relatedSkill"
        ∷ codes "hasExpiry"
        ∷ codes "hasFile"
        ∷ codes "hasExternalUrl"
        ∷ [])
    ∷ known "evidence.updated" "Capability evidence updated" (
        shared
        ++ codes "kind"
          ∷ codes "reviewedBeforeUpdate"
          ∷ codes "hasExpiry"
          ∷ codes "hasExternalUrl"
          ∷ codes "hasDetails"
          ∷ [])
    ∷ known "evidence.archived" "Capability evidence archived"
        (shared ++ codes "kind" ∷ codes "fileCountArchived" ∷ [])
    ∷ known "evidence.file_attached" "Evidence file attached" (
        shared
        ++ codes "kind"
          ∷ codes "fileVersion"
          ∷ codes "contentType"
          ∷ codes "sizeBytes"
          ∷ codes "replacedFile"
          ∷ codes "malwareScanned"
          ∷ [])
    ∷ known "evidence.file_replaced" "Evidence file replaced" (
        shared
        ++ codes "kind"
          ∷ codes "fileVersion"
          ∷ codes "contentType"
          ∷ codes "sizeBytes"
          ∷ codes "replacedFile"
          ∷ codes "malwareScanned"
          ∷ [])
    ∷ known "evidence.file_archived" "Evidence file archived"
        (shared ++ codes "kind" ∷ codes "fileVersion" ∷ [])
    ∷ known "evidence.file_read_by_reviewer" "Reviewer opened a private evidence file"
        (shared ++ codes "kind" ∷ codes "fileVersion" ∷ codes "contentType" ∷ codes "delivery" ∷ [])
    ∷ known "evidence.reviewed" "Capability evidence marked reviewed" (shared ++ codes "kind" ∷ [])
    ∷ known "evidence.verified" "Capability evidence verified" (shared ++ codes "kind" ∷ [])
    ∷ known "evidence.verification_removed" "Capability evidence verification removed"
        (shared ++ codes "kind" ∷ [])
    ∷ known "evidence.review_reset" "Capability evidence review reset after an owner change"
        (shared ++ codes "kind" ∷ codes "cause" ∷ [])
    ∷ known "discussion.message_created" "Discussion message posted" (
        shared
        ++ codes "parentType"
          ∷ codes "parentId"
          ∷ codes "messageId"
          ∷ codes "contentLength"
          ∷ codes "participantCount"
          ∷ [])
    ∷ known "discussion.message_archived" "Discussion message archived by its author"
        (shared ++ codes "parentType" ∷ codes "parentId" ∷ codes "messageId" ∷ [])
    ∷ []

unfoldable pub ticket_actions : List AuditAction
ticket_actions =
    known "ticket.workspace_created" "Ticket workspace created" (codes "linked" ∷ [])
    ∷ known "ticket.workspace_updated" "Ticket workspace updated" (codes "version" ∷ [])
    ∷ known "ticket.member_granted" "Ticket workspace access granted" (codes "userId" ∷ [])
    ∷ known "ticket.member_revoked" "Ticket workspace access revoked" (codes "userId" ∷ [])
    ∷ known "ticket.board_created" "Ticket board created"
        (codes "workspaceId" ∷ codes "status" ∷ [])
    ∷ known "ticket.board_updated" "Ticket board updated" (codes "status" ∷ [])
    ∷ known "ticket.created" "Ticket created"
        (codes "boardId" ∷ codes "status" ∷ codes "participantCount" ∷ [])
    ∷ known "ticket.updated" "Ticket updated" (codes "version" ∷ [])
    ∷ known "ticket.participants_updated" "Ticket people updated" (codes "version" ∷ [])
    ∷ known "ticket.work_log_created" "Ticket work log created"
        (codes "version" ∷ codes "workLogId" ∷ [])
    ∷ known "ticket.work_log_updated" "Ticket work log updated"
        (codes "version" ∷ codes "workLogId" ∷ [])
    ∷ known "ticket.archived" "Ticket archived" (codes "version" ∷ [])
    ∷ known "ticket.restored" "Ticket restored" (codes "version" ∷ [])
    ∷ known "ticket.file_created" "Private ticket file attached"
        (codes "fileId" ∷ codes "contentType" ∷ codes "byteSize" ∷ codes "version" ∷ [])
    ∷ known "ticket.file_archived" "Private ticket file archived"
        (codes "fileId" ∷ codes "fileVersion" ∷ codes "version" ∷ [])
    ∷ known "ticket.file_restored" "Private ticket file restored"
        (codes "fileId" ∷ codes "fileVersion" ∷ codes "version" ∷ [])
    ∷ []

unfoldable pub report_actions : List AuditAction
report_actions =
    known "report.export.generated" "Report export generated" (
      codes "reportKey"
      ∷ codes "format"
      ∷ codes "from"
      ∷ codes "to"
      ∷ codes "rowCount"
      ∷ codes "outcome"
      ∷ [])
    ∷ known "report.export.refused" "Report export refused"
        (codes "reportKey" ∷ codes "reason" ∷ [])
    ∷ []

-- `auditActions`
unfoldable pub audit_actions : List AuditAction
unfolding account_actions employee_planning_location_actions operational_note_actions
    schedule_assignment_actions coverage_actions evidence_actions ticket_actions report_actions
audit_actions =
    account_actions
    ++ (employee_planning_location_actions
        ++ (operational_note_actions
            ++ (schedule_assignment_actions
                ++ (coverage_actions
                    ++ (evidence_actions ++ (ticket_actions ++ (report_actions)))))))
