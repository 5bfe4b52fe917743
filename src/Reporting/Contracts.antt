-- ===== src/Reporting/Contracts.antt =====
-- modules/reporting/definitions.ts, the contract of each report.
use Prim.Native.String.{String}
use scope_is_team_management.Base.{ℕ, Bool, true, false, List, [], ◌∷◌}
use scope_is_team_management.Shared.{Role, super_admin}

pub data ReportKey : Type 0 where
  published_allocation unallocated_employees scheduled_hours planning_unpublished : ReportKey
  approved_leave leave_balance coverage_replacement skills_coverage : ReportKey
  skill_gaps certification_status evidence_review_queue schedule_lifecycle audit_history : ReportKey

pub data ReportPrivacy : Type 0 where
  operational aggregate private_owner governance : ReportPrivacy

-- `ReportScopePredicate`: `global` is everywhere, `self` is own_rows.
pub data ReportScope : Type 0 where
  everywhere employee_scope assignment_scope own_rows : ReportScope

pub data DateInterpretation : Type 0 where
  business_date_window planning_month dubai_year instant_window : DateInterpretation

pub record ReportDefinition : Type 0 where
  pub key : ReportKey
  pub label : String
  pub question : String
  pub source : String
  pub grain : String
  pub included : String
  pub excluded : String
  pub date_interpretation : DateInterpretation
  pub privacy : ReportPrivacy
  pub scope : ReportScope
  pub ordering : String
  pub empty_state : String
  pub max_window_days : ℕ
  pub view_roles : List Role
  pub export_roles : List Role
  pub planning : Bool

abbrev management : List Role
management = super_admin ∷ []

abbrev super_admin_only : List Role
super_admin_only = super_admin ∷ []

abbrev twelve_months : ℕ
twelve_months = 366

abbrev ninety_days : ℕ
ninety_days = 90

unfoldable pub published_allocation_report : ReportDefinition
published_allocation_report = record {
  key = published_allocation;
  label = "Published allocation";
  question =
      "Who is assigned to which client, project, location and date on the current Published schedule?";
  source =
      "schedule_assignments joined to schedule_periods, projects, locations, clients and users";
  grain = "one row per Published assignment";
  included =
      "assignments whose period is status 'PUBLISHED' and is_current = true, with assignment_date inside the inclusive window";
  excluded =
      "every DRAFT and PROPOSED period, every superseded Published revision, and any assignment outside the reader's current scope";
  date_interpretation = business_date_window;
  privacy = operational;
  scope = assignment_scope;
  ordering =
      "assignmentDate ascending, startTime ascending, employee display name ascending, assignment id ascending";
  empty_state = "No published assignment falls inside this window for your current scope.";
  max_window_days = twelve_months;
  view_roles = management;
  export_roles = management;
  planning = false;
}

unfoldable pub unallocated_employees_report : ReportDefinition
unallocated_employees_report = record {
  key = unallocated_employees;
  label = "Employees without a Published assignment";
  question = "Which active employees in scope hold no Published assignment in this window?";
  source =
      "users and employee_profiles subtracted by the distinct employee set of the Published allocation report";
  grain = "one row per active in-scope employee";
  included =
      "users.active = true with an employee_profiles row, inside the reader's current scope, absent from the window's Published assignments";
  excluded =
      "deactivated users, users without a profile, out-of-scope employees, and anyone holding at least one Published assignment in the window";
  date_interpretation = business_date_window;
  privacy = operational;
  scope = employee_scope;
  ordering = "employee display name ascending, user id ascending";
  empty_state =
      "Every active employee in your scope holds at least one Published assignment in this window.";
  max_window_days = twelve_months;
  view_roles = management;
  export_roles = super_admin_only;
  planning = false;
}

unfoldable pub scheduled_hours_report : ReportDefinition
scheduled_hours_report = record {
  key = scheduled_hours;
  label = "Published scheduled hours";
  question = "How many hours are scheduled on the current Published schedule, by employee?";
  source = "the Published allocation rows, grouped by employee";
  grain = "one row per employee with a Published assignment in the window";
  included =
      "current Published assignments inside the inclusive window, inside the reader's current scope";
  excluded =
      "DRAFT and PROPOSED periods, superseded Published revisions, and out-of-scope assignments";
  date_interpretation = business_date_window;
  privacy = operational;
  scope = assignment_scope;
  ordering = "total scheduled hours descending, employee display name ascending, user id ascending";
  empty_state = "No scheduled hours fall inside this window for your current scope.";
  max_window_days = twelve_months;
  view_roles = management;
  export_roles = super_admin_only;
  planning = false;
}

unfoldable pub planning_unpublished_report : ReportDefinition
planning_unpublished_report = record {
  key = planning_unpublished;
  label = "Planning (unpublished)";
  question = "What is currently planned in Draft or Proposed schedules inside my scope?";
  source = "schedule_assignments joined to schedule_periods where status is DRAFT or PROPOSED";
  grain = "one row per unpublished assignment";
  included =
      "assignments whose period status is 'DRAFT' or 'PROPOSED', inside the inclusive window and the reader's current scope";
  excluded = "every Published period and every assignment outside the reader's current scope";
  date_interpretation = business_date_window;
  privacy = operational;
  scope = assignment_scope;
  ordering =
      "assignmentDate ascending, startTime ascending, employee display name ascending, assignment id ascending";
  empty_state = "No Draft or Proposed assignment falls inside this window for your current scope.";
  max_window_days = twelve_months;
  view_roles = management;
  export_roles = super_admin_only;
  planning = true;
}

unfoldable pub approved_leave_report : ReportDefinition
approved_leave_report = record {
  key = approved_leave;
  label = "Approved leave";
  question =
      "Which approved leave falls inside this window, and does it conflict with the Published plan?";
  source = "leave_requests with status 'APPROVED' intersected with the inclusive window";
  grain = "one row per approved leave request";
  included =
      "leave requests with status 'APPROVED' whose start_date/end_date intersect the inclusive window, inside the reader's current scope";
  excluded =
      "PENDING, REJECTED and CANCELLED requests from approved-day totals, private reasons, and private decision responses";
  date_interpretation = business_date_window;
  privacy = operational;
  scope = employee_scope;
  ordering = "start date ascending, employee display name ascending, leave request id ascending";
  empty_state = "No approved leave intersects this window for your current scope.";
  max_window_days = ninety_days;
  view_roles = management;
  export_roles = super_admin_only;
  planning = false;
}

unfoldable pub leave_balance_report : ReportDefinition
leave_balance_report = record {
  key = leave_balance;
  label = "Leave balance";
  question = "How much annual leave has each employee used and how much remains this year?";
  source =
      "leave_allowance_settings minus approved leave working days intersecting the Dubai calendar year";
  grain = "one row per active employee";
  included =
      "active users with an employee_profiles row, inside the reader's current scope, for the current Dubai calendar year";
  excluded =
      "PENDING, REJECTED and CANCELLED requests, private reasons, and private decision responses";
  date_interpretation = dubai_year;
  privacy = aggregate;
  scope = employee_scope;
  ordering = "remaining days ascending, employee display name ascending, user id ascending";
  empty_state = "No employee is available in your current scope for a balance snapshot.";
  max_window_days = twelve_months;
  view_roles = super_admin_only;
  export_roles = super_admin_only;
  planning = false;
}

unfoldable pub coverage_replacement_report : ReportDefinition
coverage_replacement_report = record {
  key = coverage_replacement;
  label = "Replacement request status";
  question = "What coverage and replacement decisions are open, approved or rejected?";
  source = "replacement_requests with their observer counts and anchor assignment";
  grain = "one row per replacement request";
  included =
      "every replacement request whose anchor assignment is inside the reader's current scope";
  excluded =
      "request ownership never widens scope, so a request whose anchor assignment is out of scope is not listed";
  date_interpretation = instant_window;
  privacy = operational;
  scope = assignment_scope;
  ordering = "created timestamp descending, request id descending";
  empty_state = "No replacement request is anchored inside your current scope.";
  max_window_days = ninety_days;
  view_roles = management;
  export_roles = super_admin_only;
  planning = false;
}

unfoldable pub skills_coverage_report : ReportDefinition
skills_coverage_report = record {
  key = skills_coverage;
  label = "Recorded skills";
  question = "Which skills exist, and how many employees in scope have each one recorded?";
  source = "skills joined to non-archived employee_skills";
  grain = "one row per skill";
  included =
      "active skills, with the count of in-scope employees holding a non-archived record of that skill";
  excluded =
      "archived skills, archived employee-skill rows, free-text proficiency, experience text and notes";
  date_interpretation = instant_window;
  privacy = aggregate;
  scope = employee_scope;
  ordering = "recorded employee count descending, skill name ascending, skill id ascending";
  empty_state = "No skill is recorded in the catalogue yet.";
  max_window_days = twelve_months;
  view_roles = management;
  export_roles = super_admin_only;
  planning = false;
}

unfoldable pub skill_gaps_report : ReportDefinition
skill_gaps_report = record {
  key = skill_gaps;
  label = "Required versus recorded skills";
  question =
      "Which operational skill requirements are recorded and which are not recorded in scope?";
  source =
      "non-archived staffing_requirements and assignment_skill_requirements compared with non-archived employee_skills";
  grain = "one row per staffing or assignment skill requirement";
  included =
      "non-archived requirements, with the in-scope count of employees holding the required skill recorded";
  excluded =
      "archived requirements, archived employee-skill rows, certification state, and any staffing-eligibility conclusion";
  date_interpretation = instant_window;
  privacy = aggregate;
  scope = employee_scope;
  ordering =
      "status ascending, missing employee count descending, skill name ascending, requirement id ascending";
  empty_state = "No operational skill requirement is recorded yet.";
  max_window_days = twelve_months;
  view_roles = management;
  export_roles = super_admin_only;
  planning = false;
}

unfoldable pub certification_status_report : ReportDefinition
certification_status_report = record {
  key = certification_status;
  label = "Certification status";
  question = "What is the review and expiry state of recorded certifications?";
  source = "employee_evidence where kind = 'certification' and archived_at is null";
  grain = "one row per active certification record";
  included = "non-archived certification evidence inside the reader's current scope";
  excluded =
      "archived evidence, every other evidence kind, private details, external links, files and storage keys; a scoped Admin receives the summary projection only";
  date_interpretation = instant_window;
  privacy = operational;
  scope = employee_scope;
  ordering =
      "expiry date ascending with nulls last, employee display name ascending, evidence id ascending";
  empty_state = "No certification is recorded in your current scope.";
  max_window_days = twelve_months;
  view_roles = management;
  export_roles = management;
  planning = false;
}

unfoldable pub evidence_review_queue_report : ReportDefinition
evidence_review_queue_report = record {
  key = evidence_review_queue;
  label = "Evidence awaiting review";
  question = "Which capability evidence is waiting for a Super Admin review?";
  source = "employee_evidence where review_state = 'unreviewed' and archived_at is null";
  grain = "one row per evidence item awaiting review";
  included = "non-archived evidence whose review_state is 'unreviewed'";
  excluded =
      "reviewed and verified items, archived evidence, private file contents, and storage keys";
  date_interpretation = instant_window;
  privacy = governance;
  scope = everywhere;
  ordering = "last submitted timestamp ascending with nulls first, evidence id ascending";
  empty_state = "No evidence is waiting for review.";
  max_window_days = twelve_months;
  view_roles = super_admin_only;
  export_roles = super_admin_only;
  planning = false;
}

unfoldable pub schedule_lifecycle_report : ReportDefinition
schedule_lifecycle_report = record {
  key = schedule_lifecycle;
  label = "Schedule lifecycle";
  question = "Where does each client-month sit in the Draft, Proposed and Published lifecycle?";
  source = "schedule_periods grouped by client and planning month";
  grain = "one row per client and planning month";
  included = "every client-month whose client is inside the reader's current scope";
  excluded = "internal return reasons and any period outside the reader's current scope";
  date_interpretation = planning_month;
  privacy = operational;
  scope = assignment_scope;
  ordering = "planning month descending, client name ascending";
  empty_state = "No schedule period exists for your current scope.";
  max_window_days = twelve_months;
  view_roles = management;
  export_roles = super_admin_only;
  planning = false;
}

unfoldable pub audit_history_report : ReportDefinition
audit_history_report = record {
  key = audit_history;
  label = "Audit history";
  question = "What authorized actions were recorded, and by whom?";
  source =
      "audit_events rendered exclusively through the Phase 10 per-action safe metadata allowlist";
  grain = "one row per audit event";
  included = "events matching the supplied action, target type, actor and bounded date range";
  excluded =
      "raw JSON metadata, unknown-action payloads, credentials, tokens, sessions, private content, and any export";
  date_interpretation = instant_window;
  privacy = governance;
  scope = everywhere;
  ordering = "occurred timestamp descending, event id descending";
  empty_state = "No audit event matches these filters.";
  max_window_days = twelve_months;
  view_roles = super_admin_only;
  export_roles = [];
  planning = false;
}
