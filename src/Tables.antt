-- ===== src/Tables.antt =====
-- db/schema/index.ts: the rows that scheduling and the reports read, the columns that they use. A
-- user, a profile and a leave request are rows of Tickets and Leave.
use Prim.Native.String.{String}
use scope_is_team_management.Base.{ℕ, Bool, true, false, Option, is_some, not}
use scope_is_team_management.Dates.{Date}
use scope_is_team_management.Reporting.Windows.{Time}
use scope_is_team_management.Leave.Repository.{PeriodStatus, published, draft, proposed}

-- `operationalLifecycleStatusEnum`
pub data LifecycleStatus : Type 0 where
  active archived : LifecycleStatus

-- `projectStatusEnum`
pub data ProjectStatus : Type 0 where
  planned running on_hold completed project_archived : ProjectStatus

-- `evidenceReviewStateEnum`
pub data ReviewState : Type 0 where
  unreviewed reviewed verified : ReviewState

-- `evidenceKindEnum`
pub data EvidenceKind : Type 0 where
  certification cv portfolio project_example supporting_document : EvidenceKind

-- `replacementRequestIntentEnum`
pub data Intent : Type 0 where
  replace_assignment add_coverage : Intent

-- `replacementRequestStatusEnum`
pub data RequestStatus : Type 0 where
  waiting granted refused : RequestStatus

-- `replacementEffectStatusEnum`
pub data EffectStatus : Type 0 where
  effect_pending applied_to_draft revision_created : EffectStatus

-- `clients`
pub record ClientRow : Type 0 where
  pub id : ℕ
  pub company_name : String
  pub status : LifecycleStatus

-- `projects`
pub record ProjectRow : Type 0 where
  pub id : ℕ
  pub client_id : ℕ
  pub name : String
  pub status : ProjectStatus

-- `locations`
pub record LocationRow : Type 0 where
  pub id : ℕ
  pub client_id : ℕ
  pub name : String
  pub status : LifecycleStatus

-- `projectLocations`
pub record ProjectLocationRow : Type 0 where
  pub project_id : ℕ
  pub location_id : ℕ
  pub archived_at : Option ℕ

-- `schedulePeriods`
pub record Period : Type 0 where
  pub id : ℕ
  pub client_id : ℕ
  pub planning_month : Date
  pub lineage_id : ℕ
  pub revision_number : ℕ
  pub parent_period_id : Option ℕ
  pub status : PeriodStatus
  pub is_current : Bool
  pub last_return_reason : Option String
  pub proposed_at : Option ℕ
  pub published_at : Option ℕ
  pub version : ℕ
  pub updated_at : ℕ

-- `scheduleAssignments`
pub record Assignment : Type 0 where
  pub id : ℕ
  pub schedule_period_id : ℕ
  pub employee_user_id : ℕ
  pub project_id : ℕ
  pub location_id : ℕ
  pub assignment_date : Date
  pub start_time : Time
  pub end_time : Time
  pub shared_instruction : Option String
  pub copied_from_assignment_id : Option ℕ
  pub version : ℕ
  pub updated_at : ℕ
  pub omitted_at : Option ℕ

-- `employeeProfiles`
pub record StaffRow : Type 0 where
  pub user_id : ℕ
  pub employee_code : String
  pub team : Option ℕ

-- `skills`
pub record SkillRow : Type 0 where
  pub id : ℕ
  pub name : String
  pub active : Bool

-- `employeeSkills`
pub record EmployeeSkillRow : Type 0 where
  pub employee_user_id : ℕ
  pub skill_id : ℕ
  pub archived_at : Option ℕ

-- `staffingRequirements`
pub record StaffingRow : Type 0 where
  pub id : ℕ
  pub client_id : Option ℕ
  pub project_id : Option ℕ
  pub location_id : Option ℕ
  pub required_skill_id : ℕ
  pub required_employee_count : ℕ
  pub archived_at : Option ℕ

-- `assignmentSkillRequirements`
pub record SkillNeedRow : Type 0 where
  pub id : ℕ
  pub schedule_assignment_id : ℕ
  pub skill_id : ℕ
  pub archived_at : Option ℕ

-- `replacementRequests`
pub record ReplacementRow : Type 0 where
  pub id : ℕ
  pub intent : Intent
  pub status : RequestStatus
  pub effect_status : EffectStatus
  pub anchor_assignment_id : ℕ
  pub requester_user_id : ℕ
  pub observed_required_employee_count : ℕ
  pub observed_eligible_employee_count : ℕ
  pub decided_by_user_id : Option ℕ
  pub created_at : ℕ

-- `employeeEvidence`
pub record EvidenceRow : Type 0 where
  pub id : ℕ
  pub owner_user_id : ℕ
  pub kind : EvidenceKind
  pub title : String
  pub issuer : Option String
  pub issue_date : Option Date
  pub expiry_date : Option Date
  pub related_skill_id : Option ℕ
  pub external_url : Option String
  pub review_state : ReviewState
  pub archived_at : Option ℕ
  pub last_submitted_at : Option ℕ
  pub details : Option String

abbrev pub is_live : Option ℕ → Bool
is_live archived_at = not (is_some archived_at)

abbrev pub is_published : PeriodStatus → Bool
is_published published = true
is_published _ = false

abbrev pub is_draft : PeriodStatus → Bool
is_draft draft = true
is_draft _ = false

abbrev pub is_proposed : PeriodStatus → Bool
is_proposed proposed = true
is_proposed _ = false

abbrev pub is_in_use : LifecycleStatus → Bool
is_in_use active = true
is_in_use archived = false

abbrev pub is_archived_project : ProjectStatus → Bool
is_archived_project project_archived = true
is_archived_project _ = false
