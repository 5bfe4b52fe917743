-- ===== src/Reporting/Summaries.antt =====
-- modules/reporting/service.ts: the reports on balances, replacement requests, skills, evidence
-- and the lifecycle of schedules.
use Prim.Native.String.{String}
use scope_is_team_management.Base.{
  ℕ, ℤ, pos, negsuc, minus, Bool, true, false, ◌&&◌, ◌||◌, ◌+◌, ◌-◌, ◌==◌, ltb, Option, none, some,
  List, [], ◌∷◌, ◌++◌, map, filter, length, order_by, page_of, then_by, asc, desc, if◌then◌else◌,
  is_some,
}
use scope_is_team_management.Shared.{admin, same_role}
use scope_is_team_management.Authorization.Resolved.{ResolvedScope}
use scope_is_team_management.Dates.{Date}
use scope_is_team_management.Leave.Repository.{LeaveRow}
use scope_is_team_management.Leave.DateRules.{working_days, later, earlier}
use scope_is_team_management.Tables.{
  ReplacementRow, Intent, replace_assignment, add_coverage, waiting, granted, refused,
}
use scope_is_team_management.Reporting.Windows.{DateWindow}
use scope_is_team_management.Reporting.Requests.{skill_is_recorded}
use scope_is_team_management.Reporting.Filters.{ReportStore}
use scope_is_team_management.Reporting.Queries.{EmployeeEntry, active_employees}
use scope_is_team_management.Reporting.Records.{
  approved_leave_for_year, replacement_requests, replacement_request_count, skills,
  recorded_skill_relations, skill_requirements, RequirementEntry, assignment_skill_requirements,
}
use scope_is_team_management.Reporting.Snapshots.{
  evidence_awaiting_review, evidence_awaiting_review_count,
}
use scope_is_team_management.Reporting.Cells.{
  Cell, words_cell, number_cell, difference_cell, date_cell, instant_cell, kind_cell, effect_cell,
  Row, Built,
}
use scope_is_team_management.Reporting.Builders.{
  ResolvedRequest, filters_of, recorded_count, within,
}

-- The working days of the leave of one employee inside a window.
unfoldable pub used_days : DateWindow → ℕ → List LeaveRow → ℕ
used_days window employee [] = 0
used_days window employee (entry ∷ entries) =
    let rest = used_days window employee entries in
    if entry.employee_user_id == employee
    then working_days (later entry.start_date window.from) (earlier entry.end_date window.to) + rest
    else rest

pub record BalanceRow : Type 0 where
  pub employee_name : String
  pub allowance : ℕ
  pub used : ℕ
  pub remaining : ℤ

abbrev less_than : ℤ → ℤ → Bool
less_than (pos a) (pos b) = ltb a b
less_than (pos a) (negsuc b) = false
less_than (negsuc a) (pos b) = true
less_than (negsuc a) (negsuc b) = ltb b a

abbrev balance_of : ℕ → DateWindow → List LeaveRow → EmployeeEntry → BalanceRow
balance_of allowance window approved e =
    let consumed = used_days window e.id approved in
    record {
      employee_name = e.display_name;
      allowance = allowance;
      used = consumed;
      remaining = minus allowance consumed;
    }

abbrev pub or_date : String → Option Date → Cell
or_date missing none = words_cell missing
or_date missing (some date) = date_cell date

abbrev pub or_instant : Option ℕ → Cell
or_instant none = words_cell "Not recorded"
or_instant (some at) = instant_cell at

abbrev pub or_number : Option ℕ → Cell
or_number none = words_cell "Not recorded"
or_number (some n) = number_cell n

-- A refused request that nobody decided was cancelled.
abbrev request_status : ReplacementRow → String
request_status r = elim r.status [
  | waiting ↦ "PENDING"
  | granted ↦ "APPROVED"
  | refused ↦ if is_some r.decided_by_user_id then "REJECTED" else "CANCELLED"
]

abbrev intent_text : Intent → String
intent_text replace_assignment = "Replace assignment employee"
intent_text add_coverage = "Add coverage assignment"

-- A requirement with its counts.
pub record GapRow : Type 0 where
  pub requirement_type : String
  pub scope_label : String
  pub skill_name : String
  pub required : ℕ
  pub recorded : ℕ
  pub missing : ℕ
  pub is_recorded : Bool

abbrev first_name : RequirementEntry → String
first_name e = elim e.client_name [
  | some name ↦ name
  | none ↦ elim e.project_name [
    | some name ↦ name
    | none ↦ elim e.location_name [ some name ↦ name | none ↦ "Not recorded" ]
  ]
]

abbrev requirement_in_scope : ResolvedScope → RequirementEntry → Bool
requirement_in_scope scope e =
    scope.is_global
    || (same_role scope.role admin
        && (within (e.requirement).client_id scope.client_ids
            || (within (e.requirement).project_id scope.project_ids
                || within (e.requirement).location_id scope.location_ids)))

-- "not recorded" sorts before "recorded".
abbrev status_code : GapRow → ℕ
status_code g = if g.is_recorded then 1 else 0

abbrev gap_row : GapRow → Row
gap_row g =
    ("requirement_type", words_cell g.requirement_type)
    ∷ ("scope", words_cell g.scope_label)
    ∷ ("skill_name", words_cell g.skill_name)
    ∷ ("required_count", number_cell g.required)
    ∷ ("recorded_count", number_cell g.recorded)
    ∷ ("missing_count", number_cell g.missing)
    ∷ ("status", words_cell (if g.is_recorded then "recorded" else "not recorded"))
    ∷ []

module _ (name_before : String → String → Bool) where
  -- `builders["leave-balance"]`
  unfoldable pub build_leave_balance : ResolvedRequest → ReportStore → Built
  build_leave_balance r s = elim s.allowance [
    | none ↦ record {
      columns = ("employee_name", "Employee") ∷ [];
      rows = [];
      total = some 0;
      unavailable = true;
    }
    | some setting ↦
        let approved = approved_leave_for_year r.scope r.window s in
        let rows =
          order_by
            (then_by (λ x y. less_than x.remaining y.remaining)
              (λ x y. name_before x.employee_name y.employee_name))
            (map (balance_of setting.annual_working_days r.window approved)
              (active_employees name_before r.scope s)) in
        record {
          columns =
              ("employee_name", "Employee")
              ∷ ("allowance", "Annual allowance (working days)")
              ∷ ("used", "Approved working days used")
              ∷ ("remaining", "Remaining working days")
              ∷ [];
          rows =
              map
                (λ b.
                  ("employee_name", words_cell b.employee_name)
                  ∷ ("allowance", number_cell b.allowance)
                  ∷ ("used", number_cell b.used)
                  ∷ ("remaining", difference_cell b.remaining)
                  ∷ [])
                (page_of r.limit r.offset rows);
          total = some (length rows);
          unavailable = false;
        }
  ]

  -- `builders["coverage-replacement"]`
  unfoldable pub build_coverage_replacement : ResolvedRequest → ReportStore → Built
  build_coverage_replacement r s = record {
    columns =
        ("requested_at", "Requested at")
        ∷ ("intent", "Intent")
        ∷ ("status", "Status")
        ∷ ("effect_status", "Schedule effect")
        ∷ ("requested_by", "Requested by")
        ∷ ("observed_required", "Required count observed")
        ∷ ("observed_eligible", "Recorded count observed")
        ∷ [];
    rows =
        map
          (λ (((q, a), p), u).
            ("requested_at", instant_cell q.created_at)
            ∷ ("intent", words_cell (intent_text q.intent))
            ∷ ("status", words_cell (request_status q))
            ∷ ("effect_status", effect_cell q.effect_status)
            ∷ ("requested_by", words_cell u.display_name)
            ∷ ("observed_required", number_cell q.observed_required_employee_count)
            ∷ ("observed_eligible", number_cell q.observed_eligible_employee_count)
            ∷ [])
          (replacement_requests r.scope r.limit r.offset (some r.window) (filters_of r) s);
    total = some (replacement_request_count r.scope (some r.window) (filters_of r) s);
    unavailable = false;
  }

  -- `builders["skills-coverage"]`
  unfoldable pub build_skills_coverage : ResolvedRequest → ReportStore → Built
  build_skills_coverage r s =
      let relations = recorded_skill_relations s in
      let rows : List (String × ℕ) =
        order_by (then_by (desc (λ x. x.1)) (λ x y. name_before x.0 y.0)) (
          map (λ k. (k.name, recorded_count r.scope relations k.id))
            (filter (λ k. k.active) (skills name_before s))) in
      record {
        columns =
            ("skill_name", "Skill")
            ∷ ("recorded_employees", "Employees with this skill recorded")
            ∷ [];
        rows =
            map (λ x. ("skill_name", words_cell x.0) ∷ ("recorded_employees", number_cell x.1) ∷ [])
              (page_of r.limit r.offset rows);
        total = some (length rows);
        unavailable = false;
      }

  -- The rows of staffing requirements, and those of assignments.
  unfoldable pub operational_gaps : ResolvedRequest → ReportStore → List GapRow
  operational_gaps r s =
      map
        (λ e.
          let recorded =
            recorded_count r.scope (recorded_skill_relations s) (e.requirement).required_skill_id in
          let required = (e.requirement).required_employee_count in
          record {
            requirement_type = "Operational rule";
            scope_label = first_name e;
            skill_name = e.skill_name;
            required = required;
            recorded = recorded;
            missing = required - recorded;
            is_recorded = skill_is_recorded recorded required;
          })
        (filter (requirement_in_scope r.scope) (skill_requirements name_before s))

  unfoldable pub assignment_gaps : ResolvedRequest → ReportStore → List GapRow
  assignment_gaps r s =
      map
        (λ (n, k).
          let recorded = recorded_count r.scope (recorded_skill_relations s) n.skill_id in
          record {
            requirement_type = "Assignment requirement";
            scope_label = "Published assignment";
            skill_name = k.name;
            required = 1;
            recorded = recorded;
            missing = if ltb recorded 1 then 1 else 0;
            is_recorded = skill_is_recorded recorded 1;
          })
        (assignment_skill_requirements name_before r.scope s)

  -- `builders["skill-gaps"]`
  unfoldable pub build_skill_gaps : ResolvedRequest → ReportStore → Built
  build_skill_gaps r s =
      let rows =
        order_by
          (then_by (asc status_code)
            (then_by (desc (λ g. g.missing)) (λ g h. name_before g.skill_name h.skill_name)))
          (operational_gaps r s ++ assignment_gaps r s) in
      record {
        columns =
            ("requirement_type", "Requirement type")
            ∷ ("scope", "Scope")
            ∷ ("skill_name", "Required skill")
            ∷ ("required_count", "Required employees")
            ∷ ("recorded_count", "Employees with it recorded")
            ∷ ("missing_count", "Missing")
            ∷ ("status", "Status")
            ∷ [];
        rows = map gap_row (page_of r.limit r.offset rows);
        total = some (length rows);
        unavailable = false;
      }

  -- `builders["evidence-review-queue"]`
  unfoldable pub build_evidence_review_queue : ResolvedRequest → ReportStore → Built
  build_evidence_review_queue r s = record {
    columns =
        ("kind", "Type")
        ∷ ("title", "Title")
        ∷ ("employee_name", "Employee")
        ∷ ("submitted_at", "Submitted at")
        ∷ [];
    rows =
        map
          (λ (v, u).
            ("kind", kind_cell v.kind)
            ∷ ("title", words_cell v.title)
            ∷ ("employee_name", words_cell u.display_name)
            ∷ ("submitted_at", or_instant v.last_submitted_at)
            ∷ [])
          (evidence_awaiting_review r.limit r.offset s);
    total = some (evidence_awaiting_review_count s);
    unavailable = false;
  }
