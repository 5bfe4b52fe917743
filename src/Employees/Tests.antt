-- ===== src/Employees/Tests.antt =====
-- modules/employees/employee-policy.ts: examples.
use scope_is_team_management.Base.{◌≡◌, ◌≢◌, ◌↔◌, ◌⊎◌, refl, true, some, [], ◌∷◌, arith}
use scope_is_team_management.Shared.{Actor, super_admin, admin, employee, password, uuid, team}
use scope_is_team_management.Employees.Policy.{
  EmployeeAccessRecord, ManagementNote, shared_upward, private_to_author, can_read_employee,
  can_create_management_note, can_read_management_note,
}
use scope_is_team_management.Employees.Laws.{can_read_management_note_iff, created_note_is_readable}

abbrev lead : Actor
lead = record {
  id = 2;
  display_name = "Lead";
  role = admin;
  session_id = uuid 1;
  session_version = 1;
  scopes = record { type = team; reference = 8 } ∷ [];
  authentication_mode = password;
}

abbrev worker : EmployeeAccessRecord
worker = record { user_id = 5; team = some 8; role = employee }

abbrev note : ManagementNote
note = record {
  author_user_id = 3;
  subject_user_id = 5;
  author_role = admin;
  visibility = shared_upward;
  subject = worker;
}

can_read_management_note_iff_example : (can_read_management_note lead note ≡ true) ↔ (
    (lead.id ≢ note.subject_user_id)
    × (admin ≢ employee)
    × (can_read_employee lead worker ≡ true)
    × ((lead.id ≡ note.author_user_id) ⊎ ((shared_upward ≡ shared_upward) × (admin ≡ super_admin))))
can_read_management_note_iff_example = can_read_management_note_iff lead note

may_create : can_create_management_note lead worker ≡ true
unfolding can_create_management_note can_read_employee
may_create = refl

created_note_is_readable_example :
    can_read_management_note lead (record {
      author_user_id = 2;
      subject_user_id = 5;
      author_role = admin;
      visibility = private_to_author;
      subject = worker;
    })
    ≡ true
created_note_is_readable_example =
    created_note_is_readable lead worker private_to_author (λ e. omega (arith, e)) may_create
