-- ===== src/Employees/Laws.antt =====
-- modules/employees/employee-policy.ts: what the note policy guarantees.
use scope_is_team_management.Base.{◌≡◌, ◌≢◌, ◌↔◌, ◌⊎◌, true, false, arith, err}
use scope_is_team_management.Shared.{Actor, super_admin, admin, employee}
use scope_is_team_management.Employees.Policy.{
  EmployeeAccessRecord, can_read_employee, require_employee_read, ManagementNote, NoteVisibility,
  shared_upward, can_create_management_note, can_read_management_note, domain_out_of_scope,
}

-- Who reads a management note: never its subject, never an employee, only someone who may read the
-- subject now, and then its author, or a Super Admin if the note is shared upward.
pub can_read_management_note_iff :
    (actor : Actor) (note : ManagementNote)
    → (can_read_management_note actor note ≡ true) ↔ (
        (actor.id ≢ note.subject_user_id)
        × (actor.role ≢ employee)
        × (can_read_employee actor note.subject ≡ true)
        × ((actor.id ≡ note.author_user_id)
            ⊎ ((note.visibility ≡ shared_upward) × (actor.role ≡ super_admin))))
unfolding can_read_management_note
can_read_management_note_iff actor note = ground arith

-- Whoever may create a note about somebody else may read that note afterwards.
pub created_note_is_readable :
    (actor : Actor) (subject : EmployeeAccessRecord) (v : NoteVisibility)
    → actor.id ≢ subject.user_id
    → can_create_management_note actor subject ≡ true
    → can_read_management_note actor (record {
      author_user_id = actor.id;
      subject_user_id = subject.user_id;
      author_role = actor.role;
      visibility = v;
      subject = subject;
    })
      ≡ true
unfolding can_create_management_note can_read_management_note can_read_employee
created_note_is_readable actor subject v other h = ground arith

-- A refused read says out of scope exactly to an Admin.
pub require_employee_read-out_of_scope_iff :
    (actor : Actor) (r : EmployeeAccessRecord)
    → (require_employee_read actor r ≡ err domain_out_of_scope)
      ↔ ((actor.role ≡ admin) × (can_read_employee actor r ≡ false))
unfolding require_employee_read
require_employee_read-out_of_scope_iff actor r = ground arith
