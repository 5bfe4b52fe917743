-- ===== src/Navigation/Tests.antt =====
-- modules/navigation/navigation.ts: examples.
use scope_is_team_management.Base.{[], All}
use scope_is_team_management.Shared.{Actor, employee, password, uuid}
use scope_is_team_management.Navigation.{navigation_for}
use scope_is_team_management.Navigation.Laws.{IsOpen, navigation_for-IsOpen}

abbrev worker : Actor
worker = record {
  id = 5;
  display_name = "Worker";
  role = employee;
  session_id = uuid 1;
  session_version = 1;
  scopes = [];
  authentication_mode = password;
}

navigation_for-IsOpen_example : All (IsOpen worker) (navigation_for worker)
navigation_for-IsOpen_example = navigation_for-IsOpen worker
