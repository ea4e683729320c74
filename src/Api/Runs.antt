-- ===== src/Api/Runs.antt =====
-- The run endpoints of labos/api/app.py.
use labos.Prelude.{ℕ, ◌+◌, String, none, some, [], ◌∷◌}
use labos.Core.Enums.{RunState, run_state_value}
use labos.Core.Events.{EventRecord, system_event, write}
use labos.Db.Rows.{RunRow, text}
use labos.Db.Changes.{add_run}
use labos.Db.Platform.{Platform}
use labos.Db.Session.{Exec, pure, modify, commit, new_id, with_session, minutes, ◌>>=◌, ◌>>◌}
use labos.Policy.Models.{RequesterType, requester_type_value}
use labos.Api.App.{App, require_lab, require_run}

abbrev pub new_run : ℕ → ℕ → String → String → String → RunRow
new_run now timeout id lab_id command = record {
  id = id;
  created_at = now;
  lab_id = lab_id;
  state = RunState.queued;
  command = command;
  timeout_at = some (now + minutes timeout);
  finished_at = none;
}

abbrev run_queued : RequesterType → RunRow → EventRecord
run_queued requester row =
    record (system_event "run.queued"
      (("command", text row.command) ∷ ("state", text (run_state_value row.state)) ∷ [])) {
        lab_id = some row.lab_id;
        run_id = some row.id;
        actor_type = requester_type_value requester;
        resource_type = some "run";
        resource_id = some row.id;
      }

module _ (os : Platform) (app : App) (now : ℕ) where
  -- `_create_run_record`
  unfoldable pub create_run_record : String → String → RequesterType → Exec os.Disk RunRow
  create_run_record lab_id command requester = do
    lab ← require_lab lab_id
    id ← new_id os
    let row = new_run now app.default_run_timeout_minutes id lab_id command
    modify (add_run row)
    write os now (run_queued requester row)
    pure row

  unfoldable pub create_run : String → String → RequesterType → Exec os.Disk RunRow
  create_run lab_id command requester =
      with_session (do response ← create_run_record lab_id command requester; commit; pure response)

  unfoldable pub get_run : String → Exec os.Disk RunRow
  get_run run_id = with_session (do row ← require_run run_id; pure row)
