-- ===== src/Core/Events.antt =====
-- labos/core/events.py: an event to be recorded, and the writer that appends its row.
use labos.Prelude.{ℕ, String, Option, none, List}
use labos.Db.Rows.{Field, EventRow}
use labos.Db.Changes.{add_event}
use labos.Db.Platform.{Platform}
use labos.Db.Session.{Exec, modify, new_id, ◌>>=◌}

pub record EventRecord : Type 0 where
  pub event_type : String
  pub payload : List (String × Field)
  pub lab_id : Option String
  pub run_id : Option String
  pub actor_type : String
  pub actor_id : Option String
  pub resource_type : Option String
  pub resource_id : Option String

-- the fields that an event leaves at their defaults
abbrev pub system_event : String → List (String × Field) → EventRecord
system_event event_type payload = record {
  event_type = event_type;
  payload = payload;
  lab_id = none;
  run_id = none;
  actor_type = "system";
  actor_id = none;
  resource_type = none;
  resource_id = none;
}

abbrev pub event_row : ℕ → String → EventRecord → EventRow
event_row now id e = record {
  id = id;
  created_at = now;
  lab_id = e.lab_id;
  run_id = e.run_id;
  event_type = e.event_type;
  actor_type = e.actor_type;
  actor_id = e.actor_id;
  resource_type = e.resource_type;
  resource_id = e.resource_id;
  payload = e.payload;
}

unfoldable pub write : (os : Platform) → ℕ → EventRecord → Exec os.Disk Unit
write os now event = do id ← new_id os; modify (add_event (event_row now id event))
