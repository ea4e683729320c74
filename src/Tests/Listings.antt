-- ===== src/Tests/Listings.antt =====
-- Labs and events listed.
use mathlib.Core.List.{Permᴰ}
use labos.Prelude.{ℕ, String, ◌≡◌, refl, Option, none, some, List, [], ◌∷◌, keep, map}
use labos.Db.Rows.{LabRow, EventRow, Db, empty_db}
use labos.Api.Responses.{LabResponse}
use labos.Api.Listings.Labs.{labs_of-ok, lab_listed_before-le, lab_listed_before-ge}
use labos.Tests.Gates.{lab, storage}
use labos.Db.Table.{order_by}
use labos.Prelude.{ok}
use labos.Db.Order.{Ascending}
use labos.Api.Listings.{
  EventFilters, event_listed_before, select_events, labs_of, lab_listed_before,
}
use labos.Api.Listings.Filters.{fits_filters, event_before-le, event_before-ge, select_events-Perm}

abbrev event : String → ℕ → Option String → EventRow
event id now run_id = record {
  id = id;
  created_at = now;
  lab_id = some "a";
  run_id = run_id;
  event_type = "run.created";
  actor_type = "human";
  actor_id = none;
  resource_type = none;
  resource_id = none;
  payload = [];
}

abbrev recorded : List EventRow
recorded = event "x" 3 (some "r") ∷ event "y" 2 none ∷ event "z" 1 (some "r") ∷ []

abbrev of_run : EventFilters
of_run = record {
  event_type = none;
  actor_type = some "human";
  resource_type = none;
  resource_id = none;
  lab_id = none;
  run_id = some "r";
}

listed_ids : map (λ r. r.id) (select_events of_run recorded) ≡ "z" ∷ "x" ∷ []
unfolding select_events order_by
listed_ids = refl

select_events-Perm_example :
    Permᴰ (select_events of_run recorded) (keep (λ r. fits_filters of_run r) recorded)
    × Ascending event_listed_before
        (λ r. r.created_at)
        event_before-le
        event_before-ge
        (select_events of_run recorded)
select_events-Perm_example = select_events-Perm of_run recorded

abbrev two_labs : Db
two_labs = record empty_db {
  labs = lab ∷ record lab { id = "first"; created_at = 1 } ∷ [];
  lab_storage = record storage { lab_id = "first" } ∷ storage ∷ [];
}

labs_of-ok_example :
    (responses : List LabResponse) × (rows : List LabRow) × (labs_of two_labs ≡ ok responses)
    × (map {B = String × ℕ} (λ r. (r.id, r.created_at)) responses
        ≡ map {B = String × ℕ} (λ r. (r.id, r.created_at)) rows)
    × Permᴰ rows two_labs.labs
    × Ascending lab_listed_before (λ r. r.created_at) lab_listed_before-le lab_listed_before-ge rows
labs_of-ok_example = labs_of-ok two_labs (refl, (refl, tt))
