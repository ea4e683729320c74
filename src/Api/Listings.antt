-- ===== src/Api/Listings.antt =====
-- The endpoints of labos/api/app.py that list labs, runs, approvals, exports and events.
pub mod Filters
pub mod Labs
use labos.Prelude.{
  String, Bool, false, Option, none, some, List, [], ◌∷◌, map, keep, Result, ok, err,
}
use labos.Prelude.{and_then, contains, ◌==◌, if◌then◌else◌, string_eq}
use labos.Db.Rows.{Db, LabRow, LabStorageRow, RunRow, ApprovalRow, ExportRow, EventRow}
use labos.Db.Table.{earlier, order_by}
use labos.Db.Session.{ApiError, Exec, pure, lift, gets, fault, with_session, ◌>>=◌}
use labos.Api.App.{require_run}
use labos.Api.Responses.{
  LabResponse, lab_response, RunResponse, run_response, ApprovalResponse, approval_response,
  ExportResponse, export_response, EventResponse, parse_actor, with_actor,
}

abbrev pub lab_listed_before : LabRow → LabRow → Bool
lab_listed_before a b = earlier a.created_at a.id b.created_at b.id

abbrev pub run_listed_before : RunRow → RunRow → Bool
run_listed_before a b = earlier a.created_at a.id b.created_at b.id

abbrev pub approval_listed_before : ApprovalRow → ApprovalRow → Bool
approval_listed_before a b = earlier a.created_at a.id b.created_at b.id

abbrev pub export_listed_before : ExportRow → ExportRow → Bool
export_listed_before a b = earlier a.created_at a.id b.created_at b.id

abbrev pub event_listed_before : EventRow → EventRow → Bool
event_listed_before a b = earlier a.created_at a.id b.created_at b.id

abbrev pub last_of : Option LabStorageRow → Option LabStorageRow → Option LabStorageRow
last_of none own = own
last_of (some later) own = some later

-- `storage_by_lab_id[lab_id]`: the last of the rows, or a `KeyError`
unfoldable pub storage_of : String → List LabStorageRow → Option LabStorageRow
storage_of lab_id [] = none
storage_of lab_id (row ∷ rest) =
    last_of (storage_of lab_id rest) (if row.lab_id == lab_id then some row else none)

abbrev pub listed_lab : LabRow → Option LabStorageRow → Result ApiError LabResponse
listed_lab row none = err (fault row.id)
listed_lab row (some storage) = ok (lab_response row storage)

unfoldable pub listed_labs : List LabStorageRow → List LabRow → Result ApiError (List LabResponse)
listed_labs storage [] = ok []
listed_labs storage (row ∷ rest) =
    and_then (listed_lab row (storage_of row.id storage))
      λ response. and_then (listed_labs storage rest) λ responses. ok (response ∷ responses)

-- the query of the storage rows, and the labs with them
unfoldable pub labs_of : Db → Result ApiError (List LabResponse)
unfolding listed_labs
labs_of d =
    let rows = order_by lab_listed_before d.labs in
    let ids = map (λ r. r.id) rows in
    listed_labs (keep (λ s. contains ids s.lab_id) d.lab_storage) rows

-- the parameters of `list_events`
pub record EventFilters : Type 0 where
  pub event_type : Option String
  pub actor_type : Option String
  pub resource_type : Option String
  pub resource_id : Option String
  pub lab_id : Option String
  pub run_id : Option String

-- `if value is not None: query = query.where(column == value)`
abbrev pub where_column : (EventRow → String) → Option String → List EventRow → List EventRow
where_column column none rows = rows
where_column column (some value) rows = keep (λ r. column r == value) rows

-- a comparison with a column that is NULL holds of no row
abbrev pub column_is : String → Option String → Bool
column_is value none = false
column_is value (some s) = s == value

abbrev pub where_nullable :
    (EventRow → Option String) → Option String → List EventRow → List EventRow
where_nullable column none rows = rows
where_nullable column (some value) rows = keep (λ r. column_is value (column r)) rows

unfoldable pub select_events : EventFilters → List EventRow → List EventRow
select_events f rows =
    let typed = where_column (λ r. r.event_type) f.event_type rows in
    let acted = where_column (λ r. r.actor_type) f.actor_type typed in
    let kinds = where_nullable (λ r. r.resource_type) f.resource_type acted in
    let resources = where_nullable (λ r. r.resource_id) f.resource_id kinds in
    let labs = where_nullable (λ r. r.lab_id) f.lab_id resources in
    order_by event_listed_before (where_nullable (λ r. r.run_id) f.run_id labs)

unfoldable pub event_responses : List EventRow → Result ApiError (List EventResponse)
event_responses [] = ok []
event_responses (row ∷ rest) =
    and_then (parse_actor row.actor_type)
      λ actor. and_then (event_responses rest) λ responses. ok (with_actor row actor ∷ responses)

module _ {D : Type 0} where
  unfoldable pub list_labs : Exec D (List LabResponse)
  unfolding labs_of
  list_labs = with_session (do listed ← gets labs_of; lift listed)

  unfoldable pub list_runs : Exec D (List RunResponse)
  list_runs =
      with_session
        (do rows ← gets (λ d. order_by run_listed_before d.runs); pure (map run_response rows))

  unfoldable pub get_run : String → Exec D RunResponse
  get_run run_id = with_session (do row ← require_run run_id; pure (run_response row))

  unfoldable pub list_approvals : Exec D (List ApprovalResponse)
  list_approvals = with_session (do
    rows ← gets (λ d. order_by approval_listed_before d.approvals)
    pure (map approval_response rows))

  unfoldable pub list_exports : Exec D (List ExportResponse)
  list_exports = with_session (do
    rows ← gets (λ d. order_by export_listed_before d.exports)
    pure (map export_response rows))

  unfoldable pub list_events : EventFilters → Exec D (List EventResponse)
  unfolding select_events event_responses
  list_events f =
      with_session (do rows ← gets (λ d. select_events f d.events); lift (event_responses rows))
