-- ===== src/Api/Approvals.antt =====
-- The approval endpoints of labos/api/app.py.
pub mod Outcomes
pub mod Applying
pub mod Decisions
use labos.Prelude.{ℕ, String, Bool, true, false, not, ◌&&◌, Option, none, some, [], ◌∷◌, ◌++◌}
use labos.Prelude.{if◌then◌else◌, leb, is_blank, ◌==◌, string_eq}
use labos.Core.Enums.{LabState, ApprovalState, ExportState, approval_eq}
use labos.Core.Events.{EventRecord, system_event, write}
use labos.Db.Rows.{LabRow, ApprovalRow, ExportRow, Field, lab_key, approval_key, export_key, text}
use labos.Db.Rows.{null}
use labos.Db.Changes.{save_approval, save_lab, save_export}
use labos.Db.Platform.{Platform}
use labos.Db.Session.{
  Exec, pure, raise, modify, commit, raise_if, with_session, conflict, ◌>>=◌, ◌>>◌,
}
use labos.Api.App.{require_approval, require_lab, require_export, approval_payload}

abbrev pub is_expired : ℕ → Option ℕ → Bool
is_expired now none = false
is_expired now (some expires_at) = leb expires_at now

abbrev expire_request : ℕ → ApprovalRow → ApprovalRow
expire_request now row = record row {
  state = ApprovalState.expired;
  approved = false;
  decided_at = some now;
}

-- what an expired request turns into, before the request fails
unfoldable pub refuse_expired : {D : Type 0} → ℕ → ApprovalRow → Exec D Unit
refuse_expired now row = do
  modify (save_approval (expire_request now row))
  raise (conflict "approval_request_expired" "approval")

-- `_ensure_approval_pending`
unfoldable pub ensure_approval_pending : {D : Type 0} → ℕ → ApprovalRow → Exec D Unit
unfolding refuse_expired
ensure_approval_pending now row = do
  raise_if (not (row.state == ApprovalState.requested)) (conflict "approval_not_pending" "approval")
  if is_expired now row.expires_at then refuse_expired now row else pure tt

abbrev pub lacks_comment : Option String → Bool
lacks_comment none = true
lacks_comment (some c) = is_blank c

abbrev pub decided : ℕ → ApprovalRow → ApprovalState → String → Option String → ApprovalRow
decided now row decision actor comment = record row {
  state = decision;
  approved = decision == ApprovalState.approved;
  decision_comment = comment;
  decided_by = some actor;
  decided_at = some now;
}

abbrev pub decided_lab : ApprovalState → LabRow → LabRow
decided_lab decision lab = record lab {
  state = if decision == ApprovalState.approved then LabState.approved else LabState.failed;
}

abbrev pub decided_export : ApprovalState → Option String → ExportRow → ExportRow
decided_export decision comment export =
    if decision == ApprovalState.approved
    then record export {
      approval_required = false;
      state = ExportState.approved;
      denial_reason = none;
    }
    else record export { state = ExportState.rejected; denial_reason = comment }

module _ {D : Type 0} where
  unfoldable pub decide_lab : String → ApprovalState → Exec D Unit
  decide_lab lab_id decision = do
    lab ← require_lab lab_id
    modify (save_lab (decided_lab decision lab))

  unfoldable pub decide_export : String → ApprovalState → Option String → Exec D Unit
  decide_export export_id decision comment = do
    export ← require_export export_id
    modify (save_export (decided_export decision comment export))

  -- the branches on `row.resource_type`
  unfoldable pub decide_resource : ApprovalRow → ApprovalState → Option String → Exec D Unit
  unfolding decide_lab decide_export
  decide_resource row decision comment =
      if row.resource_type == "lab"
      then decide_lab row.resource_id decision
      else if row.resource_type == "export"
      then decide_export row.resource_id decision comment
      else pure tt

  -- `_apply_approval_decision`; the decided row
  unfoldable pub apply_approval_decision :
      ℕ → ApprovalRow → ApprovalState → String → Option String → Exec D ApprovalRow
  unfolding ensure_approval_pending decide_resource
  apply_approval_decision now row decision actor comment = do
    ensure_approval_pending now row
    raise_if (decision == ApprovalState.rejected && lacks_comment comment)
        (conflict "approval_comment_required" "approval")
    modify (save_approval (decided now row decision actor comment))
    decide_resource row decision comment
    pure (decided now row decision actor comment)

abbrev optional_text : Option String → Field
optional_text none = null
optional_text (some s) = text s

abbrev decision_event : String → ApprovalRow → String → Option String → EventRecord
decision_event event_type row actor comment =
    record (system_event event_type
      (approval_payload row ++ ("actor", text actor) ∷ ("comment", optional_text comment) ∷ [])) {
        lab_id = row.lab_id;
        actor_type = "human";
        actor_id = some actor;
        resource_type = some "approval";
        resource_id = some row.id;
      }

module _ (os : Platform) (now : ℕ) where
  unfoldable pub decide_request :
      String → ApprovalState → String → String → Option String → Exec os.Disk ApprovalRow
  decide_request event_type decision approval_id actor comment = with_session (do
    row ← require_approval approval_id
    row' ← apply_approval_decision now row decision actor comment
    write os now (decision_event event_type row' actor comment)
    commit
    pure row')

  unfoldable pub approve_request : String → String → Option String → Exec os.Disk ApprovalRow
  unfolding decide_request
  approve_request = decide_request "approval.approved" ApprovalState.approved

  unfoldable pub deny_request : String → String → Option String → Exec os.Disk ApprovalRow
  unfolding decide_request
  deny_request = decide_request "approval.denied" ApprovalState.rejected
