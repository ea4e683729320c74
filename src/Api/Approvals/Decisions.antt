-- ===== src/Api/Approvals/Decisions.antt =====
-- What approving and denying a request do, and what an expired request does (labos/api/app.py).
use labos.Prelude.{
  ℕ, suc, String, ◌≡◌, refl, ap, ◌∙◌, true, false, Option, some, Result, ok, err, ◌&&◌,
}
use labos.Prelude.{◌==◌, string_eq}
use labos.Core.Enums.{ApprovalState, approval_eq}
use labos.Core.Events.{write, event_row}
use labos.Db.Rows.{Db, ApprovalRow, LabRow, ExportRow, approval_key, lab_key, export_key}
use labos.Db.Table.{find, save, find-save_self, key-find}
use labos.Db.Changes.{add_event, save_approval, save_lab, save_export}
use labos.Db.Steps.{bind-ok, bind-err, bind-found}
use labos.Db.Platform.{Platform}
use labos.Db.Session.{ApiError, World, Exec, conflict, pure, commit, with_session, ◌>>=◌, ◌>>◌}
use labos.Api.App.{require_approval}
use labos.Api.Approvals.{
  is_expired, lacks_comment, decided, decided_lab, decided_export, decide_request, decision_event,
}
use labos.Api.Approvals.{apply_approval_decision, decide_resource}
use labos.Api.Approvals.Outcomes.{
  IsDecision, IsLabDecision, IsExportDecision, decided-IsDecision, decided_lab-IsLabDecision,
  decided_export-IsExportDecision,
}
use labos.Api.Approvals.Applying.{
  apply_to, resource_lab, resource_export, decided_export-id, apply_expired,
}

module _ (os : Platform) (now : ℕ) (event : String) (decision : ApprovalState) (id actor : String)
    (comment : Option String) (w : World os.Disk) (row : ApprovalRow)
    (found : find id w.db.approvals ≡ some row) where
  abbrev response : ApprovalRow
  response = decided now row decision actor comment

  record_decision : ApprovalRow → Exec os.Disk ApprovalRow
  record_decision row' = do
    write os now (decision_event event row' actor comment)
    commit
    pure row'

  decide : ApprovalRow → Exec os.Disk ApprovalRow
  decide row' = do
    done ← apply_approval_decision now row' decision actor comment
    record_decision done

  decide_run :
      {r : Result ApiError ApprovalRow × World os.Disk}
      → decide row w ≡ r
      → decide_request os now event decision id actor comment w ≡ with_session (λ _. r) w
  unfolding decide_request decide record_decision require_approval with_session
  decide_run {r} h =
      ap (λ x. with_session (λ _. x) w)
        (bind-found w (λ d. find id d.approvals) _ decide row found ∙ h)

  -- A request that is still pending after its time has run out is answered with a conflict,
  -- whatever the decision is, and the database is what it was before.
  pub decide_request-expired :
      row.state ≡ ApprovalState.requested
      → is_expired now row.expires_at ≡ true
      → decide_request os now event decision id actor comment w
        ≡ (err (conflict "approval_request_expired" "approval"), record w { db = w.committed })
  unfolding decide with_session
  decide_request-expired pending late = decide_run (
      bind-err (apply_approval_decision now row decision actor comment) record_decision
        (apply_expired now row w decision actor comment pending late))

  module _ (pending : row.state ≡ ApprovalState.requested)
      (fresh : is_expired now row.expires_at ≡ false)
      (commented : (decision == ApprovalState.rejected && lacks_comment comment) ≡ false) where
    -- the world after a decision that leaves the database `d`
    stored : Db → World os.Disk
    stored d =
        let d' =
          add_event (event_row now (os.uuid4 w.drawn) (decision_event event response actor comment))
            d in
        record w { db = d'; committed = d'; drawn = suc w.drawn }

    recorded_run :
        (d : Db) → record_decision response (record w { db = d }) ≡ (ok response, stored d)
    unfolding record_decision stored write pure ◌>>=◌
    recorded_run d = refl

    decided_run :
        (d : Db)
        → decide_resource row decision comment (record w { db = save_approval response w.db })
          ≡ (ok tt, record w { db = d })
        → decide_request os now event decision id actor comment w ≡ (ok response, stored d)
    unfolding decide with_session stored
    decided_run d h = decide_run (
        bind-ok (apply_approval_decision now row decision actor comment) record_decision
          (apply_to now row w decision actor comment pending fresh commented h)
        ∙ recorded_run d)

    row_stored : find id (save response w.db.approvals) ≡ some response
    row_stored = find-save_self id w.db.approvals response found (key-find id w.db.approvals found)

    -- A decision about a pending request that is not expired, with a comment that is not blank if it
    -- is a denial, is answered with a request that bears the decision, its actor, comment and time,
    -- and is otherwise the pending one; the database then holds this request. The lab that it is for
    -- is approved if the decision is an approval and failed if not, whatever its state was, and is
    -- otherwise as it was.
    pub decide_request-lab :
        (lab : LabRow)
        → row.resource_type ≡ "lab"
        → find row.resource_id w.db.labs ≡ some lab
        → (row' : ApprovalRow) × (lab' : LabRow) × ((decide_request os now event decision id actor
              comment w).0
            ≡ ok row')
          × (find id (decide_request os now event decision id actor comment w).1.committed.approvals
              ≡ some row')
          × (find row.resource_id
                (decide_request os now event decision id actor comment w).1.committed.labs
              ≡ some lab')
          × IsDecision now decision actor comment row row'
          × IsLabDecision decision lab lab'
    unfolding stored add_event save_lab save_approval
    decide_request-lab lab kind there =
        let run =
          decided_run _ (
            resource_lab now row w decision actor comment pending fresh commented lab kind there) in
        (
          response,
          decided_lab decision lab,
          rw run refl,
          rw run row_stored,
          rw run (
              find-save_self _ w.db.labs (decided_lab decision lab) there
                (key-find _ w.db.labs there)),
          decided-IsDecision now decision actor comment row,
          decided_lab-IsLabDecision decision lab,
        )

    -- Under the same conditions the export that a request is for needs no approval any more, is
    -- approved and has no denial reason if the decision is an approval, and is rejected for the
    -- decision's comment if not, whatever its state was; it is otherwise as it was.
    pub decide_request-export :
        (export : ExportRow)
        → row.resource_type ≡ "export"
        → find row.resource_id w.db.exports ≡ some export
        → (row' : ApprovalRow) × (export' : ExportRow) × ((decide_request os now event decision id
              actor comment w).0
            ≡ ok row')
          × (find id (decide_request os now event decision id actor comment w).1.committed.approvals
              ≡ some row')
          × (find row.resource_id
                (decide_request os now event decision id actor comment w).1.committed.exports
              ≡ some export')
          × IsDecision now decision actor comment row row'
          × IsExportDecision decision comment export export'
    unfolding stored add_event save_export save_approval
    decide_request-export export kind there =
        let run = decided_run _ (
          resource_export now row w decision actor comment pending fresh commented export kind
            there) in
        (
          response,
          decided_export decision comment export,
          rw run refl,
          rw run row_stored,
          rw run (
              find-save_self _ w.db.exports (decided_export decision comment export) there
                (decided_export-id decision comment export ∙ key-find _ w.db.exports there)),
          decided-IsDecision now decision actor comment row,
          decided_export-IsExportDecision decision comment export,
        )
