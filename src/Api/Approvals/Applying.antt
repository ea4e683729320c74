-- ===== src/Api/Approvals/Applying.antt =====
-- How `_apply_approval_decision` of labos/api/app.py runs.
use labos.Prelude.{ℕ, String, ◌≡◌, refl, ap, ◌∙◌, true, false, Option, some, ok, err, ◌&&◌}
use labos.Prelude.{◌==◌, string_eq, Bool-cases, inl, inr, if◌then◌else◌}
use labos.Core.Enums.{ApprovalState, approval_eq}
use labos.Db.Rows.{ApprovalRow, LabRow, ExportRow, approval_key, lab_key, export_key}
use labos.Db.Table.{find}
use labos.Db.Changes.{save_approval, save_lab, save_export}
use labos.Db.Steps.{bind-ok, bind-err, bind-found, bind-passed}
use labos.Db.Session.{World, Exec, conflict, pure, raise_if, modify, ◌>>=◌, ◌>>◌}
use labos.Api.App.{require_lab, require_export}
use labos.Api.Approvals.{
  is_expired, lacks_comment, decided, decided_lab, decided_export, expire_request,
}
use labos.Api.Approvals.{
  apply_approval_decision, decide_resource, decide_lab, decide_export, ensure_approval_pending,
  refuse_expired,
}

module _ {D : Type 0} (now : ℕ) (row : ApprovalRow) (w : World D) where
  ensure_pending :
      row.state ≡ ApprovalState.requested
      → is_expired now row.expires_at ≡ false
      → ensure_approval_pending now row w ≡ (ok tt, w)
  unfolding ensure_approval_pending pure
  ensure_pending pending fresh =
      bind-passed w _ _ _ (rw pending refl)
      ∙ ap (λ b. (if b then refuse_expired now row else pure tt) w) fresh

  refused_run : refuse_expired now row w ≡ (
    err (conflict "approval_request_expired" "approval"),
    record w { db = save_approval (expire_request now row) w.db },
  )
  unfolding refuse_expired ◌>>=◌
  refused_run = refl

  pub ensure_expired :
      row.state ≡ ApprovalState.requested
      → is_expired now row.expires_at ≡ true
      → ensure_approval_pending now row w ≡ (
        err (conflict "approval_request_expired" "approval"),
        record w { db = save_approval (expire_request now row) w.db },
      )
  unfolding ensure_approval_pending
  ensure_expired pending late =
      bind-passed w _ _ _ (rw pending refl)
      ∙ ap (λ b. (if b then refuse_expired now row else pure tt) w) late
      ∙ refused_run

  module _ (decision : ApprovalState) (actor : String) (comment : Option String)
      (pending : row.state ≡ ApprovalState.requested)
      (fresh : is_expired now row.expires_at ≡ false)
      (commented : (decision == ApprovalState.rejected && lacks_comment comment) ≡ false) where
    -- the world in which the request is decided
    abbrev pub marked : World D
    marked = record w { db = save_approval (decided now row decision actor comment) w.db }

    finish : Exec D ApprovalRow
    finish = decide_resource row decision comment >> pure (decided now row decision actor comment)

    mark : Exec D ApprovalRow
    mark = modify (save_approval (decided now row decision actor comment)) >> finish

    check : Exec D ApprovalRow
    check =
        raise_if (decision == ApprovalState.rejected && lacks_comment comment)
          (conflict "approval_comment_required" "approval")
        >> mark

    finish_run :
        {v : World D}
        → decide_resource row decision comment marked ≡ (ok tt, v)
        → finish marked ≡ (ok (decided now row decision actor comment), v)
    unfolding finish pure
    finish_run {v} h =
        bind-ok (decide_resource row decision comment)
          (λ _. pure (decided now row decision actor comment)) h

    mark_run : mark w ≡ finish marked
    unfolding mark ◌>>=◌
    mark_run = refl

    check_run : check w ≡ mark w
    unfolding check
    check_run = bind-passed w _ _ mark commented

    pub apply_to :
        {v : World D}
        → decide_resource row decision comment marked ≡ (ok tt, v)
        → apply_approval_decision now row decision actor comment w
          ≡ (ok (decided now row decision actor comment), v)
    unfolding apply_approval_decision check mark finish
    apply_to {v} h =
        bind-ok (ensure_approval_pending now row) (λ _. check) (ensure_pending pending fresh)
        ∙ check_run
        ∙ mark_run
        ∙ finish_run h

    pub resource_lab :
        (lab : LabRow)
        → row.resource_type ≡ "lab"
        → find row.resource_id w.db.labs ≡ some lab
        → decide_resource row decision comment marked
          ≡ (ok tt, record marked { db = save_lab (decided_lab decision lab) marked.db })
    unfolding decide_resource decide_lab require_lab save_approval modify
    resource_lab lab kind there =
        ap
          (λ t.
            (if t == "lab"
                then decide_lab row.resource_id decision
                else if t == "export"
                then decide_export row.resource_id decision comment
                else pure tt)
              marked)
          kind
        ∙ bind-found marked _ _ _ lab there

    pub resource_export :
        (export : ExportRow)
        → row.resource_type ≡ "export"
        → find row.resource_id w.db.exports ≡ some export
        → decide_resource row decision comment marked ≡ (
          ok tt,
          record marked { db = save_export (decided_export decision comment export) marked.db },
        )
    unfolding decide_resource decide_export require_export save_approval modify
    resource_export export kind there =
        ap
          (λ t.
            (if t == "lab"
                then decide_lab row.resource_id decision
                else if t == "export"
                then decide_export row.resource_id decision comment
                else pure tt)
              marked)
          kind
        ∙ bind-found marked _ _ _ export there

pub decided_export-id :
    (decision : ApprovalState) (comment : Option String) (export : ExportRow)
    → (decided_export decision comment export).id ≡ export.id
decided_export-id decision comment export = elim (Bool-cases (decision == ApprovalState.approved)) [
  | inl approving ↦ rw approving refl
  | inr denying ↦ rw denying refl
]

pub apply_expired :
    {D : Type 0} (now : ℕ) (row : ApprovalRow) (w : World D) (decision : ApprovalState)
    (actor : String) (comment : Option String)
    → row.state ≡ ApprovalState.requested
    → is_expired now row.expires_at ≡ true
    → apply_approval_decision now row decision actor comment w ≡ (
      err (conflict "approval_request_expired" "approval"),
      record w { db = save_approval (expire_request now row) w.db },
    )
unfolding apply_approval_decision
apply_expired now row w decision actor comment pending late =
    bind-err (ensure_approval_pending now row) _ (ensure_expired now row w pending late)
