-- ===== src/System/Handlers/Approvals.antt =====
-- The approval endpoints keep `Sound`.
use labos.Prelude.{ℕ, ◌≡◌, String, false, Option, arith}
use labos.Prelude.{◌&&◌, ◌==◌, string_eq, some, ◌⊎◌}
use labos.Core.Enums.{ApprovalState, approval_eq}
use labos.Db.Rows.{LabRow, ApprovalRow, ExportRow}
use labos.Db.Platform.{Platform}
use labos.Db.Keeps.{Keeps, Keeps-bind, Keeps-with_session, Keeps-if, Keeps-bind-raise_if}
use labos.Api.Approvals.{
  lacks_comment, decided, decided_lab, decided_export, decide_lab, decide_export, refuse_expired,
  ensure_approval_pending, decide_resource, apply_approval_decision, decide_request,
}
use labos.System.Sound.{Sound, LabSound, ApprovalSound, ExportSound}
use labos.System.Rules.{
  sound_rules, require_lab-Sound, require_export-Sound, require_approval-Sound,
}
use labos.System.Handlers.{write-Sound}

-- the decisions that the endpoints pass
abbrev pub IsVerdict : ApprovalState → Type 0
IsVerdict d = (d ≡ ApprovalState.approved) ⊎ (d ≡ ApprovalState.rejected)

decided-Sound :
    (now : ℕ) (row : ApprovalRow) (d : ApprovalState) (actor : String) (comment : Option String)
    → IsVerdict d
    → (d == ApprovalState.rejected && lacks_comment comment) ≡ false
    → ApprovalSound (decided now row d actor comment)
decided-Sound now row d actor comment v h = ground arith

decided_lab-Sound : (d : ApprovalState) (lab : LabRow) → LabSound (decided_lab d lab)
decided_lab-Sound d lab = ground arith

decided_export-Sound :
    (d : ApprovalState) (comment : Option String) (export : ExportRow)
    → IsVerdict d
    → (d == ApprovalState.rejected && lacks_comment comment) ≡ false
    → ExportSound (decided_export d comment export)
decided_export-Sound d comment export v h = ground arith

module _ {D : Type 0} (now : ℕ) where
  refuse_expired-Sound : (row : ApprovalRow) → Keeps {D = D} Sound (refuse_expired now row)
  unfolding refuse_expired
  refuse_expired-Sound row = search (sound_rules, expired-Sound)
    where
      expired-Sound :
          ApprovalSound
            (record row { state = ApprovalState.expired; approved = false; decided_at = some now })
      expired-Sound = ground arith

  ensure_approval_pending-Sound :
      (row : ApprovalRow) → Keeps {D = D} Sound (ensure_approval_pending now row)
  unfolding ensure_approval_pending
  ensure_approval_pending-Sound row = search (sound_rules, Keeps-if, refuse_expired-Sound)

module _ {D : Type 0} (d : ApprovalState) (comment : Option String) (v : IsVerdict d)
    (h : (d == ApprovalState.rejected && lacks_comment comment) ≡ false) where
  decide_lab-Sound : (id : String) → Keeps {D = D} Sound (decide_lab id d)
  unfolding decide_lab
  decide_lab-Sound id = require_lab-Sound id _ λ lab _. search (sound_rules, decided_lab-Sound)

  decide_export-Sound : (id : String) → Keeps {D = D} Sound (decide_export id d comment)
  unfolding decide_export
  decide_export-Sound id =
      require_export-Sound id _ λ export _. search (sound_rules, decided_export-Sound)

  decide_resource-Sound : (row : ApprovalRow) → Keeps {D = D} Sound (decide_resource row d comment)
  unfolding decide_resource
  decide_resource-Sound row = search (sound_rules, Keeps-if, decide_lab-Sound, decide_export-Sound)

module _ {D : Type 0} (now : ℕ) where
  apply_approval_decision-Sound :
      (row : ApprovalRow) (d : ApprovalState) (actor : String) (comment : Option String)
      → IsVerdict d
      → Keeps {D = D} Sound (apply_approval_decision now row d actor comment)
  unfolding apply_approval_decision
  apply_approval_decision-Sound row d actor comment v =
      Keeps-bind (ensure_approval_pending now row) _ (ensure_approval_pending-Sound now row) λ _.
        Keeps-bind-raise_if _ _ _
          λ h. search (sound_rules, decided-Sound, decide_resource-Sound) depth 10

module _ (os : Platform) (now : ℕ) where
  pub decide_request-Sound :
      (event_type : String) (d : ApprovalState) (id actor : String) (comment : Option String)
      → IsVerdict d
      → Keeps Sound (decide_request os now event_type d id actor comment)
  unfolding decide_request
  decide_request-Sound event_type d id actor comment v = Keeps-with_session _ (
      require_approval-Sound id _
        λ row _. search (sound_rules, write-Sound, apply_approval_decision-Sound) depth 10)
