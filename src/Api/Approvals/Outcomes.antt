-- ===== src/Api/Approvals/Outcomes.antt =====
-- What a decision makes of a request, and of the lab or the export that the request is for.
use labos.Prelude.{ℕ, String, ◌≡◌, ◌≢◌, ◌⊎◌, ◌↔◌, refl, true, false, Option, none, some, inl, inr}
use labos.Prelude.{◌==◌}
use labos.Core.Enums.{ApprovalState, LabState, ExportState, approval_eq}
use labos.Db.Rows.{ApprovalRow, LabRow, ExportRow}
use labos.Api.Approvals.{decided, decided_lab, decided_export}

-- the second request is the first with the decision
pub record IsDecision (now : ℕ) (decision : ApprovalState) (actor : String)
    (comment : Option String) (row row' : ApprovalRow) : Type 0 where
  pub state : row'.state ≡ decision
  pub approved : (row'.approved ≡ true) ↔ (decision ≡ ApprovalState.approved)
  pub comment_kept : row'.decision_comment ≡ comment
  pub actor_kept : row'.decided_by ≡ some actor
  pub time_kept : row'.decided_at ≡ some now
  pub rest : row' ≡ record row {
    state = row'.state;
    approved = row'.approved;
    decision_comment = row'.decision_comment;
    decided_by = row'.decided_by;
    decided_at = row'.decided_at;
  }

-- the second lab is the first, approved or failed by the decision
pub record IsLabDecision (decision : ApprovalState) (lab lab' : LabRow) : Type 0 where
  pub state :
      ((decision ≡ ApprovalState.approved) × (lab'.state ≡ LabState.approved))
      ⊎ ((decision ≢ ApprovalState.approved) × (lab'.state ≡ LabState.failed))
  pub rest : lab' ≡ record lab { state = lab'.state }

-- the second export is the first, cleared or rejected by the decision
pub record IsExportDecision (decision : ApprovalState) (comment : Option String)
    (export export' : ExportRow) : Type 0 where
  pub outcome :
      ((decision ≡ ApprovalState.approved)
        × (export' ≡ record export {
          approval_required = false;
          state = ExportState.approved;
          denial_reason = none;
        }))
      ⊎ ((decision ≢ ApprovalState.approved)
          × (export' ≡ record export { state = ExportState.rejected; denial_reason = comment }))

approval-cases :
    (decision : ApprovalState)
    → ((decision ≡ ApprovalState.approved) × ((decision == ApprovalState.approved) ≡ true))
      ⊎ ((decision ≢ ApprovalState.approved) × ((decision == ApprovalState.approved) ≡ false))
approval-cases ApprovalState.requested = inr ((λ h. cc), refl)
approval-cases ApprovalState.approved = inl (refl, refl)
approval-cases ApprovalState.rejected = inr ((λ h. cc), refl)
approval-cases ApprovalState.expired = inr ((λ h. cc), refl)

approved_flag :
    (decision : ApprovalState)
    → ((decision == ApprovalState.approved) ≡ true) ↔ (decision ≡ ApprovalState.approved)
approved_flag decision = elim (approval-cases decision) [
  | inl (same, test) ↦ ((λ h. same), (λ h. test))
  | inr (other, test) ↦ ((λ h. absurd (cc)), (λ h. absurd (other h)))
]

pub decided-IsDecision :
    (now : ℕ) (decision : ApprovalState) (actor : String) (comment : Option String)
    (row : ApprovalRow)
    → IsDecision now decision actor comment row (decided now row decision actor comment)
decided-IsDecision now decision actor comment row = record {
  state = refl;
  approved = approved_flag decision;
  comment_kept = refl;
  actor_kept = refl;
  time_kept = refl;
  rest = refl;
}

pub decided_lab-IsLabDecision :
    (decision : ApprovalState) (lab : LabRow)
    → IsLabDecision decision lab (decided_lab decision lab)
decided_lab-IsLabDecision decision lab = elim (approval-cases decision) [
  | inl (same, test) ↦ record { state = inl (same, rw test refl); rest = refl }
  | inr (other, test) ↦ record { state = inr (other, rw test refl); rest = refl }
]

pub decided_export-IsExportDecision :
    (decision : ApprovalState) (comment : Option String) (export : ExportRow)
    → IsExportDecision decision comment export (decided_export decision comment export)
decided_export-IsExportDecision decision comment export = elim (approval-cases decision) [
  | inl (same, test) ↦ record { outcome = inl (same, rw test refl) }
  | inr (other, test) ↦ record { outcome = inr (other, rw test refl) }
]
