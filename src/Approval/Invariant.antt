-- ===== src/Approval/Invariant.antt =====
-- A chain of approvals goes step by step, and a document is approved by all or not at all.
use secure_document_manageme.Prelude.{
  ℕ, ◌+◌, ◌<◌, String, ◌≡◌, ◌⊎◌, Option, none, some, List, ◌==◌, string_eq, nat_eq, update_where,
  All,
}
use secure_document_manageme.Db.{
  World, ApprovalRequest, ApprovalStep, ApprovalStatus, approval_status_eq,
}
use secure_document_manageme.AuditLedger
use secure_document_manageme.Approval.Repository.{decide, set_request}
use secure_document_manageme.Approval.Outcome.{request_in}

-- The earlier steps of a chain are approved.
abbrev pub IsBefore : ApprovalRequest → List ApprovalStep → Type 0
IsBefore r steps =
    All
      (λ s.
        s.approval_request_id ≡ r.id
        → s.step_order < r.current_step
        → s.status ≡ ApprovalStatus.approved)
      steps

-- The orders of a chain's steps are below a number.
abbrev pub IsWithin : ℕ → ApprovalRequest → List ApprovalStep → Type 0
IsWithin n r steps = All (λ s. s.approval_request_id ≡ r.id → s.step_order < n) steps

-- The step is the only one of the chain whose turn it is.
abbrev pub IsOnly : ApprovalStep → ApprovalRequest → List ApprovalStep → Type 0
IsOnly step r steps =
    All (λ s. s.approval_request_id ≡ r.id → s.step_order ≡ r.current_step → s.id ≡ step.id) steps

abbrev pub IsUnanimous : ApprovalRequest → List ApprovalStep → Type 0
IsUnanimous r steps =
    All (λ s. s.approval_request_id ≡ r.id → s.status ≡ ApprovalStatus.approved) steps

-- The three at once, for one step of the table.
abbrev Fits : ℕ → ApprovalStep → ApprovalRequest → ApprovalStep → Type 0
Fits n step r s =
    s.approval_request_id ≡ r.id
    → (s.step_order < r.current_step → s.status ≡ ApprovalStatus.approved)
      × (s.step_order < n)
      × (s.step_order ≡ r.current_step → s.id ≡ step.id)

module _ (n : ℕ) (step : ApprovalStep) (r : ApprovalRequest) (comments : Option String)
    (now : ℕ) where
  abbrev approved_steps : List ApprovalStep → List ApprovalStep
  approved_steps steps =
      update_where (λ s. s.id == step.id) (decide ApprovalStatus.approved comments now) steps

-- What an approval of a step leads to: the chain is complete and unanimous, or goes on.
abbrev pub next_turn : ApprovalRequest → ApprovalRequest
next_turn r = set_request ApprovalStatus.pending (r.current_step + 1) none r

abbrev pub Progress : ApprovalRequest → ℕ → World → Type 0
Progress r now w =
    ((request_in r.id w ≡ some (set_request ApprovalStatus.approved r.current_step (some now) r))
      × IsUnanimous r w.approval_steps)
    ⊎ ((request_in r.id w ≡ some (next_turn r)) × IsBefore (next_turn r) w.approval_steps)

abbrev after_decision : World → List ApprovalStep → World
after_decision w steps = record w { db = record (w.db) { approval_steps = steps } }
