-- ===== src/Approval/Outcome.antt =====
-- Which runs of `decideStep` decide anything.
use secure_document_manageme.Prelude.{
  String, ◌≡◌, refl, ◌⊎◌, inl, inr, Option, some, ◌==◌, ==_iff, string_eq, nat_eq, Bool-cases,
  Option-cases, find?,
}
use secure_document_manageme.Db.{
  World, ApprovalRequest, ApprovalStep, ApprovalStatus, approval_status_eq,
}
use secure_document_manageme.Service.{User, HttpError, http_error, ok, err}
use secure_document_manageme.Approval.Repository.{find_request_by_id, find_step_by_id}
use secure_document_manageme.Approval.Steps.{load_actionable_step}

abbrev pub step_in : String → World → Option ApprovalStep
step_in id w = find? (λ s. s.id == id) w.approval_steps

abbrev pub request_in : String → World → Option ApprovalRequest
request_in id w = find? (λ r. r.id == id) w.approval_requests

-- The step is the caller's and undecided, its chain is active, and it is its turn.
pub record Actionable (id : String) (actor : User) (w : World) (step : ApprovalStep)
    (request : ApprovalRequest) : Type 0 where
  pub found : step_in id w ≡ some step
  pub own : step.approver_id ≡ actor.id
  pub undecided : step.status ≡ ApprovalStatus.pending
  pub chain : request_in step.approval_request_id w ≡ some request
  pub active : request.status ≡ ApprovalStatus.pending
  pub turn : step.step_order ≡ request.current_step

pub Actionable-loads :
    (id : String) (actor : User) (w : World) (step : ApprovalStep) (request : ApprovalRequest)
    → Actionable id actor w step request
    → load_actionable_step id actor w ≡ (ok (step, request), w)
unfolding load_actionable_step find_step_by_id find_request_by_id
Actionable-loads id actor w step request h =
    rw
      (
        h.found,
        (==_iff step.approver_id actor.id).1 h.own,
        (==_iff step.status ApprovalStatus.pending).1 h.undecided,
        h.chain,
        (==_iff request.status ApprovalStatus.pending).1 h.active,
        (==_iff step.step_order request.current_step).1 h.turn,
      )
      refl

pub load_step_cases :
    (id : String) (actor : User) (w : World)
    → ((e : HttpError) × (load_actionable_step id actor w ≡ (err e, w)))
      ⊎ ((step : ApprovalStep) × (request : ApprovalRequest) × Actionable id actor w step request)
unfolding load_actionable_step find_step_by_id find_request_by_id
load_step_cases id actor w = elim (Option-cases (step_in id w)) [
  | inl gone ↦ inl (http_error 404 "NOT_FOUND", rw gone refl)
  | inr (step, found) ↦ elim (Bool-cases (step.approver_id == actor.id)) [
    | inr other ↦ inl (http_error 403 "NOT_APPROVER", rw (found, other) refl)
    | inl own ↦ elim (Bool-cases (step.status == ApprovalStatus.pending)) [
      | inr decided ↦ inl (http_error 409 "CONFLICT", rw (found, own, decided) refl)
      | inl undecided ↦ elim (Option-cases (request_in step.approval_request_id w)) [
        | inl gone ↦ inl (http_error 409 "CONFLICT", rw (found, own, undecided, gone) refl)
        | inr (request, chain) ↦ elim (Bool-cases (request.status == ApprovalStatus.pending)) [
          | inr closed ↦
              inl (http_error 409 "CONFLICT", rw (found, own, undecided, chain, closed) refl)
          | inl active ↦ elim (Bool-cases (step.step_order == request.current_step)) [
            | inr early ↦ inl (
              http_error 409 "NOT_YOUR_TURN",
              rw (found, own, undecided, chain, active, early) refl,
            )
            | inl turn ↦ inr (
              step,
              request,
              record {
                found = found;
                own = (==_iff step.approver_id actor.id).0 own;
                undecided = (==_iff step.status ApprovalStatus.pending).0 undecided;
                chain = chain;
                active = (==_iff request.status ApprovalStatus.pending).0 active;
                turn = (==_iff step.step_order request.current_step).0 turn;
              },
            )
          ]
        ]
      ]
    ]
  ]
]
