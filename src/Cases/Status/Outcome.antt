-- ===== src/Cases/Status/Outcome.antt =====
-- `updateCaseStatus` against the life cycle of a case.
use secure_document_manageme.Prelude.{
  find?-update_where, ℕ, String, ◌≡◌, refl, inl, inr, ◌≢◌, ◌↔◌, any, ==_iff, true, false, not, ◌&&◌,
  Option, none, some, List, ◌==◌, string_eq, Bool-cases, Option-cases, contains, find?,
}
use secure_document_manageme.Db.{World, Case, CaseStatus, case_status_eq}
use secure_document_manageme.Service.{
  Platform, HttpError, http_error, Result, ok, err, with_transaction,
}
use secure_document_manageme.Roles.{top_oversight_roles}
use secure_document_manageme.AuditLedger
use secure_document_manageme.Cases.Repository.{
  find_case_by_id, set_case_status, update_case_status_row,
}
use secure_document_manageme.Cases.Status.{
  case_not_found, case_transitions, is_reopen, is_top_oversight, closed_at_after, archived_at_after,
  update_case_status,
}

abbrev pub case_in : String → World → Option Case
case_in id w = find? (λ c. c.id == id) w.cases

-- A case that has been closed goes back into investigation.
abbrev pub IsReopening : CaseStatus → CaseStatus → Type 0
IsReopening from to = (from ≡ CaseStatus.closed) × (to ≡ CaseStatus.under_investigation)

-- The role of somebody who commands from the top.
abbrev pub IsTop : List String → Type 0
IsTop roles = any (λ r. contains top_oversight_roles r) roles ≡ true

-- The time of closing: set on closing, cleared on reopening, and else the one there was.
pub data ClosedAt (c : Case) (status : CaseStatus) (now : ℕ) : Option ℕ → Type 0 where
  closing : status ≡ CaseStatus.closed → ClosedAt c status now (some now)
  reopening : IsReopening c.status status → ClosedAt c status now none
  closed_kept :
      status ≢ CaseStatus.closed → ¬ IsReopening c.status status → ClosedAt c status now c.closed_at

-- The time of archiving: set on archiving, and else the one there was.
pub data ArchivedAt (c : Case) (status : CaseStatus) (now : ℕ) : Option ℕ → Type 0 where
  archiving : status ≡ CaseStatus.archived → ArchivedAt c status now (some now)
  archived_kept : status ≢ CaseStatus.archived → ArchivedAt c status now c.archived_at

is_reopen_iff : (from to : CaseStatus) → (is_reopen from to ≡ true) ↔ IsReopening from to
is_reopen_iff from to = elim (Bool-cases (from == CaseStatus.closed)) [
  | inl shut ↦ (
    λ e. (
      (==_iff from CaseStatus.closed).0 shut,
      (==_iff to CaseStatus.under_investigation).0 (rw shut at e),
    ),
    λ (a, b). rw (a, b) refl,
  )
  | inr other ↦
      (λ e. (let never : false ≡ true = rw other at e in absurd cc), λ (a, b). rw (a, b) refl)
]

closed_at_after-ClosedAt :
    (c : Case) (status : CaseStatus) (now : ℕ)
    → ClosedAt c status now (closed_at_after c status now)
closed_at_after-ClosedAt c status now = elim (Bool-cases (status == CaseStatus.closed)) [
  | inl shut ↦ rw shut (closing ((==_iff status CaseStatus.closed).0 shut))
  | inr other ↦
      let apart : status ≢ CaseStatus.closed =
        λ e. (let never : true ≡ false = rw e at other in absurd cc) in
      elim (Bool-cases (is_reopen c.status status)) [
        | inl back ↦ rw (other, back) (reopening ((is_reopen_iff c.status status).0 back))
        | inr onward ↦
            rw (other, onward)
              (closed_kept apart (λ r.
                (let back = (is_reopen_iff c.status status).1 r in
                  let never : true ≡ false = rw back at onward in absurd cc)))
      ]
]

archived_at_after-ArchivedAt :
    (c : Case) (status : CaseStatus) (now : ℕ)
    → ArchivedAt c status now (archived_at_after c status now)
archived_at_after-ArchivedAt c status now = elim (Bool-cases (status == CaseStatus.archived)) [
  | inl filed ↦ rw filed (archiving ((==_iff status CaseStatus.archived).0 filed))
  | inr other ↦
      rw other (archived_kept (λ e. (let never : true ≡ false = rw e at other in absurd cc)))
]

-- What a change of status that succeeds has found, and what it leaves.
pub record Restated (roles : List String) (id : String) (status : CaseStatus) (w w' : World)
    (r : Option Case) : Type 0 where
  pub existing : Case
  pub found : case_in id w ≡ some existing
  pub legal : contains (case_transitions existing.status) status ≡ true
  pub authorised : IsReopening existing.status status → IsTop roles
  pub closed_at : Option ℕ
  pub closed_right : ClosedAt existing status w.now closed_at
  pub archived_at : Option ℕ
  pub archived_right : ArchivedAt existing status w.now archived_at
  pub result :
      r
      ≡ some (record existing { status = status; closed_at = closed_at; archived_at = archived_at })
  pub stored :
      case_in id w'
      ≡ some (record existing { status = status; closed_at = closed_at; archived_at = archived_at })

-- Why it is refused.
pub data CaseRefusal (roles : List String) (id : String) (status : CaseStatus) (w : World)
    : HttpError → Type 0 where
  missing : case_in id w ≡ none → CaseRefusal roles id status w case_not_found
  illegal :
      (c : Case)
      → case_in id w ≡ some c
      → contains (case_transitions c.status) status ≡ false
      → CaseRefusal roles id status w (http_error 409 "ILLEGAL_TRANSITION")
  forbidden :
      (c : Case)
      → case_in id w ≡ some c
      → contains (case_transitions c.status) status ≡ true
      → IsReopening c.status status
      → ¬ IsTop roles
      → CaseRefusal roles id status w (http_error 403 "FORBIDDEN")

abbrev pub StatusOutcome :
    List String → String → CaseStatus → World → Result (Option Case) × World → Type 0
StatusOutcome roles id status w (ok r, w') = Restated roles id status w w' r
StatusOutcome roles id status w (err e, w') = (w' ≡ w) × CaseRefusal roles id status w e

module _ (p : Platform) (actor : String) (roles : List String) (id : String)
    (status : CaseStatus) where
  restated-StatusOutcome :
      (w : World) (c : Case)
      → case_in id w ≡ some c
      → contains (case_transitions c.status) status ≡ true
      → (IsReopening c.status status → IsTop roles)
      → is_reopen c.status status && not (is_top_oversight roles) ≡ false
      → StatusOutcome roles id status w (update_case_status p actor roles id status w)
  unfolding update_case_status with_transaction update_case_status_row find_case_by_id
      AuditLedger.append_event
  restated-StatusOutcome w c found legal authorised passes =
      let stored =
        find?-update_where (λ r. r.id == id)
          (set_case_status status (closed_at_after c status w.now)
            (archived_at_after c status w.now))
          (λ r same. same) w.cases c found in
      rw (found, legal, passes)
        (record {
          existing = c;
          found = found;
          legal = legal;
          authorised = authorised;
          closed_at = closed_at_after c status w.now;
          closed_right = closed_at_after-ClosedAt c status w.now;
          archived_at = archived_at_after c status w.now;
          archived_right = archived_at_after-ArchivedAt c status w.now;
          result = stored;
          stored = stored;
        })

  -- Every run of `updateCaseStatus` ends in one of two ways: the case exists, the transition table
  -- allows the step, a reopening is asked for by a role of top oversight, and the case is returned
  -- and stored with the new status and else as it was, but for two times: that of closing is set on
  -- closing, cleared on reopening and kept otherwise, and that of archiving is set on archiving and
  -- kept otherwise; or the state is untouched and the error names the condition that fails, the ones
  -- before it being met.
  pub update_case_status-StatusOutcome :
      (w : World) → StatusOutcome roles id status w (update_case_status p actor roles id status w)
  unfolding update_case_status find_case_by_id
  update_case_status-StatusOutcome w = elim (Option-cases (case_in id w)) [
    | inl gone ↦ rw gone (refl, missing gone)
    | inr (c, found) ↦ elim (Bool-cases (contains (case_transitions c.status) status)) [
      | inr unfit ↦ rw (found, unfit) (refl, illegal c found unfit)
      | inl legal ↦ elim (Bool-cases (is_reopen c.status status)) [
        | inr onward ↦
            let apart : ¬ IsReopening c.status status = λ r.
              (let back = (is_reopen_iff c.status status).1 r in
                let never : true ≡ false = rw back at onward in absurd cc) in
            restated-StatusOutcome w c found legal (λ r. absurd (apart r)) (rw onward refl)
        | inl back ↦ elim (Bool-cases (is_top_oversight roles)) [
          | inl top ↦ restated-StatusOutcome w c found legal (λ r. top) (rw (back, top) refl)
          | inr low ↦
              rw (found, legal, back, low)
                (
                  refl,
                  forbidden c found legal ((is_reopen_iff c.status status).0 back)
                      (λ top. (let never : true ≡ false = rw top at low in absurd cc)),
                )
        ]
      ]
    ]
  ]
