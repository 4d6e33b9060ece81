-- ===== src/Cases/Growth.antt =====
-- What the case requests do to the audit table.
use secure_document_manageme.Prelude.{ℕ, String, refl, Option, List, nat_eq}
use secure_document_manageme.Ledger.{Bytes}
use secure_document_manageme.Db.{CaseStatus, CasePriority, CaseRole}
use secure_document_manageme.Service.{Platform}
use secure_document_manageme.AuditLedger.Growth.{Appends, Appends-unaudited, appends_rules}
use secure_document_manageme.Cases.Repository.{
  next_case_number, insert_case, insert_case_member, update_case_row, update_case_status_row,
  revoke_case_member,
}
use secure_document_manageme.Cases.Status.{create_case, update_case, update_case_status}
use secure_document_manageme.Cases.Members.{
  add_member, check_removal, commit_removal, remove_member,
}

module _ (p : Platform) where
  Appends-next_number : Appends p (next_case_number p)
  unfolding next_case_number
  Appends-next_number = Appends-unaudited p _ (λ w. refl) (λ w. refl)

  Appends-insert_case :
      (n : Bytes) (t : String) (d : Option String) (q : CasePriority) (o : String)
      (k : Option String)
      → Appends p (insert_case p n t d q o k)
  unfolding insert_case
  Appends-insert_case n t d q o k = Appends-unaudited p _ (λ w. refl) (λ w. refl)

  Appends-insert_member :
      (c u : String) (r : CaseRole) (a : Option String) → Appends p (insert_case_member p c u r a)
  unfolding insert_case_member
  Appends-insert_member c u r a = Appends-unaudited p _ (λ w. refl) (λ w. refl)

  Appends-update_row :
      (id : String) (t d : Option String) (q : Option CasePriority) (k : Option String)
      → Appends p (update_case_row id t d q k)
  unfolding update_case_row
  Appends-update_row id t d q k = Appends-unaudited p _ (λ w. refl) (λ w. refl)

  Appends-status_row :
      (id : String) (s : CaseStatus) (c a : Option ℕ) → Appends p (update_case_status_row id s c a)
  unfolding update_case_status_row
  Appends-status_row id s c a = Appends-unaudited p _ (λ w. refl) (λ w. refl)

  Appends-revoke : (c u : String) → Appends p (revoke_case_member c u)
  unfolding revoke_case_member
  Appends-revoke c u = Appends-unaudited p _ (λ w. refl) (λ w. refl)

  ruleset case_rules = (
    appends_rules, Appends-next_number, Appends-insert_case, Appends-insert_member,
    Appends-update_row, Appends-status_row, Appends-revoke,
  )

  pub Appends-create :
      (u t : String) (d : Option String) (q : Option CasePriority) (k : Option String)
      → Appends p (create_case p u t d q k)
  unfolding create_case
  Appends-create u t d q k = search case_rules depth 20

  pub Appends-update :
      (u id : String) (t d : Option String) (q : Option CasePriority) (k : Option String)
      → Appends p (update_case p u id t d q k)
  unfolding update_case
  Appends-update u id t d q k = search case_rules depth 20

  pub Appends-update_status :
      (u : String) (roles : List String) (id : String) (s : CaseStatus)
      → Appends p (update_case_status p u roles id s)
  unfolding update_case_status
  Appends-update_status u roles id s = search case_rules depth 20

  pub Appends-add_member : (u c m : String) (r : CaseRole) → Appends p (add_member p u c m r)
  unfolding add_member
  Appends-add_member u c m r = search case_rules depth 20

  Appends-check : (c u : String) → Appends p (check_removal c u)
  unfolding check_removal
  Appends-check c u = search case_rules depth 20

  Appends-commit : (a c u : String) → Appends p (commit_removal p a c u)
  unfolding commit_removal
  Appends-commit a c u = search case_rules depth 20

  pub Appends-remove_member : (a c u : String) → Appends p (remove_member p a c u)
  unfolding remove_member
  Appends-remove_member a c u = search (case_rules, Appends-check, Appends-commit) depth 20
