-- ===== src/App.antt =====
-- The requests that the API serves one after another, and the audit trail that they leave.
use secure_document_manageme.Prelude.{ℕ, String, Option, List, [], ◌∷◌}
use secure_document_manageme.Db.{
  World, Permission, ResourceType, ApprovalStatus, CaseStatus, CasePriority, CaseRole, UserStatus,
}
use secure_document_manageme.Service.{Service, Platform, User, ◌>>◌, pure}
use secure_document_manageme.AuditLedger.Growth.{
  Appends, Grows, Grows-refl, Grows-trans, Appends-bind, Appends-pure,
}
use secure_document_manageme.Evidence.Lifecycle.{
  Upload, register_evidence, add_artifact, seal_evidence, start_analysis, complete_analysis,
  return_evidence, archive_evidence,
}
use secure_document_manageme.Evidence.Integrity.{verify_evidence, download_artifact}
use secure_document_manageme.Evidence.Transfer.{request_transfer, accept_transfer, reject_transfer}
use secure_document_manageme.Evidence.Growth.{
  Appends-register, Appends-add_artifact, Appends-seal, Appends-start, Appends-complete,
  Appends-return, Appends-archive, Appends-verify, Appends-download, Appends-request,
  Appends-accept, Appends-reject,
}
use secure_document_manageme.Cases.Status.{create_case, update_case, update_case_status}
use secure_document_manageme.Cases.Members.{add_member, remove_member}
use secure_document_manageme.Cases.Growth.{
  Appends-create, Appends-update, Appends-update_status, Appends-add_member, Appends-remove_member,
}
use secure_document_manageme.Approval.Steps.{submit_for_approval, decide_step, finalize_document}
use secure_document_manageme.Approval.Growth.{Appends-submit, Appends-decide, Appends-finalize}
use secure_document_manageme.Ledger.{Bytes}
use secure_document_manageme.Crypto.Rsa.{Rsa}
use secure_document_manageme.Tokens.{Identity}
use secure_document_manageme.Documents.Versions.{
  upload_new_document, upload_new_version, restore_version, download_version,
}
use secure_document_manageme.Documents.Service.{update_document, delete_document, add_comment}
use secure_document_manageme.Documents.Growth.{
  Appends-upload_document, Appends-upload_version, Appends-restore, Appends-download_version,
  Appends-update_document, Appends-delete_document, Appends-add_comment,
}
use secure_document_manageme.Signatures.Service.{
  generate_or_rotate_key, self_sign, request_signature, fulfill_pending, decline_pending,
}
use secure_document_manageme.Signatures.Growth.{
  Appends-rotate, Appends-self_sign, Appends-request_signature, Appends-fulfill, Appends-decline,
}
use secure_document_manageme.Verification.Service.{verify_document_internal, verify_by_code}
use secure_document_manageme.Verification.Growth.{Appends-verify_document, Appends-verify_code}
use secure_document_manageme.Users.Invitations.{invite_user, activate_account}
use secure_document_manageme.Users.Management.{
  update_user_status, update_user_roles, create_department,
}
use secure_document_manageme.Users.Growth.{
  Appends-invite, Appends-activate, Appends-set_status, Appends-set_roles,
  Appends-create_department,
}
use secure_document_manageme.Auth.Service.{
  login, refresh, logout, enroll_mfa, verify_mfa_enrollment,
}
use secure_document_manageme.Auth.Growth.{
  Appends-login, Appends-refresh, Appends-logout, Appends-enroll, Appends-verify_enrollment,
}
use secure_document_manageme.Grants.Service.{
  SentTime, grant_permission, revoke_grant, create_share, revoke_share,
}
use secure_document_manageme.Grants.Growth.{
  Appends-grant, Appends-revoke_grant, Appends-share, Appends-revoke_share,
}

-- One constructor for each service call, with the arguments that its controller passes on.
pub data Request : Type 0 where
  register :
      User → String → String → Option String → Option String → Option String → Upload → Request
  add_file : User → String → Upload → Request
  seal start complete hand_back archive verify : User → String → Request
  download : User → String → String → Option String → Request
  request : User → String → String → Option String → Option String → Request
  accept : User → String → String → Request
  reject : User → String → String → Option String → Request
  new_case : String → String → Option String → Option CasePriority → Option String → Request
  edit_case :
      String
      → String
      → Option String
      → Option String
      → Option CasePriority
      → Option String
      → Request
  set_status : String → List String → String → CaseStatus → Request
  enrol : String → String → String → CaseRole → Request
  expel : String → String → String → Request
  submit : User → String → List String → Request
  decide : User → String → ApprovalStatus → Option String → Request
  finalize : User → String → Request
  grant : User → ResourceType → String → String → Permission → Option SentTime → Request
  withdraw : User → String → Request
  share : User → String → String → Option Permission → Option ℕ → Option String → Request
  unshare : User → String → String → Request
  publish : User → String → Option String → String → Option String → Upload → Request
  revise : User → String → Upload → Option String → Request
  rewind : User → String → String → Request
  read_version : User → String → Option String → Option String → Request
  edit_document : User → String → Option String → Option String → Option String → Request
  discard : User → String → Request
  remark : User → String → String → Request
  rotate_key : User → Request
  sign_own : User → String → Option String → Request
  ask_signature : User → String → String → Option String → Request
  sign_asked : User → String → Request
  refuse_asked : User → String → Option String → Request
  check_document : User → String → Option String → Request
  check_code : Bytes → Option String → Request
  invite : User → String → String → String → Option String → Option String → Option String → Request
  activate : Bytes → String → String → Request
  set_account_status : User → String → UserStatus → Request
  set_account_roles : User → String → List String → Request
  new_unit : User → String → String → Request
  log_in : String → String → Option String → Option String → Option String → Request
  renew log_out : Option Bytes → Request
  enrol_mfa : String → Request
  confirm_mfa : String → String → Request

-- The answer to the client is left out.
abbrev done : {A : Type 0} → Service A → Service (Unit {0})
done m = m >> pure tt

module _ (p : Platform) (keys : Rsa) (i : Identity) where
  abbrev pub handle : Request → Service (Unit {0})
  handle (register u c t d k l f) = done (register_evidence p u c t d k l f)
  handle (add_file u id f) = done (add_artifact p u id f)
  handle (seal u id) = done (seal_evidence p u id)
  handle (start u id) = done (start_analysis p u id)
  handle (complete u id) = done (complete_analysis p u id)
  handle (hand_back u id) = done (return_evidence p u id)
  handle (archive u id) = done (archive_evidence p u id)
  handle (verify u id) = done (verify_evidence p u id)
  handle (download u id a ip) = done (download_artifact p u id a ip)
  handle (request u id to r l) = done (request_transfer p u id to r l)
  handle (accept u id t) = done (accept_transfer p u id t)
  handle (reject u id t r) = done (reject_transfer p u id t r)
  handle (new_case u t d q k) = done (create_case p u t d q k)
  handle (edit_case u id t d q k) = done (update_case p u id t d q k)
  handle (set_status u roles id s) = done (update_case_status p u roles id s)
  handle (enrol u c m r) = done (add_member p u c m r)
  handle (expel u c m) = done (remove_member p u c m)
  handle (submit u id us) = done (submit_for_approval p u id us)
  handle (decide u id d c) = done (decide_step p u id d c)
  handle (finalize u id) = done (finalize_document p u id)
  handle (grant u t r k x e) = done (grant_permission p u t r k x e)
  handle (withdraw u id) = done (revoke_grant p u id)
  handle (share u d k x h r) = done (create_share p u d k x h r)
  handle (unshare u d s) = done (revoke_share p u d s)
  handle (publish u c k t d f) = done (upload_new_document p u c k t d f)
  handle (revise u id f n) = done (upload_new_version p u id f n)
  handle (rewind u id v) = done (restore_version p u id v)
  handle (read_version u id v ip) = done (download_version p u id v ip)
  handle (edit_document u id t d k) = done (update_document p u id t d k)
  handle (discard u id) = done (delete_document p u id)
  handle (remark u id b) = done (add_comment p u id b)
  handle (rotate_key u) = done (generate_or_rotate_key p keys u)
  handle (sign_own u id o) = done (self_sign p keys u id o)
  handle (ask_signature u id to o) = done (request_signature p keys u id to o)
  handle (sign_asked u id) = done (fulfill_pending p keys u id)
  handle (refuse_asked u id o) = done (decline_pending p keys u id o)
  handle (check_document u id ip) = done (verify_document_internal p keys u id ip)
  handle (check_code c ip) = done (verify_by_code p keys c ip)
  handle (invite u n e o d k x) = done (invite_user p i u n e o d k x)
  handle (activate t s n) = done (activate_account p i t s n)
  handle (set_account_status u id s) = done (update_user_status p u id s)
  handle (set_account_roles u id os) = done (update_user_roles p u id os)
  handle (new_unit u n t) = done (create_department p u n t)
  handle (log_in n s o ip a) = done (login p i n s o ip a)
  handle (renew t) = done (refresh p i t)
  handle (log_out t) = done (logout p i t)
  handle (enrol_mfa u) = done (enroll_mfa p i u)
  handle (confirm_mfa u o) = done (verify_mfa_enrollment p i u o)

  -- Each request comes at a time of its own; what it answers does not stop the server.
  abbrev pub serve : List (ℕ × Request) → World → World
  serve [] w = w
  serve ((now, r) ∷ rest) w = serve rest (handle r (record w { now = now })).1

  Appends-done : {A : Type 0} (m : Service A) → Appends p m → Appends p (done m)
  Appends-done m h = Appends-bind p m _ h (λ _. Appends-pure p tt)

  Appends-handle : (r : Request) → Appends p (handle r)
  Appends-handle (register u c t d k l f) = Appends-done _ (Appends-register p u c t d k l f)
  Appends-handle (add_file u id f) = Appends-done _ (Appends-add_artifact p u id f)
  Appends-handle (seal u id) = Appends-done _ (Appends-seal p u id)
  Appends-handle (start u id) = Appends-done _ (Appends-start p u id)
  Appends-handle (complete u id) = Appends-done _ (Appends-complete p u id)
  Appends-handle (hand_back u id) = Appends-done _ (Appends-return p u id)
  Appends-handle (archive u id) = Appends-done _ (Appends-archive p u id)
  Appends-handle (verify u id) = Appends-done _ (Appends-verify p u id)
  Appends-handle (download u id a ip) = Appends-done _ (Appends-download p u id a ip)
  Appends-handle (request u id to r l) = Appends-done _ (Appends-request p u id to r l)
  Appends-handle (accept u id t) = Appends-done _ (Appends-accept p u id t)
  Appends-handle (reject u id t r) = Appends-done _ (Appends-reject p u id t r)
  Appends-handle (new_case u t d q k) = Appends-done _ (Appends-create p u t d q k)
  Appends-handle (edit_case u id t d q k) = Appends-done _ (Appends-update p u id t d q k)
  Appends-handle (set_status u roles id s) = Appends-done _ (Appends-update_status p u roles id s)
  Appends-handle (enrol u c m r) = Appends-done _ (Appends-add_member p u c m r)
  Appends-handle (expel u c m) = Appends-done _ (Appends-remove_member p u c m)
  Appends-handle (submit u id us) = Appends-done _ (Appends-submit p u id us)
  Appends-handle (decide u id d c) = Appends-done _ (Appends-decide p u id d c)
  Appends-handle (finalize u id) = Appends-done _ (Appends-finalize p u id)
  Appends-handle (grant u t r k x e) = Appends-done _ (Appends-grant p u t r k x e)
  Appends-handle (withdraw u id) = Appends-done _ (Appends-revoke_grant p u id)
  Appends-handle (share u d k x h r) = Appends-done _ (Appends-share p u d k x h r)
  Appends-handle (unshare u d s) = Appends-done _ (Appends-revoke_share p u d s)
  Appends-handle (publish u c k t d f) = Appends-done _ (Appends-upload_document p u c k t d f)
  Appends-handle (revise u id f n) = Appends-done _ (Appends-upload_version p u id f n)
  Appends-handle (rewind u id v) = Appends-done _ (Appends-restore p u id v)
  Appends-handle (read_version u id v ip) = Appends-done _ (Appends-download_version p u id v ip)
  Appends-handle (edit_document u id t d k) = Appends-done _ (Appends-update_document p u id t d k)
  Appends-handle (discard u id) = Appends-done _ (Appends-delete_document p u id)
  Appends-handle (remark u id b) = Appends-done _ (Appends-add_comment p u id b)
  Appends-handle (rotate_key u) = Appends-done _ (Appends-rotate p keys u)
  Appends-handle (sign_own u id o) = Appends-done _ (Appends-self_sign p keys u id o)
  Appends-handle (ask_signature u id to o) =
      Appends-done _ (Appends-request_signature p keys u id to o)
  Appends-handle (sign_asked u id) = Appends-done _ (Appends-fulfill p keys u id)
  Appends-handle (refuse_asked u id o) = Appends-done _ (Appends-decline p keys u id o)
  Appends-handle (check_document u id ip) = Appends-done _ (Appends-verify_document p keys u id ip)
  Appends-handle (check_code c ip) = Appends-done _ (Appends-verify_code p keys c ip)
  Appends-handle (invite u n e o d k x) = Appends-done _ (Appends-invite p i u n e o d k x)
  Appends-handle (activate t s n) = Appends-done _ (Appends-activate p i t s n)
  Appends-handle (set_account_status u id s) = Appends-done _ (Appends-set_status p u id s)
  Appends-handle (set_account_roles u id os) = Appends-done _ (Appends-set_roles p u id os)
  Appends-handle (new_unit u n t) = Appends-done _ (Appends-create_department p u n t)
  Appends-handle (log_in n s o ip a) = Appends-done _ (Appends-login p i n s o ip a)
  Appends-handle (renew t) = Appends-done _ (Appends-refresh p i t)
  Appends-handle (log_out t) = Appends-done _ (Appends-logout p i t)
  Appends-handle (enrol_mfa u) = Appends-done _ (Appends-enroll p i u)
  Appends-handle (confirm_mfa u o) = Appends-done _ (Appends-verify_enrollment p i u o)

  -- The clock is no part of what grows.
  Grows-now : (now : ℕ) (w w' : World) → Grows p (record w { now = now }) w' → Grows p w w'
  Grows-now now w w' g = record {
    sequence = g.sequence;
    added = g.added;
    suffix = g.suffix;
    intact = λ h. g.intact (record { within = h.within; ordered = h.ordered; chained = h.chained });
  }

  -- Whatever requests are served, in whatever order and at whatever times, and however each of them
  -- ends: every audit event that was there before is still there, unchanged and under the new ones,
  -- and a table whose chain was intact is intact again.
  pub serve-Grows : (requests : List (ℕ × Request)) (w : World) → Grows p w (serve requests w)
  serve-Grows [] w = Grows-refl p w
  serve-Grows ((now, r) ∷ rest) w =
      let w' = (handle r (record w { now = now })).1 in
      Grows-trans p w w' (serve rest w')
        (Grows-now now w w' ((Appends-handle r).at (record w { now = now }))) (serve-Grows rest w')
