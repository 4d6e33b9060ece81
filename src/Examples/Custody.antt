-- ===== src/Examples/Custody.antt =====
-- The custody theorems on the example state.
use secure_document_manageme.Prelude.{◌≡◌, refl, true, none, [], ◌∷◌}
use secure_document_manageme.Canonical.{codes}
use secure_document_manageme.Service.{ok}
use secure_document_manageme.Crypto.{hash_sha256, decrypt}
use secure_document_manageme.Storage
use secure_document_manageme.Evidence.Repository.{
  find_evidence_by_id, find_artifact_by_id, list_artifacts_for_evidence,
  find_latest_pending_transfer, update_artifact_integrity_status,
}
use secure_document_manageme.Evidence.Integrity.{
  CheckResult, stored_plaintext, check_artifacts, download_artifact,
}
use secure_document_manageme.Evidence.Transfer.{accept_transfer}
use secure_document_manageme.Evidence.Check.{Report, verify_evidence-Report}
use secure_document_manageme.Evidence.Integrity.{verify_evidence}
use secure_document_manageme.Evidence.Moves.{Move, move, Outcome, move-Outcome}
use secure_document_manageme.Evidence.Custody.{Downloaded, download_sound}
use secure_document_manageme.Evidence.Handover.{Answer, Pending, accept_transfer-Answer}
use secure_document_manageme.Evidence.Replay.{accept_leaves_pending}
use secure_document_manageme.Service.{with_transaction}
use secure_document_manageme.AuditLedger
use secure_document_manageme.Examples.{plain, giver, taker, item, transfer, scene, sealed_scene}

move-Outcome_example :
    Outcome Move.seal giver "item" sealed_scene (move plain Move.seal giver "item" sealed_scene)
move-Outcome_example = move-Outcome plain Move.seal giver "item" sealed_scene

download_sound_example : Downloaded plain "item" "photo" scene (codes "jpeg")
unfolding download_artifact find_evidence_by_id find_artifact_by_id stored_plaintext hash_sha256
    decrypt Storage.get with_transaction update_artifact_integrity_status AuditLedger.append_event
download_sound_example = download_sound plain giver "item" "photo" none scene (codes "jpeg") refl

accept_transfer-Answer_example :
    Answer plain taker "item" "transfer" scene (accept_transfer plain taker "item" "transfer" scene)
accept_transfer-Answer_example = accept_transfer-Answer plain taker "item" "transfer" scene

accept_leaves_pending_example :
    find_latest_pending_transfer "item" (accept_transfer plain taker "item" "transfer" scene).1
    ≡ find_latest_pending_transfer "item" scene
accept_leaves_pending_example = accept_leaves_pending plain taker "item" "transfer" "item" scene

abbrev clean_check : CheckResult
clean_check = record { artifact_id = "photo"; file_name = "p.jpg"; matches = true }

scene-Pending : Pending "item" "transfer" taker scene item transfer
unfolding find_latest_pending_transfer
scene-Pending = record { found = refl; latest = refl; asked = refl; recipient = refl }

scene_check :
    check_artifacts plain (list_artifacts_for_evidence "item" scene) scene
    ≡ (ok (clean_check ∷ []), scene)
unfolding check_artifacts list_artifacts_for_evidence stored_plaintext hash_sha256 decrypt
    Storage.get
scene_check = refl

verify_evidence-Report_example :
    Report plain giver "item" sealed_scene (verify_evidence plain giver "item" sealed_scene)
verify_evidence-Report_example = verify_evidence-Report plain giver "item" sealed_scene
