-- ===== src/Evidence/Custody.antt =====
-- Handing over and handing out: nothing that does not match its recorded hash leaves.
use secure_document_manageme.Prelude.{
  String, ◌≡◌, refl, sym, ◌⊎◌, inl, inr, true, Option, some, List, [], ◌∷◌, arith, ◌==◌, ==_iff,
  string_eq, list_eq, nat_eq, option_eq, Bool-cases, Option-cases, All,
}
use secure_document_manageme.Ledger.{Bytes}
use secure_document_manageme.Db.{World, Evidence, EvidenceArtifact}
use secure_document_manageme.Service.{
  Platform, User, HttpError, http_error, Result, Result-cases, ok, err,
}
use secure_document_manageme.Crypto.{hash_sha256, decrypt}
use secure_document_manageme.Storage
use secure_document_manageme.Storage.{lookup}
use secure_document_manageme.Evidence.Repository.{find_artifact_by_id, find_evidence_by_id}
use secure_document_manageme.Evidence.Integrity.{
  CheckResult, all_matches, stored_plaintext, check_artifacts, download_artifact,
}

module _ (p : Platform) where
  -- The object stored under a key opens to a plaintext.
  pub record Opens (w : World) (key : String) (plaintext : Bytes) : Type 0 where
    pub envelope : Bytes
    pub stored : lookup key w.objects ≡ some envelope
    pub opened : decrypt p envelope p.master_key ≡ ok plaintext

  -- The stored object of an artifact opens to a content with the recorded hash.
  pub record IsSound (w : World) (a : EvidenceArtifact) : Type 0 where
    pub plaintext : Bytes
    pub opens : Opens w a.storage_key plaintext
    pub hashed : hash_sha256 p plaintext ≡ a.sha256_hash

  pub stored_cases :
      (key : String) (w : World)
      → ((e : HttpError) × (stored_plaintext p key w ≡ (err e, w)))
        ⊎ ((b : Bytes) × Opens w key b × (stored_plaintext p key w ≡ (ok b, w)))
  unfolding stored_plaintext Storage.get
  stored_cases key w = elim (Option-cases (lookup key w.objects)) [
    | inl gone ↦ inl (http_error 404 "STORAGE_OBJECT_NOT_FOUND", rw gone refl)
    | inr (c, here) ↦ elim (Result-cases (decrypt p c p.master_key)) [
      | inl (e, sealed) ↦ inl (e, rw (here, sealed) refl)
      | inr (b, opened) ↦
          inr (b, record { envelope = c; stored = here; opened = opened }, rw (here, opened) refl)
    ]
  ]

  -- A check leaves the state as it is; if all its entries match, all artifacts are sound.
  pub check_cases :
      (xs : List EvidenceArtifact) (w : World)
      → ((e : HttpError) × (check_artifacts p xs w ≡ (err e, w)))
        ⊎ ((rs : List CheckResult) × ((all_matches rs ≡ true) → All (IsSound w) xs)
            × (check_artifacts p xs w ≡ (ok rs, w)))
  unfolding check_artifacts
  check_cases [] w = inr ([], λ _. tt, refl)
  check_cases (a ∷ xs) w = elim (stored_cases a.storage_key w) [
    | inl (e, failed) ↦ inl (e, rw failed refl)
    | inr (b, opens, read) ↦ elim (check_cases xs w) [
      | inl (e, failed) ↦ inl (e, rw (read, failed) refl)
      | inr (rs, sound, checked) ↦ inr (
        record {
          artifact_id = a.id;
          file_name = a.file_name;
          matches = hash_sha256 p b == a.sha256_hash;
        }
            ∷ rs,
        λ m. (
          record {
            plaintext = b;
            opens = opens;
            hashed = ground (arith, ==_iff (hash_sha256 p b) a.sha256_hash);
          },
          sound (ground arith),
        ),
        rw (read, checked) refl,
      )
    ]
  ]

  -- What a download that returns a plaintext has found.
  pub record Downloaded (id artifact_id : String) (w : World) (plaintext : Bytes) : Type 0 where
    pub row : Evidence
    pub artifact : EvidenceArtifact
    pub found : find_evidence_by_id id w ≡ some row
    pub listed : find_artifact_by_id artifact_id w ≡ some artifact
    pub owned : artifact.evidence_id ≡ id
    pub opens : Opens w artifact.storage_key plaintext
    pub hashed : hash_sha256 p plaintext ≡ artifact.sha256_hash

  abbrev Returns : Result (Bytes × String × String) → Bytes → Type 0
  Returns (ok (b, n, m)) plaintext = b ≡ plaintext
  Returns (err e) plaintext = ⊥

  -- A download that returns bytes has found the item and an artifact of that item, and the bytes
  -- are what the stored object opens to and hash to the artifact's recorded hash.
  pub download_sound :
      (actor : User) (id artifact_id : String) (ip : Option String) (w : World) (plaintext : Bytes)
      → Returns (download_artifact p actor id artifact_id ip w).0 plaintext
      → Downloaded id artifact_id w plaintext
  unfolding download_artifact
  download_sound actor id artifact_id ip w plaintext h =
      elim (Option-cases (find_evidence_by_id id w)) [
        | inl gone ↦ absurd (rw gone at h)
        | inr (row, found) ↦ elim (Option-cases (find_artifact_by_id artifact_id w)) [
          | inl gone ↦ absurd (rw (found, gone) at h)
          | inr (a, listed) ↦ elim (Bool-cases (a.evidence_id == id)) [
            | inr foreign ↦ absurd (rw (found, listed, foreign) at h)
            | inl owned ↦ elim (stored_cases a.storage_key w) [
              | inl (e, failed) ↦ absurd (rw (found, listed, owned, failed) at h)
              | inr (b, opens, read) ↦ elim (Bool-cases (hash_sha256 p b == a.sha256_hash)) [
                | inr changed ↦ absurd (rw (found, listed, owned, read, changed) at h)
                | inl same ↦
                    let e : b ≡ plaintext = rw (found, listed, owned, read, same) at h in
                    record {
                      row = row;
                      artifact = a;
                      found = found;
                      listed = listed;
                      owned = (==_iff a.evidence_id id).0 owned;
                      opens = rw (sym e) opens;
                      hashed = rw (sym e) ((==_iff (hash_sha256 p b) a.sha256_hash).0 same);
                    }
              ]
            ]
          ]
        ]
      ]
