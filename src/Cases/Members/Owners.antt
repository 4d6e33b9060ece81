-- ===== src/Cases/Members/Owners.antt =====
-- A case keeps an owner.
use secure_document_manageme.Prelude.{
  ℕ, ◌+◌, ◌≤◌, String, ◌≡◌, ◌≢◌, refl, inl, inr, Bool, false, ◌&&◌, some, List, [], ◌∷◌, arith,
  ◌==◌, ==_iff, string_eq, Bool-cases, Option-cases, find?, select, update_where, length, leb,
}
use secure_document_manageme.Db.{World, CaseMember, CaseRole, case_role_eq}
use secure_document_manageme.Service.{Platform, ok, with_transaction}
use secure_document_manageme.PermissionEngine.{is_active_member}
use secure_document_manageme.AuditLedger
use secure_document_manageme.Cases.Repository.{
  find_case_by_id, find_active_case_member, is_active_in_role, count_active_members_by_role, revoke,
  revoke_case_member,
}
use secure_document_manageme.Cases.Members.{check_removal, commit_removal, remove_member}

abbrev pub owners_in : String → List CaseMember → ℕ
owners_in c rows = length (select (is_active_in_role c CaseRole.owner) rows)

abbrev owns : String → String → CaseMember → Bool
owns c u m = is_active_member c u m && m.case_role == CaseRole.owner

abbrev pub owned_by : String → String → List CaseMember → ℕ
owned_by c u rows = length (select (owns c u) rows)

-- The index case_members_active_unique: a user has one active membership of a case at most.
abbrev pub IsUnique : String → String → List CaseMember → Type 0
IsUnique c u rows = length (select (is_active_member c u) rows) ≤ 1

-- A revocation takes exactly the user's own ownership away.
pub owners_in-revoke :
    (c u : String) (now : ℕ) (rows : List CaseMember)
    → owners_in c (update_where (is_active_member c u) (revoke now) rows) + owned_by c u rows
      ≡ owners_in c rows
owners_in-revoke c u now [] = refl
owners_in-revoke c u now (m ∷ rows) = ground (arith, owners_in-revoke c u now rows)

owned_by-le :
    (c u : String) (rows : List CaseMember)
    → owned_by c u rows ≤ length (select (is_active_member c u) rows)
owned_by-le c u [] = omega arith
owned_by-le c u (m ∷ rows) = ground (arith, owned_by-le c u rows)

owned_by-other :
    (c u : String) (rows : List CaseMember) (m : CaseMember)
    → IsUnique c u rows
    → find? (is_active_member c u) rows ≡ some m
    → (m.case_role == CaseRole.owner) ≡ false
    → owned_by c u rows ≡ 0
owned_by-other c u [] m one h other = cc
owned_by-other c u (x ∷ rows) m one h other = elim (Bool-cases (is_active_member c u x)) [
  | inl active ↦ ground (arith, owned_by-le c u rows)
  | inr passive ↦ ground (arith, owned_by-other c u rows m)
]

owners_in-revoke_ne :
    (d c u : String) (now : ℕ) (rows : List CaseMember)
    → d ≢ c
    → owners_in d (update_where (is_active_member c u) (revoke now) rows) ≡ owners_in d rows
owners_in-revoke_ne d c u now [] ne = refl
owners_in-revoke_ne d c u now (m ∷ rows) ne =
    ground (arith, owners_in-revoke_ne d c u now rows ne, ==_iff m.case_id c, ==_iff m.case_id d)

owned_by-revoke :
    (c u v : String) (now : ℕ) (rows : List CaseMember)
    → u ≢ v
    → owned_by c v (update_where (is_active_member c u) (revoke now) rows) ≡ owned_by c v rows
owned_by-revoke c u v now [] ne = refl
owned_by-revoke c u v now (m ∷ rows) ne =
    ground (arith, owned_by-revoke c u v now rows ne, ==_iff m.user_id u, ==_iff m.user_id v)

-- The revocation that a passed check leads to.
kept :
    (d c u : String) (now : ℕ) (rows : List CaseMember) (m : CaseMember)
    → IsUnique c u rows
    → find? (is_active_member c u) rows ≡ some m
    → (m.case_role == CaseRole.owner && leb (owners_in c rows) 1) ≡ false
    → 1 ≤ owners_in d rows
    → 1 ≤ owners_in d (update_where (is_active_member c u) (revoke now) rows)
kept d c u now rows m one found passes some_owner = elim (Bool-cases (d == c)) [
  | inr other ↦ omega (arith, owners_in-revoke_ne d c u now rows (ground (arith, ==_iff d c)))
  | inl same ↦ elim (Bool-cases (m.case_role == CaseRole.owner)) [
    | inr lesser ↦
        let e = (==_iff d c).0 same in
        let some_owner' = rw e at some_owner in
        rw e
          (omega (arith, owners_in-revoke c u now rows, owned_by-other c u rows m one found lesser))
    | inl owner ↦
        let e = (==_iff d c).0 same in
        let two : 2 ≤ owners_in c rows = ground (arith, owner) in
        rw e (omega (arith, owners_in-revoke c u now rows, owned_by-le c u rows))
  ]
]

module _ (p : Platform) (actor c u : String) where
  -- Where a user has one active membership of a case at most, which a unique index sees to, a run of
  -- `removeMember` leaves every case that had an active owner with an active owner.
  pub remove_member-keeps_owner :
      (d : String) (w : World)
      → IsUnique c u w.case_members
      → 1 ≤ owners_in d w.case_members
      → 1 ≤ owners_in d (remove_member p actor c u w).1.case_members
  unfolding remove_member check_removal commit_removal revoke_case_member find_case_by_id
      find_active_case_member count_active_members_by_role with_transaction AuditLedger.append_event
  remove_member-keeps_owner d w one some_owner =
      elim (Option-cases (find? (λ k. k.id == c) w.cases)) [
        | inl gone ↦ rw gone some_owner
        | inr (k, found) ↦ elim (Option-cases (find? (is_active_member c u) w.case_members)) [
          | inl gone ↦ rw (found, gone) some_owner
          | inr (m, member) ↦
              elim (Bool-cases
                (m.case_role == CaseRole.owner && leb (owners_in c w.case_members) 1)) [
                  | inl last ↦ rw (found, member, last) some_owner
                  | inr passes ↦
                      rw (found, member, passes)
                        (kept d c u w.now w.case_members m one member passes some_owner)
                ]
        ]
      ]

-- Two removals whose checks both run before either commits: of two owners none is left, though each
-- check has found that another owner remains.
pub concurrent_removals :
    (p : Platform) (a b c u v : String) (w : World) (m n : CaseMember)
    → (check_removal c u w).0 ≡ ok m
    → (check_removal c v w).0 ≡ ok n
    → owners_in c w.case_members ≡ 2
    → owned_by c u w.case_members ≡ 1
    → owned_by c v w.case_members ≡ 1
    → u ≢ v
    → owners_in c (commit_removal p b c v (commit_removal p a c u w).1).1.case_members ≡ 0
unfolding commit_removal revoke_case_member with_transaction AuditLedger.append_event
concurrent_removals p a b c u v w m n first second two mine yours different = omega (
  arith,
  owners_in-revoke c u w.now w.case_members,
  owners_in-revoke c v w.now (update_where (is_active_member c u) (revoke w.now) w.case_members),
  owned_by-revoke c u v w.now w.case_members different,
)
