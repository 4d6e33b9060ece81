-- ===== src/Cases/Repository.antt =====
-- apps/api/src/modules/cases/cases.repository.js.
use secure_document_manageme.Prelude.{
  ℕ, String, Bool, ◌&&◌, Option, none, some, ◌∷◌, ◌++◌, ◌==◌, string_eq, nat_eq, find?, select,
  update_where, length,
}
use secure_document_manageme.Ledger.{Bytes}
use secure_document_manageme.Sql.{
  advance_counter, last_sequence_of, pad_start, coalesce, coalesce_option,
}
use secure_document_manageme.Canonical.{codes}
use secure_document_manageme.Canonical.Print.{print_nat}
use secure_document_manageme.Db.{
  World, Case, CaseStatus, CasePriority, CaseMember, CaseRole, case_role_eq,
}
use secure_document_manageme.Service.{Service, Platform, ◌>>=◌, ◌>>◌, gets, write, pure, new_uuid}
use secure_document_manageme.PermissionEngine.{is_active_member, is_null}

unfoldable pub find_case_by_id : String → World → Option Case
find_case_by_id id w = find? (λ c. c.id == id) w.cases

module _ (p : Platform) where
  unfoldable pub next_case_number : Service Bytes
  unfolding print_nat
  next_case_number = do
    year ← gets (λ w. p.full_year w.now)
    write (λ d. record d { case_number_counters = advance_counter year d.case_number_counters })
    seq ← gets (λ w. last_sequence_of year w.case_number_counters)
    pure (codes "CASE-" ++ (print_nat year ++ (b'-' ∷ pad_start 4 (print_nat seq))))

  -- `status` takes the column's default, OPEN.
  unfoldable pub insert_case :
      Bytes → String → Option String → CasePriority → String → Option String → Service Case
  insert_case case_number title description priority owner_id department_id = do
    id ← new_uuid p
    now ← gets (λ w. w.now)
    let row : Case = record {
      id = id;
      case_number = case_number;
      title = title;
      description = description;
      priority = priority;
      status = CaseStatus.open_case;
      owner_id = owner_id;
      department_id = department_id;
      opened_at = now;
      closed_at = none;
      archived_at = none;
    }
    write (λ d. record d { cases = row ∷ d.cases })
    pure row

  unfoldable pub insert_case_member :
      String → String → CaseRole → Option String → Service CaseMember
  insert_case_member case_id user_id case_role added_by = do
    id ← new_uuid p
    now ← gets (λ w. w.now)
    let row : CaseMember = record {
      id = id;
      case_id = case_id;
      user_id = user_id;
      case_role = case_role;
      added_by = added_by;
      joined_at = now;
      revoked_at = none;
    }
    write (λ d. record d { case_members = row ∷ d.case_members })
    pure row

abbrev pub set_case :
    Option String → Option String → Option CasePriority → Option String → Case → Case
set_case title description priority department_id c = record c {
  title = coalesce title c.title;
  description = coalesce_option description c.description;
  priority = coalesce priority c.priority;
  department_id = coalesce_option department_id c.department_id;
}

unfoldable pub update_case_row :
    String
    → Option String
    → Option String
    → Option CasePriority
    → Option String
    → Service (Option Case)
unfolding find_case_by_id
update_case_row id title description priority department_id = do
  write (λ d. record d {
    cases =
        update_where (λ c. c.id == id) (set_case title description priority department_id) d.cases;
  })
  gets (find_case_by_id id)

-- Both times are set to what is passed, `none` included.
abbrev pub set_case_status : CaseStatus → Option ℕ → Option ℕ → Case → Case
set_case_status status closed_at archived_at c = record c {
  status = status;
  closed_at = closed_at;
  archived_at = archived_at;
}

unfoldable pub update_case_status_row :
    String → CaseStatus → Option ℕ → Option ℕ → Service (Option Case)
unfolding find_case_by_id
update_case_status_row id status closed_at archived_at = do
  write (λ d. record d {
    cases = update_where (λ c. c.id == id) (set_case_status status closed_at archived_at) d.cases;
  })
  gets (find_case_by_id id)

unfoldable pub find_active_case_member : String → String → World → Option CaseMember
find_active_case_member case_id user_id w = find? (is_active_member case_id user_id) w.case_members

abbrev pub is_active_in_role : String → CaseRole → CaseMember → Bool
is_active_in_role case_id case_role m =
    m.case_id == case_id && m.case_role == case_role && is_null m.revoked_at

unfoldable pub count_active_members_by_role : String → CaseRole → World → ℕ
count_active_members_by_role case_id case_role w =
    length (select (is_active_in_role case_id case_role) w.case_members)

abbrev pub revoke : ℕ → CaseMember → CaseMember
revoke now m = record m { revoked_at = some now }

unfoldable pub revoke_case_member : String → String → Service (Unit {0})
revoke_case_member case_id user_id = do
  now ← gets (λ w. w.now)
  write (λ d. record d {
    case_members = update_where (is_active_member case_id user_id) (revoke now) d.case_members;
  })
