-- ===== src/Users/Departments.antt =====
-- apps/api/src/modules/users/users.repository.js: departments and the tree that they form.
use secure_document_manageme.Prelude.{
  ℕ, zero, suc, String, Bool, true, Option, none, some, List, [], ◌∷◌, ◌==◌, string_eq, length,
  find?, any, if◌then◌else◌,
}
use secure_document_manageme.Db.{World, Department}
use secure_document_manageme.Service.{Service, Platform, ◌>>=◌, ◌>>◌, write, pure, new_uuid}

abbrev pub find_department : String → List Department → Option Department
find_department id rows = find? (λ d. d.id == id) rows

unfoldable pub find_department_by_id : String → World → Option Department
find_department_by_id id w = find_department id w.departments

abbrev find_parent : Option String → List Department → Option Department
find_parent none rows = none
find_parent (some id) rows = find_department id rows

-- The row that `d.id = a.parent_department_id` joins.
abbrev pub parent_of : List Department → Department → Option Department
parent_of rows d = find_parent d.parent_department_id rows

-- WITH RECURSIVE ancestors: a department, its parent, and so on, on fuel.
abbrev pub ancestors : ℕ → List Department → Option Department → List Department
ancestors zero rows start = []
ancestors (suc n) rows none = []
ancestors (suc n) rows (some d) = d ∷ ancestors n rows (parent_of rows d)

-- A chain of parents without a cycle is no longer than the table.
unfoldable pub is_department_within_subtree : String → String → World → Bool
unfolding find_department_by_id
is_department_within_subtree root target w =
    if root == target
    then true
    else any (λ d. d.id == root)
        (ancestors (length w.departments) w.departments (find_department_by_id target w))

module _ (p : Platform) where
  unfoldable pub insert_department :
      String → String → Option String → Option String → Service Department
  insert_department name code parent_department_id unit_type = do
    id ← new_uuid p
    let row : Department = record {
      id = id;
      name = name;
      code = code;
      parent_department_id = parent_department_id;
      unit_type = unit_type;
    }
    write (λ d. record d { departments = row ∷ d.departments })
    pure row
