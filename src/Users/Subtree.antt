-- ===== src/Users/Subtree.antt =====
-- The walk up the tree of departments: enough fuel, and what it finds.
use secure_document_manageme.Prelude.{
  ℕ, zero, suc, ◌+◌, ◌<◌, String, ◌≡◌, refl, ap, ◌↔◌, inl, inr, true, false, none, some, List, [],
  ◌∷◌, arith, ◌==◌, ==_iff, ==_refl, string_eq, Bool-cases, Option-cases, length, any, All,
  All-found, find?-sound, sym, ◌∙◌,
}
use secure_document_manageme.Db.{World, Department}
use secure_document_manageme.Users.Departments.{
  find_department, find_department_by_id, parent_of, ancestors, is_department_within_subtree,
}

-- Parents stand at smaller heights, all of them below the number of departments.
pub record IsForest (rows : List Department) (height : Department → ℕ) : Type 0 where
  pub rises : All (λ d. (up : Department) → parent_of rows d ≡ some up → height up < height d) rows
  pub bounded : All (λ d. height d < length rows) rows

-- `root` is the department that `d` names or lies above it.
pub data IsAbove (rows : List Department) (root : String) : Department → Type 0 where
  here : (d : Department) → d.id ≡ root → IsAbove rows root d
  above :
      (d up : Department) → parent_of rows d ≡ some up → IsAbove rows root up → IsAbove rows root d

no_parent : (n : ℕ) (rows : List Department) → ancestors n rows none ≡ []
no_parent zero rows = refl
no_parent (suc n) rows = refl

-- A department of the table.
abbrev IsListed : List Department → Department → Type 0
IsListed rows d = (id : String) × (find_department id rows ≡ some d)

parent-IsListed :
    (rows : List Department) (d up : Department) → parent_of rows d ≡ some up → IsListed rows up
parent-IsListed rows d up e = elim (Option-cases d.parent_department_id) [
  | inl top ↦ (let never : none ≡ some up = rw top at e in cc)
  | inr (id, named) ↦ (id, rw named at e)
]

module _ (rows : List Department) (height : Department → ℕ) (forest : IsForest rows height) where
  rises : (d up : Department) → IsListed rows d → parent_of rows d ≡ some up → height up < height d
  rises d up (id, found) e =
      All-found (λ d. (up : Department) → parent_of rows d ≡ some up → height up < height d)
        (λ x. x.id == id) rows d forest.rises found up e

  -- More fuel than the height changes nothing.
  fuel_enough :
      (n m : ℕ) (d : Department)
      → IsListed rows d
      → height d < n
      → height d < m
      → ancestors n rows (some d) ≡ ancestors m rows (some d)
  fuel_enough zero m d l h k = absurd (omega (arith, h))
  fuel_enough (suc n) zero d l h k = absurd (omega (arith, k))
  fuel_enough (suc n) (suc m) d l h k = elim (Option-cases (parent_of rows d)) [
    | inl top ↦ rw top (rw (no_parent n rows, no_parent m rows) refl)
    | inr (up, parent) ↦
        let lower : height up < height d = rises d up l parent in
        rw parent (
          ap (λ rest. d ∷ rest)
            (fuel_enough n m up (parent-IsListed rows d up parent) (omega (arith, lower, h))
              (omega (arith, lower, k))))
  ]

  IsAbove-found :
      (root : String) (n : ℕ) (d : Department)
      → any (λ x. x.id == root) (ancestors n rows (some d)) ≡ true
      → IsAbove rows root d
  IsAbove-found root zero d e = cc
  IsAbove-found root (suc n) d e = elim (Bool-cases (d.id == root)) [
    | inl hit ↦ here d ((==_iff d.id root).0 hit)
    | inr miss ↦ elim (Option-cases (parent_of rows d)) [
      | inl top ↦ (let never : false ≡ true = rw (miss, top, no_parent n rows) at e in cc)
      | inr (up, parent) ↦ above d up parent (IsAbove-found root n up (rw (miss, parent) at e))
    ]
  ]

  found-IsAbove :
      (root : String) (n : ℕ) (d : Department)
      → IsListed rows d
      → height d < n
      → IsAbove rows root d
      → any (λ x. x.id == root) (ancestors n rows (some d)) ≡ true
  found-IsAbove root zero d l h a = absurd (omega (arith, h))
  found-IsAbove root (suc n) d l h (here _ same) = rw (same, ==_refl root) refl
  found-IsAbove root (suc n) d l h (above _ up parent a) =
      let lower : height up < height d = rises d up l parent in
      elim (Bool-cases (d.id == root)) [
        | inl hit ↦ rw hit refl
        | inr miss ↦ rw miss (
            rw parent (
              found-IsAbove root n up (parent-IsListed rows d up parent) (omega (arith, lower, h))
                a))
      ]

-- In a table of departments whose parents form no cycle, so that a height below their number falls along
-- every step up: the walk gives the same ancestors on any larger fuel, that is, it has come to its
-- end.
pub ancestors_end :
    (rows : List Department) (height : Department → ℕ)
    → IsForest rows height
    → (id : String) (d : Department) → find_department id rows ≡ some d
    → (extra : ℕ)
    → ancestors (length rows + extra) rows (some d) ≡ ancestors (length rows) rows (some d)
ancestors_end rows height forest id d found extra =
    let low : height d < length rows =
      All-found (λ d. height d < length rows) (λ x. x.id == id) rows d forest.bounded found in
    fuel_enough rows height forest (length rows + extra) (length rows) d (id, found)
      (omega (arith, low)) low

-- In such a table, `isDepartmentWithinSubtree` accepts a department that exists exactly when it is the
-- root or the root lies somewhere above it.
pub within_subtree_iff :
    (w : World) (height : Department → ℕ)
    → IsForest w.departments height
    → (root target : String) (d : Department) → find_department_by_id target w ≡ some d
    → (is_department_within_subtree root target w ≡ true) ↔ IsAbove w.departments root d
unfolding is_department_within_subtree find_department_by_id
within_subtree_iff w height forest root target d found =
    let low : height d < length w.departments =
      All-found (λ d. height d < length w.departments) (λ x. x.id == target) w.departments d
        forest.bounded found in
    let own : (d.id == target) ≡ true = find?-sound (λ x. x.id == target) w.departments d found in
    elim (Bool-cases (root == target)) [
      | inl same ↦ (
        λ e. here d ((==_iff d.id target).0 own ∙ sym ((==_iff root target).0 same)),
        λ a. rw same refl,
      )
      | inr apart ↦ (
        λ e.
            IsAbove-found w.departments height forest root (length w.departments) d
              (rw (apart, found) at e),
        λ a.
            rw (apart, found)
              (found-IsAbove w.departments height forest root (length w.departments) d
                (target, found) low a),
      )
    ]
