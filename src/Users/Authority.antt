-- ===== src/Users/Authority.antt =====
-- Who may create which account.
use secure_document_manageme.Prelude.{
  String, ◌≡◌, refl, inl, inr, true, Option, none, some, ◌==◌, ==_iff, string_eq, option_eq, nat_eq,
  Bool-cases, false, Option-cases, contains,
}
use secure_document_manageme.Db.{World, Account, Department}
use secure_document_manageme.Service.{User, Result, ok, err}
use secure_document_manageme.Roles.{Side, ParsedRole, parse_role}
use secure_document_manageme.Entries.{or_null}
use secure_document_manageme.Users.Repository.{find_user_by_id}
use secure_document_manageme.Users.Departments.{find_department_by_id}
use secure_document_manageme.Users.Invitations.{
  Authority, creatable_by, own_department, child_department, authority_for,
  assert_creation_authority,
}

-- The unit that an account is created in: the creator's own for an officer; for an administrator a
-- unit of the right type directly below it, which exists or is to be created.
pub data IsPlaced (own : String) (level : String) (w : World) : Side → Authority → Type 0 where
  own_unit :
      IsPlaced own level w Side.officer
        (record { existing_department_id = some own; new_department = none })
  child_unit :
      (id : String) (d : Department)
      → find_department_by_id id w ≡ some d
      → d.parent_department_id ≡ some own
      → d.unit_type ≡ some level
      → IsPlaced own level w Side.admin
          (record { existing_department_id = some id; new_department = none })
  new_unit :
      (name : String)
      → IsPlaced own level w Side.admin (record {
        existing_department_id = none;
        new_department =
            some (record { name = name; unit_type = level; parent_department_id = own });
      })

-- Why a unit that was asked for by its id is not taken.
pub data IsMisplaced (own level : String) (wanted : Option String) (w : World) : Type 0 where
  not_given : or_null wanted ≡ none → IsMisplaced own level wanted w
  not_found :
      (id : String)
      → or_null wanted ≡ some id
      → find_department_by_id id w ≡ none
      → IsMisplaced own level wanted w
  not_below :
      (id : String) (d : Department)
      → or_null wanted ≡ some id
      → find_department_by_id id w ≡ some d
      → (d.parent_department_id == some own) ≡ false
      → IsMisplaced own level wanted w
  not_alike :
      (id : String) (d : Department)
      → or_null wanted ≡ some id
      → find_department_by_id id w ≡ some d
      → (d.unit_type == some level) ≡ false
      → IsMisplaced own level wanted w

module _ (actor : User) (target : String) where
  -- What an authority that was granted rests on.
  pub record Authorised (w : World) (a : Authority) : Type 0 where
    pub listed : contains (creatable_by actor) target ≡ true
    pub row : Account
    pub found : find_user_by_id actor.id w ≡ some row
    pub own : String
    pub stationed : row.department_id ≡ some own
    pub role : ParsedRole
    pub parsed : parse_role target ≡ some role
    pub placed : IsPlaced own role.level w role.side a

  -- Why no authority is granted.
  pub data IsBarred (wanted name : Option String) (w : World) : Type 0 where
    not_creatable : contains (creatable_by actor) target ≡ false → IsBarred wanted name w
    no_account : find_user_by_id actor.id w ≡ none → IsBarred wanted name w
    no_station :
        (row : Account)
        → find_user_by_id actor.id w ≡ some row
        → or_null row.department_id ≡ none
        → IsBarred wanted name w
    no_role : parse_role target ≡ none → IsBarred wanted name w
    misplaced :
        (own : String) (role : ParsedRole)
        → parse_role target ≡ some role
        → role.side ≡ Side.admin
        → or_null name ≡ none
        → IsMisplaced own role.level wanted w
        → IsBarred wanted name w

  abbrev pub AuthorityOutcome :
      Option String → Option String → World → Result Authority × World → Type 0
  AuthorityOutcome wanted name w (ok a, w') = Authorised w a × (w' ≡ w)
  AuthorityOutcome wanted name w (err e, w') = (w' ≡ w) × IsBarred wanted name w

  -- How the choice of the unit ends.
  abbrev PlaceOutcome :
      String
      → String
      → Option String
      → Option String
      → Side
      → World
      → Result Authority × World
      → Type 0
  PlaceOutcome own level wanted name side w (ok a, w') = IsPlaced own level w side a × (w' ≡ w)
  PlaceOutcome own level wanted name side w (err e, w') =
      (w' ≡ w) × (side ≡ Side.admin) × (name ≡ none) × IsMisplaced own level wanted w

  child-PlaceOutcome :
      (own level : String) (wanted name : Option String) (w : World)
      → PlaceOutcome own level wanted name Side.admin w (child_department own level wanted name w)
  unfolding child_department
  child-PlaceOutcome own level wanted (some name) w = (new_unit name, refl)
  child-PlaceOutcome own level wanted none w = elim (Option-cases (or_null wanted)) [
    | inl unset ↦ rw unset (refl, refl, refl, not_given unset)
    | inr (id, given) ↦ elim (Option-cases (find_department_by_id id w)) [
      | inl gone ↦ rw given (rw gone (refl, refl, refl, not_found id given gone))
      | inr (d, found) ↦ elim (Bool-cases (d.parent_department_id == some own)) [
        | inr elsewhere ↦
            rw given
              (rw found (rw elsewhere (refl, refl, refl, not_below id d given found elsewhere)))
        | inl below ↦ elim (Bool-cases (d.unit_type == some level)) [
          | inr unlike ↦ rw given (
              rw found (rw below (rw unlike (refl, refl, refl, not_alike id d given found unlike))))
          | inl alike ↦ rw given (
              rw found (
                rw below (
                  rw alike (
                    child_unit id d found ((==_iff d.parent_department_id (some own)).0 below)
                        ((==_iff d.unit_type (some level)).0 alike),
                    refl,
                  ))))
        ]
      ]
    ]
  ]

  place-PlaceOutcome :
      (own : String) (wanted name : Option String) (level : String) (side : Side) (w : World)
      → PlaceOutcome own level wanted
          (or_null name)
          side
          w
          (authority_for own wanted name level side w)
  unfolding authority_for
  place-PlaceOutcome own wanted name level Side.officer w = (own_unit, refl)
  place-PlaceOutcome own wanted name level Side.admin w =
      child-PlaceOutcome own level wanted (or_null name) w

  or_null-some : (o : Option String) (s : String) → or_null o ≡ some s → o ≡ some s
  or_null-some none s h = cc
  or_null-some (some t) s h = elim (Bool-cases (t == "")) [
    | inl empty ↦ (let never : none ≡ some s = rw empty at h in cc)
    | inr full ↦ rw full at h
  ]

  granted :
      (wanted name : Option String) (w : World) (row : Account) (own : String) (role : ParsedRole)
      (o : Result Authority × World)
      → contains (creatable_by actor) target ≡ true
      → find_user_by_id actor.id w ≡ some row
      → row.department_id ≡ some own
      → parse_role target ≡ some role
      → PlaceOutcome own role.level wanted (or_null name) role.side w o
      → AuthorityOutcome wanted name w o
  granted wanted name w row own role (err e, w') listed found stationed parsed
        (same, admin, unnamed, why) =
      (same, misplaced own role parsed admin unnamed why)
  granted wanted name w row own role (ok a, w') listed found stationed parsed (placed, same) = (
    record {
      listed = listed;
      row = row;
      found = found;
      own = own;
      stationed = stationed;
      role = role;
      parsed = parsed;
      placed = placed;
    },
    same,
  )

  -- The check of an invitation changes nothing; it grants an authority only to create a role that the
  -- creator's own role lists, for a creator who is stationed in a unit, and only in that unit for an
  -- officer's role, or, for an administrator's, in a unit of the role's type directly below it, be
  -- it an existing one or one to be created. It fails only where one of these conditions does.
  pub assert_creation_authority-AuthorityOutcome :
      (wanted name : Option String) (w : World)
      → AuthorityOutcome wanted name w (assert_creation_authority actor target wanted name w)
  unfolding assert_creation_authority own_department
  assert_creation_authority-AuthorityOutcome wanted name w =
      elim (Bool-cases (contains (creatable_by actor) target)) [
        | inr barred ↦ rw barred (refl, not_creatable barred)
        | inl listed ↦ elim (Option-cases (find_user_by_id actor.id w)) [
          | inl gone ↦ rw listed (rw gone (refl, no_account gone))
          | inr (row, found) ↦ elim (Option-cases (or_null row.department_id)) [
            | inl unset ↦ rw listed (rw found (rw unset (refl, no_station row found unset)))
            | inr (own, given) ↦ elim (Option-cases (parse_role target)) [
              | inl unknown ↦ rw listed (rw found (rw given (rw unknown (refl, no_role unknown))))
              | inr (role, parsed) ↦ rw listed (
                  rw found (
                    rw given (
                      rw parsed (
                        granted wanted name w row own role _ listed found
                          (or_null-some row.department_id own given) parsed
                          (place-PlaceOutcome own wanted name role.level role.side w)))))
            ]
          ]
        ]
      ]
