-- ===== src/PermissionEngine/Layers.antt =====
-- What the three layers of `can` let through, and what none of them can.
use mathlib.Core.List.{Memᴰ}
use mathlib.Core.Path.{subst}
use secure_document_manageme.Prelude.{
  ℕ, ◌<◌, Option, none, ltb, ==_iff, String, ◌≡◌, refl, sym, ◌⊎◌, inl, inr, Bool, true, some, List,
  [], ◌∷◌, arith, string_eq, Bool-cases, Option-cases, any, contains, find?, All,
}
use secure_document_manageme.Roles.{CeilingTier, ceiling_tier_for}
use secure_document_manageme.Db.{
  World, CaseMember, Permission, permission_eq, resource_type_eq, ResourcePermission,
}
use secure_document_manageme.Service.{User}
use secure_document_manageme.PermissionEngine.{
  Resource, is_active_member, is_live_grant, is_null, unexpired, case_role_actions,
  role_action_ceiling, role_allows, resolve_owning_case_id, check_case_scope, check_resource_grant,
  can,
}

any-witness {ℓ} :
    {A : Type ℓ} (p : A → Bool) (xs : List A) → any p xs ≡ true → (a : A) × Memᴰ a xs × (p a ≡ true)
any-witness p [] h = cc
any-witness p (x ∷ xs) h = elim (Bool-cases (p x)) [
  | inl t ↦ (x, Memᴰ.head refl, t)
  | inr f ↦ let (a, m, e) = any-witness p xs (ground arith) in (a, Memᴰ.tail m, e)
]

find?-witness {ℓ} :
    {A : Type ℓ} (p : A → Bool) (xs : List A) (a : A)
    → find? p xs ≡ some a
    → Memᴰ a xs × (p a ≡ true)
find?-witness p [] a h = cc
find?-witness p (x ∷ xs) a h = elim (Bool-cases (p x)) [
  | inl t ↦ (Memᴰ.head (ground arith), ground arith)
  | inr f ↦ let (m, e) = find?-witness p xs a (ground arith) in (Memᴰ.tail m, e)
]

-- Layer 1: one of the user's roles has the action in its ceiling.
pub record HasCeiling (u : User) (action : Permission) : Type 0 where
  pub role : String
  pub held : Memᴰ role u.roles
  pub within : contains (role_action_ceiling role) action ≡ true

-- Layer 2: a membership of the owning case that is not revoked, in a case role with the action.
pub record HasScope (u : User) (action : Permission) (res : Resource) (w : World) : Type 0 where
  pub case_id : String
  pub owning : resolve_owning_case_id res.kind res.id w ≡ some case_id
  pub member : CaseMember
  pub listed : Memᴰ member w.case_members
  pub active : is_active_member case_id u.id member ≡ true
  pub of_case : member.case_id ≡ case_id
  pub of_user : member.user_id ≡ u.id
  pub kept : member.revoked_at ≡ none
  pub within : contains (case_role_actions member.case_role) action ≡ true

-- Layer 3: a grant of that action on that resource, neither revoked nor expired.
pub record HasGrant (u : User) (action : Permission) (res : Resource) (w : World) : Type 0 where
  pub grant : ResourcePermission
  pub listed : Memᴰ grant w.resource_permissions
  pub live : is_live_grant w.now u.id res action grant ≡ true
  pub on_kind : grant.resource_type ≡ res.kind
  pub on_resource : grant.resource_id ≡ res.id
  pub of_user : grant.user_id ≡ u.id
  pub of_action : grant.permission ≡ action
  pub kept : grant.revoked_at ≡ none
  pub in_time : (t : ℕ) → grant.expires_at ≡ some t → w.now < t

null_none : (t : Option ℕ) → is_null t ≡ true → t ≡ none
null_none none h = refl
null_none (some t) h = cc

later : (now : ℕ) (o : Option ℕ) (t : ℕ) → o ≡ some t → unexpired now o ≡ true → now < t
later now o t e h = let before : ltb now t ≡ true = rw e at h in ground arith

scope_sound :
    (u : User) (action : Permission) (res : Resource) (w : World) (c : String)
    → resolve_owning_case_id res.kind res.id w ≡ some c
    → check_case_scope u.id c action w ≡ true
    → HasScope u action res w
unfolding check_case_scope
scope_sound u action res w c owning h =
    elim (Option-cases (find? (is_active_member c u.id) w.case_members)) [
      | inl missing ↦ absurd (cc (rw missing at h))
      | inr (m, found) ↦
          let (listed, active) = find?-witness (is_active_member c u.id) w.case_members m found in
          record {
            case_id = c;
            owning = owning;
            member = m;
            listed = listed;
            active = active;
            of_case = ground (arith, ==_iff m.case_id c);
            of_user = ground (arith, ==_iff m.user_id u.id);
            kept = null_none m.revoked_at (ground arith);
            within = rw found at h;
          }
    ]

grant_sound :
    (u : User) (action : Permission) (res : Resource) (w : World)
    → check_resource_grant u.id res action w ≡ true
    → HasGrant u action res w
unfolding check_resource_grant
grant_sound u action res w h =
    let (g, listed, live) =
      any-witness (is_live_grant w.now u.id res action) w.resource_permissions h in
    record {
      grant = g;
      listed = listed;
      live = live;
      on_kind = ground (arith, ==_iff g.resource_type res.kind);
      on_resource = ground (arith, ==_iff g.resource_id res.id);
      of_user = ground (arith, ==_iff g.user_id u.id);
      of_action = ground (arith, ==_iff g.permission action);
      kept = null_none g.revoked_at (ground arith);
      in_time = λ t e. later w.now g.expires_at t e (ground arith);
    }

ceiling_sound :
    (u : User) (action : Permission) → role_allows u.roles action ≡ true → HasCeiling u action
unfolding role_allows
ceiling_sound u action h =
    let (r, held, within) =
      any-witness (λ role. contains (role_action_ceiling role) action) u.roles h in
    record { role = r; held = held; within = within }

layers_sound :
    (u : User) (action : Permission) (res : Resource) (w : World)
    → can (some u) action res w ≡ true
    → (role_allows u.roles action ≡ true)
      × (((c : String) × (resolve_owning_case_id res.kind res.id w ≡ some c)
            × (check_case_scope u.id c action w ≡ true))
          ⊎ (check_resource_grant u.id res action w ≡ true))
unfolding can
layers_sound u action res w h = elim (Option-cases (resolve_owning_case_id res.kind res.id w)) [
  | inl unowned ↦ ground arith
  | inr (c, owned) ↦ (
    ground arith,
    elim (Bool-cases (check_case_scope u.id c action w)) [
      | inl scope ↦ inl (c, owned, scope)
      | inr outside ↦ inr (ground arith)
    ],
  )
]

-- Whenever `can` allows an action, one of the user's roles has the action in its ceiling, and
-- besides the user has a membership of the owning case that is not revoked and whose case role has
-- the action, or a grant of that very action on that very resource that is neither revoked nor
-- expired.
pub can_sound :
    (u : User) (action : Permission) (res : Resource) (w : World)
    → can (some u) action res w ≡ true
    → HasCeiling u action × (HasScope u action res w ⊎ HasGrant u action res w)
can_sound u action res w h =
    let (ceiling, reason) = layers_sound u action res w h in
    (
      ceiling_sound u action ceiling,
      elim reason [
        | inl (c, owning, scope) ↦ inl (scope_sound u action res w c owning scope)
        | inr grant ↦ inr (grant_sound u action res w grant)
      ],
    )

-- The actions that a role of the oversight tier has.
abbrev pub IsReadMostly : Permission → Type 0
IsReadMostly action =
    (action ≡ Permission.view)
    ⊎ (action ≡ Permission.verify)
    ⊎ (action ≡ Permission.download)
    ⊎ (action ≡ Permission.comment)

oversight_ceiling :
    (role : String) (action : Permission)
    → ceiling_tier_for role ≡ some CeilingTier.oversight
    → contains (role_action_ceiling role) action ≡ true
    → IsReadMostly action
unfolding role_action_ceiling
oversight_ceiling role action e h = ground arith

All-Memᴰ {ℓ κ} : {A : Type ℓ} (P : A → Type κ) (xs : List A) (a : A) → All P xs → Memᴰ a xs → P a
All-Memᴰ P [] a h m = elim m [ ]
All-Memᴰ P (x ∷ xs) a (q, h) (Memᴰ.head e) = subst P (sym e) q
All-Memᴰ P (x ∷ xs) a (q, h) (Memᴰ.tail m) = All-Memᴰ P xs a h m

-- A user all of whose roles are of the oversight tier is never allowed anything but to view,
-- verify, download and comment: no membership and no grant, in any state, lets them edit, upload,
-- share, sign, delete or archive.
pub can-IsReadMostly :
    (u : User) (action : Permission) (res : Resource) (w : World)
    → All (λ role. ceiling_tier_for role ≡ some CeilingTier.oversight) u.roles
    → can (some u) action res w ≡ true
    → IsReadMostly action
can-IsReadMostly u action res w all h =
    let c = (can_sound u action res w h).0 in
    oversight_ceiling c.role action (All-Memᴰ _ u.roles c.role all c.held) c.within
