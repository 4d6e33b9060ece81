-- ===== src/Prelude/Lists.antt =====
-- Lists: tests and queries that run, measured by native numbers, and predicates on all items.
use Prim.Native.Nat.{ℕ, suc}
use mathlib.Core.Path.{◌≡◌, refl, sym}
use mathlib.Core.Bool.{Bool, true, false, ◌||◌}
use mathlib.Core.Option.{Option, none, some}
use mathlib.Core.Logic.{inl, inr}
use mathlib.Core.List.{List, [], ◌∷◌, ◌++◌}
use native.Mathlib.Omega.{arith}
use secure_document_manageme.Prelude.Tests.{Equality, ◌==◌, if◌then◌else◌, Bool-cases}

module _ {ℓ} {A : Type ℓ} where
  abbrev pub length : List A → ℕ
  length [] = 0
  length (x ∷ xs) = suc (length xs)

  -- `rows[0]` of the rows that satisfy a WHERE clause.
  abbrev pub find? : (A → Bool) → List A → Option A
  find? p [] = none
  find? p (x ∷ xs) = if p x then some x else find? p xs

  -- The rows that satisfy a WHERE clause.
  abbrev pub select : (A → Bool) → List A → List A
  select p [] = []
  select p (x ∷ xs) = if p x then x ∷ select p xs else select p xs

  -- `UPDATE … SET … WHERE`: every row that satisfies the clause is rewritten.
  abbrev pub update_where : (A → Bool) → (A → A) → List A → List A
  update_where p f [] = []
  update_where p f (x ∷ xs) = (if p x then f x else x) ∷ update_where p f xs

  abbrev pub any : (A → Bool) → List A → Bool
  any p [] = false
  any p (x ∷ xs) = p x || any p xs

  abbrev pub get_last? : List A → Option A
  get_last? [] = none
  get_last? (x ∷ []) = some x
  get_last? (x ∷ y ∷ xs) = get_last? (y ∷ xs)

  abbrev pub head? : List A → Option A
  head? [] = none
  head? (x ∷ xs) = some x

  pub get_last?-concat : (xs : List A) (x : A) → get_last? (xs ++ x ∷ []) ≡ some x
  get_last?-concat [] x = refl
  get_last?-concat (y ∷ []) x = refl
  get_last?-concat (y ∷ z ∷ xs) x = get_last?-concat (z ∷ xs) x

  -- What an UPDATE by key does to the row that is found by that key.
  pub find?-update_where :
      (key : A → Bool) (f : A → A)
      → ((a : A) → key a ≡ true → key (f a) ≡ true)
      → (rows : List A) (row : A) → find? key rows ≡ some row
      → find? key (update_where key f rows) ≡ some (f row)
  find?-update_where key f keeps [] row h = cc
  find?-update_where key f keeps (a ∷ rows) row h = elim (Bool-cases (key a)) [
    | inl same ↦ let found : some a ≡ some row = rw same at h in rw (same, keeps a same) (cc)
    | inr other ↦ rw (other, other) (find?-update_where key f keeps rows row (rw other at h))
  ]

  -- What a row that is found by any test becomes in an UPDATE that does not change that test.
  pub find?-updated :
      (q key : A → Bool) (f : A → A)
      → ((a : A) → q (f a) ≡ q a)
      → (rows : List A) (row : A) → find? q rows ≡ some row
      → find? q (update_where key f rows) ≡ some (if key row then f row else row)
  find?-updated q key f keeps [] row h = cc
  find?-updated q key f keeps (a ∷ rows) row h = elim (Bool-cases (q a)) [
    | inl here ↦
        let found : some a ≡ some row = rw here at h in
        let same : a ≡ row = cc in
        elim (Bool-cases (key a)) [
          | inl hit ↦ rw hit (rw (keeps a, here) (rw (sym same) (rw hit refl)))
          | inr miss ↦ rw miss (rw here (rw (sym same) (rw miss refl)))
        ]
    | inr other ↦ elim (Bool-cases (key a)) [
      | inl hit ↦
          rw hit (rw (keeps a, other) (find?-updated q key f keeps rows row (rw other at h)))
      | inr miss ↦ rw miss (rw other (find?-updated q key f keeps rows row (rw other at h)))
    ]
  ]

  pub find?-not_updated :
      (q key : A → Bool) (f : A → A)
      → ((a : A) → q (f a) ≡ q a)
      → (rows : List A) → find? q rows ≡ none
      → find? q (update_where key f rows) ≡ none
  find?-not_updated q key f keeps [] h = refl
  find?-not_updated q key f keeps (a ∷ rows) h = elim (Bool-cases (q a)) [
    | inl here ↦ (let never : some a ≡ none = rw here at h in cc)
    | inr other ↦ elim (Bool-cases (key a)) [
      | inl hit ↦
          rw hit (rw (keeps a, other) (find?-not_updated q key f keeps rows (rw other at h)))
      | inr miss ↦ rw miss (rw other (find?-not_updated q key f keeps rows (rw other at h)))
    ]
  ]

  pub length-update_where :
      (p : A → Bool) (f : A → A) (xs : List A) → length (update_where p f xs) ≡ length xs
  length-update_where p f [] = refl
  length-update_where p f (x ∷ xs) = omega (arith, length-update_where p f xs)

  pub find?-sound : (p : A → Bool) (xs : List A) (a : A) → find? p xs ≡ some a → p a ≡ true
  find?-sound p [] a h = ground arith
  find?-sound p (x ∷ xs) a h = ground (arith, find?-sound p xs a)

module _ {ℓ} {A : Type ℓ} ⦃e : Equality A⦄ where
  -- `xs.includes(a)`
  abbrev pub contains : List A → A → Bool
  contains [] a = false
  contains (x ∷ xs) a = a == x || contains xs a

module _ {ℓ κ} {A : Type ℓ} (P : A → Type κ) where
  abbrev pub All : List A → Type κ
  All [] = Unit
  All (x ∷ xs) = P x × All xs

  pub All-concat : (xs : List A) (x : A) → All xs → P x → All (xs ++ x ∷ [])
  All-concat [] x _ p = (p, tt)
  All-concat (y ∷ xs) x (q, h) p = (q, All-concat xs x h p)

module _ {ℓ κ} {A : Type ℓ} (P : A → Type κ) where
  pub All-found : (q : A → Bool) (xs : List A) (a : A) → All P xs → find? q xs ≡ some a → P a
  All-found q [] a h e = cc
  All-found q (x ∷ xs) a (p, h) e = elim (Bool-cases (q x)) [
    | inl t ↦ let first : some x ≡ some a = rw t at e in let same : a ≡ x = cc in rw same p
    | inr f ↦ All-found q xs a h (rw f at e)
  ]

  pub All-select : (p : A → Bool) (xs : List A) → All P xs → All P (select p xs)
  All-select p [] h = tt
  All-select p (x ∷ xs) (q, h) = elim (Bool-cases (p x)) [
    | inl t ↦ rw t (q, All-select p xs h)
    | inr f ↦ rw f (All-select p xs h)
  ]

  pub All-last : (xs : List A) (a : A) → All P xs → get_last? xs ≡ some a → P a
  All-last [] a h e = cc
  All-last (x ∷ []) a (p, h) e = (let same : a ≡ x = cc in rw same p)
  All-last (x ∷ y ∷ xs) a (p, h) e = All-last (y ∷ xs) a h e

-- Every row that a SELECT keeps meets its condition.
pub All-selected {ℓ} :
    {A : Type ℓ} (p : A → Bool) (xs : List A) → All (λ a. p a ≡ true) (select p xs)
All-selected p [] = tt
All-selected p (x ∷ xs) = elim (Bool-cases (p x)) [
  | inl t ↦ rw t (t, All-selected p xs)
  | inr f ↦ rw f (All-selected p xs)
]

-- What holds of a table after an UPDATE.
module _ {ℓ κ μ} {A : Type ℓ} (P : A → Type κ) (Q : A → Type μ) (key : A → Bool) (f : A → A) where
  pub All-update_where :
      ((a : A) → P a → key a ≡ true → Q (f a))
      → ((a : A) → P a → key a ≡ false → Q a)
      → (xs : List A) → All P xs
      → All Q (update_where key f xs)
  All-update_where changed kept [] h = tt
  All-update_where changed kept (x ∷ xs) (q, h) = elim (Bool-cases (key x)) [
    | inl t ↦ rw t (changed x q t, All-update_where changed kept xs h)
    | inr u ↦ rw u (kept x q u, All-update_where changed kept xs h)
  ]
