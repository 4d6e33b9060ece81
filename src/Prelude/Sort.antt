-- ===== src/Prelude/Sort.antt =====
-- ORDER BY: an ascending insertion sort, and what it does with a row that comes after all others.
use Prim.Native.Nat.{suc}
use native.Mathlib.Omega.{arith}
use mathlib.Core.Path.{◌≡◌, refl}
use mathlib.Core.Bool.{Bool, true}
use mathlib.Core.Logic.{inl, inr}
use mathlib.Core.List.{List, [], ◌∷◌, ◌++◌, reverse, reverse-cons}
use secure_document_manageme.Prelude.Tests.{if◌then◌else◌, Bool-cases}
use secure_document_manageme.Prelude.Lists.{All, length}

module _ {ℓ} {A : Type ℓ} (before : A → A → Bool) where
  -- `before a b` tells that `a` comes strictly before `b`.
  abbrev pub insert_by : A → List A → List A
  insert_by x [] = x ∷ []
  insert_by x (y ∷ ys) = if before y x then y ∷ insert_by x ys else x ∷ y ∷ ys

  abbrev pub order_by : List A → List A
  order_by [] = []
  order_by (x ∷ xs) = insert_by x (order_by xs)

  length-insert_by : (x : A) (xs : List A) → length (insert_by x xs) ≡ suc (length xs)
  length-insert_by x [] = refl
  length-insert_by x (y ∷ ys) = elim (Bool-cases (before y x)) [
    | inl t ↦ rw t (omega (arith, length-insert_by x ys))
    | inr f ↦ rw f refl
  ]

  pub length-order_by : (xs : List A) → length (order_by xs) ≡ length xs
  length-order_by [] = refl
  length-order_by (x ∷ xs) = omega (arith, length-insert_by x (order_by xs), length-order_by xs)

  -- Newest first: each row comes after every row below it.
  abbrev pub IsDescending : List A → Type 0
  IsDescending [] = Unit
  IsDescending (x ∷ xs) = All (λ y. before y x ≡ true) xs × IsDescending xs

  pub insert_by-last :
      (x : A) (ys : List A) → All (λ y. before y x ≡ true) ys → insert_by x ys ≡ ys ++ x ∷ []
  insert_by-last x [] h = refl
  insert_by-last x (y ∷ ys) (b, h) = rw (b, insert_by-last x ys h)

  All-insert_by : (P : A → Type 0) (x : A) (ys : List A) → P x → All P ys → All P (insert_by x ys)
  All-insert_by P x [] p h = (p, tt)
  All-insert_by P x (y ∷ ys) p (q, h) = elim (Bool-cases (before y x)) [
    | inl t ↦ rw t (q, All-insert_by P x ys p h)
    | inr f ↦ rw f (p, (q, h))
  ]

  pub All-order_by : (P : A → Type 0) (xs : List A) → All P xs → All P (order_by xs)
  All-order_by P [] h = tt
  All-order_by P (x ∷ xs) (p, h) = All-insert_by P x (order_by xs) p (All-order_by P xs h)

  -- A row after all others goes to the end.
  pub order_by-newest :
      (x : A) (xs : List A)
      → All (λ y. before y x ≡ true) xs
      → order_by (x ∷ xs) ≡ order_by xs ++ x ∷ []
  order_by-newest x xs h = insert_by-last x (order_by xs) (All-order_by _ xs h)

  -- A table that is written newest first comes out oldest first.
  pub order_by-IsDescending : (xs : List A) → IsDescending xs → order_by xs ≡ reverse xs
  order_by-IsDescending [] h = refl
  order_by-IsDescending (x ∷ xs) (b, h) =
      rw (order_by-newest x xs b, order_by-IsDescending xs h, reverse-cons)
