-- ===== src/Ledger/Links.antt =====
-- The verification loop against the chain as a predicate, and the chain under an append.
use mathlib.Core.List.{reverse, reverse-cons}
use secure_document_manageme.Prelude.{
  ◌≡◌, refl, sym, ◌∙◌, ◌↔◌, true, Option, none, some, List, [], ◌∷◌, ◌++◌, arith, ==_iff, option_eq,
  list_eq, nat_eq,
}
use secure_document_manageme.Ledger.{Bytes, Chain, verify_from, verify_rows}

module _ {R C I : Type 0} (l : Chain R C I) where
  open l use {previous_hash, event_hash, content, compute_event_hash}

  -- Oldest first, from a given previous hash: each row points to the hash before it, and its own
  -- hash is that of its content.
  abbrev pub Linked : Option Bytes → List R → Type 0
  Linked prev [] = Unit
  Linked prev (r ∷ rs) =
      (previous_hash r ≡ prev)
      × (event_hash r ≡ compute_event_hash (content r))
      × Linked (some (event_hash r)) rs

  abbrev pub end_hash : Option Bytes → List R → Option Bytes
  end_hash prev [] = prev
  end_hash prev (r ∷ rs) = end_hash (some (event_hash r)) rs

  -- The same, newest first, as a table grows.
  abbrev pub head_hash : List R → Option Bytes
  head_hash [] = none
  head_hash (r ∷ rs) = some (event_hash r)

  abbrev pub Chained : List R → Type 0
  Chained [] = Unit
  Chained (r ∷ rs) =
      (previous_hash r ≡ head_hash rs)
      × (event_hash r ≡ compute_event_hash (content r))
      × Chained rs

  pub verify_from-eq-none_iff :
      (prev : Option Bytes) (rows : List R) → (verify_from l prev rows ≡ none) ↔ Linked prev rows
  unfolding verify_from
  verify_from-eq-none_iff prev [] = (λ _. tt, λ _. refl)
  verify_from-eq-none_iff prev (r ∷ rs) = ground (
    arith,
    ==_iff (previous_hash r) prev,
    ==_iff (event_hash r) (compute_event_hash (content r)),
    verify_from-eq-none_iff (some (event_hash r)) rs,
  )

  pub Linked-concat :
      (prev : Option Bytes) (rows : List R) (r : R)
      → Linked prev rows
      → previous_hash r ≡ end_hash prev rows
      → event_hash r ≡ compute_event_hash (content r)
      → Linked prev (rows ++ r ∷ [])
  Linked-concat prev [] r h p q = (p, q, tt)
  Linked-concat prev (s ∷ rows) r (a, b, h) p q =
      (a, b, Linked-concat (some (event_hash s)) rows r h p q)

  pub Linked-concat_inv :
      (prev : Option Bytes) (rows : List R) (r : R)
      → Linked prev (rows ++ r ∷ [])
      → Linked prev rows
        × (previous_hash r ≡ end_hash prev rows)
        × (event_hash r ≡ compute_event_hash (content r))
  Linked-concat_inv prev [] r (p, q, _) = (tt, p, q)
  Linked-concat_inv prev (s ∷ rows) r (a, b, h) =
      let (k, p, q) = Linked-concat_inv (some (event_hash s)) rows r h in ((a, b, k), p, q)

  end_hash-concat :
      (prev : Option Bytes) (rows : List R) (r : R)
      → end_hash prev (rows ++ r ∷ []) ≡ some (event_hash r)
  end_hash-concat prev [] r = refl
  end_hash-concat prev (s ∷ rows) r = end_hash-concat (some (event_hash s)) rows r

  pub end_hash-reverse : (rows : List R) → end_hash none (reverse rows) ≡ head_hash rows
  end_hash-reverse [] = refl
  end_hash-reverse (r ∷ rows) = rw reverse-cons (end_hash-concat none (reverse rows) r)

  pub Linked-reverse_iff : (rows : List R) → Linked none (reverse rows) ↔ Chained rows
  Linked-reverse_iff [] = (λ _. tt, λ _. tt)
  Linked-reverse_iff (r ∷ rows) =
      let (to, from) = Linked-reverse_iff rows in
      let e = end_hash-reverse rows in
      rw reverse-cons (
        λ h. let (k, p, q) = Linked-concat_inv none (reverse rows) r h in (p ∙ e, q, to k),
        λ h. Linked-concat none (reverse rows) r (from h.2) (h.0 ∙ sym e) h.1,
      )

  -- The loop finds no fault in the rows of a table, oldest first, exactly when every row points
  -- to the hash of the row before it (the first row to none) and carries its own content's hash.
  pub verify_from-reverse_iff :
      (rows : List R) → (verify_from l none (reverse rows) ≡ none) ↔ Chained rows
  verify_from-reverse_iff rows =
      let (a, b) = verify_from-eq-none_iff none (reverse rows) in
      let (c, d) = Linked-reverse_iff rows in (λ h. c (a h), λ h. b (d h))

  pub intact_iff : (rows : List R) → ((verify_rows l rows).intact ≡ true) ↔ Linked none rows
  unfolding verify_rows
  intact_iff rows = ground (arith, verify_from-eq-none_iff none rows)
