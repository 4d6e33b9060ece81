-- ===== src/Ledger/Tamper.antt =====
-- What an intact chain says about the past: the last hash fixes the whole history, as far as the
-- hash has no collisions; what it does not say: rows may be missing at the end.
use mathlib.Core.List.{Memᴰ}
use secure_document_manageme.Prelude.{◌≡◌, refl, ap, ◌∙◌, sym, Option, List, [], ◌∷◌, map}
use secure_document_manageme.Ledger.{Bytes, Chain}
use secure_document_manageme.Ledger.Links.{Chained, head_hash}

module _ {R C I : Type 0} (l : Chain R C I) where
  open l use {previous_hash, event_hash, content, compute_event_hash}

  module _ (previous_in : C → Option Bytes)
      (hashed : (r : R) → previous_in (content r) ≡ previous_hash r) where
    -- `collision_free` asks only about rows of the two tables.
    pub Chained-unique :
        (rows others : List R)
        → ((r s : R)
            → Memᴰ r rows
            → Memᴰ s others
            → compute_event_hash (content r) ≡ compute_event_hash (content s)
            → content r ≡ content s)
        → Chained l rows
        → Chained l others
        → head_hash l rows ≡ head_hash l others
        → map content rows ≡ map content others
    Chained-unique [] [] free h k e = refl
    Chained-unique [] (s ∷ others) free h k e = cc
    Chained-unique (r ∷ rows) [] free h k e = cc
    Chained-unique (r ∷ rows) (s ∷ others) free (p, q, h) (p', q', k) e =
        let same : content r ≡ content s = free r s (Memᴰ.head refl) (Memᴰ.head refl) (cc) in
        let back : head_hash l rows ≡ head_hash l others =
          sym p ∙ sym (hashed r) ∙ ap previous_in same ∙ hashed s ∙ p' in
        let rest =
          Chained-unique rows others (λ a b m n. free a b (Memᴰ.tail m) (Memᴰ.tail n)) h k back in
        cc
