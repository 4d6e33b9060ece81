-- ===== src/CustodyLedger/Growth.antt =====
-- The custody chain of an item under `appendEvent`.
use mathlib.Core.List.{reverse, reverse-cons}
use secure_document_manageme.Prelude.{
  String, ◌<◌, ◌≡◌, ◌≢◌, refl, ◌↔◌, Bool, true, List, [], ◌∷◌, All, arith, ==_iff, ==_refl,
  string_eq, get_last?, get_last?-concat,
}
use secure_document_manageme.Prelude.Sort.{order_by, IsDescending, order_by-IsDescending}
use secure_document_manageme.Ledger.{ChainReport}
use secure_document_manageme.Ledger.Links.{Chained, head_hash, intact_iff, Linked-reverse_iff}
use secure_document_manageme.Db.{World, CustodyRow}
use secure_document_manageme.Service.{Result, ok, err, Platform}
use secure_document_manageme.CustodyLedger.{
  CustodyEntry, rows_of, by_time, hash_of_last, custody_chain, previous_hash, new_row, appended,
  verify_chain,
}

abbrev pub Reports : Result (ChainReport String) → Bool → Type 0
Reports (ok r) b = r.intact ≡ b
Reports (err e) b = ⊥

-- Every event of the item was recorded before the clock's present reading.
abbrev pub IsPast : String → World → Type 0
IsPast e w = All (λ r. r.created_at < w.now) (rows_of e w.custody_events)

All-by_time :
    (x : CustodyRow) (xs : List CustodyRow)
    → All (λ r. r.created_at < x.created_at) xs
    → All (λ r. by_time r x ≡ true) xs
All-by_time x [] h = tt
All-by_time x (y ∷ xs) (p, h) = (ground arith, All-by_time x xs h)

module _ (p : Platform) where
  -- The item's rows lie in the order in which they were recorded, and form a chain.
  pub record IsIntact (e : String) (w : World) : Type 0 where
    pub ordered : IsDescending by_time (rows_of e w.custody_events)
    pub chained : Chained (custody_chain p) (rows_of e w.custody_events)

  last-reverse :
      (rows : List CustodyRow)
      → hash_of_last (get_last? (reverse rows)) ≡ head_hash (custody_chain p) rows
  last-reverse [] = refl
  last-reverse (r ∷ rows) = rw (reverse-cons, get_last?-concat)

  previous_hash-eq-head_hash :
      (e : String) (w : World)
      → IsIntact e w
      → previous_hash p e w ≡ head_hash (custody_chain p) (rows_of e w.custody_events)
  unfolding previous_hash
  previous_hash-eq-head_hash e w h =
      rw (order_by-IsDescending by_time (rows_of e w.custody_events) h.ordered)
        (last-reverse (rows_of e w.custody_events))

  -- An event that is recorded after all others of its item keeps the item's chain intact.
  pub appended-IsIntact_self :
      (e : CustodyEntry) (w : World)
      → IsPast e.evidence_id w
      → IsIntact e.evidence_id w
      → IsIntact e.evidence_id (appended p e w)
  appended-IsIntact_self e w past h =
      let rows = rows_of e.evidence_id w.custody_events in
      record {
        ordered = rw (==_refl e.evidence_id) (All-by_time (new_row p e w) rows past, h.ordered);
        chained =
            rw (==_refl e.evidence_id)
              (previous_hash-eq-head_hash e.evidence_id w h, refl, h.chained);
      }

  -- The chains of other items are not touched.
  pub rows_of-appended_ne :
      (e : CustodyEntry) (other : String) (w : World)
      → e.evidence_id ≢ other
      → rows_of other (appended p e w).custody_events ≡ rows_of other w.custody_events
  rows_of-appended_ne e other w ne = ground (arith, ==_iff e.evidence_id other)

  -- Where the rows of an item lie in the order in which they were recorded, the custody check
  -- reports an intact chain exactly when each row points to the row before it and carries its own
  -- hash.
  pub custody_verify_iff :
      (e : String) (w : World)
      → IsDescending by_time (rows_of e w.custody_events)
      → Reports (verify_chain p e w).0 true ↔ Chained (custody_chain p) (rows_of e w.custody_events)
  unfolding verify_chain
  custody_verify_iff e w h =
      let rows = rows_of e w.custody_events in
      let (a, b) = intact_iff (custody_chain p) (order_by by_time rows) in
      let (c, d) = Linked-reverse_iff (custody_chain p) rows in
      let same = order_by-IsDescending by_time rows h in
      (λ t. c (rw same at (a t)), λ t. b (rw same (d t)))
