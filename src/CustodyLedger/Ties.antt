-- ===== src/CustodyLedger/Ties.antt =====
-- Two events of one item in the same millisecond are ordered by their random ids.
use secure_document_manageme.Prelude.{◌≡◌, true, false, [], ◌∷◌, arith, ==_refl, string_eq}
use secure_document_manageme.Canonical.{codes, key_lt}
use secure_document_manageme.Ledger.{verify_from, verify_rows}
use secure_document_manageme.Db.{World, CustodyRow}
use secure_document_manageme.Service.{Platform}
use secure_document_manageme.CustodyLedger.{
  CustodyEntry, rows_of, previous_hash, appended, verify_chain,
}
use secure_document_manageme.CustodyLedger.Growth.{Reports}

-- An item has one event, and a second one is recorded in the same millisecond under a UUID that
-- comes before the first one's: the check reports a broken chain, though no row was tampered with.
pub verify_chain_tie :
    (p : Platform) (e : CustodyEntry) (w : World) (r : CustodyRow)
    → rows_of e.evidence_id w.custody_events ≡ r ∷ []
    → r.created_at ≡ w.now
    → key_lt (codes (p.uuid w.drawn)) (codes r.id) ≡ true
    → key_lt (codes r.id) (codes (p.uuid w.drawn)) ≡ false
    → Reports (verify_chain p e.evidence_id (appended p e w)).0 false
unfolding verify_chain previous_hash verify_from verify_rows
verify_chain_tie p e w r one same lt ge = rw (==_refl e.evidence_id, one) (ground arith)
