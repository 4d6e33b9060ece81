-- ===== src/AuditLedger/Verify.antt =====
-- What `verifyChain` of apps/api/src/modules/audit/audit.service.js establishes of the audit table.
use mathlib.Core.List.{Memᴰ}
use secure_document_manageme.Prelude.{ℕ, ◌≡◌, refl, ◌↔◌, Bool, true, List, [], ◌∷◌, ◌++◌, map}
use secure_document_manageme.Prelude.Sort.{order_by, IsDescending, order_by-IsDescending}
use secure_document_manageme.Ledger.{ChainReport}
use secure_document_manageme.Ledger.Links.{Chained, head_hash, intact_iff, Linked-reverse_iff}
use secure_document_manageme.Ledger.Tamper.{Chained-unique}
use secure_document_manageme.Db.{World, AuditRow}
use secure_document_manageme.Service.{Result, ok, err, Platform}
use secure_document_manageme.AuditLedger.{by_id, audit_chain, compute_event_hash, verify_chain}

-- The `intact` field of what the call returns.
abbrev pub Reports : Result (ChainReport ℕ) → Bool → Type 0
Reports (ok r) b = r.intact ≡ b
Reports (err e) b = ⊥

module _ (p : Platform) where
  abbrev pub IsOrdered : World → Type 0
  IsOrdered w = IsDescending by_id w.audit_events

  -- On a table whose ids fall from the newest row to the oldest, `verifyChain` reports an intact
  -- chain exactly when every row points to the hash of the row before it, the first one to none,
  -- and carries the hash of its own content.
  pub verify_chain_iff :
      (w : World)
      → IsOrdered w
      → Reports (verify_chain p w).0 true ↔ Chained (audit_chain p) w.audit_events
  unfolding verify_chain
  verify_chain_iff w h =
      let (a, b) = intact_iff (audit_chain p) (order_by by_id w.audit_events) in
      let (c, d) = Linked-reverse_iff (audit_chain p) w.audit_events in
      let e = order_by-IsDescending by_id w.audit_events h in
      (λ t. c (rw e at (a t)), λ t. b (rw e (d t)))

  -- Two ordered tables that both verify and end in the same event hash hold the same events, from
  -- the first to the last, unless two different events of theirs have the same hash.
  pub verify_chain_unique :
      (w w' : World)
      → ((r s : AuditRow)
          → Memᴰ r w.audit_events
          → Memᴰ s w'.audit_events
          → compute_event_hash p r.event ≡ compute_event_hash p s.event
          → r.event ≡ s.event)
      → IsOrdered w
      → IsOrdered w'
      → Reports (verify_chain p w).0 true
      → Reports (verify_chain p w').0 true
      → head_hash (audit_chain p) w.audit_events ≡ head_hash (audit_chain p) w'.audit_events
      → map (λ r. r.event) w.audit_events ≡ map (λ r. r.event) w'.audit_events
  verify_chain_unique w w' free o o' v v' e =
      Chained-unique (audit_chain p) (λ c. c.previous_hash) (λ r. refl) w.audit_events
        w'.audit_events free ((verify_chain_iff w o).0 v) ((verify_chain_iff w' o').0 v') e

  Chained-drop :
      (newer older : List AuditRow)
      → Chained (audit_chain p) (newer ++ older)
      → Chained (audit_chain p) older
  Chained-drop [] older h = h
  Chained-drop (r ∷ newer) older (a, b, h) = Chained-drop newer older h

  IsDescending-drop :
      (newer older : List AuditRow) → IsDescending by_id (newer ++ older) → IsDescending by_id older
  IsDescending-drop [] older h = h
  IsDescending-drop (r ∷ newer) older (a, h) = IsDescending-drop newer older h

  -- A table from which the newest rows have been deleted verifies as before: `verifyChain` alone
  -- does not notice a truncated ledger.
  pub verify_chain_truncated :
      (w : World) (newer older : List AuditRow)
      → IsOrdered w
      → w.audit_events ≡ newer ++ older
      → Reports (verify_chain p w).0 true
      → Reports (verify_chain p (record w { db = record (w.db) { audit_events = older } })).0 true
  verify_chain_truncated w newer older o e v =
      let cut : World = record w { db = record (w.db) { audit_events = older } } in
      (verify_chain_iff cut (IsDescending-drop newer older (rw e at o))).1
        (Chained-drop newer older (rw e at ((verify_chain_iff w o).0 v)))
