-- ===== src/Ledger.antt =====
-- The hash chain that the two ledgers share: apps/api/src/modules/audit/audit.service.js
-- (`verifyChain`) and apps/api/src/services/custody-ledger/index.js (`verifyChain`) run the same
-- loop over their rows, oldest first. What differs is the row and what its hash is computed from,
-- which is the interface `Chain`.
pub mod Links
pub mod Tamper
use secure_document_manageme.Prelude.{
  ℕ, Bool, true, false, not, ◌||◌, Option, none, some, List, [], ◌∷◌, ◌==◌, option_eq, list_eq,
  nat_eq, length, if◌then◌else◌,
}

-- Octets, and texts as their code points.
abbrev pub Bytes : Type 0
Bytes = List ℕ

-- `R` is a stored row, `C` what the row's hash is computed from, `I` the row's id.
pub record Chain (R C I : Type 0) : Type 0 where
  pub row_id : R → I
  pub previous_hash : R → Option Bytes
  pub event_hash : R → Bytes
  pub content : R → C
  pub compute_event_hash : C → Bytes

-- What `verifyChain` returns.
pub record ChainReport (I : Type 0) : Type 0 where
  pub intact : Bool
  pub broken_at_id : Option I
  pub total_events : ℕ

module _ {R C I : Type 0} (l : Chain R C I) where
  open l use {row_id, previous_hash, event_hash, content, compute_event_hash}

  -- The loop, from the `previousHash` that it has reached: the id of the first row that does not
  -- fit, if there is one.
  unfoldable pub verify_from : Option Bytes → List R → Option I
  verify_from prev [] = none
  verify_from prev (r ∷ rs) =
      if not (previous_hash r == prev) || not (event_hash r == compute_event_hash (content r))
      then some (row_id r)
      else verify_from (some (event_hash r)) rs

  abbrev pub report_of : Option I → ℕ → ChainReport I
  report_of none n = record { intact = true; broken_at_id = none; total_events = n }
  report_of (some i) n = record { intact = false; broken_at_id = some i; total_events = n }

  unfoldable pub verify_rows : List R → ChainReport I
  unfolding verify_from
  verify_rows rows = report_of (verify_from none rows) (length rows)
