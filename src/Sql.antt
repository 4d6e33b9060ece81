-- ===== src/Sql.antt =====
-- The forms of SQL statement that the repositories share.
use secure_document_manageme.Prelude.{
  ℕ, zero, suc, ◌-◌, ◌+◌, Option, none, some, List, [], ◌∷◌, ◌++◌, ◌==◌, Equality, length,
  if◌then◌else◌,
}
use secure_document_manageme.Ledger.{Bytes}
use secure_document_manageme.Db.{Counter}

-- INSERT … VALUES (key, 1) ON CONFLICT DO UPDATE SET last_sequence = last_sequence + 1
module _ {K : Type 0} ⦃e : Equality K⦄ where
  abbrev pub advance_counter : K → List (Counter K) → List (Counter K)
  advance_counter k [] = record { key = k; last_sequence = 1 } ∷ []
  advance_counter k (c ∷ cs) =
      if c.key == k
      then record c { last_sequence = c.last_sequence + 1 } ∷ cs
      else c ∷ advance_counter k cs

  abbrev pub last_sequence_of : K → List (Counter K) → ℕ
  last_sequence_of k [] = 0
  last_sequence_of k (c ∷ cs) = if c.key == k then c.last_sequence else last_sequence_of k cs

abbrev zeros : ℕ → Bytes
zeros zero = []
zeros (suc n) = b'0' ∷ zeros n

-- `String(n).padStart(width, '0')`
abbrev pub pad_start : ℕ → Bytes → Bytes
pad_start width s = zeros (width - length s) ++ s

-- COALESCE(new, old)
abbrev pub coalesce : {A : Type 0} → Option A → A → A
coalesce none old = old
coalesce (some new) old = new

abbrev pub coalesce_option : {A : Type 0} → Option A → Option A → Option A
coalesce_option none old = old
coalesce_option (some new) old = some new
