-- ===== src/Canonical.antt =====
-- Canonical JSON: `sortKeysDeep` of apps/api/src/services/ledger/index.js (repeated word for word in
-- apps/api/src/services/custody-ledger/index.js), and the parts of JavaScript's standard library
-- that the hash input goes through: JSON.stringify and Date.prototype.toISOString. A text is the
-- list of its code points; numbers are non-negative integers, the only ones the program logs. Keys
-- are compared by code point; keys that look like array indices, which JavaScript would move to
-- the front of an object, do not occur in the program.
pub mod Iso
pub mod Print
use Prim.Native.Char.{code}
use Prim.Native.String
use secure_document_manageme.Prelude.{
  ℕ, String, Bool, true, false, List, [], ◌∷◌, ltb, nat_beq, if◌then◌else◌,
}

mutual
  pub data Json : Type 0 where
    null : Json
    bool : Bool → Json
    num : ℕ → Json
    str : List ℕ → Json
    arr : Items → Json
    obj : Fields → Json

  pub data Items : Type 0 where
    nil : Items
    cons : Json → Items → Items

  pub data Fields : Type 0 where
    end : Fields
    field : List ℕ → Json → Fields → Fields

-- The code points of a text.
abbrev pub codes : String → List ℕ
codes String.[] = []
codes (String.◌∷◌ c s) = code c ∷ codes s

abbrev pub text : String → Json
text s = str (codes s)

-- `a < b` on keys, as Array.prototype.sort compares them.
abbrev pub key_lt : List ℕ → List ℕ → Bool
key_lt [] [] = false
key_lt [] (b ∷ bs) = true
key_lt (a ∷ xs) [] = false
key_lt (a ∷ xs) (b ∷ ys) = if nat_beq a b then key_lt xs ys else ltb a b

abbrev pub insert_field : List ℕ → Json → Fields → Fields
insert_field k v end = field k v end
insert_field k v (field j w fs) =
    if key_lt j k then field j w (insert_field k v fs) else field k v (field j w fs)

unfoldable mutual
  pub sort_keys_deep : Json → Json
  sort_keys_deep null = null
  sort_keys_deep (bool b) = bool b
  sort_keys_deep (num n) = num n
  sort_keys_deep (str s) = str s
  sort_keys_deep (arr xs) = arr (sort_items xs)
  sort_keys_deep (obj fs) = obj (sort_fields fs)

  pub sort_items : Items → Items
  sort_items nil = nil
  sort_items (cons x xs) = cons (sort_keys_deep x) (sort_items xs)

  pub sort_fields : Fields → Fields
  sort_fields end = end
  sort_fields (field k v fs) = insert_field k (sort_keys_deep v) (sort_fields fs)
