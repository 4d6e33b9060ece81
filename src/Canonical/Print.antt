-- ===== src/Canonical/Print.antt =====
-- JSON.stringify with no indentation, as code points.
use secure_document_manageme.Prelude.{
  ℕ, zero, suc, ◌+◌, ◌/◌, ◌%◌, true, false, List, [], ◌∷◌, ◌++◌, ltb, nat_beq, if◌then◌else◌,
}
use secure_document_manageme.Canonical.{
  Json, null, bool, num, str, arr, obj, Items, nil, cons, Fields, end, field, codes,
}

-- Decimal digits; the fuel counts digits, and `suc n` is more than enough.
print_nat_from : ℕ → ℕ → List ℕ
print_nat_from zero n = []
print_nat_from (suc f) n =
    let rest = print_nat_from f (n / 10) in
    if ltb n 10 then (b'0' + n) ∷ [] else rest ++ (b'0' + n % 10) ∷ []

unfoldable pub print_nat : ℕ → List ℕ
unfolding print_nat_from
print_nat n = print_nat_from (suc n) n

hex_digit : ℕ → ℕ
hex_digit n = if ltb n 10 then b'0' + n else 87 + n

-- QuoteJSONString: the two-character escapes, \u00XX below the space, the rest as it is.
escape : ℕ → List ℕ
unfolding hex_digit
escape c =
    if nat_beq c 8
    then b'\\' ∷ b'b' ∷ []
    else if nat_beq c 9
    then b'\\' ∷ b't' ∷ []
    else if nat_beq c 10
    then b'\\' ∷ b'n' ∷ []
    else if nat_beq c 12
    then b'\\' ∷ b'f' ∷ []
    else if nat_beq c 13
    then b'\\' ∷ b'r' ∷ []
    else if nat_beq c 34
    then b'\\' ∷ 34 ∷ []
    else if nat_beq c 92
    then b'\\' ∷ 92 ∷ []
    else if ltb c 32
    then b'\\' ∷ b'u' ∷ b'0' ∷ b'0' ∷ hex_digit (c / 16) ∷ hex_digit (c % 16) ∷ []
    else c ∷ []

escape_all : List ℕ → List ℕ
escape_all [] = []
escape_all (c ∷ cs) = escape c ++ escape_all cs

unfoldable pub quote : List ℕ → List ℕ
unfolding escape escape_all
quote s = 34 ∷ (escape_all s ++ 34 ∷ [])

unfoldable mutual
  unfolding quote print_nat

  pub stringify : Json → List ℕ
  stringify null = codes "null"
  stringify (bool true) = codes "true"
  stringify (bool false) = codes "false"
  stringify (num n) = print_nat n
  stringify (str s) = quote s
  stringify (arr xs) = b'[' ∷ stringify_items xs
  stringify (obj fs) = b'{' ∷ stringify_fields fs

  pub stringify_items : Items → List ℕ
  stringify_items nil = b']' ∷ []
  stringify_items (cons x nil) = stringify x ++ b']' ∷ []
  stringify_items (cons x xs) = stringify x ++ (b',' ∷ stringify_items xs)

  pub stringify_fields : Fields → List ℕ
  stringify_fields end = b'}' ∷ []
  stringify_fields (field k v end) = quote k ++ (b':' ∷ (stringify v ++ b'}' ∷ []))
  stringify_fields (field k v fs) =
      quote k ++ (b':' ∷ (stringify v ++ (b',' ∷ stringify_fields fs)))
