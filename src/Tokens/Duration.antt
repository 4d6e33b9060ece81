-- ===== src/Tokens/Duration.antt =====
-- apps/api/src/services/jwt/index.js: `parseDuration`.
use secure_document_manageme.Prelude.{
  ℕ, ◌+◌, ◌*◌, ◌-◌, ◌&&◌, ◌||◌, Bool, false, Option, none, some, [], ◌∷◌, leb, ◌==◌, nat_eq,
  list_eq, if◌then◌else◌,
}
use mathlib.Core.List.{reverse}
use secure_document_manageme.Ledger.{Bytes}
use secure_document_manageme.Canonical.{codes}
use secure_document_manageme.Service.{Result, ok, err, internal_error}

-- The white space of ASCII, which `trim` takes off.
abbrev is_space : ℕ → Bool
is_space c = c == 32 || leb 9 c && leb c 13

abbrev trim_start : Bytes → Bytes
trim_start [] = []
trim_start (c ∷ s) = if is_space c then trim_start s else c ∷ s

abbrev trim : Bytes → Bytes
trim s = reverse (trim_start (reverse (trim_start s)))

abbrev is_digit : ℕ → Bool
is_digit c = leb b'0' c && leb c b'9'

-- The value of the leading digits on top of `acc`, and what follows them.
abbrev pub read_digits : ℕ → Bytes → ℕ × Bytes
read_digits acc [] = (acc, [])
read_digits acc (c ∷ s) = if is_digit c then read_digits (acc * 10 + (c - b'0')) s else (acc, c ∷ s)

abbrev starts_with_digit : Bytes → Bool
starts_with_digit [] = false
starts_with_digit (c ∷ s) = is_digit c

-- UNIT_MS
abbrev pub unit_ms : Bytes → Option ℕ
unit_ms u =
    if u == codes "ms"
    then some 1
    else if u == codes "s"
    then some 1000
    else if u == codes "m"
    then some 60000
    else if u == codes "h"
    then some 3600000
    else if u == codes "d"
    then some 86400000
    else none

abbrev times : ℕ → Option ℕ → Result ℕ
times n none = err internal_error
times n (some ms) = ok (n * ms)

abbrev duration_of : Bytes → Result ℕ
duration_of s =
    if starts_with_digit s
    then (let (n, unit) = read_digits 0 s in times n (unit_ms unit))
    else err internal_error

-- /^(\d+)(ms|s|m|h|d)$/ on the trimmed text: the amount in milliseconds, or an exception.
unfoldable pub parse_duration : Bytes → Result ℕ
parse_duration ttl = duration_of (trim ttl)
