-- ===== src/Service.antt =====
-- How the services run: apps/api/src/errors/index.js (`httpError`), apps/api/src/db/pool.js
-- (`withTransaction`), and what a request takes from outside the repository. A service call reads
-- and writes the state and returns, or throws; only a ROLLBACK takes writes back.
use secure_document_manageme.Prelude.{
  ℕ, String, Bool, Option, none, some, List, suc, ◌≡◌, refl, ◌⊎◌, inl, inr, if◌then◌else◌,
}
use secure_document_manageme.Ledger.{Bytes}
use secure_document_manageme.Db.{Db, World}

-- `status` and `code` of an HttpError; the message is prose for people.
pub record HttpError : Type 0 where
  pub status : ℕ
  pub code : String

abbrev pub http_error : ℕ → String → HttpError
http_error s c = record { status = s; code = c }

-- What middleware/error-handler.js makes of any other exception.
abbrev pub internal_error : HttpError
internal_error = http_error 500 "INTERNAL_ERROR"

pub data Result (A : Type 0) : Type 0 where
  ok : A → Result A
  err : HttpError → Result A

pub Result-cases :
    {A : Type 0} (r : Result A) → ((e : HttpError) × (r ≡ err e)) ⊎ ((a : A) × (r ≡ ok a))
Result-cases (ok a) = inr (a, refl)
Result-cases (err e) = inl (e, refl)

abbrev pub Service : Type 0 → Type 0
Service A = World → Result A × World

module _ {A : Type 0} where
  abbrev pub pure : A → Service A
  pure a w = (ok a, w)

  abbrev pub throw : HttpError → Service A
  throw e w = (err e, w)

  abbrev pub gets : (World → A) → Service A
  gets f w = (ok (f w), w)

  -- `if (!row) throw …` on the way to `row`
  abbrev pub or_throw : Option A → HttpError → Service A
  or_throw none e = throw e
  or_throw (some a) e = pure a

abbrev pub after : {A B : Type 0} → (A → Service B) → Result A × World → Result B × World
after f (ok a, w) = f a w
after f (err e, w) = (err e, w)

infixl 5 ◌>>=◌ ◌>>◌
abbrev pub ◌>>=◌ : {A B : Type 0} → Service A → (A → Service B) → Service B
◌>>=◌ m f w = after f (m w)

abbrev pub ◌>>◌ : {A B : Type 0} → Service A → Service B → Service B
m >> k = m >>= λ _. k

abbrev pub throw_if : Bool → HttpError → Service (Unit {0})
throw_if c e w = (if c then err e else ok tt, w)

abbrev pub modify : (World → World) → Service (Unit {0})
modify f w = (ok tt, f w)

-- A write to the tables.
abbrev pub write : (Db → Db) → Service (Unit {0})
write f = modify (λ w. record w { db = f w.db })

-- BEGIN, then COMMIT, or ROLLBACK on any throw.
abbrev pub rollback : {A : Type 0} → World → Result A × World → Result A × World
rollback w (ok a, w') = (ok a, w')
rollback w (err e, w') = (err e, record w' { db = w.db })

unfoldable pub with_transaction : {A : Type 0} → Service A → Service A
with_transaction m w = rollback w (m w)

-- What the repository does not implement: the database's gen_random_uuid and node's randomUUID as
-- the sequence of the values that they return, and node:crypto. `sha256` returns a hex digest,
-- `full_year` the year in the server's time zone.
pub record Platform : Type 0 where
  pub uuid : ℕ → String
  pub sha256 : Bytes → Bytes
  pub random_iv : ℕ → Bytes
  pub aes_key : String → Bytes
  pub aes_seal : Bytes → Bytes → Bytes → Bytes × Bytes
  pub aes_open : Bytes → Bytes → Bytes → Bytes → Option Bytes
  pub master_key : String
  pub encryption_key_id : String
  pub full_year : ℕ → ℕ

abbrev pub draw : World → World
draw w = record w { drawn = suc w.drawn }

module _ (p : Platform) where
  abbrev pub new_uuid : Service String
  new_uuid w = (ok (p.uuid w.drawn), draw w)

-- The authenticated user, as middleware/auth.js attaches it.
pub record User : Type 0 where
  pub id : String
  pub roles : List String
