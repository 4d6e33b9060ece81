-- ===== src/Middleware.antt =====
-- apps/api/src/middleware: auth.js, require-auth.js, require-role.js and require-permission.js. A guard
-- that returns lets the request go on.
pub mod Guards
use secure_document_manageme.Prelude.{
  ℕ, String, Bool, not, ◌||◌, Option, none, some, List, [], ◌∷◌, ◌==◌, nat_eq, string_eq, any,
  contains, if◌then◌else◌,
}
use secure_document_manageme.Ledger.{Bytes}
use secure_document_manageme.Canonical.{codes}
use secure_document_manageme.Db.{Permission, ResourceType, Severity}
use secure_document_manageme.Service.{
  Service, Platform, User, HttpError, http_error, ◌>>=◌, ◌>>◌, throw, throw_if, or_throw, gets,
  pure,
}
use secure_document_manageme.Entries.{raise_security_event}
use secure_document_manageme.PermissionEngine.{Resource, can}
use secure_document_manageme.Tokens.{Claims, Identity, verify_access_token}
use secure_document_manageme.Auth.Service.{unauthenticated}

abbrev pub forbidden : HttpError
forbidden = http_error 403 "FORBIDDEN"

-- `header.startsWith(prefix) ? header.slice(prefix.length) : null`
abbrev pub after_prefix : Bytes → Bytes → Option Bytes
after_prefix [] s = some s
after_prefix (x ∷ xs) [] = none
after_prefix (x ∷ xs) (y ∷ ys) = if x == y then after_prefix xs ys else none

abbrev user_of : Option Claims → Option User
user_of none = none
user_of (some c) = some (record { id = c.subject; roles = c.roles })

-- An empty token counts as none.
abbrev pub payload_of : Identity → Option Bytes → ℕ → Option Claims
payload_of i none now = none
payload_of i (some []) now = none
payload_of i (some (b ∷ bs)) now = verify_access_token i (b ∷ bs) now

abbrev pub bearer : Option Bytes → Option Bytes
bearer none = none
bearer (some header) = after_prefix (codes "Bearer ") header

-- The user that middleware/auth.js attaches to a request with this Authorization header.
unfoldable pub authenticate : Identity → Option Bytes → ℕ → Option User
unfolding verify_access_token
authenticate i header now = user_of (payload_of i (bearer header) now)

unfoldable pub require_auth : Option User → Service User
require_auth user = or_throw user unauthenticated

unfoldable pub require_role : List String → Option User → Service User
require_role allowed_roles user = do
  u ← or_throw user unauthenticated
  throw_if (not (any (λ role. contains allowed_roles role) u.roles)) forbidden
  pure u

-- The name under which a resource is reported.
abbrev type_text : ResourceType → String
type_text ResourceType.case_resource = "CASE"
type_text ResourceType.document = "DOCUMENT"
type_text ResourceType.evidence = "EVIDENCE"
type_text ResourceType.report = "REPORT"

module _ (p : Platform) where
  -- Written outside a transaction: it stays although the request is refused.
  unfoldable pub deny : User → Resource → Service User
  unfolding raise_security_event
  deny u resource = do
    raise_security_event p "UNAUTH_ACCESS" Severity.medium (some u.id)
        (some (type_text resource.kind)) (some resource.id)
    throw forbidden

  unfoldable pub require_permission : Permission → Resource → Option User → Service User
  unfolding can deny
  require_permission action resource user = do
    u ← or_throw user unauthenticated
    allowed ← gets (can (some u) action resource)
    (if allowed then pure u else deny u resource)
