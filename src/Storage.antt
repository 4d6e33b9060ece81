-- ===== src/Storage.antt =====
-- apps/api/src/services/storage/local-fs-adapter.js, as the services use it: an object is stored
-- under a key that a service made itself, `documents/<case>/<uuid>.enc` or `evidence/<case>/<uuid>.enc`.
use secure_document_manageme.Prelude.{
  String, Option, none, some, List, [], ◌∷◌, ◌==◌, string_eq, if◌then◌else◌,
}
use secure_document_manageme.Ledger.{Bytes}
use secure_document_manageme.Service.{Service, modify, gets, or_throw, ◌>>=◌, http_error}

abbrev pub lookup : String → List (String × Bytes) → Option Bytes
lookup k [] = none
lookup k ((j, v) ∷ m) = if j == k then some v else lookup k m

-- A later write under the same key hides an earlier one.
unfoldable pub put : String → Bytes → Service (Unit {0})
put key content = modify (λ w. record w { objects = (key, content) ∷ w.objects })

unfoldable pub get : String → Service Bytes
get key = do
  or_throw (← gets (λ w. lookup key w.objects)) (http_error 404 "STORAGE_OBJECT_NOT_FOUND")
