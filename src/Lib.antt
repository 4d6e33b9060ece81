-- ===== src/Lib.antt =====
-- A model of Secure-Document-Management-System and what can be proved about it.
--
-- The program is an Express API over PostgreSQL, an object store and node:crypto. The model is of the
-- code under apps/api/src, packages/shared/src and of the tables that apps/api/migrations create.
--   * Prelude: the names that all files share; lists as tables (find?, select, update_where), ORDER BY.
--   * Db: the rows and the tables (newest row first), and `World`: tables, object store, audit
--     sequence, clock, and the count of random values drawn.
--   * Service: a service call is a function from a World to a result or an HttpError and the World
--     after it. withTransaction (apps/api/src/db/pool.js) gives the tables back on a throw, but not
--     the object store, the sequence or what was drawn.
--   * What the repository does not implement is a parameter: `Platform` (UUIDs, SHA-256, AES-256-GCM,
--     the server's time zone), `Rsa` in Crypto.Rsa (key pairs, RSA signatures, random codes) and
--     `Identity` in Tokens (random tokens, salts and secrets, scrypt, jsonwebtoken, otplib, and the
--     configured threshold and durations).
--   * Sql, Entries: forms of SQL statement, and arguments, that several services share.
--   * Canonical: the JSON with sorted keys that is hashed, and toISOString.
--   * Ledger: the verification loop of both ledgers over an interface `Chain`; Ledger.Links compares
--     it with the chain as a predicate. AuditLedger (services/ledger, modules/audit) and CustodyLedger
--     (services/custody-ledger) fill the interface.
--   * Roles (packages/shared/src/constants/roles.js) and PermissionEngine (services/permissions).
--   * Crypto, Storage (services/crypto, services/storage); Tokens (services/jwt, services/mfa) with
--     Tokens.Duration and Tokens.Password (hashPassword and verifyPassword of services/crypto);
--     Tokens.Matching and Tokens.RoundTrip have proofs.
--   * Middleware (middleware/auth.js and the guards require-auth, require-role, require-permission).
--   * Evidence (modules/evidence): Repository, Lifecycle (registration and moves), Integrity (checks
--     and downloads), Transfer (hand-over); Moves, Check, Custody, Handover, Replay, RoundTrip and
--     Growth hold proofs.
--   * Cases (modules/cases): Repository, Status, Members, and the proofs below them.
--   * Documents (modules/documents): Repository, Versions (upload, new version, restore, download),
--     Service (the rest); History, RoundTrip, Download and Growth hold proofs.
--   * Signatures (modules/signatures): Repository, Service; Keys, Respond and Growth hold proofs.
--   * Verification (modules/verification): Service; Verdict, Answer, Signed and Growth hold proofs.
--   * Approval (modules/approval): Repository, Steps, and Outcome, Invariant, Halt with proofs.
--   * Grants (modules/permissions, modules/sharing): Service, and Effect with proofs.
--   * Users (modules/users): Repository, Departments, Invitations, Management; Authority, Subtree,
--     Activation, Escalation and Growth hold proofs.
--   * Auth (modules/auth): Repository, Service; Credentials, Lockout, Threshold, Sessions and
--     Growth hold proofs.
--   * App: the requests one after another. A request reads and writes the state as one step, but for
--     removeMember, which is also modelled as the two steps that its queries are.
--   * Examples: small states with a transparent platform, on which each theorem is tried.
--
-- Numbers are natural numbers: times are milliseconds, and nothing that is modelled subtracts. A
-- version number "3.0" is the number 3, as the part behind the point is always 0. Bytes and the texts
-- that are hashed are lists of numbers. Loops are structural, but for two on fuel: a number is printed
-- on fuel one more than itself, which is enough as each digit divides it by ten, and the recursive
-- query for the ancestors of a department runs on the number of departments, which is enough when
-- their parents form no cycle.
--
-- Not modelled: the web client, controllers, routes and request validation (they pass fields on), the
-- filter of uploads, configuration, logging and mail (I/O), searches and listings (they only read),
-- the names that a query joins to a row only for display, and the unique and foreign key constraints,
-- but for the foreign keys of a document.
pub mod Prelude
pub mod Ledger
pub mod Canonical
pub mod Db
pub mod Service
pub mod Sql
pub mod AuditLedger
pub mod CustodyLedger
pub mod Roles
pub mod PermissionEngine
pub mod Crypto
pub mod Storage
pub mod Entries
pub mod Evidence
pub mod Cases
pub mod App
pub mod Examples
pub mod Documents
pub mod Signatures
pub mod Verification
pub mod Tokens
pub mod Users
pub mod Auth
pub mod Middleware
pub mod Approval
pub mod Grants
