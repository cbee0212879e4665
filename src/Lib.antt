-- ===== src/Lib.antt =====
-- The identity service of Banco Verde: sign-in with passwords, a second factor, sessions, and the
-- records for the security monitoring.
--
-- The program is a Nest application. The controllers of src/auth answer requests with the services
-- for users (src/users), sessions (src/sessions), signed tokens (src/auth/jwt), the second factor
-- (src/auth/mfa), encryption (src/auth/token-crypt, src/encryption) and the audit log
-- (src/audit-log). They share one database of three tables. `login` checks the password, counts
-- failures and locks; without a second factor it gives tokens and opens a session, with one it
-- writes a temporary token into the user's row, which the endpoints of src/auth/mfa exchange for
-- tokens. src/common/logging holds a log of its own, a
-- chain of hashes on files, whose lines docker/siem/wazuh/filebeat marks on their way into the
-- monitoring.
--
-- Files, with what they model:
--   Base, Base/*          Boolean tests, texts as UTF-16 code units, lists, and tables of rows
--   Platform              what the service uses and does not implement: the TypeORM repositories,
--                         bcryptjs, the JWT library, Node's crypto, the TOTP library, JSON and the
--                         settings, as parameters, with what is documented of them as records of laws
--   Exec, Exec/Keeps      a request handler: a function from the stored state to a result or an
--                         exception and the next state; the rules by which handlers keep a state valid
--   Users/Entity, Service src/users/entities/user.entity.ts and src/users/users.service.ts
--   Users/Coherent, Kept  the invariant of a user's row, and that the service's methods keep it
--   Users/Others          the rows of other users under the service's methods
--   Sessions/Entity, Service   src/sessions/entities/session.entity.ts and sessions.service.ts
--   Sessions/Laws, Drawn, Plain   the theorems about single calls, and tokens as drawn
--   Sessions/Grants, Apart, Refinement   the abstract view of the sessions, and any calls next to it
--   Audit/Entity, Service src/audit-log/entities/audit-log.entity.ts, src/audit-log/audit-log.service.ts
--   Audit/Trail           what a login leaves in both logs
--   Audit/Newest          `findByUserId` of src/audit-log/audit-log.service.ts after `log`
--   Auth/Jwt, Guard       src/auth/jwt/jwt.service.ts and src/auth/strategies/jwt.strategy.ts
--   Auth/Service          `login`, `refresh` and `logout` of src/auth/auth.service.ts
--   Auth/Controller       the endpoints of src/auth/auth.controller.ts that call it
--   Auth/Profile          `verify` of src/auth/auth.service.ts and `me` of src/auth/auth.controller.ts
--   Auth/Admin            src/auth/admin.controller.ts
--   Auth/Login, Unlock, Lockout, LockEnds, Refresh, Bearer   the theorems about these
--   Crypt/Token, Fields   src/auth/token-crypt/token-crypt.service.ts, and the encryption of
--                         src/encryption/encryption.service.ts and key-management.service.ts
--   Crypt/Keys            the generators of src/encryption/key-management.service.ts
--   Crypt/RoundTrip       the theorems about the encryption
--   Crypt/Endpoints       src/encryption/encryption.controller.ts
--   Mfa/Code, BackupCodes src/auth/mfa/backup-codes.service.ts
--   Mfa/Handlers, Verify  src/auth/mfa/mfa.controller.ts with src/auth/mfa/mfa.service.ts
--   Mfa/CodeLaws, Challenge, Guarantees, SignIn, Enrolment, Biometric   the theorems about these
--   Siem/Logger, EventType, Forward   src/common/logging/siem-logger.service.ts
--   Siem/Stream           the same with its write streams and its cache
--   Siem/Walk, Files, Chain, Contents, Tamper, Shipped, Settle, Serving   the theorems about it
--   Siem/Digest, Ingest   docker/siem/wazuh/filebeat/validate-hash.js
--   Siem/Signed           the theorems about it
--   Siem/Document, Standard   the entries as JSON, and the theorems about the log's format
--   Logging/Loki, Info, Post   src/common/logging/loki-transport.service.ts
--   Logging/Json, LogSchema, Format   src/common/logging/json-log-format.ts
--   Logging/Conform       what its schema asks of a value, by draft 7 of JSON Schema
--   Logging/Labels, Delivery, Schema, Conforming   the theorems about these
--   Notifications/Types, Texts, Service   src/notifications/dto/notification.dto.ts and
--                         src/notifications/notifications.service.ts
--   Notifications/Controller   src/notifications/notifications.controller.ts
--   Notifications/Guarantees, Start   the theorems about these
--   Seed/Scripts          src/database/seed/admin-user.seed.ts and reset-users.ts
--   Seed/Restored         the theorem about these
--   Valid, Api/*          the invariant of the stored state, and sequences of requests
--   Api/Isolation         the account that a request is about
--   Api/Absent            requests whose body lacks a field
--   Tests/*               concrete platforms and states, and the theorems at concrete inputs
--
-- A method `findByEmail` is `find_by_email`, a field `lockedUntil` is `locked_until`. Instants are
-- numbers of milliseconds; one request sees one instant, `now`. What a request draws (tokens, salts,
-- ids, vectors) is an argument. The exception of a handler leaves written what was written before it,
-- as the code has no transactions. The case of letters is mapped for ASCII, which is all the program's
-- actions and codes have. All loops are structural recursion; only the digits of a number
-- (Base/Decimal) run on fuel, one more than the number, of which each step leaves a tenth.
-- The log's files are lists of lines, numbered by the days of their names. Siem/Logger writes a line at
-- once; in Siem/Stream it waits in its stream, as Node's streams document, until that writes it.
-- A field of a body that the code passes to TypeORM, bcryptjs or `===` may be left out or null
-- (Base/Body), and the handlers on such bodies are `login_body`, `verify_body` and so on: TypeORM 0.3
-- leaves out a condition whose value is undefined or null, and an update's column whose value is
-- undefined; bcryptjs throws for a password that is no text.
--
-- Not modelled: the validation and throttling of requests and the wiring of modules (src/main.ts,
-- src/app.module.ts and the module files), which are decorators for Nest; the console output
-- of winston, and the timer of the Loki transport but for a flag and an event for its interval; the
-- delivery of Firebase; requests with a number or an object where a text belongs, and requests to the
-- endpoints of the second factor without the `x-user-id` header or without a code; src/database/seed/run-seed.ts. The columns `created_at` and `updated_at` are
-- the database's.
pub mod Base
pub mod Users
pub mod Sessions
pub mod Audit
pub mod Platform
pub mod Valid
pub mod Auth
pub mod Crypt
pub mod Seed
pub mod Siem
pub mod Logging
pub mod Mfa
pub mod Notifications
pub mod Api
mod Tests
pub mod Exec
