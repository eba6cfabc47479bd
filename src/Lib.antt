-- ===== src/Lib.antt =====
-- BaseApiNestJs: a multi-tenant API with sessions, workspaces, roles and invitations. This library
-- models the use cases, the repositories below them and the guards in front of them as actions on
-- one state, and beside it the audit log, feature flags, idempotent requests, the password policy, and
-- what stands around the handlers.
--
-- The parts, and the files that model them (paths from the repository's root):
--   * World: the tables of prisma/schema.prisma as lists of rows (World/Rows), the audit entries,
--     the counted metrics and the queued emails; an action returns or throws an HttpError, and what
--     it wrote before a throw stays written.
--   * Prisma, Crypto: the client of the database and the cryptography, which are parameters. The
--     laws that a Prisma client keeps are fields of its record; Tests/Rows has a client that keeps
--     them all.
--   * Sessions: src/modules/sessions. Users, Users/Manage, Users/Listed: src/modules/users.
--   * Auth/Login, Auth/Refresh, Auth/Tokens, Auth/Jwt, Auth/Recovery: src/modules/auth, whose use
--     cases open sessions by Sessions, count failures by Users, and hand entries to the audit
--     service. Auth/Me: the user's own view, from Users, Workspaces and their members. Auth/Keys:
--     signed tokens (services/token.service.ts, services/jwt-key-resolver.service.ts, the options of
--     strategies/jwt.strategy.ts, and services/oauth-state.service.ts of src/modules/oauth), over a
--     parameter for the library that signs. Auth/Totp: services/totp.util.ts, on the codes of
--     characters and on bytes.
--     Auth/TwoFactor: services/two-factor.service.ts and the use cases of the second factor.
--   * Rbac/Permissions, Rbac/Roles, Rbac/Manage: src/modules/rbac.
--   * Workspaces, Workspaces/Members, Workspaces/Manage: src/modules/workspaces, whose use cases
--     read the roles and invalidate the users' tokens. Workspaces/Create: a new workspace with its
--     organization, roles and owner. Auth/Register makes a personal one, and so does Oauth:
--     src/modules/oauth, the callback of a provider and the unlinking of an account; Oauth/Flow runs from
--     the redirect through the signed state and its cookie to that callback.
--   * Invitations: src/modules/invitations. Access: src/shared/guards.
--   * Audit: src/modules/audit, on a table of its own: the hash chain, its verification page by page,
--     and retention. The queries by date are fields of AuditClient; Tests/Ledger has such a client.
--   * Idempotency: src/shared/idempotency, over any state that the handlers work on.
--   * Password: src/shared/utils/password-policy.util.ts.
--   * Owners: the owners of the workspaces through all the use cases that write workspaces or members.
--   * Features: src/modules/feature-flags, on a table of its own, with the guard that asks it.
--   * Http: src/shared/interceptors/audit.interceptor.ts (Http/Audited) and
--     src/shared/filters/all-exceptions.filter.ts (Http/Errors), on the values of a request (Http/Json).
--   * Pages: src/shared/dto/paginated-response.dto.ts, for Users/Listed and Audit/Listed.
--   * Slug: src/shared/utils/slugify.util.ts, which names the workspaces of Workspaces/Create.
--   * Base: the names and the lemmas on lists that all of them share.
--   * Tests: a small database and each theorem at it.
--
-- A method of a class is the definition of its name in snake case; `execute` of a use case is the
-- definition named after the class. The reading of the clock, the identifiers that the database
-- draws and the random tokens are arguments; identifiers, hashes of tokens and tokens are numbers,
-- which the code only compares, and dates are milliseconds. Loops run over lists; only the loop
-- over the pages of the audit log takes fuel, one round more than there are rows, and each round but
-- the last reads a row.
--
-- A cached read is the query behind it, but for findTokensInvalidatedAt, whose date the cache gives back
-- as a text: an argument says whether the cache answers.
--
-- Not modelled: foreign keys, the errors of an update that hits a unique index, the stale reads of
-- cached methods, most of what is interpolated into an error's message, the calls of the OAuth
-- providers, the Redis client, audit entries inserted between two pages of a verification, and the glue
-- of the framework (most controllers, validation, queues, mail, metrics).
pub mod Base
pub mod Prisma
pub mod Crypto
pub mod World
pub mod Pages
pub mod Sessions
pub mod Users
pub mod Auth
pub mod Rbac
pub mod Workspaces
pub mod Access
pub mod Invitations
pub mod Oauth
pub mod Owners
pub mod Audit
pub mod Slug
pub mod Features
pub mod Http
pub mod Idempotency
pub mod Password
mod Tests
