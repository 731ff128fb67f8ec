-- ===== src/Lib.antt =====
-- The UML class designer backend keeps UML class diagrams as JSON documents, which several users
-- edit at the same time through commands. This library models the core of that in five parts.
--
-- * The document (src/modules/uml-domain). `Uml.Types`, `Uml.Command`: collaboration.types.ts.
--   `Uml.Executor`: uml-command.executor.ts, `mutate` and `affectedElementIds`, with the loop of
--   a deletion in `Uml.Executor.Removal`. `Uml.Multiplicity`: `isManyMultiplicity`.
--   `Uml.Validation`: canonical-model.validation.ts, one child for each of its parts.
--   `Uml.Persistence`: canonical-model.validator.ts. `Uml.View`, `Uml.Json`: the document as the
--   value that the check of its strings walks.
-- * The stores of the process (src/modules/uml-domain). `Collaboration.Locks`:
--   collaboration-lock.store.ts, every method, each a function on the state; a timer is a call
--   that may come at any time.
--   `Collaboration.Presence`, `Collaboration.RateLimiter`, `Collaboration.ExportQuota`: the files
--   collaboration-presence.store.ts, collaboration-rate-limiter.service.ts and
--   spring-boot-export-quota.service.ts; `Collaboration.Presence.Table` is the table that the
--   presence store stands for, and `Collaboration.ExportQuota.Exports` the quota with the exports
--   that hold it. `Collaboration.MutationQueue`:
--   document-mutation-queue.service.ts, its calls as a step relation.
-- * The commands. `Collaboration.Commands`: document-command.service.ts, `process` with its
--   transaction and the marks of delivery, over the tables of prisma/schema.prisma
--   (`Collaboration.Database`). A command asks the lock store for the elements that it affects,
--   executes, validates, and updates the row of the document only at the base revision.
--   `Collaboration.Commands.Reads`: what the service reads for collaboration.gateway.ts, and whom
--   a broadcast of `broadcastToAuthorizedRoom` reaches by it.
-- * The sessions (src/modules/auth). `Auth.Tokens`: the text of a refresh token, from
--   auth.service.ts. `Auth.Sessions`: the statements that this service and
--   auth-session-maintenance.service.ts send, over the same tables. `Auth.Service`: `register`,
--   `login`, `refresh` and `logout`, and `verifyAccessToken` of access-token-verifier.service.ts.
-- * The routes' services. `Rest.Documents`: src/modules/uml-domain/documents.service.ts.
--   `Rest.Projects`: src/modules/projects, projects.service.ts and project-member.guard.ts.
--   `Rest.Replies`: the exceptions that both throw. They share the tables, the locks and the check
--   of the session with the commands.
--
-- Names are the source's in snake case. An exception is a value: `none` for the executor's only
-- error, `Outcome` for the validation, `Reply` for the command service. `Date.now()` and
-- `randomUUID()` are arguments. At the n-th statement of a transaction the database is `seen n`,
-- so what others commit between two statements is any change at all. The text of a time is
-- assumed to be of XML 1.0 characters where the soundness of a stamped document needs it.
--
-- Fuel: the removal loop of a deletion gets two rounds more than there are relationships, as a round
-- that another follows has deleted a relationship; the search for cycles gets a depth two above the
-- number of keys of its map, as its path visits no key twice. A number is printed in one round more
-- than its value.
--
-- Parameters (`Uml.Engine`): the case tables of the platform, `JSON.stringify` of a diagram,
-- `toISOString`, the validator compiled by Ajv, `isUUID`, and the fingerprint of a command; and
-- (`Auth.Engine`) hashes, signatures, passwords and JSON web tokens.
-- Texts are lists of code points, so a lone surrogate is seen only by the test on numbers.
--
-- Not modelled: the other parts of the gateway and the HTTP controllers, the generators of relational models and Spring
-- Boot projects, XMI, and configuration.
pub mod Common
pub mod Uml
pub mod Auth
pub mod Collaboration
pub mod Rest
