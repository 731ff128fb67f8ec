-- ===== src/Collaboration/Commands.antt =====
-- src/modules/uml-domain/document-command.service.ts: `process` and what it calls. A transaction
-- of PostgreSQL at its default level sees at each statement what has been committed by then:
-- `seen n` is the database at the n-th statement. From the update of the document to the end
-- of the transaction its row is locked, so these statements are on the state of the update, and
-- a failure rolls them back. An exception is a reply.
pub mod Process
pub mod Commits
pub mod Replay
pub mod Exclusion
pub mod Delivery
pub mod Reads
use uml_class_designer_be.Common.{
  ℕ, suc, ◌+◌, String, Bool, true, false, not, ◌&&◌, ◌||◌, Option, none, some, List, [], ◌∷◌, ◌++◌,
  map, any, filter, find, nat_eq, ◌==◌, if◌then◌else◌,
}
use uml_class_designer_be.Uml.Types.{UmlClassifier, CanonicalUmlModel}
use uml_class_designer_be.Uml.Command.{UmlCommand}
use uml_class_designer_be.Uml.Engine.{Engine}
use uml_class_designer_be.Uml.Executor.{execute, affected_element_ids, element_ids}
use uml_class_designer_be.Uml.Validation.Outcome.{Failure, Outcome, returned, thrown}
use uml_class_designer_be.Uml.Persistence.{PersistenceIdentity, validate_and_normalize}
use uml_class_designer_be.Collaboration.Locks.{LockStore}
use uml_class_designer_be.Collaboration.Locks.Releases.{has_lock_owned_by_another_socket}
use uml_class_designer_be.Collaboration.Database.{
  Database, UmlDocument, DocumentRevision, DocumentOperation, is_active_session, is_collaborator,
  is_collaboration_role, find_document, is_operation, find_operation, is_not_set, count,
}

pub data CollaborationErrorCode : Type 0 where
  session_revoked not_found invalid_command invalid_model revision_conflict element_locked
        operation_id_reused :
      CollaborationErrorCode

-- What a call returns or throws: `CollaborationOperationError`, the error P2002 of a unique
-- constraint, or another error.
pub data Reply {ℓ} (A : Type ℓ) : Type ℓ where
  done : A → Reply A
  refused : (code : CollaborationErrorCode) (current_revision : Option ℕ) → Reply A
  unique_violation : Reply A
  other_error : Reply A

infixl 5 ◌>>=◌ ◌>>◌
abbrev pub ◌>>=◌ {ℓ κ} : {A : Type ℓ} {B : Type κ} → Reply A → (A → Reply B) → Reply B
done a >>= f = f a
refused code current >>= f = refused code current
unique_violation >>= f = unique_violation
other_error >>= f = other_error

abbrev pub ◌>>◌ {ℓ} : {B : Type ℓ} → Reply (Unit {0}) → Reply B → Reply B
m >> k = m >>= λ _. k

-- `if (!test) throw new CollaborationOperationError(code)`
abbrev pub require : Bool → CollaborationErrorCode → Reply (Unit {0})
require true code = done tt
require false code = refused code none

-- `if (!value) throw new CollaborationOperationError(code)`
abbrev pub required {ℓ} : {A : Type ℓ} → Option A → CollaborationErrorCode → Reply A
required none code = refused code none
required (some a) code = done a

pub record CollaborationIdentity : Type 0 where
  pub user_id : String
  pub session_id : String

pub record DocumentCommandPayload : Type 0 where
  pub operation_id : String
  pub document_id : String
  pub base_revision : ℕ
  pub command : UmlCommand

pub record ProcessedDocumentCommand : Type 0 where
  pub operation_id : String
  pub document_id : String
  pub base_revision : ℕ
  pub revision : ℕ
  pub committed_at : String
  pub command : UmlCommand
  pub idempotent : Bool
  pub requires_broadcast : Bool
  pub active_element_ids : List String

-- The values of the clock that a call reads, in their order.
pub record Clock : Type 0 where
  pub session_check : ℕ
  pub lock_check : ℕ
  pub commit : ℕ
  pub retry_check : ℕ

-- One call: the services, the caller, the payload and the socket.
pub record Request : Type 0 where
  pub engine : Engine
  pub identity : CollaborationIdentity
  pub input : DocumentCommandPayload
  pub socket_id : String
  pub clock : Clock

-- `commandFingerprint`
abbrev pub fingerprint : Request → String
fingerprint q = q.engine.fingerprint q.input.base_revision q.input.command

-- access-token-verifier.service.ts
unfoldable pub lock_active_session : Engine → ℕ → Database → CollaborationIdentity → Bool
lock_active_session engine now db who =
    engine.is_uuid who.user_id
    && engine.is_uuid who.session_id
    && nat_eq (count (is_active_session now who.user_id who.session_id) db.sessions) 1

unfoldable pub is_session_active : Engine → ℕ → Database → CollaborationIdentity → Bool
is_session_active engine now db who =
    engine.is_uuid who.user_id
    && engine.is_uuid who.session_id
    && any (is_active_session now who.user_id who.session_id) db.sessions

-- `memberships.length !== 1 || !COLLABORATION_ROLES.includes(...)`, negated
unfoldable pub has_membership : Database → String → String → Bool
has_membership db project_id user_id =
    elim (filter (λ m. m.project_id == project_id && m.user_id == user_id) db.members) [
      | m ∷ [] ↦ is_collaboration_role m.role
      | _ ↦ false
    ]

unfoldable pub lock_command_authorization : Request → (ℕ → Database) → Reply UmlDocument
lock_command_authorization q seen = do
  let id = q.input.document_id
  let user = q.identity.user_id
  _ ←
      require (lock_active_session q.engine q.clock.session_check (seen 0) q.identity)
        CollaborationErrorCode.session_revoked
  candidate ← required (find_document (seen 1) id) CollaborationErrorCode.not_found
  _ ←
      require (nat_eq (count (λ p. p.id == candidate.project_id) (seen 2).projects) 1)
        CollaborationErrorCode.not_found
  _ ← require (has_membership (seen 3) candidate.project_id user) CollaborationErrorCode.not_found
  required (find (λ d. d.id == id && d.project_id == candidate.project_id) (seen 4).documents)
      CollaborationErrorCode.not_found

unfoldable pub resolve_existing : Request → DocumentOperation → Reply ProcessedDocumentCommand
resolve_existing q o =
    if not (o.actor_id == q.identity.user_id) || not (o.command_fingerprint == fingerprint q)
    then refused CollaborationErrorCode.operation_id_reused none
    else done (record {
      operation_id = q.input.operation_id;
      document_id = q.input.document_id;
      base_revision = q.input.base_revision;
      revision = o.resulting_revision;
      committed_at = q.engine.iso o.committed_at;
      command = q.input.command;
      idempotent = true;
      requires_broadcast = is_not_set o.broadcasted_at;
      active_element_ids = [];
    })
