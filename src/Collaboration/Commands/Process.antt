-- ===== src/Collaboration/Commands/Process.antt =====
-- document-command.service.ts: the transaction of a command, and what follows a violation of a
-- unique constraint.
use uml_class_designer_be.Common.{
  ℕ, ◌+◌, Bool, true, false, not, ◌&&◌, ◌||◌, Option, none, some, [], ◌∷◌, ◌++◌, map, any, find,
  nat_eq, ◌==◌, if◌then◌else◌,
}
use uml_class_designer_be.Uml.Types.{CanonicalUmlModel}
use uml_class_designer_be.Uml.Executor.{execute, affected_element_ids, element_ids}
use uml_class_designer_be.Uml.Validation.Outcome.{Failure, Outcome, returned, thrown}
use uml_class_designer_be.Uml.Persistence.{validate_and_normalize}
use uml_class_designer_be.Collaboration.Locks.{LockStore}
use uml_class_designer_be.Collaboration.Locks.Releases.{has_lock_owned_by_another_socket}
use uml_class_designer_be.Collaboration.Database.{
  Database, UmlDocument, DocumentRevision, DocumentOperation, is_collaborator, is_operation,
  find_operation, count,
}
use uml_class_designer_be.Collaboration.Commands.{
  CollaborationErrorCode, Reply, done, refused, unique_violation, other_error, ◌>>=◌, require,
  ProcessedDocumentCommand, Request, fingerprint, is_session_active, lock_command_authorization,
  resolve_existing,
}

-- The outcome of `validateAndNormalize`; the handler rethrows what is not a bad request.
abbrev pub validated : Outcome CanonicalUmlModel → Reply CanonicalUmlModel
validated (returned document) = done document
validated (thrown Failure.syntax_error) = other_error
validated (thrown _) = refused CollaborationErrorCode.invalid_model none

-- The model that the command gives, as it is and as it is stored.
unfoldable pub next_models : Request → UmlDocument → Reply (CanonicalUmlModel × CanonicalUmlModel)
next_models q document =
    elim (execute q.engine.stringify document.canonical_model q.input.command) [
      | none ↦ refused CollaborationErrorCode.invalid_command none
      | some next ↦ do
        stored ← validated (
            validate_and_normalize q.engine next (q.input.base_revision + 1) q.clock.commit (
              some
                (record { project_id = document.project_id; document_id = q.input.document_id })))
        done (next, stored)
    ]

-- From the affected elements to the normalized model. Asking for the locks expires them.
unfoldable pub prepare :
    Request → UmlDocument → LockStore → LockStore × Reply (CanonicalUmlModel × CanonicalUmlModel)
prepare q document locks =
    elim (affected_element_ids document.canonical_model.diagram q.input.command) [
      | none ↦ (locks, refused CollaborationErrorCode.invalid_command none)
      | some ids ↦
          let (locks', taken) =
            has_lock_owned_by_another_socket q.clock.lock_check q.input.document_id ids q.socket_id
              locks in
          (
            locks',
            if taken
                then refused CollaborationErrorCode.element_locked none
                else next_models q document,
          )
    ]

-- the condition of `updateMany`
abbrev pub is_target : Request → Database → UmlDocument → Bool
is_target q db d =
    d.id == q.input.document_id
    && nat_eq d.revision q.input.base_revision
    && is_collaborator db d.project_id q.identity.user_id

abbrev pub updated_document : Request → CanonicalUmlModel → UmlDocument → UmlDocument
updated_document q stored d = record d {
  canonical_model = stored;
  revision = d.revision + 1;
  updated_by_id = q.identity.user_id;
}

abbrev pub new_revision : Request → CanonicalUmlModel → DocumentRevision
new_revision q stored = record {
  document_id = q.input.document_id;
  revision = q.input.base_revision + 1;
  canonical_model = stored;
  author_id = q.identity.user_id;
}

abbrev pub new_operation : Request → DocumentOperation
new_operation q = record {
  operation_id = q.input.operation_id;
  document_id = q.input.document_id;
  actor_id = q.identity.user_id;
  base_revision = q.input.base_revision;
  resulting_revision = q.input.base_revision + 1;
  command = q.input.command;
  command_fingerprint = fingerprint q;
  committed_at = q.clock.commit;
  broadcasted_at = none;
}

-- the update and the two rows that are created
unfoldable pub write_command : Request → CanonicalUmlModel → Database → Database
write_command q stored db = record db {
  documents = map (λ d. if is_target q db d then updated_document q stored d else d) db.documents;
  revisions = db.revisions ++ new_revision q stored ∷ [];
  operations = db.operations ++ new_operation q ∷ [];
}

-- a unique constraint of a row to create is violated
unfoldable pub has_duplicate : Request → Database → Bool
has_duplicate q db =
    any (λ r. r.document_id == q.input.document_id && nat_eq r.revision (q.input.base_revision + 1))
      db.revisions
    || any (is_operation q.input.document_id q.input.operation_id) db.operations

unfoldable pub accepted : Request → CanonicalUmlModel → ProcessedDocumentCommand
accepted q next = record {
  operation_id = q.input.operation_id;
  document_id = q.input.document_id;
  base_revision = q.input.base_revision;
  revision = q.input.base_revision + 1;
  committed_at = q.engine.iso q.clock.commit;
  command = q.input.command;
  idempotent = false;
  requires_broadcast = true;
  active_element_ids = element_ids next.diagram;
}

-- where `updated.count !== 1`
unfoldable pub not_updated : Request → (ℕ → Database) → Reply ProcessedDocumentCommand
not_updated q seen = elim (find_operation (seen 7) q.input.document_id q.input.operation_id) [
  | some duplicate ↦ resolve_existing q duplicate
  | none ↦
      elim (find
        (λ d.
          d.id == q.input.document_id
          && any (λ m. m.project_id == d.project_id && m.user_id == q.identity.user_id)
              (seen 8).members)
        (seen 8).documents) [
          | none ↦ refused CollaborationErrorCode.not_found none
          | some current ↦ refused CollaborationErrorCode.revision_conflict (some current.revision)
        ]
]

-- `written` is the database that a commit leaves, and none where nothing is written.
pub record Turn : Type 0 where
  pub locks : LockStore
  pub reply : Reply ProcessedDocumentCommand
  pub written : Option Database

abbrev pub unwritten : LockStore → Reply ProcessedDocumentCommand → Turn
unwritten locks reply = record { locks = locks; reply = reply; written = none }

unfoldable pub commit :
    Request → (ℕ → Database) → CanonicalUmlModel → CanonicalUmlModel → LockStore → Turn
commit q seen next stored locks =
    if nat_eq (count (is_target q (seen 6)) (seen 6).documents) 1
    then if has_duplicate q (seen 6) then unwritten locks unique_violation else record {
      locks = locks;
      reply = done (accepted q next);
      written = some (write_command q stored (seen 6));
    }
    else unwritten locks (not_updated q seen)

-- An error before the update ends the transaction.
unfoldable pub commit_prepared :
    Request → (ℕ → Database) → LockStore → Reply (CanonicalUmlModel × CanonicalUmlModel) → Turn
commit_prepared q seen locks (done (next, stored)) = commit q seen next stored locks
commit_prepared q seen locks (refused code current) = unwritten locks (refused code current)
commit_prepared q seen locks unique_violation = unwritten locks unique_violation
commit_prepared q seen locks other_error = unwritten locks other_error

-- the part of the transaction that has the document
unfoldable pub process_document : Request → (ℕ → Database) → UmlDocument → LockStore → Turn
process_document q seen document locks =
    elim (find_operation (seen 5) q.input.document_id q.input.operation_id) [
      | some existing ↦ unwritten locks (resolve_existing q existing)
      | none ↦
          if not (nat_eq document.revision q.input.base_revision)
          then unwritten locks
              (refused CollaborationErrorCode.revision_conflict (some document.revision))
          else let (locks', prepared) = prepare q document locks in
            commit_prepared q seen locks' prepared
    ]

unfoldable pub process_authorized : Request → (ℕ → Database) → LockStore → Reply UmlDocument → Turn
process_authorized q seen locks (done document) = process_document q seen document locks
process_authorized q seen locks (refused code current) = unwritten locks (refused code current)
process_authorized q seen locks unique_violation = unwritten locks unique_violation
process_authorized q seen locks other_error = unwritten locks other_error

unfoldable pub process_in_transaction : Request → (ℕ → Database) → LockStore → Turn
process_in_transaction q seen locks =
    process_authorized q seen locks (lock_command_authorization q seen)

-- The statements that follow the rollback are the seventh and the eighth.
unfoldable pub find_existing_for_actor :
    Request → (ℕ → Database) → Reply (Option ProcessedDocumentCommand)
find_existing_for_actor q seen = do
  _ ←
      require (is_session_active q.engine q.clock.retry_check (seen 7) q.identity)
        CollaborationErrorCode.session_revoked
  elim (find
      (λ o.
        is_operation q.input.document_id q.input.operation_id o
        && any
            (λ d. d.id == o.document_id && is_collaborator (seen 8) d.project_id q.identity.user_id)
            (seen 8).documents)
      (seen 8).operations) [
        | none ↦ done none
        | some operation ↦ do resolved ← resolve_existing q operation; done (some resolved)
      ]

abbrev pub or_rethrow : Reply (Option ProcessedDocumentCommand) → Reply ProcessedDocumentCommand
or_rethrow (done none) = unique_violation
or_rethrow (done (some duplicate)) = done duplicate
or_rethrow (refused code current) = refused code current
or_rethrow unique_violation = unique_violation
or_rethrow other_error = other_error

-- the handler of the errors of the transaction
unfoldable pub after_reply : Request → (ℕ → Database) → Turn → Reply ProcessedDocumentCommand → Turn
after_reply q seen t (done p) = t
after_reply q seen t (refused code current) = t
after_reply q seen t unique_violation = record t {
  reply = or_rethrow (find_existing_for_actor q seen);
}
after_reply q seen t other_error = t

unfoldable pub process : Request → (ℕ → Database) → LockStore → Turn
process q seen locks =
    after_reply q seen (process_in_transaction q seen locks)
      (process_in_transaction q seen locks).reply
