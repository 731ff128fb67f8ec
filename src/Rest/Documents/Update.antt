-- ===== src/Rest/Documents/Update.antt =====
-- documents.service.ts: update.
use uml_class_designer_be.Common.{
  ℕ, ◌+◌, String, Bool, false, not, ◌&&◌, ◌||◌, Option, none, some, [], ◌∷◌, ◌++◌, map, nat_eq,
  ◌==◌, if◌then◌else◌,
}
use uml_class_designer_be.Uml.Types.{CanonicalUmlModel}
use uml_class_designer_be.Uml.Executor.{element_ids}
use uml_class_designer_be.Collaboration.Locks.{LockStore}
use uml_class_designer_be.Collaboration.Locks.Releases.{has_any_lock}
use uml_class_designer_be.Collaboration.Database.{
  Database, UmlDocument, is_collaborator, find_document, count,
}
use uml_class_designer_be.Rest.Replies.{ServiceError, done, failed, require}
use uml_class_designer_be.Rest.Documents.{
  DocumentRequest, UpdateDocument, DocumentCollaborationChange, DocumentAnswer, refused, after, get,
  authorize, find_in_project, normalized, is_name_taken, has_revision, revision_row,
}

-- the condition of `updateMany`
abbrev pub is_replaced : DocumentRequest → UpdateDocument → Database → UmlDocument → Bool
is_replaced q input db d =
    d.id == q.document_id
    && d.project_id == q.project_id
    && nat_eq d.revision input.expected_revision
    && is_collaborator db d.project_id q.user_id

abbrev pub name_or : Option String → String → String
name_or none old = old
name_or (some new) old = new

abbrev pub replaced_document :
    DocumentRequest → UpdateDocument → CanonicalUmlModel → UmlDocument → UmlDocument
replaced_document q input stored d = record d {
  name = name_or input.name d.name;
  canonical_model = stored;
  revision = d.revision + 1;
  updated_by_id = q.user_id;
}

-- the update and the row of the revision
unfoldable pub write_update :
    DocumentRequest → UpdateDocument → CanonicalUmlModel → Database → Database
write_update q input stored db = record db {
  documents =
      map (λ d. if is_replaced q input db d then replaced_document q input stored d else d)
        db.documents;
  revisions = db.revisions ++ revision_row q (input.expected_revision + 1) stored ∷ [];
}

abbrev pub has_taken_name : DocumentRequest → Option String → Database → Bool
has_taken_name q none db = false
has_taken_name q (some name) db = is_name_taken q name db

-- where `updated.count !== 1`
unfoldable pub not_replaced : DocumentRequest → Database → ServiceError
not_replaced q db = elim (get q db) [
  | failed e ↦ ServiceError.not_found
  | done current ↦ ServiceError.conflict (some current.revision)
]

unfoldable pub answer_update :
    DocumentRequest → LockStore → Database → Option UmlDocument → DocumentAnswer UmlDocument
answer_update q locks db none = refused locks ServiceError.other_error
answer_update q locks db (some persisted) = record {
  reply = done persisted;
  written = some db;
  published = some (
      DocumentCollaborationChange.resync_required q.document_id persisted.revision
        (element_ids persisted.canonical_model.diagram));
  locks = locks;
}

unfoldable pub replace :
    DocumentRequest
    → UpdateDocument
    → CanonicalUmlModel
    → (ℕ → Database)
    → LockStore
    → DocumentAnswer UmlDocument
replace q input stored seen locks =
    if nat_eq (count (is_replaced q input (seen 4)) (seen 4).documents) 1
    then if has_taken_name q input.name (seen 4)
        || has_revision q (input.expected_revision + 1) (seen 4)
      then refused locks (ServiceError.conflict none)
      else answer_update q locks (write_update q input stored (seen 4))
          (find_document (write_update q input stored (seen 4)) q.document_id)
    else refused locks (not_replaced q (seen 5))

-- with the document that the transaction read
unfoldable pub update_current :
    DocumentRequest
    → UpdateDocument
    → CanonicalUmlModel
    → (ℕ → Database)
    → LockStore
    → UmlDocument
    → DocumentAnswer UmlDocument
update_current q input stored seen locks current =
    if not (nat_eq current.revision input.expected_revision)
    then refused locks (ServiceError.conflict (some current.revision))
    else let (locks', taken) =
        has_any_lock q.lock_check q.document_id (element_ids current.canonical_model.diagram)
          locks in
      if taken
      then refused locks' (ServiceError.conflict none)
      else replace q input stored seen locks'

unfoldable pub update :
    DocumentRequest
    → UpdateDocument
    → Bool
    → (ℕ → Database)
    → LockStore
    → DocumentAnswer UmlDocument
update q input overloaded seen locks =
    after locks (normalized q input.canonical_model (input.expected_revision + 1)) λ stored.
      after locks (require (not overloaded) ServiceError.too_many_requests) λ _.
        after locks (authorize q seen) λ _.
          after locks (find_in_project q (seen 3))
            λ current. update_current q input stored seen locks current
