-- ===== src/Rest/Documents.antt =====
-- src/modules/uml-domain/documents.service.ts. At the n-th statement of a transaction the database
-- is `seen n`, as in the command service; from the statement that writes to the end the rows that
-- it wrote are locked, and an exception within it rolls them back. Whether the queue of the
-- document is full is an argument; the operation that is queued begins by itself
-- (`Collaboration.MutationQueue`).
pub mod Creation
pub mod Update
pub mod Deletion
pub mod Laws
pub mod Rows
pub mod Removal
use uml_class_designer_be.Common.{
  ℕ, ◌+◌, String, Bool, true, false, not, ◌&&◌, ◌||◌, Option, none, some, List, [], ◌∷◌, ◌++◌, map,
  any, filter, find, nat_eq, ◌==◌, if◌then◌else◌,
}
use uml_class_designer_be.Uml.Types.{CanonicalUmlModel}
use uml_class_designer_be.Uml.Engine.{Engine}
use uml_class_designer_be.Uml.Executor.{element_ids}
use uml_class_designer_be.Uml.Persistence.{PersistenceIdentity, validate_and_normalize}
use uml_class_designer_be.Collaboration.Locks.{LockStore}
use uml_class_designer_be.Collaboration.Locks.Releases.{has_any_lock}
use uml_class_designer_be.Collaboration.Database.{
  Database, UmlDocument, DocumentRevision, DocumentOperation, is_collaborator, find_document, count,
}
use uml_class_designer_be.Rest.Replies.{
  ServiceError, ServiceReply, done, failed, ◌>>=◌, require, required, validated,
  lock_mutation_session, lock_collaborator_membership,
}

-- who calls, on what, and when
pub record DocumentRequest : Type 0 where
  pub engine : Engine
  pub project_id : String
  pub document_id : String
  pub user_id : String
  pub session_id : String
  pub now : ℕ
  pub lock_check : ℕ

pub record UpdateDocument : Type 0 where
  pub name : Option String
  pub expected_revision : ℕ
  pub canonical_model : CanonicalUmlModel

-- document-collaboration-event-bus.service.ts
pub data DocumentCollaborationChange : Type 0 where
  resync_required :
      (document_id : String) (revision : ℕ) (active_element_ids : List String)
      → DocumentCollaborationChange
  deleted : (document_id : String) → DocumentCollaborationChange

-- A call's reply, the database that it commits (none where it writes nothing), what it publishes,
-- and the locks, some of which it lets expire.
pub record DocumentAnswer {ℓ} (A : Type ℓ) : Type ℓ where
  pub reply : ServiceReply A
  pub written : Option Database
  pub published : Option DocumentCollaborationChange
  pub locks : LockStore

abbrev pub refused {ℓ} : {A : Type ℓ} → LockStore → ServiceError → DocumentAnswer A
refused locks e = record { reply = failed e; written = none; published = none; locks = locks }

-- what follows a check is skipped where it throws
abbrev pub after {ℓ κ} :
    {A : Type ℓ} {B : Type κ}
    → LockStore
    → ServiceReply A
    → (A → DocumentAnswer B)
    → DocumentAnswer B
after locks (done a) next = next a
after locks (failed e) next = refused locks e

abbrev pub is_member : Database → String → String → Bool
is_member db project user = any (λ m. m.project_id == project && m.user_id == user) db.members

unfoldable pub list : DocumentRequest → Database → List UmlDocument
list q db =
    filter (λ d. d.project_id == q.project_id && is_member db d.project_id q.user_id) db.documents

unfoldable pub get : DocumentRequest → Database → ServiceReply UmlDocument
get q db =
    required
      (find
        (λ d.
          d.id == q.document_id
          && d.project_id == q.project_id
          && is_member db d.project_id q.user_id)
        db.documents)
      ServiceError.not_found

-- the locks of the session, the project and the membership, at the first three statements
unfoldable pub authorize : DocumentRequest → (ℕ → Database) → ServiceReply (Unit {0})
authorize q seen = do
  _ ← lock_mutation_session q.engine q.now q.user_id q.session_id (seen 0)
  lock_collaborator_membership q.project_id q.user_id (seen 1) (seen 2)

unfoldable pub find_in_project : DocumentRequest → Database → ServiceReply UmlDocument
find_in_project q db =
    required (find (λ d. d.id == q.document_id && d.project_id == q.project_id) db.documents)
      ServiceError.not_found

unfoldable pub with_authorized_document_snapshot {ℓ} :
    {A : Type ℓ}
    → DocumentRequest
    → (ℕ → Database)
    → (UmlDocument → ServiceReply A)
    → ServiceReply A
with_authorized_document_snapshot q seen read = do
  _ ← authorize q seen
  document ← find_in_project q (seen 3)
  read document

abbrev pub persistence_identity : DocumentRequest → PersistenceIdentity
persistence_identity q = record { project_id = q.project_id; document_id = q.document_id }

abbrev pub normalized : DocumentRequest → CanonicalUmlModel → ℕ → ServiceReply CanonicalUmlModel
normalized q model revision =
    validated (validate_and_normalize q.engine model revision q.now (some (persistence_identity q)))

-- The constraint `projectId_name`, for another document than this one.
abbrev pub is_name_taken : DocumentRequest → String → Database → Bool
is_name_taken q name db =
    any (λ d. not (d.id == q.document_id) && d.project_id == q.project_id && d.name == name)
      db.documents

abbrev pub has_revision : DocumentRequest → ℕ → Database → Bool
has_revision q revision db =
    any (λ r. r.document_id == q.document_id && nat_eq r.revision revision) db.revisions

abbrev pub revision_row : DocumentRequest → ℕ → CanonicalUmlModel → DocumentRevision
revision_row q revision model = record {
  document_id = q.document_id;
  revision = revision;
  canonical_model = model;
  author_id = q.user_id;
}

abbrev pub new_document : DocumentRequest → String → CanonicalUmlModel → UmlDocument
new_document q name model = record {
  id = q.document_id;
  project_id = q.project_id;
  name = name;
  canonical_model = model;
  revision = 0;
  created_by_id = q.user_id;
  updated_by_id = q.user_id;
}
