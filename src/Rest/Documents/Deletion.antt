-- ===== src/Rest/Documents/Deletion.antt =====
-- documents.service.ts: delete.
use uml_class_designer_be.Common.{
  ℕ, String, Bool, not, ◌&&◌, none, some, any, filter, nat_eq, ◌==◌, if◌then◌else◌,
}
use uml_class_designer_be.Collaboration.Locks.{LockStore}
use uml_class_designer_be.Collaboration.Database.{
  Database, UmlDocument, DocumentRevision, DocumentOperation, is_collaborator, count,
}
use uml_class_designer_be.Rest.Replies.{ServiceError, done, failed, require}
use uml_class_designer_be.Rest.Documents.{
  DocumentRequest, DocumentCollaborationChange, DocumentAnswer, after, authorize,
}

-- the condition of `deleteMany`
abbrev pub is_deleted : DocumentRequest → Database → UmlDocument → Bool
is_deleted q db d =
    d.id == q.document_id
    && d.project_id == q.project_id
    && is_collaborator db d.project_id q.user_id

-- The revisions and operations of a document go with it.
unfoldable pub without_documents : (UmlDocument → Bool) → Database → Database
without_documents p db =
    let gone = λ (id : String). any (λ d. d.id == id && p d) db.documents in
    record db {
      documents = filter (λ d. not (p d)) db.documents;
      revisions = filter (λ (r : DocumentRevision). not (gone r.document_id)) db.revisions;
      operations = filter (λ (o : DocumentOperation). not (gone o.document_id)) db.operations;
    }

-- The statement is committed before its count is looked at.
unfoldable pub delete :
    DocumentRequest → Bool → (ℕ → Database) → LockStore → DocumentAnswer (Unit {0})
delete q overloaded seen locks =
    after locks (require (not overloaded) ServiceError.too_many_requests) λ _.
      after locks (authorize q seen) λ _.
        let removed = some (without_documents (is_deleted q (seen 3)) (seen 3)) in
        if nat_eq (count (is_deleted q (seen 3)) (seen 3).documents) 1
        then record {
          reply = done tt;
          written = removed;
          published = some (DocumentCollaborationChange.deleted q.document_id);
          locks = locks;
        }
        else record {
          reply = failed ServiceError.not_found;
          written = removed;
          published = none;
          locks = locks;
        }
