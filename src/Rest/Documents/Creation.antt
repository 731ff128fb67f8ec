-- ===== src/Rest/Documents/Creation.antt =====
-- documents.service.ts: create.
use uml_class_designer_be.Common.{
  ℕ, String, ◌||◌, none, some, [], ◌∷◌, ◌++◌, any, ◌==◌, if◌then◌else◌,
}
use uml_class_designer_be.Uml.Types.{CanonicalUmlModel}
use uml_class_designer_be.Collaboration.Locks.{LockStore}
use uml_class_designer_be.Collaboration.Database.{Database, UmlDocument}
use uml_class_designer_be.Rest.Replies.{ServiceError, done}
use uml_class_designer_be.Rest.Documents.{
  DocumentRequest, DocumentAnswer, refused, after, authorize, normalized, is_name_taken,
  has_revision, revision_row, new_document,
}

unfoldable pub insert_document :
    DocumentRequest → String → CanonicalUmlModel → LockStore → Database → DocumentAnswer UmlDocument
insert_document q name model locks db =
    if any (λ d. d.id == q.document_id) db.documents
      || is_name_taken q name db
      || has_revision q 0 db
    then refused locks (ServiceError.conflict none)
    else record {
      reply = done (new_document q name model);
      written = some (record db {
        documents = db.documents ++ new_document q name model ∷ [];
        revisions = db.revisions ++ revision_row q 0 model ∷ [];
      });
      published = none;
      locks = locks;
    }

-- `documentId` is a new random identifier.
unfoldable pub create :
    DocumentRequest
    → String
    → CanonicalUmlModel
    → (ℕ → Database)
    → LockStore
    → DocumentAnswer UmlDocument
create q name model seen locks =
    after locks (normalized q model 0)
      λ stored. after locks (authorize q seen) λ _. insert_document q name stored locks (seen 3)
