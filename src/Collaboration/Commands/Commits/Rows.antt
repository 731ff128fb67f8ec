-- ===== src/Collaboration/Commands/Commits/Rows.antt =====
-- document-command.service.ts: the rows that a committed command leaves.
use mathlib.Core.List.{Memᴰ}
use uml_class_designer_be.Common.{
  ℕ, ◌+◌, String, true, false, ◌≡◌, ◌≢◌, refl, sym, ap, subst, ◌∙◌, Option, none, some, [], ◌∷◌,
  ◌++◌, map, ◌==◌, eq_iff, eq_refl, arith, IsDistinct, find-map_same, find_of_Memᴰ, filter-one,
  find-append_new, find-append_other, on_some, if◌then◌else◌, find-some, All, ◌&&◌,
}
use uml_class_designer_be.Uml.Types.{CanonicalUmlModel}
use uml_class_designer_be.Uml.Executor.{execute}
use uml_class_designer_be.Uml.Validation.Semantics.{IsSound}
use uml_class_designer_be.Uml.Persistence.{remapped, stamped, to_canonical_persistence_id}
use uml_class_designer_be.Uml.Persistence.Stamp.{stamped-IsSound}
use uml_class_designer_be.Uml.Multiplicity.{codes}
use uml_class_designer_be.Uml.Validation.Characters.Laws.{IsXmlChar}
use uml_class_designer_be.Collaboration.Locks.{LockStore}
use uml_class_designer_be.Collaboration.Database.{
  Database, UmlDocument, find_document, find_operation, is_operation, is_collaborator, count,
}
use uml_class_designer_be.Collaboration.Commands.{
  Reply, done, Request, ProcessedDocumentCommand, lock_command_authorization,
}
use uml_class_designer_be.Collaboration.Commands.Process.{
  is_target, updated_document, new_operation, write_command, has_duplicate, process, accepted,
}
use uml_class_designer_be.Collaboration.Commands.Commits.{process-IsCommitted}
use uml_class_designer_be.Collaboration.Commands.Commits.Models.{named, next_models-IsResult}

-- A command has been applied to a database, and nothing else: its document, at the base revision
-- and of a project of which the caller is a collaborator, has a model at the next revision, the
-- revision with the same model is added, and the operation is on record.
pub record IsApplied (q : Request) (db db' : Database) : Type 0 where
  pub before : UmlDocument
  pub stored : CanonicalUmlModel
  pub found : find_document db q.input.document_id ≡ some before
  pub matched : before.revision ≡ q.input.base_revision
  pub allowed : is_collaborator db before.project_id q.identity.user_id ≡ true
  pub replaced :
      find_document db' q.input.document_id
      ≡ some (record before {
        canonical_model = stored;
        revision = before.revision + 1;
        updated_by_id = q.identity.user_id;
      })
  pub recorded :
      find_operation db' q.input.document_id q.input.operation_id
      ≡ some (record {
        operation_id = q.input.operation_id;
        document_id = q.input.document_id;
        actor_id = q.identity.user_id;
        base_revision = q.input.base_revision;
        resulting_revision = q.input.base_revision + 1;
        command = q.input.command;
        command_fingerprint = q.engine.fingerprint q.input.base_revision q.input.command;
        committed_at = q.clock.commit;
        broadcasted_at = none;
      })
  pub history : db'.revisions ≡ (
      db.revisions
      ++ record {
        document_id = q.input.document_id;
        revision = q.input.base_revision + 1;
        canonical_model = stored;
        author_id = q.identity.user_id;
      }
        ∷ [])
  pub other_documents :
      (id : String) → id ≢ q.input.document_id → find_document db' id ≡ find_document db id
  pub other_operations :
      (d o : String)
      → (q.input.document_id == d && q.input.operation_id == o) ≡ false
      → find_operation db' d o ≡ find_operation db d o
  pub other_tables : db' ≡ record db {
    documents = db'.documents;
    revisions = db'.revisions;
    operations = db'.operations;
  }

module _ (q : Request) (db : Database) (stored : CanonicalUmlModel) where
  rewritten : UmlDocument → UmlDocument
  rewritten d = if is_target q db d then updated_document q stored d else d

  rewritten-id : (d : UmlDocument) → (rewritten d).id ≡ d.id
  unfolding rewritten
  rewritten-id d = ground arith

  rewritten-other :
      (id : String) (o : Option UmlDocument)
      → id ≢ q.input.document_id
      → ((d : UmlDocument) → o ≡ some d → d.id ≡ id)
      → on_some rewritten o ≡ o
  unfolding rewritten
  rewritten-other id none other h = refl
  rewritten-other id (some d) other h = ground (arith, h d refl, eq_iff d.id q.input.document_id)

  write_command-IsApplied :
      (before : UmlDocument)
      → IsDistinct (map (λ d. d.id) db.documents)
      → Memᴰ before db.documents
      → is_target q db before ≡ true
      → has_duplicate q db ≡ false
      → (applied : IsApplied q db (write_command q stored db)) × (applied.stored ≡ stored)
  unfolding write_command has_duplicate rewritten
  write_command-IsApplied before distinct in_table hit unique =
      let its_id : before.id ≡ q.input.document_id =
        ground (arith, hit, eq_iff before.id q.input.document_id) in
      let found : find_document db q.input.document_id ≡ some before =
        subst (λ id. find_document db id ≡ some before) its_id
          (find_of_Memᴰ (λ d. d.id) db.documents before distinct in_table) in
      (
        record {
          before = before;
          stored = stored;
          found = found;
          matched = ground (arith, hit);
          allowed = ground (arith, hit);
          replaced =
              find-map_same (λ d. d.id) q.input.document_id rewritten db.documents rewritten-id
              ∙ (ap (on_some rewritten) found ∙ ground (arith, hit));
          recorded =
              find-append_new (is_operation q.input.document_id q.input.operation_id) db.operations
                (new_operation q) (ground (arith, unique))
                (ground (arith, eq_refl q.input.document_id, eq_refl q.input.operation_id));
          history = refl;
          other_documents = λ id other.
              find-map_same (λ d. d.id) id rewritten db.documents rewritten-id
              ∙ rewritten-other id (find_document db id) other
                  (λ d e. (eq_iff d.id id).0 (find-some (λ x. x.id == id) db.documents e).1);
          other_operations =
              λ d o miss. find-append_other (is_operation d o) db.operations (new_operation q) miss;
          other_tables = refl;
        },
        refl,
      )

-- The rows of a commit, with the model that it stores.
stored-IsApplied :
    (q : Request) (seen : ℕ → Database) (db' : Database) (stored : CanonicalUmlModel)
    → IsDistinct (map (λ d. d.id) (seen 6).documents)
    → count (is_target q (seen 6)) (seen 6).documents ≡ 1
    → has_duplicate q (seen 6) ≡ false
    → db' ≡ write_command q stored (seen 6)
    → (applied : IsApplied q (seen 6) db') × (applied.stored ≡ stored)
stored-IsApplied q seen db' stored distinct target unique written =
    let (before, in_table, hit) = filter-one (is_target q (seen 6)) (seen 6).documents target in
    subst (λ db. (applied : IsApplied q (seen 6) db) × (applied.stored ≡ stored)) (sym written)
      (write_command-IsApplied q (seen 6) stored before distinct in_table hit unique)

-- The write of a command that is committed, where the identifiers of documents are a key: the
-- document was at the base revision, of a project of which the caller is a collaborator. After it
-- the document has one model at the next revision, which is also the one of the revision that is
-- added, the operation is on record with the request's content, the caller and the time, to be
-- broadcast, and no other document, operation or table changes.
pub process-IsApplied :
    (q : Request) (seen : ℕ → Database) (locks : LockStore) (db' : Database)
    → IsDistinct (map (λ d. d.id) (seen 6).documents)
    → (process q seen locks).written ≡ some db'
    → IsApplied q (seen 6) db'
process-IsApplied q seen locks db' distinct h =
    let c = process-IsCommitted q seen locks db' h in
    (stored-IsApplied q seen db' c.stored distinct c.target c.unique c.database).0

-- The result of a command on a document with its identifiers, before the stamp.
abbrev pub unstamped : Request → UmlDocument → CanonicalUmlModel → CanonicalUmlModel
unstamped q document next = record next {
  project = record next.project {
    id = to_canonical_persistence_id q.engine "project" document.project_id;
  };
  diagram = record next.diagram {
    id = to_canonical_persistence_id q.engine "diagram" q.input.document_id;
  };
}

-- What a call that stores a model has computed, from the document that its transaction read, and
-- what it answers.
pub record IsStored (q : Request) (document : UmlDocument) (next stored : CanonicalUmlModel)
    (reply : Reply ProcessedDocumentCommand) : Type 0 where
  pub executed : execute q.engine.stringify document.canonical_model q.input.command ≡ some next
  pub normalized : stored ≡ record next {
    project = record next.project {
      id = to_canonical_persistence_id q.engine "project" document.project_id;
    };
    diagram = record next.diagram {
      id = to_canonical_persistence_id q.engine "diagram" q.input.document_id;
    };
    metadata = record next.metadata {
      revision = q.input.base_revision + 1;
      updated_at = q.engine.iso q.clock.commit;
    };
  }
  pub conforming : q.engine.conforms (unstamped q document next) ≡ true
  pub sound : IsSound stored
  pub answered :
      reply
      ≡ done (record {
        operation_id = q.input.operation_id;
        document_id = q.input.document_id;
        base_revision = q.input.base_revision;
        revision = q.input.base_revision + 1;
        committed_at = q.engine.iso q.clock.commit;
        command = q.input.command;
        idempotent = false;
        requires_broadcast = true;
        active_element_ids = map (λ e. e.id) next.diagram.elements;
      })

-- The model that a committed command leaves in its document, where the identifiers of documents
-- are a key, is the result of the command on the document that the transaction read, under the
-- identifiers of the database, with the next revision and the time. It is sound, if the text of
-- the time is of characters that XML 1.0 has, and conforms to the schema before it is stamped. The
-- reply has the next revision, the time and the elements of the result, not marked as idempotent,
-- and asks for the broadcast.
pub process-IsResult :
    (q : Request) (seen : ℕ → Database) (locks : LockStore) (db' : Database)
    → All IsXmlChar (codes (q.engine.iso q.clock.commit))
    → IsDistinct (map (λ d. d.id) (seen 6).documents)
    → (process q seen locks).written ≡ some db'
    → (document : UmlDocument) × (next : CanonicalUmlModel) × (applied : IsApplied q (seen 6) db')
      × (lock_command_authorization q seen ≡ done document)
      × IsStored q document next applied.stored (process q seen locks).reply
unfolding remapped stamped accepted
process-IsResult q seen locks db' printable distinct h =
    let c = process-IsCommitted q seen locks db' h in
    let r = next_models-IsResult q c.document c.next c.stored c.models in
    let (applied, same) =
      stored-IsApplied q seen db' c.stored distinct c.target c.unique c.database in
    (
      c.document,
      c.next,
      applied,
      c.authorized,
      record {
        executed = r.executed;
        normalized = same ∙ r.is_stamped;
        conforming = r.conforming;
        sound = subst IsSound (sym (same ∙ r.is_stamped)) (
            stamped-IsSound (q.input.base_revision + 1) (q.engine.iso q.clock.commit)
              (named q c.document c.next) printable r.sound);
        answered = c.reply;
      },
    )
