-- ===== src/Rest/Documents/Rows.antt =====
-- documents.service.ts: the rows that an update leaves, and what it and the commands of the same
-- document do to one another.
use mathlib.Core.List.{Memᴰ}
use uml_class_designer_be.Common.{
  ℕ, ◌+◌, String, Bool, true, false, ◌≡◌, ◌≢◌, refl, sym, ap, ◌∙◌, subst, Option, none, some, [],
  ◌∷◌, ◌++◌, map, arith, some_inj, if◌then◌else◌, ◌==◌, eq_iff, IsDistinct, find-map_same,
  find_of_Memᴰ, filter-one, on_some, find-some,
}
use uml_class_designer_be.Uml.Types.{CanonicalUmlModel}
use uml_class_designer_be.Uml.Executor.{element_ids}
use uml_class_designer_be.Collaboration.Locks.{LockStore}
use uml_class_designer_be.Collaboration.Locks.Releases.{has_any_lock}
use uml_class_designer_be.Collaboration.Database.{
  Database, UmlDocument, find_document, is_collaborator,
}
use uml_class_designer_be.Collaboration.Commands.{Request}
use uml_class_designer_be.Collaboration.Commands.Process.{process}
use uml_class_designer_be.Collaboration.Commands.Commits.Rows.{process-IsApplied}
use uml_class_designer_be.Rest.Replies.{done}
use uml_class_designer_be.Rest.Documents.{
  DocumentRequest, UpdateDocument, normalized, find_in_project,
}
use uml_class_designer_be.Rest.Documents.Update.{
  is_replaced, replaced_document, name_or, write_update, update,
}
use uml_class_designer_be.Rest.Documents.Laws.{update-IsCommitted}

-- An update has been applied to a database, and nothing else: its document has the normalized
-- model at the next revision and the name that is given, if any; the revision with the same model
-- is added; and no other document or table changes.
pub record IsReplaced (q : DocumentRequest) (input : UpdateDocument) (db db' : Database)
    : Type 0 where
  pub before : UmlDocument
  pub stored : CanonicalUmlModel
  pub found : find_document db q.document_id ≡ some before
  pub own_project : before.project_id ≡ q.project_id
  pub matched : before.revision ≡ input.expected_revision
  pub allowed : is_collaborator db before.project_id q.user_id ≡ true
  pub valid : normalized q input.canonical_model (input.expected_revision + 1) ≡ done stored
  pub replaced :
      find_document db' q.document_id
      ≡ some (record before {
        name = elim input.name [ none ↦ before.name | some new ↦ new ];
        canonical_model = stored;
        revision = before.revision + 1;
        updated_by_id = q.user_id;
      })
  pub history : db'.revisions ≡ (
      db.revisions
      ++ record {
        document_id = q.document_id;
        revision = input.expected_revision + 1;
        canonical_model = stored;
        author_id = q.user_id;
      }
        ∷ [])
  pub others : (id : String) → id ≢ q.document_id → find_document db' id ≡ find_document db id
  pub other_tables : db' ≡ record db { documents = db'.documents; revisions = db'.revisions }

name_or_lem :
    (name : Option String) (old : String)
    → name_or name old ≡ elim name [ none ↦ old | some new ↦ new ]
name_or_lem none old = refl
name_or_lem (some new) old = refl

module _ (q : DocumentRequest) (input : UpdateDocument) (db : Database)
    (stored : CanonicalUmlModel) where
  rewritten : UmlDocument → UmlDocument
  rewritten d = if is_replaced q input db d then replaced_document q input stored d else d

  rewritten-id : (d : UmlDocument) → (rewritten d).id ≡ d.id
  unfolding rewritten
  rewritten-id d = ground arith

  rewritten-other :
      (id : String) (o : Option UmlDocument)
      → id ≢ q.document_id
      → ((d : UmlDocument) → o ≡ some d → d.id ≡ id)
      → on_some rewritten o ≡ o
  unfolding rewritten
  rewritten-other id none other h = refl
  rewritten-other id (some d) other h = ground (arith, h d refl, eq_iff d.id q.document_id)

  write_update-IsReplaced :
      (before : UmlDocument)
      → IsDistinct (map (λ d. d.id) db.documents)
      → Memᴰ before db.documents
      → is_replaced q input db before ≡ true
      → normalized q input.canonical_model (input.expected_revision + 1) ≡ done stored
      → IsReplaced q input db (write_update q input stored db)
  unfolding write_update rewritten
  write_update-IsReplaced before distinct in_table hit valid =
      let its_id : before.id ≡ q.document_id =
        ground (arith, hit, eq_iff before.id q.document_id) in
      let found : find_document db q.document_id ≡ some before =
        subst (λ id. find_document db id ≡ some before) its_id
          (find_of_Memᴰ (λ d. d.id) db.documents before distinct in_table) in
      record {
        before = before;
        stored = stored;
        found = found;
        own_project = ground (arith, hit, eq_iff before.project_id q.project_id);
        matched = ground (arith, hit);
        allowed = ground (arith, hit);
        valid = valid;
        replaced =
            find-map_same (λ d. d.id) q.document_id rewritten db.documents rewritten-id
            ∙ (ap (on_some rewritten) found
                ∙ (ground (arith, hit)
                    ∙ ap
                        (λ n. some (record before {
                          name = n;
                          canonical_model = stored;
                          revision = before.revision + 1;
                          updated_by_id = q.user_id;
                        }))
                        (name_or_lem input.name before.name)));
        history = refl;
        others = λ id other.
            find-map_same (λ d. d.id) id rewritten db.documents rewritten-id
            ∙ rewritten-other id (find_document db id) other
                (λ d e. (eq_iff d.id id).0 (find-some (λ x. x.id == id) db.documents e).1);
        other_tables = refl;
      }

-- An update that is written, where the identifiers of documents are a key, replaces a document of
-- the project that is at the expected revision and of which the caller is a collaborator: it has
-- the normalized model at the next revision, which the revision that is added has as well, and no
-- other document or table changes. No element of the document that it read was locked.
pub update-IsReplaced :
    (q : DocumentRequest) (input : UpdateDocument) (overloaded : Bool) (seen : ℕ → Database)
    (locks : LockStore) (db' : Database)
    → IsDistinct (map (λ d. d.id) (seen 4).documents)
    → (update q input overloaded seen locks).written ≡ some db'
    → IsReplaced q input (seen 4) db'
      × (current : UmlDocument) × (find_in_project q (seen 3) ≡ done current)
      × (current.revision ≡ input.expected_revision)
      × ((has_any_lock q.lock_check q.document_id
            (element_ids current.canonical_model.diagram)
            locks).1
          ≡ false)
update-IsReplaced q input overloaded seen locks db' distinct h =
    let c = update-IsCommitted q input overloaded seen locks db' h in
    let (before, in_table, hit) =
      filter-one (is_replaced q input (seen 4)) (seen 4).documents c.target in
    (
      subst (IsReplaced q input (seen 4)) (sym c.database)
          (write_update-IsReplaced q input (seen 4) c.stored before distinct in_table hit c.valid),
      c.current,
      c.read,
      c.at_revision,
      c.unlocked,
    )

-- A command and an update of the same document for the same revision do not both come through:
-- on a document as the one that was written first left it, the other writes nothing.
pub update_or_command :
    (q : DocumentRequest) (input : UpdateDocument) (overloaded : Bool) (c : Request)
    (seen seen' : ℕ → Database) (locks locks' : LockStore) (db db' : Database)
    → IsDistinct (map (λ d. d.id) (seen 4).documents)
    → IsDistinct (map (λ d. d.id) (seen' 6).documents)
    → c.input.document_id ≡ q.document_id
    → c.input.base_revision ≡ input.expected_revision
    → (update q input overloaded seen locks).written ≡ some db
    → (process c seen' locks').written ≡ some db'
    → (find_document (seen' 6) q.document_id ≢ find_document db q.document_id)
      × (find_document (seen 4) q.document_id ≢ find_document db' q.document_id)
update_or_command q input overloaded c seen seen' locks locks' db db' d d' same base w w' =
    let first = (update-IsReplaced q input overloaded seen locks db d w).0 in
    let second = process-IsApplied c seen' locks' db' d' w' in
    let second_found =
      subst (λ i. find_document (seen' 6) i ≡ some second.before) same second.found in
    let second_left =
      subst
        (λ i.
          find_document db' i
          ≡ some (record second.before {
            canonical_model = second.stored;
            revision = second.before.revision + 1;
            updated_by_id = c.identity.user_id;
          }))
        same second.replaced in
    (
      λ left.
          let met = some_inj (sym second_found ∙ left ∙ first.replaced) in
          omega
            (arith, ap (λ (x : UmlDocument). x.revision) met, second.matched, first.matched, base),
      λ left.
          let met = some_inj (sym first.found ∙ left ∙ second_left) in
          omega
            (arith, ap (λ (x : UmlDocument). x.revision) met, second.matched, first.matched, base),
    )
