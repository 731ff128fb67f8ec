-- ===== src/Rest/Documents/Laws.antt =====
-- documents.service.ts: what an update that is written has passed.
use uml_class_designer_be.Common.{
  ℕ, ◌+◌, Bool, false, not, ◌||◌, ◌≡◌, refl, inl, inr, some, arith, Option-cases,
}
use uml_class_designer_be.Uml.Types.{CanonicalUmlModel}
use uml_class_designer_be.Uml.Executor.{element_ids}
use uml_class_designer_be.Collaboration.Locks.{LockStore}
use uml_class_designer_be.Collaboration.Locks.Releases.{has_any_lock}
use uml_class_designer_be.Collaboration.Database.{Database, UmlDocument, find_document, count}
use uml_class_designer_be.Rest.Replies.{ServiceError, ServiceReply, done, failed, require}
use uml_class_designer_be.Rest.Documents.{
  DocumentRequest, UpdateDocument, DocumentAnswer, after, authorize, find_in_project, normalized,
  has_revision,
}
use uml_class_designer_be.Rest.Documents.Update.{
  is_replaced, write_update, has_taken_name, answer_update, replace, update_current, update,
}

-- What was written was not refused.
after-written :
    {A B : Type 0} (locks : LockStore) (m : ServiceReply A) (next : A → DocumentAnswer B)
    (db' : Database)
    → (after locks m next).written ≡ some db'
    → (a : A) × (m ≡ done a) × ((next a).written ≡ some db')
after-written locks (done a) next db' h = (a, refl, h)
after-written locks (failed e) next db' h = absurd (cc)

-- What an update that is written has passed.
pub record IsCommitted (q : DocumentRequest) (input : UpdateDocument) (seen : ℕ → Database)
    (locks : LockStore) (db' : Database) : Type 0 where
  pub stored : CanonicalUmlModel
  pub valid : normalized q input.canonical_model (input.expected_revision + 1) ≡ done stored
  pub authorized : authorize q seen ≡ done tt
  pub current : UmlDocument
  pub read : find_in_project q (seen 3) ≡ done current
  pub at_revision : current.revision ≡ input.expected_revision
  pub unlocked :
      (has_any_lock q.lock_check q.document_id
        (element_ids current.canonical_model.diagram)
        locks).1
      ≡ false
  pub target : count (is_replaced q input (seen 4)) (seen 4).documents ≡ 1
  pub unique :
      (has_taken_name q input.name (seen 4)
        || has_revision q (input.expected_revision + 1) (seen 4))
      ≡ false
  pub database : db' ≡ write_update q input stored (seen 4)

replace-written :
    (q : DocumentRequest) (input : UpdateDocument) (stored : CanonicalUmlModel)
    (seen : ℕ → Database) (locks : LockStore) (db' : Database)
    → (replace q input stored seen locks).written ≡ some db'
    → (count (is_replaced q input (seen 4)) (seen 4).documents ≡ 1)
      × ((has_taken_name q input.name (seen 4)
            || has_revision q (input.expected_revision + 1) (seen 4))
          ≡ false)
      × (db' ≡ write_update q input stored (seen 4))
unfolding replace answer_update
replace-written q input stored seen locks db' h =
    elim (Option-cases (find_document (write_update q input stored (seen 4)) q.document_id)) [
      | inl lost ↦ absurd (ground (arith, lost))
      | inr (d, e) ↦ ground (arith, e)
    ]

update_current-written :
    (q : DocumentRequest) (input : UpdateDocument) (stored : CanonicalUmlModel)
    (seen : ℕ → Database) (locks : LockStore) (current : UmlDocument) (db' : Database)
    → (update_current q input stored seen locks current).written ≡ some db'
    → (current.revision ≡ input.expected_revision)
      × ((has_any_lock q.lock_check q.document_id
            (element_ids current.canonical_model.diagram)
            locks).1
          ≡ false)
      × ((replace q input stored seen
            (has_any_lock q.lock_check q.document_id
              (element_ids current.canonical_model.diagram)
              locks).0).written
          ≡ some db')
unfolding update_current
update_current-written q input stored seen locks current db' h = ground arith

pub update-IsCommitted :
    (q : DocumentRequest) (input : UpdateDocument) (overloaded : Bool) (seen : ℕ → Database)
    (locks : LockStore) (db' : Database)
    → (update q input overloaded seen locks).written ≡ some db'
    → IsCommitted q input seen locks db'
unfolding update
update-IsCommitted q input overloaded seen locks db' h =
    let (stored, valid, h₁) =
      after-written locks (normalized q input.canonical_model (input.expected_revision + 1)) _ db'
        h in
    let (open_queue, ready, h₂) =
      after-written locks (require (not overloaded) ServiceError.too_many_requests) _ db' h₁ in
    let (who, authorized, h₃) = after-written locks (authorize q seen) _ db' h₂ in
    let (current, read, h₄) = after-written locks (find_in_project q (seen 3)) _ db' h₃ in
    let (at_revision, unlocked, h₅) =
      update_current-written q input stored seen locks current db' h₄ in
    let (target, unique, database) = replace-written q input stored seen _ db' h₅ in
    record {
      stored = stored;
      valid = valid;
      authorized = authorized;
      current = current;
      read = read;
      at_revision = at_revision;
      unlocked = unlocked;
      target = target;
      unique = unique;
      database = database;
    }
