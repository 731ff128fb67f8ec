-- ===== src/Collaboration/Commands/Commits.antt =====
-- document-command.service.ts: what a command that is committed has passed, and what it writes.
pub mod Models
pub mod Rows
use uml_class_designer_be.Common.{
  ℕ, ◌+◌, String, Bool, true, false, not, ◌&&◌, ◌||◌, ◌≡◌, refl, sym, ap, subst, ◌∙◌, inl, inr, ◌⊎◌,
  Option, none, some, List, nat_eq, arith, Bool-cases, Option-cases, some_inj, if◌then◌else◌,
}
use uml_class_designer_be.Uml.Types.{CanonicalUmlModel}
use uml_class_designer_be.Uml.Executor.{affected_element_ids}
use uml_class_designer_be.Collaboration.Locks.{LockStore}
use uml_class_designer_be.Collaboration.Locks.Releases.{has_lock_owned_by_another_socket}
use uml_class_designer_be.Collaboration.Database.{
  Database, UmlDocument, DocumentOperation, find_operation, count,
}
use uml_class_designer_be.Collaboration.Commands.{
  Reply, done, refused, unique_violation, other_error, ProcessedDocumentCommand, Request,
  lock_command_authorization, resolve_existing,
}
use uml_class_designer_be.Collaboration.Commands.Process.{
  next_models, prepare, is_target, write_command, has_duplicate, accepted, not_updated, Turn,
  unwritten, commit, commit_prepared, process_authorized, process_document, process_in_transaction,
  after_reply, process,
}

module _ (q : Request) (seen : ℕ → Database) (locks : LockStore) where
  -- What has been found out by the time that a command is committed.
  pub record IsCommitted (t : Turn) (db' : Database) : Type 0 where
    pub document : UmlDocument
    pub next : CanonicalUmlModel
    pub stored : CanonicalUmlModel
    pub ids : List String
    pub authorized : lock_command_authorization q seen ≡ done document
    pub new : find_operation (seen 5) q.input.document_id q.input.operation_id ≡ none
    pub current : document.revision ≡ q.input.base_revision
    pub affected : affected_element_ids document.canonical_model.diagram q.input.command ≡ some ids
    pub unlocked :
        (has_lock_owned_by_another_socket q.clock.lock_check q.input.document_id ids q.socket_id
          locks).1
        ≡ false
    pub models : next_models q document ≡ done (next, stored)
    pub target : count (is_target q (seen 6)) (seen 6).documents ≡ 1
    pub unique : has_duplicate q (seen 6) ≡ false
    pub reply : t.reply ≡ done (accepted q next)
    pub database : db' ≡ write_command q stored (seen 6)

  commit-eq-some :
      (next stored : CanonicalUmlModel) (locks' : LockStore) (db' : Database)
      → (commit q seen next stored locks').written ≡ some db'
      → (count (is_target q (seen 6)) (seen 6).documents ≡ 1)
        × (has_duplicate q (seen 6) ≡ false)
        × ((commit q seen next stored locks').reply ≡ done (accepted q next))
        × (db' ≡ write_command q stored (seen 6))
  unfolding commit
  commit-eq-some next stored locks' db' h =
      elim (Bool-cases (nat_eq (count (is_target q (seen 6)) (seen 6).documents) 1)) [
        | inr missed ↦ absurd (ground arith)
        | inl hit ↦ elim (Bool-cases (has_duplicate q (seen 6))) [
          | inl taken ↦ absurd (ground arith)
          | inr free ↦ (ground arith, free, ground arith, ground arith)
        ]
      ]

  commit_prepared-eq-some :
      (locks' : LockStore) (prepared : Reply (CanonicalUmlModel × CanonicalUmlModel))
      (db' : Database)
      → (commit_prepared q seen locks' prepared).written ≡ some db'
      → (next : CanonicalUmlModel) × (stored : CanonicalUmlModel) × (prepared ≡ done (next, stored))
        × (commit_prepared q seen locks' prepared ≡ commit q seen next stored locks')
  unfolding commit_prepared
  commit_prepared-eq-some locks' (done (next, stored)) db' h = (next, stored, refl, refl)
  commit_prepared-eq-some locks' (refused code current) db' h = absurd (cc)
  commit_prepared-eq-some locks' unique_violation db' h = absurd (cc)
  commit_prepared-eq-some locks' other_error db' h = absurd (cc)

  process_authorized-eq-some :
      (reply : Reply UmlDocument) (db' : Database)
      → (process_authorized q seen locks reply).written ≡ some db'
      → (document : UmlDocument) × (reply ≡ done document)
        × (process_authorized q seen locks reply ≡ process_document q seen document locks)
  unfolding process_authorized
  process_authorized-eq-some (done document) db' h = (document, refl, refl)
  process_authorized-eq-some (refused code current) db' h = absurd (cc)
  process_authorized-eq-some unique_violation db' h = absurd (cc)
  process_authorized-eq-some other_error db' h = absurd (cc)

  -- The lock check answers no, and the command gives models.
  prepare-eq-done :
      (document : UmlDocument) (next stored : CanonicalUmlModel)
      → (prepare q document locks).1 ≡ done (next, stored)
      → (ids : List String) × (affected_element_ids document.canonical_model.diagram q.input.command
          ≡ some ids)
        × ((has_lock_owned_by_another_socket q.clock.lock_check q.input.document_id ids q.socket_id
              locks).1
            ≡ false)
        × (next_models q document ≡ done (next, stored))
  unfolding prepare
  prepare-eq-done document next stored h =
      elim (Option-cases (affected_element_ids document.canonical_model.diagram q.input.command)) [
        | inl none_affected ↦ absurd (ground arith)
        | inr (ids, affected) ↦
            elim (Bool-cases
              (has_lock_owned_by_another_socket q.clock.lock_check q.input.document_id ids
                q.socket_id locks).1) [
                  | inl taken ↦ absurd (ground arith)
                  | inr free ↦ (ids, affected, free, ground arith)
                ]
      ]

  process_document-IsCommitted :
      (document : UmlDocument) (db' : Database)
      → lock_command_authorization q seen ≡ done document
      → (process_document q seen document locks).written ≡ some db'
      → IsCommitted (process_document q seen document locks) db'
  unfolding process_document
  process_document-IsCommitted document db' a h =
      elim (Option-cases (find_operation (seen 5) q.input.document_id q.input.operation_id)) [
        | inr (existing, found) ↦ absurd (ground arith)
        | inl new ↦ elim (Bool-cases (nat_eq document.revision q.input.base_revision)) [
          | inr stale ↦ absurd (ground arith)
          | inl current ↦
              let p = prepare q document locks in
              let reduces : process_document q seen document locks
                  ≡ commit_prepared q seen p.0 p.1 =
                ground (arith, new, current) in
              let (next, stored, planned, same) =
                commit_prepared-eq-some p.0 p.1 db' (ap (λ t. t.written) (sym reduces) ∙ h) in
              let (ids, affected, free, models) = prepare-eq-done document next stored planned in
              let whole = reduces ∙ same in
              let (target, unique, reply, database) =
                commit-eq-some next stored p.0 db' (ap (λ t. t.written) (sym whole) ∙ h) in
              record {
                document = document;
                next = next;
                stored = stored;
                ids = ids;
                authorized = a;
                new = new;
                current = ground (arith, current);
                affected = affected;
                unlocked = free;
                models = models;
                target = target;
                unique = unique;
                reply = ap (λ t. t.reply) whole ∙ reply;
                database = database;
              }
        ]
      ]

  process_in_transaction-IsCommitted :
      (db' : Database)
      → (process_in_transaction q seen locks).written ≡ some db'
      → IsCommitted (process_in_transaction q seen locks) db'
  unfolding process_in_transaction
  process_in_transaction-IsCommitted db' h =
      let (document, authorized, same) =
        process_authorized-eq-some (lock_command_authorization q seen) db' h in
      subst (λ t. IsCommitted t db') (sym same)
        (process_document-IsCommitted document db' authorized (ap (λ t. t.written) (sym same) ∙ h))

  after_reply-written :
      (t : Turn) (r : Reply ProcessedDocumentCommand) → (after_reply q seen t r).written ≡ t.written
  unfolding after_reply
  after_reply-written t (done p) = refl
  after_reply-written t (refused code current) = refl
  after_reply-written t unique_violation = refl
  after_reply-written t other_error = refl

  after_reply-done :
      (t : Turn) (r : Reply ProcessedDocumentCommand) {p : ProcessedDocumentCommand}
      → r ≡ done p
      → after_reply q seen t r ≡ t
  unfolding after_reply
  after_reply-done t (done p) h = refl
  after_reply-done t (refused code current) h = absurd (cc)
  after_reply-done t unique_violation h = absurd (cc)
  after_reply-done t other_error h = absurd (cc)

  pub process-IsCommitted :
      (db' : Database)
      → (process q seen locks).written ≡ some db'
      → IsCommitted (process q seen locks) db'
  unfolding process
  process-IsCommitted db' h =
      let t = process_in_transaction q seen locks in
      let c = process_in_transaction-IsCommitted db' (sym (after_reply-written t t.reply) ∙ h) in
      subst (λ u. IsCommitted u db') (sym (after_reply-done t t.reply c.reply)) c
