-- ===== src/Collaboration/Commands/Commits/Models.antt =====
-- document-command.service.ts: the models that a committed command has computed.
use uml_class_designer_be.Common.{
  ◌+◌, String, true, false, ◌≡◌, ◌≢◌, refl, subst, inl, inr, none, some, [], ◌∷◌, ◌++◌, ◌==◌, arith,
  Option-cases, ◌&&◌,
}
use uml_class_designer_be.Uml.Types.{CanonicalUmlModel}
use uml_class_designer_be.Uml.Executor.{execute}
use uml_class_designer_be.Uml.Validation.Outcome.{Failure, Outcome, returned, thrown}
use uml_class_designer_be.Uml.Validation.Semantics.{IsSound}
use uml_class_designer_be.Uml.Persistence.{
  PersistenceIdentity, validate_and_normalize, remapped, stamped,
}
use uml_class_designer_be.Uml.Persistence.Laws.{normalized_unstamped}
use uml_class_designer_be.Collaboration.Database.{
  Database, UmlDocument, find_document, find_operation, is_collaborator,
}
use uml_class_designer_be.Collaboration.Commands.{
  Reply, done, refused, unique_violation, other_error, Request, ◌>>=◌,
}
use uml_class_designer_be.Collaboration.Commands.Process.{next_models, validated}

-- A command has been applied to a database, and nothing else: its document, at the base revision
-- and of a project of which the caller is a collaborator, has a model at the next revision, the
-- revision with the same model is added, and the operation is on record.
pub record IsApplied (q : Request) (db db' : Database) : Type 0 where
  pub before : UmlDocument
  pub stored : CanonicalUmlModel
  pub found : find_document db q.input.document_id ≡ some before
  pub matched : before.revision ≡ q.input.base_revision
  pub allowed : is_collaborator db before.project_id q.identity.user_id ≡ true
  pub replaced :
      find_document db' q.input.document_id
      ≡ some (record before {
        canonical_model = stored;
        revision = before.revision + 1;
        updated_by_id = q.identity.user_id;
      })
  pub recorded :
      find_operation db' q.input.document_id q.input.operation_id
      ≡ some (record {
        operation_id = q.input.operation_id;
        document_id = q.input.document_id;
        actor_id = q.identity.user_id;
        base_revision = q.input.base_revision;
        resulting_revision = q.input.base_revision + 1;
        command = q.input.command;
        command_fingerprint = q.engine.fingerprint q.input.base_revision q.input.command;
        committed_at = q.clock.commit;
        broadcasted_at = none;
      })
  pub history : db'.revisions ≡ (
      db.revisions
      ++ record {
        document_id = q.input.document_id;
        revision = q.input.base_revision + 1;
        canonical_model = stored;
        author_id = q.identity.user_id;
      }
        ∷ [])
  pub other_documents :
      (id : String) → id ≢ q.input.document_id → find_document db' id ≡ find_document db id
  pub other_operations :
      (d o : String)
      → (q.input.document_id == d && q.input.operation_id == o) ≡ false
      → find_operation db' d o ≡ find_operation db d o
  pub other_tables : db' ≡ record db {
    documents = db'.documents;
    revisions = db'.revisions;
    operations = db'.operations;
  }

-- A model under the identifiers of the database.
abbrev pub named : Request → UmlDocument → CanonicalUmlModel → CanonicalUmlModel
named q document =
    remapped q.engine
      (record { project_id = document.project_id; document_id = q.input.document_id })

-- The stored model is the result of the command on the document, stamped; it was sound before.
pub record IsResult (q : Request) (document : UmlDocument) (next stored : CanonicalUmlModel)
    : Type 0 where
  pub executed : execute q.engine.stringify document.canonical_model q.input.command ≡ some next
  pub is_stamped :
      stored
      ≡ stamped (q.input.base_revision + 1) (q.engine.iso q.clock.commit) (named q document next)
  pub conforming : q.engine.conforms (named q document next) ≡ true
  pub sound : IsSound (named q document next)

done_inj {ℓ} : {A : Type ℓ} {a b : A} → done a ≡ done b → a ≡ b
done_inj h = cc

validated-eq-done :
    (o : Outcome CanonicalUmlModel) {m : CanonicalUmlModel} → validated o ≡ done m → o ≡ returned m
validated-eq-done (returned d) h = cc
validated-eq-done (thrown Failure.syntax_error) h = absurd (cc)
validated-eq-done (thrown Failure.schema) h = absurd (cc)
validated-eq-done (thrown (Failure.semantic path message)) h = absurd (cc)

>>=-eq-done {ℓ κ} :
    {A : Type ℓ} {B : Type κ} (m : Reply A) (f : A → Reply B) {b : B}
    → (m >>= f) ≡ done b
    → (a : A) × (m ≡ done a) × (f a ≡ done b)
>>=-eq-done (done a) f h = (a, refl, h)
>>=-eq-done (refused code current) f h = absurd (cc)
>>=-eq-done unique_violation f h = absurd (cc)
>>=-eq-done other_error f h = absurd (cc)

pub next_models-IsResult :
    (q : Request) (document : UmlDocument) (next stored : CanonicalUmlModel)
    → next_models q document ≡ done (next, stored)
    → IsResult q document next stored
unfolding next_models
next_models-IsResult q document next stored h =
    elim (Option-cases (execute q.engine.stringify document.canonical_model q.input.command)) [
      | inl lost ↦ absurd (ground arith)
      | inr (model, executed) ↦
          let identity : PersistenceIdentity = record {
            project_id = document.project_id;
            document_id = q.input.document_id;
          } in
          let checked =
            validate_and_normalize q.engine model (q.input.base_revision + 1) q.clock.commit
              (some identity) in
          let (result, valid, same) =
            >>=-eq-done {B = CanonicalUmlModel × CanonicalUmlModel} (validated checked)
              (λ m. done (model, m)) (ground arith) in
          let (is_stamped, conforming, sound) =
            normalized_unstamped q.engine model result (q.input.base_revision + 1) q.clock.commit
              identity (validated-eq-done checked valid) in
          subst (λ p. IsResult q document p.0 p.1) (done_inj same)
            (record {
              executed = executed;
              is_stamped = is_stamped;
              conforming = conforming;
              sound = sound;
            })
    ]
