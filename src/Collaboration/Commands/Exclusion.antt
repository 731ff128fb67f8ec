-- ===== src/Collaboration/Commands/Exclusion.antt =====
-- document-command.service.ts, collaboration-lock.store.ts and uml-command.executor.ts together: a
-- lock protects its element from the commands of other sockets.
use uml_class_designer_be.Common.{
  ℕ, String, false, not, ◌≡◌, ◌≢◌, refl, ap, ◌∙◌, none, some, List, [], ◌∷◌, any, contains, ◌==◌,
  eq_iff, arith, bind-eq-some, guard-eq-some, some_inj,
}
use uml_class_designer_be.Uml.Types.{Diagram, CanonicalUmlModel}
use uml_class_designer_be.Uml.Command.{UmlCommand}
use uml_class_designer_be.Uml.Executor.{mutate, execute}
use uml_class_designer_be.Uml.Executor.Affected.{element, mutate-outside_affected}
use uml_class_designer_be.Uml.Persistence.{remapped, stamped}
use uml_class_designer_be.Collaboration.Locks.{LockStore, ElementLock, get_lock, expire_document}
use uml_class_designer_be.Collaboration.Locks.Releases.{has_lock_owned_by_another_socket}
use uml_class_designer_be.Collaboration.Locks.Index.{IsIndexed}
use uml_class_designer_be.Collaboration.Locks.Holding.{Holds, expire_document-Holds}
use uml_class_designer_be.Collaboration.Database.{Database, UmlDocument}
use uml_class_designer_be.Collaboration.Commands.{Request, done, lock_command_authorization}
use uml_class_designer_be.Collaboration.Commands.Process.{write_command, process}
use uml_class_designer_be.Collaboration.Commands.Commits.{process-IsCommitted}
use uml_class_designer_be.Collaboration.Commands.Commits.Models.{IsResult}
use uml_class_designer_be.Collaboration.Commands.Commits.Models.{next_models-IsResult}

-- An element of another socket is not among those that a check found free.
free-other :
    (s : LockStore) (d e k : String) (ids : List String) (l : ElementLock)
    → get_lock s d e ≡ some l
    → l.socket_id ≢ k
    → any (λ x. elim (get_lock s d x) [ none ↦ false | some o ↦ not (o.socket_id == k) ]) ids
      ≡ false
    → contains e ids ≡ false
free-other s d e k [] l h other n = refl
free-other s d e k (x ∷ ids) l h other n =
    ground (arith, eq_iff x e, eq_iff l.socket_id k, free-other s d e k ids l h other)

has_lock-other :
    (now : ℕ) (s : LockStore) (d e k : String) (ids : List String) (l : ElementLock)
    → IsIndexed s
    → Holds now s d e l
    → l.socket_id ≢ k
    → (has_lock_owned_by_another_socket now d ids k s).1 ≡ false
    → contains e ids ≡ false
unfolding has_lock_owned_by_another_socket
has_lock-other now s d e k ids l v h other n =
    free-other (expire_document now d s) d e k ids l (expire_document-Holds now d e l d s v h).0
      other n

execute-mutate :
    (stringify : Diagram → String) (document next : CanonicalUmlModel) (command : UmlCommand)
    → execute stringify document command ≡ some next
    → mutate document.diagram command ≡ some next.diagram
unfolding execute
execute-mutate stringify document next command h =
    let (d, mutated, h₁) = bind-eq-some (mutate document.diagram command) _ h in
    let (changed, made) = guard-eq-some (not (stringify document.diagram == stringify d)) _ h₁ in
    mutated ∙ ap some (ap (λ m. m.diagram) (some_inj made))

same_elements :
    (q : Request) (document : UmlDocument) (next stored : CanonicalUmlModel) (e : String)
    → IsResult q document next stored
    → element e stored.diagram ≡ element e next.diagram
unfolding remapped stamped
same_elements q document next stored e r = ap (λ m. element e m.diagram) r.is_stamped

-- Where a command is committed while a lock of another socket runs on an element of the
-- document, the element's classifier in the stored model is the one that the transaction read.
pub process-keeps_locked :
    (q : Request) (seen : ℕ → Database) (locks : LockStore) (db' : Database) (e : String)
    → (l : ElementLock) → IsIndexed locks
    → Holds q.clock.lock_check locks q.input.document_id e l
    → l.socket_id ≢ q.socket_id
    → (process q seen locks).written ≡ some db'
    → (document : UmlDocument) × (stored : CanonicalUmlModel) × (lock_command_authorization q seen
        ≡ done document)
      × (db' ≡ write_command q stored (seen 6))
      × (element e stored.diagram ≡ element e document.canonical_model.diagram)
process-keeps_locked q seen locks db' e l v h other w =
    let c = process-IsCommitted q seen locks db' w in
    let r = next_models-IsResult q c.document c.next c.stored c.models in
    let outside =
      has_lock-other q.clock.lock_check locks q.input.document_id e q.socket_id c.ids l v h other
        c.unlocked in
    (
      c.document,
      c.stored,
      c.authorized,
      c.database,
      same_elements q c.document c.next c.stored e r
          ∙ mutate-outside_affected c.document.canonical_model.diagram c.next.diagram
              q.input.command c.ids e c.affected
              (execute-mutate q.engine.stringify c.document.canonical_model c.next q.input.command
                r.executed)
              outside,
    )
