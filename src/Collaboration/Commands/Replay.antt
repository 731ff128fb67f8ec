-- ===== src/Collaboration/Commands/Replay.antt =====
-- document-command.service.ts: a command that is sent again, and two commands for one revision.
use uml_class_designer_be.Common.{
  ℕ, ◌+◌, String, true, ◌≡◌, ◌≢◌, ◌⊎◌, refl, sym, ap, ◌∙◌, inl, inr, Option, none, some, [], map,
  IsDistinct, eq_iff, arith, ==-cases, Option-cases, some_inj,
}
use uml_class_designer_be.Collaboration.Locks.{LockStore}
use uml_class_designer_be.Collaboration.Database.{
  Database, UmlDocument, DocumentOperation, find_document, find_operation, is_not_set,
}
use uml_class_designer_be.Collaboration.Commands.{
  CollaborationErrorCode, done, refused, ProcessedDocumentCommand, Request, Clock, fingerprint,
  lock_command_authorization, resolve_existing,
}
use uml_class_designer_be.Collaboration.Commands.Process.{
  new_operation, process, process_document, process_in_transaction, process_authorized, after_reply,
  unwritten,
}
use uml_class_designer_be.Collaboration.Commands.Commits.Rows.{process-IsApplied}

-- What a call answers for an operation that is on record as its own.
abbrev pub replayed : Request → DocumentOperation → ProcessedDocumentCommand
replayed q o = record {
  operation_id = q.input.operation_id;
  document_id = q.input.document_id;
  base_revision = q.input.base_revision;
  revision = o.resulting_revision;
  committed_at = q.engine.iso o.committed_at;
  command = q.input.command;
  idempotent = true;
  requires_broadcast = is_not_set o.broadcasted_at;
  active_element_ids = [];
}

resolve_existing-own :
    (q : Request) (o : DocumentOperation)
    → o.actor_id ≡ q.identity.user_id
    → o.command_fingerprint ≡ fingerprint q
    → resolve_existing q o ≡ done (replayed q o)
unfolding resolve_existing
resolve_existing-own q o a f =
    ground
      (arith, eq_iff o.actor_id q.identity.user_id, eq_iff o.command_fingerprint (fingerprint q))

resolve_existing-foreign :
    (q : Request) (o : DocumentOperation)
    → (o.actor_id ≢ q.identity.user_id) ⊎ (o.command_fingerprint ≢ fingerprint q)
    → resolve_existing q o ≡ refused CollaborationErrorCode.operation_id_reused none
unfolding resolve_existing
resolve_existing-foreign q o (inl a) =
    ground
      (arith, eq_iff o.actor_id q.identity.user_id, eq_iff o.command_fingerprint (fingerprint q))
resolve_existing-foreign q o (inr f) =
    ground
      (arith, eq_iff o.actor_id q.identity.user_id, eq_iff o.command_fingerprint (fingerprint q))

module _ (q : Request) (seen : ℕ → Database) (locks : LockStore) where
  -- With the operation on record, the transaction resolves it and does nothing else.
  resolves_known :
      (document : UmlDocument) (o : DocumentOperation)
      → lock_command_authorization q seen ≡ done document
      → find_operation (seen 5) q.input.document_id q.input.operation_id ≡ some o
      → process_in_transaction q seen locks ≡ unwritten locks (resolve_existing q o)
  unfolding process_in_transaction process_authorized process_document
  resolves_known document o a h = ground (arith, a, h)

  -- Where the caller is authorized and the operation identifier is on record for the document,
  -- nothing is written and no lock is touched; the answer is the recorded revision if the
  -- operation is the caller's and of the same content, and OPERATION_ID_REUSED if not.
  process-known :
      (document : UmlDocument) (o : DocumentOperation)
      → lock_command_authorization q seen ≡ done document
      → find_operation (seen 5) q.input.document_id q.input.operation_id ≡ some o
      → ((o.actor_id ≡ q.identity.user_id)
          × (o.command_fingerprint ≡ fingerprint q)
          × (process q seen locks ≡ unwritten locks (done (replayed q o))))
        ⊎ (((o.actor_id ≢ q.identity.user_id) ⊎ (o.command_fingerprint ≢ fingerprint q))
            × (process q seen locks
                ≡ unwritten locks (refused CollaborationErrorCode.operation_id_reused none)))
  unfolding process after_reply
  process-known document o a h =
      let same = resolves_known document o a h in
      elim (==-cases o.actor_id q.identity.user_id) [
        | inr other ↦ inr (inl other.1, rw (same, resolve_existing-foreign q o (inl other.1)) refl)
        | inl own ↦ elim (==-cases o.command_fingerprint (fingerprint q)) [
          | inr other ↦
              inr (inr other.1, rw (same, resolve_existing-foreign q o (inr other.1)) refl)
          | inl equal ↦ inl (own.1, equal.1, rw (same, resolve_existing-own q o own.1 equal.1) refl)
        ]
      ]

-- The request sent again, from another session, socket and time.
abbrev pub again : Request → String → String → Clock → Request
again q session socket clock = record q {
  identity = record q.identity { session_id = session };
  socket_id = socket;
  clock = clock;
}

-- A committed command that the same user sends again, while the operation is on record as the
-- commit left it but for its delivery, and while the caller is still authorized, by an active
-- session and as a collaborator: the answer is the revision and the time of the commit, marked as
-- idempotent, and nothing is written.
pub process-replays :
    (q : Request) (seen : ℕ → Database) (locks : LockStore) (db' : Database)
    (session socket : String) (clock : Clock) (seen' : ℕ → Database) (locks' : LockStore)
    (document : UmlDocument) (delivered : Option ℕ) (o : DocumentOperation)
    → IsDistinct (map (λ d. d.id) (seen 6).documents)
    → (process q seen locks).written ≡ some db'
    → find_operation db' q.input.document_id q.input.operation_id ≡ some o
    → find_operation (seen' 5) q.input.document_id q.input.operation_id
      ≡ some (record o { broadcasted_at = delivered })
    → lock_command_authorization (again q session socket clock) seen' ≡ done document
    → process (again q session socket clock) seen' locks'
      ≡ unwritten locks' (
          done (record {
            operation_id = q.input.operation_id;
            document_id = q.input.document_id;
            base_revision = q.input.base_revision;
            revision = q.input.base_revision + 1;
            committed_at = q.engine.iso q.clock.commit;
            command = q.input.command;
            idempotent = true;
            requires_broadcast = is_not_set delivered;
            active_element_ids = [];
          }))
process-replays q seen locks db' session socket clock seen' locks' document delivered o d w first
      second a =
    let applied = process-IsApplied q seen locks db' d w in
    let own : o ≡ new_operation q = some_inj (sym first ∙ applied.recorded) in
    let marked = λ (p : DocumentOperation). record p { broadcasted_at = delivered } in
    elim (process-known (again q session socket clock) seen' locks' document
      (marked (new_operation q)) a (second ∙ ap (λ p. some (marked p)) own)) [
        | inl (_, _, same) ↦ same
        | inr (inl bad, _) ↦ absurd (bad refl)
        | inr (inr bad, _) ↦ absurd (bad refl)
      ]

-- Of two commands for one revision of a document, the second to reach the update does not commit:
-- a document as the first left it is not at the base revision.
pub process-no_lost_update :
    (q₁ q₂ : Request) (seen₁ seen₂ : ℕ → Database) (locks₁ locks₂ : LockStore) (db₁ : Database)
    → IsDistinct (map (λ d. d.id) (seen₁ 6).documents)
    → IsDistinct (map (λ d. d.id) (seen₂ 6).documents)
    → (process q₁ seen₁ locks₁).written ≡ some db₁
    → q₂.input.document_id ≡ q₁.input.document_id
    → q₂.input.base_revision ≡ q₁.input.base_revision
    → find_document (seen₂ 6) q₁.input.document_id ≡ find_document db₁ q₁.input.document_id
    → (process q₂ seen₂ locks₂).written ≡ none
process-no_lost_update q₁ q₂ seen₁ seen₂ locks₁ locks₂ db₁ d₁ d₂ w same base left =
    elim (Option-cases (process q₂ seen₂ locks₂).written) [
      | inl nothing ↦ nothing
      | inr (db₂, w₂) ↦
          let first = process-IsApplied q₁ seen₁ locks₁ db₁ d₁ w in
          let second = process-IsApplied q₂ seen₂ locks₂ db₂ d₂ w₂ in
          let met =
            some_inj
              (sym second.found ∙ ap (find_document (seen₂ 6)) same ∙ left ∙ first.replaced) in
          absurd (omega (arith, ap (λ x. x.revision) met, second.matched, first.matched, base))
    ]
