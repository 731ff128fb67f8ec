-- ===== src/Collaboration/CommandTests.antt =====
-- Commands on a small database: tests, and the theorems at concrete inputs.
use uml_class_designer_be.Common.{
  ℕ, String, IsDistinct, map, true≢false, ==_of_eq, arith, true, ◌≡◌, ◌≢◌, refl, sym, none, some,
  [], ◌∷◌,
}
use uml_class_designer_be.Uml.Types.{Diagram, CanonicalUmlModel}
use uml_class_designer_be.Uml.Command.{classifier_create, classifier_delete}
use uml_class_designer_be.Uml.Executor.{execute}
use uml_class_designer_be.Uml.Executor.Affected.{element}
use uml_class_designer_be.Uml.Tests.{executor, order, line, position}
use uml_class_designer_be.Uml.ValidationTests.{printable, validation, engine, document_of}
use uml_class_designer_be.Uml.Persistence.{remapped, stamped}
use uml_class_designer_be.Collaboration.Locks.{
  empty, LockStore, get_lock, values, document_locks, expire_document,
}
use uml_class_designer_be.Collaboration.Locks.Releases.{has_lock_owned_by_another_socket}
use uml_class_designer_be.Collaboration.Locks.Calls.{run}
use uml_class_designer_be.Collaboration.Locks.Holding.{Holds}
use uml_class_designer_be.Collaboration.LockTests.{locking, history, order_lock}
use uml_class_designer_be.Collaboration.Locks.Invariant.{run-empty-IsIndexed}
use uml_class_designer_be.Collaboration.Database.{
  Database, UmlDocument, ProjectRole, find_operation,
}
use uml_class_designer_be.Collaboration.Commands.{
  CollaborationErrorCode, done, refused, Request, Clock, lock_active_session, is_session_active,
  has_membership, lock_command_authorization, resolve_existing,
}
use uml_class_designer_be.Collaboration.Commands.Process.{
  next_models, prepare, write_command, has_duplicate, accepted, not_updated, unwritten, commit,
  commit_prepared, process_document, process_authorized, process_in_transaction,
  find_existing_for_actor, after_reply, process, new_operation,
}
use uml_class_designer_be.Collaboration.Commands.Commits.Rows.{
  IsApplied, IsStored, process-IsApplied, process-IsResult,
}
use uml_class_designer_be.Collaboration.Commands.Replay.{
  again, replayed, process-replays, process-no_lost_update,
}
use uml_class_designer_be.Collaboration.Commands.Exclusion.{process-keeps_locked}

unfoldable pub commands : Unit {0}
unfolding executor validation execute get_lock values document_locks expire_document
    has_lock_owned_by_another_socket lock_active_session is_session_active has_membership
    lock_command_authorization resolve_existing next_models prepare write_command has_duplicate
    accepted not_updated commit commit_prepared process_document process_authorized
    process_in_transaction find_existing_for_actor after_reply process locking
commands = tt

abbrev pub shop : Diagram
shop = record {
  id = "d";
  name = "Shop";
  elements = order ∷ [];
  relationships = [];
  positions = position "order" ∷ [];
}

abbrev pub user : String
user = "u1"

abbrev pub database : Database
database = record {
  users = [];
  sessions =
      record {
        id = "s1";
        user_id = user;
        token_hash = "";
        refresh_sequence = 0;
        expires_at = 100;
        revoked_at = none;
      }
      ∷ [];
  consumed_tokens = [];
  projects = record { id = "p1"; name = "P"; description = none; owner_id = "u0" } ∷ [];
  members = record { project_id = "p1"; user_id = user; role = ProjectRole.editor } ∷ [];
  documents =
      record {
        id = "doc";
        project_id = "p1";
        name = "Shop";
        canonical_model = document_of shop;
        revision = 3;
        created_by_id = "u0";
        updated_by_id = "u0";
      }
      ∷ [];
  revisions = [];
  operations = [];
}

abbrev pub at_ten : Clock
at_ten = record { session_check = 10; lock_check = 11; commit = 12; retry_check = 13 }

abbrev pub adds_line : Request
adds_line = record {
  engine = engine;
  identity = record { user_id = user; session_id = "s1" };
  input = record {
    operation_id = "op";
    document_id = "doc";
    base_revision = 3;
    command = classifier_create line (position "line");
  };
  socket_id = "k1";
  clock = at_ten;
}

abbrev pub throughout : Database → ℕ → Database
throughout db n = db

abbrev pub grown : CanonicalUmlModel
grown = document_of (record shop {
  elements = order ∷ line ∷ [];
  positions = position "order" ∷ position "line" ∷ [];
})

abbrev pub stored_model : CanonicalUmlModel
stored_model =
    stamped 4 "2025" (remapped engine (record { project_id = "p1"; document_id = "doc" }) grown)

abbrev pub committed : Database
committed = write_command adds_line stored_model database

-- Another socket holds the order.
abbrev pub held : LockStore
held = run history empty

pub adds : (process adds_line (throughout database) held).written ≡ some committed
unfolding commands
adds = refl

adds_again :
    process (again adds_line "s1" "k9" at_ten) (throughout committed) held
    ≡ unwritten held (done (replayed adds_line (new_operation adds_line)))
unfolding commands
adds_again = refl

order_is_locked :
    (process
      (record adds_line { input = record adds_line.input { command = classifier_delete "order" } })
      (throughout database)
      held).reply
    ≡ refused CollaborationErrorCode.element_locked none
unfolding commands
order_is_locked = refl

abbrev other_command : Request
other_command = record adds_line { input = record adds_line.input { operation_id = "op2" } }

process-IsApplied_example : IsApplied adds_line database committed
process-IsApplied_example =
    process-IsApplied adds_line (throughout database) held committed (refl, tt) adds

process-IsResult_example :
    (document : UmlDocument) × (next : CanonicalUmlModel) × (applied : IsApplied adds_line database
      committed)
    × (lock_command_authorization adds_line (throughout database) ≡ done document)
    × IsStored adds_line document next applied.stored
        (process adds_line (throughout database) held).reply
process-IsResult_example =
    process-IsResult adds_line (throughout database) held committed printable (refl, tt) adds

abbrev stored_document : UmlDocument
stored_document = record {
  id = "doc";
  project_id = "p1";
  name = "Shop";
  canonical_model = stored_model;
  revision = 4;
  created_by_id = "u0";
  updated_by_id = user;
}

authorized_after :
    (lock_command_authorization (again adds_line "s1" "k9" at_ten) (throughout committed)
      ≡ done stored_document)
    × (find_operation committed "doc" "op" ≡ some (new_operation adds_line))
unfolding commands
authorized_after = (refl, refl)

process-replays_example :
    process (again adds_line "s1" "k9" at_ten) (throughout committed) held
    ≡ unwritten held (
        done (record {
          operation_id = "op";
          document_id = "doc";
          base_revision = 3;
          revision = 4;
          committed_at = "2025";
          command = adds_line.input.command;
          idempotent = true;
          requires_broadcast = true;
          active_element_ids = [];
        }))
process-replays_example =
    process-replays adds_line (throughout database) held committed "s1" "k9" at_ten
      (throughout committed) held stored_document none (new_operation adds_line) (refl, tt) adds
      authorized_after.1 authorized_after.1 authorized_after.0

IsDistinct-after : IsDistinct (map (λ d. d.id) committed.documents)
unfolding commands
IsDistinct-after = (refl, tt)

process-no_lost_update_example : (process other_command (throughout committed) held).written ≡ none
process-no_lost_update_example =
    process-no_lost_update adds_line other_command (throughout database) (throughout committed) held
      held committed (refl, tt) IsDistinct-after adds refl refl refl

held_order : Holds 11 held "doc" "order" order_lock
unfolding locking get_lock
held_order = (refl, omega arith)

k2≢k1 : order_lock.socket_id ≢ "k1"
k2≢k1 e = true≢false (sym (==_of_eq "k2" "k1" e))

process-keeps_locked_example :
    (document : UmlDocument) × (stored : CanonicalUmlModel) × (lock_command_authorization adds_line
        (throughout database)
      ≡ done document)
    × (committed ≡ write_command adds_line stored database)
    × (element "order" stored.diagram ≡ element "order" document.canonical_model.diagram)
process-keeps_locked_example =
    process-keeps_locked adds_line (throughout database) held committed "order" order_lock
      (run-empty-IsIndexed history) held_order (λ e. k2≢k1 e) adds
