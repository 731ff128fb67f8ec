-- ===== src/Rest/Tests.antt =====
-- Documents and projects on a small database: tests, and the theorems at concrete inputs.
use uml_class_designer_be.Common.{true, false, ◌≡◌, ◌≢◌, refl, none, some, [], ◌∷◌}
use uml_class_designer_be.Uml.Executor.{element_ids}
use uml_class_designer_be.Uml.ValidationTests.{engine}
use uml_class_designer_be.Collaboration.Locks.{LockStore}
use uml_class_designer_be.Collaboration.Locks.Releases.{has_any_lock}
use uml_class_designer_be.Collaboration.Locks as Locks
use uml_class_designer_be.Collaboration.LockTests.{locking}
use uml_class_designer_be.Collaboration.Database.{Database, UmlDocument, ProjectRole, find_document}
use uml_class_designer_be.Collaboration.CommandTests.{
  commands, user, database, adds_line, throughout, grown, stored_model, committed, held, adds,
}
use uml_class_designer_be.Rest.Replies.{
  ServiceError, done, failed, lock_mutation_session, lock_collaborator_membership,
}
use uml_class_designer_be.Rest.Documents.Creation as Creation
use uml_class_designer_be.Rest.Documents.Deletion as Deletion
use uml_class_designer_be.Rest.Documents.{
  DocumentRequest, UpdateDocument, authorize, find_in_project, get,
}
use uml_class_designer_be.Rest.Documents.Creation.{insert_document}
use uml_class_designer_be.Rest.Documents.Update.{
  write_update, not_replaced, answer_update, replace, update_current, update,
}
use uml_class_designer_be.Rest.Documents.Deletion.{without_documents}
use uml_class_designer_be.Rest.Documents.Rows.{IsReplaced, update-IsReplaced, update_or_command}
use uml_class_designer_be.Rest.Documents.{DocumentCollaborationChange}
use uml_class_designer_be.Rest.Documents.Removal.{IsRemoved, delete-IsRemoved}
use uml_class_designer_be.Rest.Projects.{
  ProjectRequest, assert_owner, lock_project, lock_session, list_for_user, get_for_user,
}
use uml_class_designer_be.Rest.Projects.Service.{removes_editor, written_by}
use uml_class_designer_be.Rest.Projects.Members.{without_member, remove_editor}
use uml_class_designer_be.Rest.Projects.Guard.{can_activate}
use uml_class_designer_be.Rest.Projects.Ownership.{IsOwned}
use uml_class_designer_be.Rest.Projects.Calls.{written_by-IsOwned}

unfoldable rest : Unit {0}
unfolding commands locking lock_mutation_session lock_collaborator_membership authorize
    find_in_project insert_document write_update not_replaced answer_update replace update_current
    update without_documents get Creation.create Deletion.delete assert_owner lock_project
    lock_session remove_editor written_by can_activate list_for_user get_for_user
rest = tt

abbrev saves : DocumentRequest
saves = record {
  engine = engine;
  project_id = "p1";
  document_id = "doc";
  user_id = user;
  session_id = "s1";
  now = 12;
  lock_check = 11;
}

abbrev input : UpdateDocument
input = record { name = none; expected_revision = 3; canonical_model = grown }

abbrev saved : Database
saved = write_update saves input stored_model database

updates : (update saves input false (throughout database) Locks.empty).written ≡ some saved
unfolding rest
updates = refl

-- The order is locked by another socket.
locked :
    (update saves input false (throughout database) held).reply
    ≡ failed (ServiceError.conflict none)
unfolding rest
locked = refl

stale :
    (update saves
      (record input { expected_revision = 2 })
      false
      (throughout database)
      Locks.empty).reply
    ≡ failed (ServiceError.conflict (some 3))
unfolding rest
stale = refl

busy :
    (update saves input true (throughout database) Locks.empty).reply
    ≡ failed ServiceError.too_many_requests
unfolding rest
busy = refl

update-IsReplaced_example :
    IsReplaced saves input database saved
    × (current : UmlDocument) × (find_in_project saves database ≡ done current)
    × (current.revision ≡ 3)
    × ((has_any_lock 11 "doc" (element_ids current.canonical_model.diagram) Locks.empty).1 ≡ false)
update-IsReplaced_example =
    update-IsReplaced saves input false (throughout database) Locks.empty saved (refl, tt) updates

update_or_command_example :
    (find_document database "doc" ≢ find_document saved "doc")
    × (find_document database "doc" ≢ find_document committed "doc")
update_or_command_example =
    update_or_command saves input false adds_line (throughout database) (throughout database)
      Locks.empty held saved committed (refl, tt) (refl, tt) refl refl updates adds

deletes : (Deletion.delete saves false (throughout database) held).reply ≡ done tt
unfolding rest
deletes = refl

delete-IsRemoved_example :
    (db' : Database) × ((Deletion.delete saves false (throughout database) held).written ≡ some db')
    × IsRemoved saves database db'
    × ((Deletion.delete saves false (throughout database) held).published
        ≡ some (DocumentCollaborationChange.deleted "doc"))
delete-IsRemoved_example =
    delete-IsRemoved saves false (throughout database) held (refl, tt) deletes

abbrev shared : Database
shared = record database {
  projects = record { id = "p1"; name = "P"; description = none; owner_id = user } ∷ [];
  members =
      record { project_id = "p1"; user_id = user; role = ProjectRole.owner }
      ∷ record { project_id = "p1"; user_id = "u2"; role = ProjectRole.editor }
      ∷ [];
}

abbrev owner_calls : ProjectRequest
owner_calls = record { engine = engine; user_id = user; session_id = "s1"; now = 12 }

removes :
    written_by owner_calls (removes_editor "p1" "u2") (throughout shared)
    ≡ some (without_member "p1" "u2" shared)
unfolding rest
removes = refl

removes_owner :
    (remove_editor owner_calls "p1" user (throughout shared)).reply ≡ failed ServiceError.forbidden
unfolding rest
removes_owner = refl

editor_is_refused :
    can_activate engine (some "p1") (some "u2") (some (ProjectRole.owner ∷ [])) shared
    ≡ failed ServiceError.forbidden
unfolding rest
editor_is_refused = refl

shared-IsOwned : IsOwned shared
shared-IsOwned = record { owners = (refl, tt); sole = (λ h. refl, (λ h. absurd (cc), tt)) }

written_by-IsOwned_example : IsOwned (without_member "p1" "u2" shared)
written_by-IsOwned_example =
    written_by-IsOwned owner_calls (removes_editor "p1" "u2") (throughout shared)
      (without_member "p1" "u2" shared) refl shared-IsOwned removes
