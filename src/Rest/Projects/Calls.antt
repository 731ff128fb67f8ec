-- ===== src/Rest/Projects/Calls.antt =====
-- projects.service.ts: every call leaves each project its one owner.
use uml_class_designer_be.Common.{
  ℕ, Bool, true, false, not, ◌&&◌, ◌||◌, ◌≡◌, refl, ap, ◌∙◌, subst, inl, inr, Option, none, some,
  any, find, nat_eq, ◌==◌, is_some, arith, Bool-cases, some_inj,
}
use uml_class_designer_be.Uml.Validation.Names.{trim}
use uml_class_designer_be.Collaboration.Database.{Database, ProjectMember, count}
use uml_class_designer_be.Rest.Replies.{ServiceError, ServiceReply, done, failed, require, required}
use uml_class_designer_be.Rest.Projects.{
  ProjectRequest, ProjectAnswer, after, is_owner, find_member, lock_session, assert_owner,
  lock_project,
}
use uml_class_designer_be.Rest.Projects.Writes.{
  new_project, is_owner_project, insert_project, create, update_owner_project, delete_owner_project,
}
use uml_class_designer_be.Rest.Projects.Members.{insert_editor, add_editor, remove_editor}
use uml_class_designer_be.Rest.Projects.Service.{
  ProjectCall, creates, updates, deletes, adds_editor, removes_editor, written_by,
  writing_statement,
}
use uml_class_designer_be.Rest.Projects.Ownership.{
  is_owner_row, IsOwned, insert_editor-IsOwned, insert_project-IsOwned, without_project-IsOwned,
  without_member-IsOwned, write_project-IsOwned,
}

after-written :
    {A B : Type 0} (m : ServiceReply A) (next : A → ProjectAnswer B) (db' : Database)
    → (after m next).written ≡ some db'
    → (a : A) × (m ≡ done a) × ((next a).written ≡ some db')
after-written (done a) next db' h = (a, refl, h)
after-written (failed e) next db' h = absurd (cc)

required-done :
    {A : Type 0} (m : Option A) (e : ServiceError) (a : A) → required m e ≡ done a → m ≡ some a
required-done none e a h = absurd (cc)
required-done (some b) e a h = cc

require-done : (b : Bool) (e : ServiceError) (u : Unit {0}) → require b e ≡ done u → b ≡ true
require-done true e u h = refl
require-done false e u h = absurd (cc)

free_key : (b : Bool) (m : Option ProjectMember) → (b || is_some m) ≡ false → m ≡ none
free_key b none h = refl
free_key true (some m) h = cc
free_key false (some m) h = cc

-- The row of a member that a statement has locked is the one that a later statement finds.
abbrev pub IsLocked : ProjectCall → (ℕ → Database) → Type 0
IsLocked (removes_editor project user) seen =
    find_member (seen 5) project user ≡ find_member (seen 3) project user
IsLocked _ seen = Unit

-- Whatever a call of the project service commits, the user that a project names is its one owner,
-- if this held at the statement that writes.
pub written_by-IsOwned :
    (q : ProjectRequest) (c : ProjectCall) (seen : ℕ → Database) (db' : Database)
    → IsLocked c seen
    → IsOwned (seen (writing_statement c))
    → written_by q c seen ≡ some db'
    → IsOwned db'
unfolding written_by create update_owner_project delete_owner_project add_editor remove_editor
    insert_project insert_editor
written_by-IsOwned q (creates id name description) seen db' held o h =
    let (u, ready, h₁) = after-written (lock_session q (seen 0)) _ db' h in
    elim (Bool-cases
      (any (λ p. p.id == id) (seen 1).projects || is_some (find_member (seen 1) id q.user_id))) [
        | inl used ↦ absurd (ground (arith, used, h₁))
        | inr free ↦
            let e = rw free at h₁ in
            subst IsOwned (some_inj e) (
              insert_project-IsOwned (seen 1) o (new_project q id name description) (
                free_key (any (λ p. p.id == id) (seen 1).projects)
                  (find_member (seen 1) id q.user_id) free))
      ]
written_by-IsOwned q (updates project input) seen db' held o h =
    let (u, given, h₁) =
      after-written
        (require (is_some input.name || is_some input.description) ServiceError.bad_request) _ db'
        h in
    let (v, ready, h₂) = after-written (lock_session q (seen 0)) _ db' h₁ in
    subst IsOwned (some_inj h₂) (write_project-IsOwned (seen 1) o q project input)
written_by-IsOwned q (deletes project) seen db' held o h =
    let (u, ready, h₁) = after-written (lock_session q (seen 0)) _ db' h in
    let (v, there, h₂) =
      after-written (require (lock_project project (seen 1)) ServiceError.not_found) _ db' h₁ in
    let (w, owner, h₃) = after-written (assert_owner project q.user_id (seen 2)) _ db' h₂ in
    elim (Bool-cases (nat_eq (count (is_owner_project q project (seen 4)) (seen 4).projects) 1)) [
      | inl one ↦
          subst IsOwned (some_inj (rw one at h₃)) (without_project-IsOwned (seen 4) o project)
      | inr other ↦ absurd (ground (arith, other, h₃))
    ]
written_by-IsOwned q (adds_editor project user email) seen db' held o h =
    let (u, ready, h₁) = after-written (lock_session q (seen 0)) _ db' h in
    let (v, owner, h₂) = after-written (assert_owner project q.user_id (seen 1)) _ db' h₁ in
    let (found, known, h₃) =
      after-written
        (required
          (find (λ u. u.id == user && u.email == q.engine.lower_case (trim email)) (seen 2).users)
          ServiceError.not_found)
        _ db' h₂ in
    elim (Bool-cases (is_some (find_member (seen 3) project found.id))) [
      | inl used ↦ absurd (ground (arith, used, h₃))
      | inr free ↦
          subst IsOwned (some_inj (rw free at h₃))
            (insert_editor-IsOwned (seen 3) o project found.id)
    ]
written_by-IsOwned q (removes_editor project user) seen db' held o h =
    let (u, ready, h₁) = after-written (lock_session q (seen 0)) _ db' h in
    let (v, there, h₂) =
      after-written (require (lock_project project (seen 1)) ServiceError.not_found) _ db' h₁ in
    let (w, owner, h₃) = after-written (assert_owner project q.user_id (seen 2)) _ db' h₂ in
    let (m, found, h₄) =
      after-written (required (find_member (seen 3) project user) ServiceError.not_found) _ db'
        h₃ in
    let (x, editor, h₅) =
      after-written (require (not (is_owner m.role)) ServiceError.forbidden) _ db' h₄ in
    let (y, still, h₆) =
      after-written (required (find_member (seen 5) project user) ServiceError.other_error) _ db'
        h₅ in
    let row = held ∙ required-done _ ServiceError.not_found m found in
    subst IsOwned (some_inj h₆) (
      without_member-IsOwned (seen 5) o project user
        (ap is_owner_row row ∙ ground (arith, require-done _ ServiceError.forbidden x editor)))
