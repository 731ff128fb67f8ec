-- ===== src/Rest/Projects/Members.antt =====
-- projects.service.ts: listMembers, addEditor and removeEditor.
use uml_class_designer_be.Common.{
  ℕ, String, not, ◌&&◌, none, some, List, [], ◌∷◌, ◌++◌, filter, find, ◌==◌, if◌then◌else◌, is_some,
}
use uml_class_designer_be.Uml.Validation.Names.{trim}
use uml_class_designer_be.Collaboration.Database.{Database, ProjectMember, ProjectRole, User}
use uml_class_designer_be.Rest.Replies.{ServiceError, ServiceReply, done, ◌>>=◌, require, required}
use uml_class_designer_be.Rest.Projects.{
  ProjectRequest, ProjectMemberResponse, ProjectCollaborationChange, ProjectAnswer, refused, after,
  is_owner, has_member_key, find_member, document_ids, lock_session, assert_owner, lock_project,
}
use uml_class_designer_be.Rest.Projects.Writes.{member_row}

abbrev pub member_responses : Database → List ProjectMember → List ProjectMemberResponse
member_responses db [] = []
member_responses db (m ∷ rest) = elim (find (λ u. u.id == m.user_id) db.users) [
  | none ↦ member_responses db rest
  | some u ↦
      record { user_id = m.user_id; email = u.email; display_name = u.display_name; role = m.role }
      ∷ member_responses db rest
]

unfoldable pub list_members :
    ProjectRequest → String → (ℕ → Database) → ServiceReply (List ProjectMemberResponse)
list_members q project seen = do
  _ ← assert_owner project q.user_id (seen 0)
  done (member_responses (seen 1) (filter (λ m. m.project_id == project) (seen 1).members))

unfoldable pub insert_editor : String → User → Database → ProjectAnswer ProjectMemberResponse
insert_editor project user db =
    if is_some (find_member db project user.id)
    then refused (ServiceError.conflict none)
    else record {
      reply = done (record {
        user_id = user.id;
        email = user.email;
        display_name = user.display_name;
        role = ProjectRole.editor;
      });
      written = some (record db {
        members = db.members ++ member_row project user.id ProjectRole.editor ∷ [];
      });
      published = some (ProjectCollaborationChange.member_granted project user.id);
    }

unfoldable pub add_editor :
    ProjectRequest
    → String
    → (user_id email : String) → (ℕ → Database)
    → ProjectAnswer ProjectMemberResponse
add_editor q project user_id email seen = after (lock_session q (seen 0)) λ _.
    after (assert_owner project q.user_id (seen 1)) λ _.
      after
        (required
          (find (λ u. u.id == user_id && u.email == q.engine.lower_case (trim email))
            (seen 2).users)
          ServiceError.not_found)
        λ user. insert_editor project user (seen 3)

abbrev pub without_member : String → String → Database → Database
without_member project user db = record db {
  members = filter (λ m. not (has_member_key project user m)) db.members;
}

-- The row of the member is locked by the fourth statement and removed by the sixth.
unfoldable pub remove_editor :
    ProjectRequest → String → String → (ℕ → Database) → ProjectAnswer (Unit {0})
remove_editor q project user seen = after (lock_session q (seen 0)) λ _.
    after (require (lock_project project (seen 1)) ServiceError.not_found) λ _.
      after (assert_owner project q.user_id (seen 2)) λ _.
        after (required (find_member (seen 3) project user) ServiceError.not_found) λ member.
          after (require (not (is_owner member.role)) ServiceError.forbidden) λ _.
            after (required (find_member (seen 5) project user) ServiceError.other_error) λ _.
              record {
                reply = done tt;
                written = some (without_member project user (seen 5));
                published = some (
                    ProjectCollaborationChange.member_removed project user
                      (document_ids (seen 4) project));
              }
