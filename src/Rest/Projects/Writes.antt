-- ===== src/Rest/Projects/Writes.antt =====
-- projects.service.ts: create, updateOwnerProject and deleteOwnerProject.
use uml_class_designer_be.Common.{
  ℕ, String, Bool, not, ◌&&◌, ◌||◌, Option, none, some, [], ◌∷◌, ◌++◌, map, any, filter, nat_eq,
  ◌==◌, if◌then◌else◌, is_some,
}
use uml_class_designer_be.Collaboration.Database.{
  Database, Project, ProjectMember, ProjectRole, count,
}
use uml_class_designer_be.Rest.Replies.{failed, ServiceError, done, require}
use uml_class_designer_be.Rest.Documents.Deletion.{without_documents}
use uml_class_designer_be.Rest.Projects.{
  ProjectRequest, UpdateProject, ProjectResponse, ProjectCollaborationChange, ProjectAnswer,
  refused, after, find_member, is_owned_by, document_ids, lock_session, assert_owner, lock_project,
  optional_description, with_role, get_for_user,
}

abbrev pub new_project : ProjectRequest → String → String → Option String → Project
new_project q id name description = record {
  id = id;
  name = name;
  description = optional_description description;
  owner_id = q.user_id;
}

abbrev pub member_row : String → String → ProjectRole → ProjectMember
member_row project user role = record { project_id = project; user_id = user; role = role }

-- The project and the membership of its owner; `id` is a new random identifier.
unfoldable pub insert_project :
    ProjectRequest → String → String → Option String → Database → ProjectAnswer ProjectResponse
insert_project q id name description db =
    if any (λ p. p.id == id) db.projects || is_some (find_member db id q.user_id)
    then refused ServiceError.other_error
    else record {
      reply = done (
          with_role (new_project q id name description)
            (member_row id q.user_id ProjectRole.owner));
      written = some (record db {
        projects = db.projects ++ new_project q id name description ∷ [];
        members = db.members ++ member_row id q.user_id ProjectRole.owner ∷ [];
      });
      published = none;
    }

unfoldable pub create :
    ProjectRequest
    → String
    → String
    → Option String
    → (ℕ → Database)
    → ProjectAnswer ProjectResponse
create q id name description seen =
    after (lock_session q (seen 0)) λ _. insert_project q id name description (seen 1)

abbrev pub is_owner_project : ProjectRequest → String → Database → Project → Bool
is_owner_project q project db p = p.id == project && is_owned_by db q.user_id p

abbrev pub or_old {ℓ} : {A : Type ℓ} → Option A → A → A
or_old none old = old
or_old (some new) old = new

abbrev pub described : Option (Option String) → Option String → Option String
described none old = old
described (some new) old = optional_description new

abbrev pub updated_project : UpdateProject → Project → Project
updated_project input p = record p {
  name = or_old input.name p.name;
  description = described input.description p.description;
}

unfoldable pub write_project : ProjectRequest → String → UpdateProject → Database → Database
write_project q project input db = record db {
  projects =
      map (λ p. if is_owner_project q project db p then updated_project input p else p) db.projects;
}

-- The update is committed before its count is looked at; the answer is read after the commit,
-- from `seen 2`.
unfoldable pub update_owner_project :
    ProjectRequest → String → UpdateProject → (ℕ → Database) → ProjectAnswer ProjectResponse
update_owner_project q project input seen =
    after (require (is_some input.name || is_some input.description) ServiceError.bad_request) λ _.
      after (lock_session q (seen 0)) λ _. record {
        reply =
            if nat_eq (count (is_owner_project q project (seen 1)) (seen 1).projects) 1
            then get_for_user project q.user_id (seen 2)
            else failed ServiceError.not_found;
        written = some (write_project q project input (seen 1));
        published = none;
      }

-- The members and documents of a project go with it.
unfoldable pub without_project : String → Database → Database
without_project project db =
    let rest = without_documents (λ d. d.project_id == project) db in
    record rest {
      projects = filter (λ p. not (p.id == project)) db.projects;
      members = filter (λ m. not (m.project_id == project)) db.members;
    }

-- A count other than one is none, as the identifier is a key, so that nothing changes.
unfoldable pub delete_owner_project :
    ProjectRequest → String → (ℕ → Database) → ProjectAnswer (Unit {0})
delete_owner_project q project seen = after (lock_session q (seen 0)) λ _.
    after (require (lock_project project (seen 1)) ServiceError.not_found) λ _.
      after (assert_owner project q.user_id (seen 2)) λ _.
        if nat_eq (count (is_owner_project q project (seen 4)) (seen 4).projects) 1
        then record {
          reply = done tt;
          written = some (without_project project (seen 4));
          published =
              some (
                ProjectCollaborationChange.project_deleted project (document_ids (seen 3) project));
        }
        else refused ServiceError.not_found
