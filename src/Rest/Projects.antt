-- ===== src/Rest/Projects.antt =====
-- src/modules/projects/projects.service.ts, project-member.guard.ts. At the n-th statement of a call
-- the database is `seen n`; a failure rolls the transaction back. Lists are in the order of the
-- database, of which the source orders by columns that are left out here.
pub mod Writes
pub mod Members
pub mod Guard
pub mod Service
pub mod Ownership
pub mod Calls
use uml_class_designer_be.Common.{
  ℕ, ◌+◌, String, Bool, true, false, not, ◌&&◌, ◌||◌, Option, none, some, List, [], ◌∷◌, ◌++◌, map,
  any, filter, find, nat_eq, ◌==◌, if◌then◌else◌, is_some,
}
use uml_class_designer_be.Uml.Engine.{Engine}
use uml_class_designer_be.Uml.Validation.Names.{trim}
use uml_class_designer_be.Collaboration.Database.{
  Database, Project, ProjectMember, ProjectRole, User, UmlDocument, count,
}
use uml_class_designer_be.Rest.Replies.{
  ServiceError, ServiceReply, done, failed, ◌>>=◌, require, required, lock_mutation_session,
}
use uml_class_designer_be.Rest.Documents.Deletion.{without_documents}

-- who calls, and when
pub record ProjectRequest : Type 0 where
  pub engine : Engine
  pub user_id : String
  pub session_id : String
  pub now : ℕ

-- dto/project.dto.ts. A description that is null is `some none`.
pub record UpdateProject : Type 0 where
  pub name : Option String
  pub description : Option (Option String)

-- dto/project-response.dto.ts
pub record ProjectResponse : Type 0 where
  pub id : String
  pub name : String
  pub description : Option String
  pub role : ProjectRole

pub record ProjectMemberResponse : Type 0 where
  pub user_id : String
  pub email : String
  pub display_name : String
  pub role : ProjectRole

-- project-collaboration-event-bus.service.ts
pub data ProjectCollaborationChange : Type 0 where
  member_granted : (project_id user_id : String) → ProjectCollaborationChange
  member_removed :
      (project_id user_id : String) (document_ids : List String) → ProjectCollaborationChange
  project_deleted : (project_id : String) (document_ids : List String) → ProjectCollaborationChange

pub record ProjectAnswer {ℓ} (A : Type ℓ) : Type ℓ where
  pub reply : ServiceReply A
  pub written : Option Database
  pub published : Option ProjectCollaborationChange

abbrev pub refused {ℓ} : {A : Type ℓ} → ServiceError → ProjectAnswer A
refused e = record { reply = failed e; written = none; published = none }

abbrev pub after {ℓ κ} :
    {A : Type ℓ} {B : Type κ} → ServiceReply A → (A → ProjectAnswer B) → ProjectAnswer B
after (done a) next = next a
after (failed e) next = refused e

abbrev pub is_owner : ProjectRole → Bool
is_owner ProjectRole.owner = true
is_owner ProjectRole.editor = false

-- the key `projectId_userId`
abbrev pub has_member_key : String → String → ProjectMember → Bool
has_member_key project user m = m.project_id == project && m.user_id == user

abbrev pub find_member : Database → String → String → Option ProjectMember
find_member db project user = find (has_member_key project user) db.members

-- `members: { some: { userId, role: OWNER } }`
abbrev pub is_owned_by : Database → String → Project → Bool
is_owned_by db user p = any (λ m. has_member_key p.id user m && is_owner m.role) db.members

abbrev pub document_ids : Database → String → List String
document_ids db project =
    map (λ (d : UmlDocument). d.id) (filter (λ d. d.project_id == project) db.documents)

unfoldable pub lock_session : ProjectRequest → Database → ServiceReply (Unit {0})
lock_session q db = lock_mutation_session q.engine q.now q.user_id q.session_id db

unfoldable pub assert_owner : String → String → Database → ServiceReply (Unit {0})
assert_owner project user db = do
  membership ← required (find_member db project user) ServiceError.not_found
  require (is_owner membership.role) ServiceError.forbidden

unfoldable pub lock_project : String → Database → Bool
lock_project project db = nat_eq (count (λ p. p.id == project) db.projects) 1

-- `description?.trim() || null`
unfoldable pub optional_description : Option String → Option String
optional_description none = none
optional_description (some text) = elim (trim text) [
  | String.[] ↦ none
  | String.◌∷◌ c rest ↦ some (String.◌∷◌ c rest)
]

abbrev pub with_role : Project → ProjectMember → ProjectResponse
with_role p m = record { id = p.id; name = p.name; description = p.description; role = m.role }

abbrev pub responses : Database → String → List Project → List ProjectResponse
responses db user [] = []
responses db user (p ∷ rest) = elim (find_member db p.id user) [
  | none ↦ responses db user rest
  | some m ↦ with_role p m ∷ responses db user rest
]

unfoldable pub list_for_user : String → Database → List ProjectResponse
list_for_user user db = responses db user db.projects

unfoldable pub get_for_user : String → String → Database → ServiceReply ProjectResponse
get_for_user project user db = do
  p ← required (find (λ p. p.id == project) db.projects) ServiceError.not_found
  m ← required (find_member db p.id user) ServiceError.not_found
  done (with_role p m)
