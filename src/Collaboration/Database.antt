-- ===== src/Collaboration/Database.antt =====
-- prisma/schema.prisma: the tables that the services read and write. A table is the list of its
-- rows; columns that no modelled statement reads or writes are left out, and times are in
-- milliseconds.
use uml_class_designer_be.Common.{
  ℕ, String, Bool, true, false, ◌&&◌, Option, none, some, List, any, filter, find, ltb, length,
  ◌==◌,
}
use uml_class_designer_be.Uml.Types.{CanonicalUmlModel}
use uml_class_designer_be.Uml.Command.{UmlCommand}

pub data ProjectRole : Type 0 where
  owner editor : ProjectRole

pub record User : Type 0 where
  pub id : String
  pub email : String
  pub display_name : String
  pub password_hash : String

pub record AuthSession : Type 0 where
  pub id : String
  pub user_id : String
  pub token_hash : String
  pub refresh_sequence : ℕ
  pub expires_at : ℕ
  pub revoked_at : Option ℕ

pub record ConsumedRefreshToken : Type 0 where
  pub token_hash : String
  pub session_id : String

pub record ProjectMember : Type 0 where
  pub project_id : String
  pub user_id : String
  pub role : ProjectRole

pub record UmlDocument : Type 0 where
  pub id : String
  pub project_id : String
  pub name : String
  pub canonical_model : CanonicalUmlModel
  pub revision : ℕ
  pub created_by_id : String
  pub updated_by_id : String

pub record DocumentRevision : Type 0 where
  pub document_id : String
  pub revision : ℕ
  pub canonical_model : CanonicalUmlModel
  pub author_id : String

pub record DocumentOperation : Type 0 where
  pub operation_id : String
  pub document_id : String
  pub actor_id : String
  pub base_revision : ℕ
  pub resulting_revision : ℕ
  pub command : UmlCommand
  pub command_fingerprint : String
  pub committed_at : ℕ
  pub broadcasted_at : Option ℕ

pub record Project : Type 0 where
  pub id : String
  pub name : String
  pub description : Option String
  pub owner_id : String

pub record Database : Type 0 where
  pub users : List User
  pub sessions : List AuthSession
  pub consumed_tokens : List ConsumedRefreshToken
  pub projects : List Project
  pub members : List ProjectMember
  pub documents : List UmlDocument
  pub revisions : List DocumentRevision
  pub operations : List DocumentOperation

-- `COLLABORATION_ROLES.includes(role)`
abbrev pub is_collaboration_role : ProjectRole → Bool
is_collaboration_role ProjectRole.owner = true
is_collaboration_role ProjectRole.editor = true

abbrev pub is_not_set {ℓ} : {A : Type ℓ} → Option A → Bool
is_not_set none = true
is_not_set (some a) = false

-- a session that is neither revoked nor expired
abbrev pub is_active_session : ℕ → String → String → AuthSession → Bool
is_active_session now user_id session_id s =
    s.id == session_id && s.user_id == user_id && is_not_set s.revoked_at && ltb now s.expires_at

-- `members: { some: { userId, role: { in: COLLABORATION_ROLES } } }`
abbrev pub is_collaborator : Database → String → String → Bool
is_collaborator db project_id user_id =
    any (λ m. m.project_id == project_id && m.user_id == user_id && is_collaboration_role m.role)
      db.members

abbrev pub find_document : Database → String → Option UmlDocument
find_document db id = find (λ d. d.id == id) db.documents

-- the unique key `documentId_operationId`
abbrev pub is_operation : String → String → DocumentOperation → Bool
is_operation document_id operation_id o =
    o.document_id == document_id && o.operation_id == operation_id

abbrev pub find_operation : Database → String → String → Option DocumentOperation
find_operation db document_id operation_id =
    find (is_operation document_id operation_id) db.operations

abbrev pub count {ℓ} : {A : Type ℓ} → (A → Bool) → List A → ℕ
count p xs = length (filter p xs)
