-- ===== src/Collaboration/Commands/Reads.antt =====
-- document-command.service.ts: what it reads for the gateway; collaboration.gateway.ts: whom a
-- broadcast reaches by that. A session key `user:session` is the pair: the identifiers are UUIDs,
-- without a colon. The two reads of an authorization are made at once and see two databases.
pub mod Authorization
use uml_class_designer_be.Common.{
  ℕ, String, Bool, true, false, ◌&&◌, Option, none, some, List, [], ◌∷◌, map, any, filter, find,
  contains, add_all, leb, ltb, ◌==◌, if◌then◌else◌, take,
}
use uml_class_designer_be.Uml.Types.{CanonicalUmlModel}
use uml_class_designer_be.Collaboration.Locks.{Keys, has_key}
use uml_class_designer_be.Collaboration.Database.{
  Database, UmlDocument, AuthSession, ProjectMember, DocumentOperation, is_collaborator,
  is_collaboration_role, find_document, is_not_set,
}
use uml_class_designer_be.Collaboration.Commands.{CollaborationIdentity}

pub record AuthorizedDocument : Type 0 where
  pub id : String
  pub project_id : String
  pub revision : ℕ
  pub canonical_model : CanonicalUmlModel

abbrev pub to_authorized_document : UmlDocument → AuthorizedDocument
to_authorized_document d = record {
  id = d.id;
  project_id = d.project_id;
  revision = d.revision;
  canonical_model = d.canonical_model;
}

unfoldable pub get_authorized_document : String → String → Database → Option AuthorizedDocument
get_authorized_document document_id user_id db =
    elim (find (λ d. d.id == document_id && is_collaborator db d.project_id user_id) db.documents) [
      | none ↦ none
      | some d ↦ some (to_authorized_document d)
    ]

unfoldable pub get_current_document : String → Database → Option AuthorizedDocument
get_current_document document_id db = elim (find_document db document_id) [
  | none ↦ none
  | some d ↦ some (to_authorized_document d)
]

pub record DocumentBroadcastAuthorization : Type 0 where
  pub document_exists : Bool
  pub active_session_keys : Keys
  pub authorized_user_ids : List String

-- one of the alternatives of `OR`
unfoldable pub is_listed : List CollaborationIdentity → String → String → Bool
is_listed identities id user_id = any (λ i. i.session_id == id && i.user_id == user_id) identities

abbrev pub is_active_listed : ℕ → List CollaborationIdentity → AuthSession → Bool
is_active_listed now identities s =
    is_not_set s.revoked_at && ltb now s.expires_at && is_listed identities s.id s.user_id

abbrev pub unique_user_ids : List CollaborationIdentity → List String
unique_user_ids identities = add_all (map (λ i. i.user_id) identities) []

abbrev pub is_authorized_member : List String → String → ProjectMember → Bool
is_authorized_member user_ids project_id m =
    m.project_id == project_id && contains m.user_id user_ids && is_collaboration_role m.role

unfoldable pub authorized_members : List String → Database → Option UmlDocument → List String
authorized_members user_ids db none = []
authorized_members user_ids db (some d) =
    add_all (map (λ m. m.user_id) (filter (is_authorized_member user_ids d.project_id) db.members))
      []

abbrev pub exists {ℓ} : {A : Type ℓ} → Option A → Bool
exists none = false
exists (some a) = true

unfoldable pub get_broadcast_authorization :
    ℕ → String → List CollaborationIdentity → Database → Database → DocumentBroadcastAuthorization
get_broadcast_authorization now document_id [] sessions_seen document_seen = record {
  document_exists = false;
  active_session_keys = [];
  authorized_user_ids = [];
}
get_broadcast_authorization now document_id (i ∷ rest) sessions_seen document_seen = record {
  document_exists = exists (find_document document_seen document_id);
  active_session_keys =
      map (λ s. (s.user_id, s.id))
        (filter (is_active_listed now (i ∷ rest)) sessions_seen.sessions);
  authorized_user_ids =
      authorized_members (unique_user_ids (i ∷ rest)) document_seen
        (find_document document_seen document_id);
}

-- Whether the gateway sends to a recipient, as far as its authorization decides.
unfoldable pub lets_through : DocumentBroadcastAuthorization → CollaborationIdentity → Bool
lets_through a i =
    has_key i.user_id i.session_id a.active_session_keys
    && a.document_exists
    && contains i.user_id a.authorized_user_ids

-- in the order of `committedAt`; among equals, the order of the database
abbrev pub insert_by_commit : DocumentOperation → List DocumentOperation → List DocumentOperation
insert_by_commit o [] = o ∷ []
insert_by_commit o (p ∷ others) =
    if leb o.committed_at p.committed_at then o ∷ p ∷ others else p ∷ insert_by_commit o others

abbrev pub by_commit : List DocumentOperation → List DocumentOperation
by_commit [] = []
by_commit (o ∷ others) = insert_by_commit o (by_commit others)

unfoldable pub list_documents_awaiting_delivery : ℕ → Database → List String
list_documents_awaiting_delivery limit db =
    add_all
      (map (λ o. o.document_id)
        (take limit (by_commit (filter (λ o. is_not_set o.broadcasted_at) db.operations))))
      []
