-- ===== src/Collaboration/Commands/Reads/Authorization.antt =====
-- document-command.service.ts: one authorization for a broadcast says of each recipient what the
-- checks of a single user say.
use mathlib.Core.List.{Memᴰ}
use uml_class_designer_be.Common.{
  ℕ, String, Bool, true, false, ◌&&◌, ◌≡◌, refl, ◌∙◌, inl, inr, none, some, List, [], ◌∷◌, map, any,
  filter, find, contains, contains-add_all, IsDistinct, ◌==◌, eq_iff, arith, Option-cases,
  contains-map_of_Memᴰ,
}
use uml_class_designer_be.Collaboration.Locks.{has_key}
use uml_class_designer_be.Collaboration.Database.{
  Database, UmlDocument, AuthSession, ProjectMember, is_active_session, is_collaborator,
  is_collaboration_role, find_document,
}
use uml_class_designer_be.Collaboration.Commands.{CollaborationIdentity}
use uml_class_designer_be.Collaboration.Commands.Reads.{
  get_authorized_document, is_listed, is_active_listed, unique_user_ids, is_authorized_member,
  authorized_members, exists, get_broadcast_authorization, lets_through,
}

is_listed_of_Memᴰ :
    (identities : List CollaborationIdentity) (i : CollaborationIdentity)
    → Memᴰ i identities
    → is_listed identities i.session_id i.user_id ≡ true
unfolding is_listed
is_listed_of_Memᴰ [] i m = elim m [ ]
is_listed_of_Memᴰ (j ∷ rest) i (Memᴰ.head e) =
    ground (arith, e, eq_iff j.session_id i.session_id, eq_iff j.user_id i.user_id)
is_listed_of_Memᴰ (j ∷ rest) i (Memᴰ.tail m) = ground (arith, is_listed_of_Memᴰ rest i m)

-- The keys of the active sessions, for a listed recipient.
has_key-active :
    (now : ℕ) (identities : List CollaborationIdentity) (i : CollaborationIdentity)
    → (rows : List AuthSession) → is_listed identities i.session_id i.user_id ≡ true
    → has_key i.user_id i.session_id
        (map (λ s. (s.user_id, s.id)) (filter (is_active_listed now identities) rows))
      ≡ any (is_active_session now i.user_id i.session_id) rows
has_key-active now identities i [] h = refl
has_key-active now identities i (s ∷ rows) h = ground (
  arith,
  eq_iff s.id i.session_id,
  eq_iff s.user_id i.user_id,
  has_key-active now identities i rows h,
)

contains-authorized :
    (user_ids : List String) (project_id user_id : String) (members : List ProjectMember)
    → contains user_id user_ids ≡ true
    → contains user_id
        (map (λ m. m.user_id) (filter (is_authorized_member user_ids project_id) members))
      ≡ any
          (λ m. m.project_id == project_id && m.user_id == user_id && is_collaboration_role m.role)
          members
contains-authorized user_ids project_id user_id [] h = refl
contains-authorized user_ids project_id user_id (m ∷ members) h =
    ground
      (arith, eq_iff m.user_id user_id, contains-authorized user_ids project_id user_id members h)

module _ (p : UmlDocument → Bool) (id : String) where
  find_absent :
      (rows : List UmlDocument)
      → contains id (map (λ d. d.id) rows) ≡ false
      → exists (find (λ d. d.id == id && p d) rows) ≡ false
  find_absent [] h = refl
  find_absent (d ∷ rows) h = ground (arith, find_absent rows)

  -- Where identifiers are a key, a further test on the row can wait.
  find-and :
      (rows : List UmlDocument)
      → IsDistinct (map (λ d. d.id) rows)
      → exists (find (λ d. d.id == id && p d) rows)
        ≡ elim (find (λ d. d.id == id) rows) [ none ↦ false | some d ↦ p d ]
  find-and [] h = refl
  find-and (d ∷ rows) h = ground (arith, eq_iff d.id id, find_absent rows, find-and rows h.1)

contains-authorized_members :
    (i : CollaborationIdentity) (identities : List CollaborationIdentity)
    → (d : UmlDocument) (db : Database) → Memᴰ i identities
    → contains i.user_id (authorized_members (unique_user_ids identities) db (some d))
      ≡ is_collaborator db d.project_id i.user_id
unfolding authorized_members
contains-authorized_members i identities d db m =
    let user_ids = unique_user_ids identities in
    contains-add_all i.user_id
      (map (λ r. r.user_id) (filter (is_authorized_member user_ids d.project_id) db.members)) []
    ∙ ground (
      arith,
      contains-authorized user_ids d.project_id i.user_id db.members,
      contains-add_all i.user_id (map (λ j. j.user_id) identities) [],
      contains-map_of_Memᴰ (λ (j : CollaborationIdentity). j.user_id) identities i m,
    )

exists-get_authorized_document :
    (id user_id : String) (db : Database)
    → exists (get_authorized_document id user_id db)
      ≡ exists (find (λ d. d.id == id && is_collaborator db d.project_id user_id) db.documents)
unfolding get_authorized_document
exists-get_authorized_document id user_id db =
    elim (Option-cases
      (find (λ d. d.id == id && is_collaborator db d.project_id user_id) db.documents)) [
        | inl absent ↦ rw (get_authorized_document, absent) refl
        | inr (d, there) ↦ rw (get_authorized_document, there) refl
      ]

-- Of a recipient that it was asked about, a broadcast authorization says what the checks of one
-- user say: it is let through exactly where its session is active and the document, whose
-- identifier is a key, is one that it is authorized for.
pub lets_through_iff :
    (now : ℕ) (id : String) (identities : List CollaborationIdentity) (i : CollaborationIdentity)
    → (sessions_seen document_seen : Database) → Memᴰ i identities
    → IsDistinct (map (λ d. d.id) document_seen.documents)
    → lets_through (get_broadcast_authorization now id identities sessions_seen document_seen) i ≡ (
        any (is_active_session now i.user_id i.session_id) sessions_seen.sessions
        && exists (get_authorized_document id i.user_id document_seen))
unfolding lets_through get_broadcast_authorization authorized_members
lets_through_iff now id [] i sessions_seen document_seen m h = elim m [ ]
lets_through_iff now id (j ∷ rest) i sessions_seen document_seen m h =
    let active =
      has_key-active now (j ∷ rest) i sessions_seen.sessions (is_listed_of_Memᴰ (j ∷ rest) i m) in
    let same =
      exists-get_authorized_document id i.user_id document_seen
      ∙ find-and (λ d. is_collaborator document_seen d.project_id i.user_id) id
          document_seen.documents h in
    elim (Option-cases (find_document document_seen id)) [
      | inl absent ↦ rw (absent, same, absent) (ground (arith, active))
      | inr (d, there) ↦
          rw (there, same, there)
            (ground (arith, active, contains-authorized_members i (j ∷ rest) d document_seen m))
    ]
