-- ===== src/Rest/Projects/Ownership.antt =====
-- projects.service.ts: a project has one owner, who is the one that its row names.
use uml_class_designer_be.Common.{
  String, Bool, true, false, not, ◌&&◌, ◌≡◌, refl, sym, ap, ◌∙◌, inl, inr, Option, none, some, List,
  [], ◌∷◌, ◌++◌, map, any, filter, find, ◌==◌, if◌then◌else◌, arith, Bool-cases, Option-cases,
  eq_iff, eq_refl, true≢false, All, All-append, All-filter,
}
use uml_class_designer_be.Collaboration.Database.{Database, Project, ProjectMember, ProjectRole}
use uml_class_designer_be.Rest.Documents.Deletion.{without_documents}
use uml_class_designer_be.Rest.Projects.{
  ProjectRequest, UpdateProject, is_owner, has_member_key, find_member,
}
use uml_class_designer_be.Rest.Projects.Writes.{
  member_row, is_owner_project, updated_project, write_project, without_project,
}
use uml_class_designer_be.Rest.Projects.Members.{without_member}

abbrev pub is_owner_row : Option ProjectMember → Bool
is_owner_row none = false
is_owner_row (some m) = is_owner m.role

abbrev pub names_owner : ProjectMember → Project → Bool
names_owner m p = p.id == m.project_id && p.owner_id == m.user_id

-- The user that a project names is a member with the role of the owner, and no other member of it
-- has that role.
pub record IsOwned (db : Database) : Type 0 where
  pub owners : All (λ p. is_owner_row (find_member db p.id p.owner_id) ≡ true) db.projects
  pub sole : All (λ m. is_owner m.role ≡ true → any (names_owner m) db.projects ≡ true) db.members

module _ {A : Type 0} (p : A → Bool) where
  find-append_found : (xs : List A) (y x : A) → find p xs ≡ some x → find p (xs ++ y ∷ []) ≡ some x
  find-append_found [] y x h = absurd (cc)
  find-append_found (z ∷ xs) y x h = ground (arith, find-append_found xs y x)

  find-append_missing :
      (xs : List A) (y : A) → find p xs ≡ none → p y ≡ true → find p (xs ++ y ∷ []) ≡ some y
  find-append_missing [] y h k = ground arith
  find-append_missing (z ∷ xs) y h k = ground (arith, find-append_missing xs y)

  any-append_left : (xs : List A) (y : A) → any p xs ≡ true → any p (xs ++ y ∷ []) ≡ true
  any-append_left [] y h = absurd (cc)
  any-append_left (z ∷ xs) y h = ground (arith, any-append_left xs y)

  any-append_right : (xs : List A) (y : A) → p y ≡ true → any p (xs ++ y ∷ []) ≡ true
  any-append_right [] y h = ground arith
  any-append_right (z ∷ xs) y h = ground (arith, any-append_right xs y)

  module _ (k : A → Bool) (kept : (x : A) → p x ≡ true → k x ≡ true) where
    find-filter : (xs : List A) → find p (filter k xs) ≡ find p xs
    find-filter [] = refl
    find-filter (x ∷ xs) = ground (arith, kept x, find-filter xs)

    any-filter : (xs : List A) → any p (filter k xs) ≡ any p xs
    any-filter [] = refl
    any-filter (x ∷ xs) = ground (arith, kept x, any-filter xs)

All-imp :
    {A : Type 0} (P Q : A → Type 0) (xs : List A) → ((x : A) → P x → Q x) → All P xs → All Q xs
All-imp P Q [] f h = tt
All-imp P Q (x ∷ xs) f h = (f x h.0, All-imp P Q xs f h.1)

All-filter_imp :
    {A : Type 0} (P Q : A → Type 0) (k : A → Bool) (xs : List A)
    → ((x : A) → k x ≡ true → P x → Q x)
    → All P xs
    → All Q (filter k xs)
All-filter_imp P Q k [] f h = tt
All-filter_imp P Q k (x ∷ xs) f h = elim (Bool-cases (k x)) [
  | inl hit ↦ rw hit (f x hit h.0, All-filter_imp P Q k xs f h.1)
  | inr miss ↦ rw miss (All-filter_imp P Q k xs f h.1)
]

All-map_imp :
    {A : Type 0} (P Q : A → Type 0) (f : A → A) (xs : List A)
    → ((x : A) → P x → Q (f x))
    → All P xs
    → All Q (map f xs)
All-map_imp P Q f [] g h = tt
All-map_imp P Q f (x ∷ xs) g h = (g x h.0, All-map_imp P Q f xs g h.1)

any-map_same :
    {A : Type 0} (p : A → Bool) (f : A → A) (xs : List A)
    → ((x : A) → p (f x) ≡ p x)
    → any p (map f xs) ≡ any p xs
any-map_same p f [] same = refl
any-map_same p f (x ∷ xs) same = ground (arith, same x, any-map_same p f xs same)

other_key :
    (p : Project) (project : String) (m : ProjectMember)
    → not (p.id == project) ≡ true
    → has_member_key p.id p.owner_id m ≡ true
    → not (m.project_id == project) ≡ true
other_key p project m h k =
    let same : m.project_id ≡ p.id = (eq_iff m.project_id p.id).0 (ground arith) in rw same h

other_project :
    (m : ProjectMember) (project : String) (p : Project)
    → not (m.project_id == project) ≡ true
    → names_owner m p ≡ true
    → not (p.id == project) ≡ true
other_project m project p h k =
    let same : p.id ≡ m.project_id = (eq_iff p.id m.project_id).0 (ground arith) in rw same h

-- An owner's row has another key than that of an editor.
owner_key :
    (db : Database) (p : Project) (project user : String) (m : ProjectMember)
    → is_owner_row (find_member db project user) ≡ false
    → is_owner_row (find_member db p.id p.owner_id) ≡ true
    → has_member_key p.id p.owner_id m ≡ true
    → not (has_member_key project user m) ≡ true
owner_key db p project user m editor own hit = elim (Bool-cases (has_member_key project user m)) [
  | inr miss ↦ rw miss refl
  | inl both ↦
      let same : p.id ≡ project =
        sym ((eq_iff m.project_id p.id).0 (ground arith))
        ∙ (eq_iff m.project_id project).0 (ground arith) in
      let same_user : p.owner_id ≡ user =
        sym ((eq_iff m.user_id p.owner_id).0 (ground arith))
        ∙ (eq_iff m.user_id user).0 (ground arith) in
      absurd (
        true≢false (
          sym own
          ∙ (ap (λ (s : String). is_owner_row (find_member db s p.owner_id)) same
              ∙ (ap (λ (s : String). is_owner_row (find_member db project s)) same_user ∙ editor))))
]

module _ (db : Database) (o : IsOwned db) where
  -- a new row of a member, whose key is free
  appended_owner :
      (row : ProjectMember) (p : Project)
      → is_owner_row (find_member db p.id p.owner_id) ≡ true
      → is_owner_row (find (has_member_key p.id p.owner_id) (db.members ++ row ∷ [])) ≡ true
  appended_owner row p h = elim (Option-cases (find_member db p.id p.owner_id)) [
    | inl nobody ↦ absurd (ground (arith, nobody))
    | inr (m, found) ↦
        rw (find-append_found (has_member_key p.id p.owner_id) db.members row m found)
          (rw found at h)
  ]

  pub insert_editor-IsOwned :
      (project user : String)
      → IsOwned
          (record db { members = db.members ++ member_row project user ProjectRole.editor ∷ [] })
  insert_editor-IsOwned project user = record {
    owners =
        All-imp _ _ db.projects (appended_owner (member_row project user ProjectRole.editor))
          o.owners;
    sole = All-append _ db.members _ o.sole (λ h. absurd (cc), tt);
  }

  pub insert_project-IsOwned :
      (p : Project)
      → find_member db p.id p.owner_id ≡ none
      → IsOwned (record db {
        projects = db.projects ++ p ∷ [];
        members = db.members ++ member_row p.id p.owner_id ProjectRole.owner ∷ [];
      })
  insert_project-IsOwned p free = record {
    owners =
        All-append _ db.projects _
          (All-imp _ _ db.projects (appended_owner (member_row p.id p.owner_id ProjectRole.owner))
            o.owners)
          (
            rw
                (find-append_missing (has_member_key p.id p.owner_id) db.members
                  (member_row p.id p.owner_id ProjectRole.owner) free
                  (ground (arith, eq_refl p.id, eq_refl p.owner_id)))
                refl,
            tt,
          );
    sole =
        All-append _ db.members _
          (All-imp _ _ db.members
            (λ m h role. any-append_left (names_owner m) db.projects p (h role)) o.sole)
          (
            λ role.
                any-append_right (names_owner (member_row p.id p.owner_id ProjectRole.owner))
                  db.projects p (ground (arith, eq_refl p.id, eq_refl p.owner_id)),
            tt,
          );
  }

  pub without_project-IsOwned : (project : String) → IsOwned (without_project project db)
  unfolding without_project without_documents
  without_project-IsOwned project = record {
    owners =
        All-filter_imp _ _ _ db.projects
          (λ p stays own.
            rw
              (find-filter (has_member_key p.id p.owner_id) (λ m. not (m.project_id == project))
                (λ m. other_key p project m stays) db.members)
              own)
          o.owners;
    sole =
        All-filter_imp _ _ _ db.members
          (λ m stays own role.
            rw
              (any-filter (names_owner m) (λ p. not (p.id == project))
                (λ p. other_project m project p stays) db.projects)
              (own role))
          o.sole;
  }

  pub without_member-IsOwned :
      (project user : String)
      → is_owner_row (find_member db project user) ≡ false
      → IsOwned (without_member project user db)
  without_member-IsOwned project user editor = record {
    owners =
        All-imp _ _ db.projects
          (λ p own.
            rw
              (find-filter (has_member_key p.id p.owner_id)
                (λ m. not (has_member_key project user m))
                (λ m. owner_key db p project user m editor own) db.members)
              own)
          o.owners;
    sole = All-filter _ _ db.members o.sole;
  }

  pub write_project-IsOwned :
      (q : ProjectRequest) (project : String) (input : UpdateProject)
      → IsOwned (write_project q project input db)
  unfolding write_project
  write_project-IsOwned q project input =
      let f =
        λ (p : Project). if is_owner_project q project db p then updated_project input p else p in
      record {
        owners = All-map_imp _ _ f db.projects (λ p own. ground (arith, own)) o.owners;
        sole =
            All-imp _ _ db.members
              (λ m own role.
                rw (any-map_same (names_owner m) f db.projects (λ p. ground arith)) (own role))
              o.sole;
      }
