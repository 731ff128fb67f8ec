-- ===== src/Rest/Documents/Removal.antt =====
-- documents.service.ts: the rows that a deletion leaves.
use mathlib.Core.List.{Memᴰ}
use uml_class_designer_be.Common.{
  ℕ, String, Bool, true, false, not, ◌&&◌, ◌≡◌, refl, sym, ap, ◌∙◌, inl, inr, some, List, [], ◌∷◌,
  map, any, filter, nat_eq, ◌==◌, eq_iff, arith, Bool-cases, IsDistinct, Memᴰ_inj, All, All-of_Memᴰ,
  filter-one,
}
use uml_class_designer_be.Collaboration.Locks.{LockStore}
use uml_class_designer_be.Collaboration.Database.{Database, UmlDocument, is_collaborator, count}
use uml_class_designer_be.Rest.Replies.{ServiceReply, done, failed, require}
use uml_class_designer_be.Rest.Documents.{
  DocumentRequest, DocumentCollaborationChange, DocumentAnswer, after, authorize,
}
use uml_class_designer_be.Rest.Documents.Deletion.{is_deleted, without_documents, delete}

filter_same {ℓ} :
    {A : Type ℓ} (p r : A → Bool) (xs : List A)
    → All (λ x. p x ≡ r x) xs
    → filter p xs ≡ filter r xs
filter_same p r [] h = refl
filter_same p r (x ∷ xs) h = ground (arith, h.0, filter_same p r xs h.1)

any_of_Memᴰ {ℓ} :
    {A : Type ℓ} (p : A → Bool) (xs : List A) (x : A) → Memᴰ x xs → p x ≡ true → any p xs ≡ true
any_of_Memᴰ p [] x m h = elim m [ ]
any_of_Memᴰ p (y ∷ xs) x (Memᴰ.head e) h = ground (arith, e, h)
any_of_Memᴰ p (y ∷ xs) x (Memᴰ.tail m) h = ground (arith, any_of_Memᴰ p xs x m h)

-- A document of the project, of which the caller is a collaborator, is gone from a database with
-- its revisions and operations, and nothing else is.
pub record IsRemoved (q : DocumentRequest) (db db' : Database) : Type 0 where
  pub before : UmlDocument
  pub there : Memᴰ before db.documents
  pub named : before.id ≡ q.document_id
  pub own_project : before.project_id ≡ q.project_id
  pub allowed : is_collaborator db before.project_id q.user_id ≡ true
  pub documents : db'.documents ≡ filter (λ d. not (d.id == q.document_id)) db.documents
  pub revisions : db'.revisions ≡ filter (λ r. not (r.document_id == q.document_id)) db.revisions
  pub operations : db'.operations ≡ filter (λ o. not (o.document_id == q.document_id)) db.operations
  pub other_tables : db' ≡ record db {
    documents = db'.documents;
    revisions = db'.revisions;
    operations = db'.operations;
  }

module _ (q : DocumentRequest) (db : Database) (before : UmlDocument)
    (distinct : IsDistinct (map (λ d. d.id) db.documents)) (there : Memᴰ before db.documents)
    (hit : is_deleted q db before ≡ true) where
  its_id : before.id ≡ q.document_id
  its_id = ground (arith, hit, eq_iff before.id q.document_id)

  is_deleted_iff :
      (d : UmlDocument) → Memᴰ d db.documents → is_deleted q db d ≡ (d.id == q.document_id)
  is_deleted_iff d m = elim (Bool-cases (d.id == q.document_id)) [
    | inl same ↦
        let it =
          Memᴰ_inj (λ x. x.id) db.documents d before distinct m there
            ((eq_iff d.id q.document_id).0 same ∙ sym its_id) in
        ap (is_deleted q db) it ∙ (hit ∙ sym same)
    | inr other ↦ ground (arith, other)
  ]

  never_gone :
      (s : String) (ds : List UmlDocument)
      → (s == q.document_id) ≡ false
      → any (λ d. d.id == s && is_deleted q db d) ds ≡ false
  never_gone s [] h = refl
  never_gone s (d ∷ ds) h =
      ground
        (arith, eq_iff d.id s, eq_iff d.id q.document_id, eq_iff s q.document_id, never_gone s ds h)

  gone_iff :
      (s : String) → any (λ d. d.id == s && is_deleted q db d) db.documents ≡ (s == q.document_id)
  gone_iff s = elim (Bool-cases (s == q.document_id)) [
    | inl same ↦
        any_of_Memᴰ (λ d. d.id == s && is_deleted q db d) db.documents before there
          (ground (arith, hit, its_id, eq_iff s q.document_id, eq_iff before.id s))
        ∙ sym same
    | inr other ↦ never_gone s db.documents other ∙ sym other
  ]

  without_documents-IsRemoved : IsRemoved q db (without_documents (is_deleted q db) db)
  unfolding without_documents
  without_documents-IsRemoved = record {
    before = before;
    there = there;
    named = its_id;
    own_project = ground (arith, hit, eq_iff before.project_id q.project_id);
    allowed = ground (arith, hit);
    documents =
        filter_same _ _ db.documents
          (All-of_Memᴰ _ db.documents (λ d m. ap not (is_deleted_iff d m)));
    revisions =
        filter_same _ _ db.revisions
          (All-of_Memᴰ _ db.revisions (λ r m. ap not (gone_iff r.document_id)));
    operations =
        filter_same _ _ db.operations
          (All-of_Memᴰ _ db.operations (λ o m. ap not (gone_iff o.document_id)));
    other_tables = refl;
  }

after-done :
    {A B : Type 0} (locks : LockStore) (m : ServiceReply A) (next : A → DocumentAnswer B) (b : B)
    → (after locks m next).reply ≡ done b
    → (a : A) × (after locks m next ≡ next a) × ((next a).reply ≡ done b)
after-done locks (done a) next b h = (a, refl, h)
after-done locks (failed e) next b h = absurd (cc)

-- A deletion that succeeds, where the identifiers of documents are a key, commits that a document
-- of the project, of which the caller is a collaborator, is gone with exactly its revisions and
-- its operations, and that no other row of any table changes; and it publishes the deletion.
pub delete-IsRemoved :
    (q : DocumentRequest) (overloaded : Bool) (seen : ℕ → Database) (locks : LockStore)
    → IsDistinct (map (λ d. d.id) (seen 3).documents)
    → (delete q overloaded seen locks).reply ≡ done tt
    → (db' : Database) × ((delete q overloaded seen locks).written ≡ some db')
      × IsRemoved q (seen 3) db'
      × ((delete q overloaded seen locks).published
          ≡ some (DocumentCollaborationChange.deleted q.document_id))
unfolding delete
delete-IsRemoved q overloaded seen locks distinct h =
    let (u, ready, h₁) = after-done locks (require (not overloaded) _) _ tt h in
    let (v, who, h₂) = after-done locks (authorize q seen) _ tt h₁ in
    elim (Bool-cases (nat_eq (count (is_deleted q (seen 3)) (seen 3).documents) 1)) [
      | inr other ↦ absurd (ground (arith, other, h₂))
      | inl one ↦
          let (before, there, hit) =
            filter-one (is_deleted q (seen 3)) (seen 3).documents (ground (arith, one)) in
          let same = ready ∙ who in
          (
            without_documents (is_deleted q (seen 3)) (seen 3),
            ap (λ a. a.written) same ∙ rw one refl,
            without_documents-IsRemoved q (seen 3) before distinct there hit,
            ap (λ a. a.published) same ∙ rw one refl,
          )
    ]
