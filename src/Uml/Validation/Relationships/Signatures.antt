-- ===== src/Uml/Validation/Relationships/Signatures.antt =====
-- canonical-model.validation.ts: the loop over the relationships lets no two of them mean the same.
use uml_class_designer_be.Common.{
  ℕ, suc, true, false, ◌≡◌, ◌⊎◌, inl, inr, refl, subst, none, some, List, [], ◌∷◌, ◌++◌, All, arith,
  ◌||◌, eq_refl,
}
use uml_class_designer_be.Uml.Types.{UmlRelationship, RelationshipKind}
use uml_class_designer_be.Uml.Validation.Outcome.{returned, >>=-eq-returned}
use uml_class_designer_be.Uml.Validation.Classifiers.{Classifiers}
use uml_class_designer_be.Uml.Validation.Relationships.{
  Seen, Signature, relationship_signature, same_signature, has_signature, is_kind,
  assert_relationship, assert_relationships,
}
use uml_class_designer_be.Uml.Validation.Relationships.Ends.{relationship-eq-returned}

-- The relationships mean the same: one kind, name and association class, and the same ends; an
-- association may be read backwards.
pub record IsDuplicate (q r : UmlRelationship) : Type 0 where
  pub same_kind : q.kind ≡ r.kind
  pub same_name : q.name ≡ r.name
  pub same_class : q.association_class_id ≡ r.association_class_id
  pub same_ends :
      ((q.source ≡ r.source) × (q.target ≡ r.target))
      ⊎ ((q.kind ≡ RelationshipKind.association) × (q.source ≡ r.target) × (q.target ≡ r.source))

-- No relationship of the list means the same as one before it.
abbrev pub IsApart : List UmlRelationship → Type 0
IsApart [] = Unit
IsApart (r ∷ rs) = All (λ q. ¬ IsDuplicate q r) rs × IsApart rs

same_signature_refl : (s : Signature) → same_signature s s ≡ true
unfolding same_signature
same_signature_refl [] = refl
same_signature_refl (none ∷ s) = same_signature_refl s
same_signature_refl (some c ∷ s) = ground (arith, eq_refl c, same_signature_refl s)

-- Not in the set, read forwards or, for an association, backwards.
abbrev pub IsNew : List Signature → UmlRelationship → Type 0
IsNew seen q =
    (has_signature (relationship_signature q false) seen ≡ false)
    × (is_kind q.kind RelationshipKind.association ≡ true
        → has_signature (relationship_signature q true) seen ≡ false)

duplicate-signature :
    (q r : UmlRelationship)
    → IsDuplicate q r
    → (relationship_signature q false ≡ relationship_signature r false)
      ⊎ ((is_kind q.kind RelationshipKind.association ≡ true)
          × (relationship_signature q true ≡ relationship_signature r false))
unfolding relationship_signature
duplicate-signature q r d = elim d.same_ends [
  | inl (s, t) ↦ inl (cc)
  | inr (k, s, t) ↦ inr (rw k refl, cc)
]

has_signature-append :
    (x y : Signature) (seen : List Signature)
    → has_signature x (seen ++ y ∷ []) ≡ (has_signature x seen || same_signature x y)
has_signature-append x y [] = ground arith
has_signature-append x y (s ∷ seen) = ground (arith, has_signature-append x y seen)

-- What is new after a relationship was recorded was new before, and does not repeat it.
module _ (seen : List Signature) (q r : UmlRelationship)
    (new : IsNew (seen ++ relationship_signature r false ∷ []) q) where
  before : IsNew seen q
  before = (
    ground (
      arith,
      new.0,
      has_signature-append (relationship_signature q false) (relationship_signature r false) seen,
    ),
    λ k. ground (
      arith,
      new.1 k,
      has_signature-append (relationship_signature q true) (relationship_signature r false) seen,
    ),
  )

  no_repeat : ¬ IsDuplicate q r
  no_repeat d = elim (duplicate-signature q r d) [
    | inl same ↦ ground (
      arith,
      new.0,
      has_signature-append (relationship_signature q false) (relationship_signature r false) seen,
      subst (λ s. same_signature (relationship_signature q false) s ≡ true) same
          (same_signature_refl (relationship_signature q false)),
    )
    | inr (k, same) ↦ ground (
      arith,
      new.1 k,
      has_signature-append (relationship_signature q true) (relationship_signature r false) seen,
      subst (λ s. same_signature (relationship_signature q true) s ≡ true) same
          (same_signature_refl (relationship_signature q true)),
    )
  ]

apart_from :
    (seen : List Signature) (r : UmlRelationship) (rs : List UmlRelationship)
    → All (IsNew (seen ++ relationship_signature r false ∷ [])) rs
    → All (IsNew seen) rs × All (λ q. ¬ IsDuplicate q r) rs
apart_from seen r [] h = (tt, tt)
apart_from seen r (q ∷ rs) h =
    let (olds, others) = apart_from seen r rs h.1 in
    ((before seen q r h.0, olds), (no_repeat seen q r h.0, others))

module _ (elements : Classifiers) where
  relationships-new :
      (i : ℕ) (rs : List UmlRelationship) (s s' : Seen)
      → assert_relationships elements i rs s ≡ returned s'
      → All (IsNew s.relationship_signatures) rs × IsApart rs
  unfolding assert_relationships
  relationships-new i [] s s' h = (tt, tt)
  relationships-new i (r ∷ rs) s s' h =
      let (s₁, first, h₁) = >>=-eq-returned (assert_relationship elements i r s) _ h in
      let (ids, _, recorded, _) = relationship-eq-returned elements i r s s₁ first in
      let (new, apart) = relationships-new (suc i) rs s₁ s' h₁ in
      let (olds, others) =
        apart_from s.relationship_signatures r rs
          (subst (λ seen. All (IsNew seen) rs) recorded.signed new) in
      (((recorded.fresh, recorded.fresh_reverse), olds), (others, apart))

  -- Where the loop passes from the empty sets, no relationship repeats one before it.
  pub relationships-IsApart :
      (rs : List UmlRelationship) (s s' : Seen)
      → assert_relationships elements 0 rs s ≡ returned s'
      → IsApart rs
  relationships-IsApart rs s s' h = (relationships-new 0 rs s s' h).1
