-- ===== src/Uml/Validation/Relationships/Ends.antt =====
-- canonical-model.validation.ts: the loop over the relationships registers their identifiers and
-- finds their ends and their association classes among the classifiers.
use uml_class_designer_be.Common.{
  ℕ, suc, String, true, false, ◌≡◌, refl, subst, inl, inr, Option, none, some, List, [], ◌∷◌, ◌++◌,
  map, contains, lookup, is_some, keys, lookup-keys, All, arith, Option-cases, ◌&&◌, ◌||◌,
}
use uml_class_designer_be.Uml.Types.{UmlClassifier, UmlRelationship, RelationshipKind}
use uml_class_designer_be.Uml.Executor.References.{truthy}
use uml_class_designer_be.Uml.Executor.Removal.Cascade.{resolves}
use uml_class_designer_be.Uml.Validation.Outcome.{
  IssuePath, returned, >>=-eq-returned, refuse_if-eq-returned, returned_inj, Outcome-cases,
}
use uml_class_designer_be.Uml.Validation.Names.{register_id}
use uml_class_designer_be.Uml.Validation.Classifiers.{Classifiers}
use uml_class_designer_be.Uml.Validation.Classifiers.Identifiers.{
  Extends, Extends-trans, Extends-refl, register_id-Extends,
}
use uml_class_designer_be.Uml.Validation.Relationships.{
  Seen, assert_ends, assert_association_class, assert_connected, assert_relationship,
  assert_relationships, relationship_signature, has_signature, is_kind, relationship_path,
}

class-is_some :
    (r : UmlRelationship) (source target : UmlClassifier) (o : Option UmlClassifier)
    → (assigned : List String) (path : IssuePath) {assigned' : List String}
    → assert_association_class r source target o assigned path ≡ returned assigned'
    → is_some o ≡ true
unfolding assert_association_class
class-is_some r source target none assigned path h = absurd (cc)
class-is_some r source target (some c) assigned path h = refl

module _ (elements : Classifiers) where
  -- What a relationship names is a key of the map.
  pub record IsConnected (r : UmlRelationship) : Type 0 where
    pub source_found : contains r.source.element_id (keys elements) ≡ true
    pub target_found : contains r.target.element_id (keys elements) ≡ true
    pub class_found : resolves r.association_class_id (keys elements) ≡ true

  -- The body of the loop: what it records, and that the association class exists.
  pub record Recorded (r : UmlRelationship) (s s' : Seen) : Type 0 where
    pub same_ids : s'.ids ≡ s.ids
    pub signed :
        s'.relationship_signatures
        ≡ (s.relationship_signatures ++ relationship_signature r false ∷ [])
    pub fresh : has_signature (relationship_signature r false) s.relationship_signatures ≡ false
    pub fresh_reverse :
        is_kind r.kind RelationshipKind.association ≡ true
        → has_signature (relationship_signature r true) s.relationship_signatures ≡ false
    pub class_known : resolves r.association_class_id (keys elements) ≡ true

  pub connected-Recorded :
      (i : ℕ) (r : UmlRelationship) (source target : UmlClassifier) (s s' : Seen)
      → assert_connected elements i r source target s ≡ returned s'
      → Recorded r s s'
  unfolding assert_connected
  connected-Recorded i r source target s s' h =
      let (_, _, h₁) = >>=-eq-returned (assert_ends r source target _) _ h in
      let (new, h₂) =
        refuse_if-eq-returned
          (has_signature (relationship_signature r false) s.relationship_signatures
            || (is_kind r.kind RelationshipKind.association
                && has_signature (relationship_signature r true) s.relationship_signatures))
          _ _ _ h₁ in
      elim (Option-cases (truthy r.association_class_id)) [
        | inl plain ↦ record {
          same_ids = ground arith;
          signed = ground arith;
          fresh = ground (arith, new);
          fresh_reverse = λ k. ground (arith, new, k);
          class_known = ground arith;
        }
        | inr (id, named) ↦
            elim (Outcome-cases (
              assert_association_class r source target (lookup id elements) s.association_classes
                (relationship_path i))) [
                  | inr (e, refused) ↦ absurd (ground arith)
                  | inl (assigned, done) ↦
                      let known = class-is_some r source target (lookup id elements) _ _ done in
                      record {
                        same_ids = ground arith;
                        signed = ground arith;
                        fresh = ground (arith, new);
                        fresh_reverse = λ k. ground (arith, new, k);
                        class_known = ground (arith, lookup-keys id elements, known);
                      }
                ]
      ]

  pub relationship-eq-returned :
      (i : ℕ) (r : UmlRelationship) (s s' : Seen)
      → assert_relationship elements i r s ≡ returned s'
      → (ids : List String) × Extends s.ids (r.id ∷ []) ids
        × Recorded r (record s { ids = ids }) s'
        × IsConnected r
  unfolding assert_relationship
  relationship-eq-returned i r s s' h =
      let (ids, registered, h₁) = >>=-eq-returned (register_id r.id _ s.ids) _ h in
      elim (Option-cases (lookup r.source.element_id elements)) [
        | inl lost ↦ absurd (ground arith)
        | inr (source, there) ↦ elim (Option-cases (lookup r.target.element_id elements)) [
          | inl lost ↦ absurd (ground arith)
          | inr (target, here) ↦
              let recorded =
                connected-Recorded i r source target (record s { ids = ids }) s' (ground arith) in
              (
                ids,
                register_id-Extends r.id _ registered,
                recorded,
                record {
                  source_found = ground (arith, lookup-keys r.source.element_id elements);
                  target_found = ground (arith, lookup-keys r.target.element_id elements);
                  class_found = recorded.class_known;
                },
              )
        ]
      ]

  pub relationships-eq-returned :
      (i : ℕ) (rs : List UmlRelationship) (s s' : Seen)
      → assert_relationships elements i rs s ≡ returned s'
      → Extends s.ids (map (λ r. r.id) rs) s'.ids × All IsConnected rs
  unfolding assert_relationships
  relationships-eq-returned i [] s s' h =
      (subst (λ t. Extends s.ids [] t.ids) (returned_inj h) (Extends-refl s.ids), tt)
  relationships-eq-returned i (r ∷ rs) s s' h =
      let (s₁, first, h₁) = >>=-eq-returned (assert_relationship elements i r s) _ h in
      let (ids, registered, recorded, connected) = relationship-eq-returned i r s s₁ first in
      let (more, others) = relationships-eq-returned (suc i) rs s₁ s' h₁ in
      (
        Extends-trans registered
            (subst (λ l. Extends l (map (λ q. q.id) rs) s'.ids) recorded.same_ids more),
        (connected, others),
      )
