-- ===== src/Uml/Executor/Deletion.antt =====
-- uml-command.executor.ts: `classifier.delete`.
use uml_class_designer_be.Common.{
  Bool, List, Option, none, refl, inl, inr, ◌&&◌, ◌==◌, all, Option-cases, String, true, false, not,
  ◌≡◌, ◌≢◌, subst, some, [], ◌∷◌, map, contains, All, arith, eq_iff, contains-map-filter, All-Memᴰ,
  All-map-filter,
}
use uml_class_designer_be.Uml.Types.{
  UmlTypeReference, UmlParameter, UmlAttribute, UmlOperation, UmlClassifier, UmlRelationship,
  Diagram,
}
use uml_class_designer_be.Uml.Executor.References.{
  truthy, on_parameter, on_attribute, on_operation, on_classifier, remove_type_reference,
}
use uml_class_designer_be.Uml.Command.{classifier_delete}
use uml_class_designer_be.Uml.Executor.Removal.{
  Deletion, is_skipped, closure, remove_classifiers_and_references, remove_deleted,
  without_association_class,
}
use uml_class_designer_be.Uml.Executor.Removal.Closure.{closure-IsStable}
use uml_class_designer_be.Uml.Executor.Removal.Cascade.{closure-IsSeeded}
use uml_class_designer_be.Uml.Executor.Links.{contains-removed, ends-without_association_class}
use uml_class_designer_be.Uml.Executor.{mutate, element_ids}

-- A reference by an optional identifier, where the empty text is none, names another.
abbrev pub avoids : String → Option String → Bool
avoids id o = elim (truthy o) [ none ↦ true | some c ↦ not (c == id) ]

abbrev pub operation_avoids : String → UmlOperation → Bool
operation_avoids id o =
    avoids id o.return_type.element_id && all (λ p. avoids id p.type.element_id) o.parameters

-- No type reference of the classifier names it.
abbrev pub types_avoid : String → UmlClassifier → Bool
types_avoid id c =
    all (λ a. avoids id a.type.element_id) c.attributes && all (operation_avoids id) c.operations

-- Nothing of the diagram is, stands for or refers to the classifier.
pub record IsGone (id : String) (d : Diagram) : Type 0 where
  pub no_classifier : contains id (element_ids d) ≡ false
  pub no_position : contains id (map (λ p. p.element_id) d.positions) ≡ false
  pub no_end : All (λ r. (r.source.element_id ≢ id) × (r.target.element_id ≢ id)) d.relationships
  pub no_class : All (λ r. avoids id r.association_class_id ≡ true) d.relationships
  pub no_type : All (λ c. types_avoid id c ≡ true) d.elements

-- What the removal makes of the references.
module _ (id : String) (deleted : List String) (hit : contains id deleted ≡ true) where
  reference_avoids :
      (r : UmlTypeReference) → avoids id (remove_type_reference deleted r).element_id ≡ true
  unfolding remove_type_reference
  reference_avoids r = elim (Option-cases (truthy r.element_id)) [
    | inl e ↦ ground arith
    | inr (c, e) ↦ ground (arith, eq_iff c id)
  ]

  class_avoids :
      (r : UmlRelationship)
      → avoids id (without_association_class deleted r).association_class_id ≡ true
  unfolding without_association_class
  class_avoids r = elim (Option-cases (truthy r.association_class_id)) [
    | inl e ↦ ground arith
    | inr (c, e) ↦ ground (arith, eq_iff c id)
  ]

  parameters_avoid :
      (ps : List UmlParameter)
      → all
          (λ p. avoids id p.type.element_id)
          (map (on_parameter (remove_type_reference deleted)) ps)
        ≡ true
  parameters_avoid [] = refl
  parameters_avoid (p ∷ ps) = ground (arith, reference_avoids p.type, parameters_avoid ps)

  attributes_avoid :
      (xs : List UmlAttribute)
      → all
          (λ a. avoids id a.type.element_id)
          (map (on_attribute (remove_type_reference deleted)) xs)
        ≡ true
  attributes_avoid [] = refl
  attributes_avoid (a ∷ xs) = ground (arith, reference_avoids a.type, attributes_avoid xs)

  operations_avoid :
      (os : List UmlOperation)
      → all (operation_avoids id) (map (on_operation (remove_type_reference deleted)) os) ≡ true
  operations_avoid [] = refl
  operations_avoid (o ∷ os) =
      ground
        (arith, reference_avoids o.return_type, parameters_avoid o.parameters, operations_avoid os)

  classifier_avoids :
      (c : UmlClassifier) → types_avoid id (on_classifier (remove_type_reference deleted) c) ≡ true
  unfolding on_classifier
  classifier_avoids c = ground (arith, attributes_avoid c.attributes, operations_avoid c.operations)

skipped-free :
    (s : Deletion) (r : UmlRelationship) (id : String)
    → contains id s.deleted_ids ≡ true
    → is_skipped s r ≡ true
    → not (contains r.id s.deleted_relationship_ids) ≡ true
    → (r.source.element_id ≢ id) × (r.target.element_id ≢ id)
skipped-free s r id h skipped kept =
    (λ e. ground (arith, e, skipped), λ e. ground (arith, e, skipped))

removed-IsGone :
    (s : Deletion) (d : Diagram) (id : String)
    → contains id s.deleted_ids ≡ true
    → All (λ r. is_skipped s r ≡ true) d.relationships
    → IsGone id (remove_deleted s d)
unfolding remove_deleted
removed-IsGone s d id h stable = record {
  no_classifier = ground (arith, contains-removed s d id);
  no_position = ground (
    arith,
    contains-map-filter (λ p. p.element_id) id (λ y. not (contains y s.deleted_ids)) d.positions,
  );
  no_end = All-map-filter _ _ _ d.relationships (λ r m kept.
      let (source, target) = ends-without_association_class s.deleted_ids r in
      rw (source, target) (skipped-free s r id h (All-Memᴰ _ d.relationships stable m) kept));
  no_class = All-map-filter _ _ _ d.relationships (λ r m kept. class_avoids id s.deleted_ids h r);
  no_type = All-map-filter _ _ _ d.elements (λ c m kept. classifier_avoids id s.deleted_ids h c);
}

-- After `classifier.delete` no classifier, position or end of a relationship has the identifier,
-- and no association class or type reference names it, where an empty text is no reference.
pub mutate_delete-IsGone :
    (d d' : Diagram) (id : String) → mutate d (classifier_delete id) ≡ some d' → IsGone id d'
unfolding mutate remove_classifiers_and_references
mutate_delete-IsGone d d' id e =
    subst (IsGone id) {x = remove_classifiers_and_references (id ∷ []) d} {y = d'} (ground arith) (
      removed-IsGone (closure d.relationships (id ∷ [])) d id
        (closure-IsSeeded d.relationships (id ∷ []) id (ground (arith, eq_iff id id)))
        (closure-IsStable d.relationships (id ∷ [])).1)
