-- ===== src/Uml/Validation/Classifiers/References.antt =====
-- canonical-model.validation.ts: what the loops over the type references check.
use uml_class_designer_be.Common.{
  ℕ, suc, true, ◌≡◌, refl, inl, inr, List, [], ◌∷◌, all, lookup, keys, lookup-keys, All, arith,
  Option-cases,
}
use uml_class_designer_be.Uml.Types.{
  UmlTypeReference, UmlParameter, UmlAttribute, UmlOperation, UmlClassifier,
}
use uml_class_designer_be.Uml.Executor.References.{truthy}
use uml_class_designer_be.Uml.Executor.Removal.Cascade.{resolves}
use uml_class_designer_be.Uml.Executor.Links.{types_resolve, operation_resolves}
use uml_class_designer_be.Uml.Validation.Outcome.{IssuePath, returned, >>=-eq-returned}
use uml_class_designer_be.Uml.Validation.Names.{assert_non_blank_name}
use uml_class_designer_be.Uml.Validation.Classifiers.{
  Classifiers, assert_type_reference, assert_attribute_types, assert_parameter_types,
  assert_operation_types, assert_element_types,
}

module _ (elements : Classifiers) where
  pub reference-resolves :
      (r : UmlTypeReference) (path : IssuePath)
      → assert_type_reference elements r path ≡ returned tt
      → resolves r.element_id (keys elements) ≡ true
  unfolding assert_type_reference
  reference-resolves r path h =
      let (_, _, h₁) = >>=-eq-returned (assert_non_blank_name r.name _) _ h in
      elim (Option-cases (truthy r.element_id)) [
        | inl plain ↦ ground arith
        | inr (id, named) ↦ elim (Option-cases (lookup id elements)) [
          | inl lost ↦ absurd (ground arith)
          | inr (c, there) ↦ ground (arith, lookup-keys id elements)
        ]
      ]

  pub attributes-resolve :
      (path : IssuePath) (i : ℕ) (attributes : List UmlAttribute)
      → assert_attribute_types elements path i attributes ≡ returned tt
      → all (λ a. resolves a.type.element_id (keys elements)) attributes ≡ true
  unfolding assert_attribute_types
  attributes-resolve path i [] h = refl
  attributes-resolve path i (a ∷ rest) h =
      let (_, e, h₁) = >>=-eq-returned (assert_type_reference elements a.type _) _ h in
      ground (arith, reference-resolves a.type _ e, attributes-resolve path (suc i) rest h₁)

  pub parameters-resolve :
      (path : IssuePath) (i : ℕ) (parameters : List UmlParameter)
      → assert_parameter_types elements path i parameters ≡ returned tt
      → all (λ p. resolves p.type.element_id (keys elements)) parameters ≡ true
  unfolding assert_parameter_types
  parameters-resolve path i [] h = refl
  parameters-resolve path i (p ∷ rest) h =
      let (_, e, h₁) = >>=-eq-returned (assert_type_reference elements p.type _) _ h in
      ground (arith, reference-resolves p.type _ e, parameters-resolve path (suc i) rest h₁)

  pub operations-resolve :
      (path : IssuePath) (i : ℕ) (operations : List UmlOperation)
      → assert_operation_types elements path i operations ≡ returned tt
      → all (operation_resolves (keys elements)) operations ≡ true
  unfolding assert_operation_types
  operations-resolve path i [] h = refl
  operations-resolve path i (o ∷ rest) h =
      let (_, e, h₁) = >>=-eq-returned (assert_type_reference elements o.return_type _) _ h in
      let (_, f, h₂) = >>=-eq-returned (assert_parameter_types elements _ 0 o.parameters) _ h₁ in
      ground (
        arith,
        reference-resolves o.return_type _ e,
        parameters-resolve _ 0 o.parameters f,
        operations-resolve path (suc i) rest h₂,
      )

  -- Where the loop passes, each type reference names a key of the map or nothing.
  pub elements-resolve :
      (i : ℕ) (es : List UmlClassifier)
      → assert_element_types elements i es ≡ returned tt
      → All (λ c. types_resolve (keys elements) c ≡ true) es
  unfolding assert_element_types
  elements-resolve i [] h = tt
  elements-resolve i (c ∷ rest) h =
      let (_, e, h₁) = >>=-eq-returned (assert_attribute_types elements _ 0 c.attributes) _ h in
      let (_, f, h₂) = >>=-eq-returned (assert_operation_types elements _ 0 c.operations) _ h₁ in
      (
        ground
            (arith, attributes-resolve _ 0 c.attributes e, operations-resolve _ 0 c.operations f),
        elements-resolve (suc i) rest h₂,
      )
