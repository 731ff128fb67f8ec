-- ===== src/Uml/Executor/Renaming.antt =====
-- uml-command.executor.ts: `classifier.update` with a new name.
use uml_class_designer_be.Common.{
  String, Bool, true, not, ◌&&◌, ◌||◌, ◌≡◌, ◌≢◌, refl, inl, inr, some, List, [], ◌∷◌, map, all,
  find_index, set, All, arith, ◌==◌, eq_iff, Option-cases,
}
use uml_class_designer_be.Uml.Types.{
  UmlTypeReference, UmlParameter, UmlAttribute, UmlOperation, UmlClassifier, Diagram,
}
use uml_class_designer_be.Uml.Command.{classifier_update}
use uml_class_designer_be.Uml.Executor.References.{
  is_id, on_parameter, on_attribute, on_operation, on_classifier, sync_type_name,
  sync_type_reference_names,
}
use uml_class_designer_be.Uml.Executor.{mutate, classifier_index, find_classifier}

module _ (id name : String) where
  -- A reference to the classifier carries the name.
  abbrev pub is_named : UmlTypeReference → Bool
  is_named r = not (is_id r.element_id id) || r.name == name

  abbrev pub operation_named : UmlOperation → Bool
  operation_named o = is_named o.return_type && all (λ p. is_named p.type) o.parameters

  -- So do all type references of a classifier.
  abbrev pub types_named : UmlClassifier → Bool
  types_named c = all (λ a. is_named a.type) c.attributes && all operation_named c.operations

  sync_named : (r : UmlTypeReference) → is_named (sync_type_name id name r) ≡ true
  unfolding sync_type_name
  sync_named r = ground (arith, eq_iff name name)

  parameters_named :
      (ps : List UmlParameter)
      → all (λ p. is_named p.type) (map (on_parameter (sync_type_name id name)) ps) ≡ true
  parameters_named [] = refl
  parameters_named (p ∷ ps) = ground (arith, sync_named p.type, parameters_named ps)

  attributes_named :
      (xs : List UmlAttribute)
      → all (λ a. is_named a.type) (map (on_attribute (sync_type_name id name)) xs) ≡ true
  attributes_named [] = refl
  attributes_named (a ∷ xs) = ground (arith, sync_named a.type, attributes_named xs)

  operations_named :
      (os : List UmlOperation)
      → all operation_named (map (on_operation (sync_type_name id name)) os) ≡ true
  operations_named [] = refl
  operations_named (o ∷ os) =
      ground (arith, sync_named o.return_type, parameters_named o.parameters, operations_named os)

  classifiers_named :
      (es : List UmlClassifier)
      → All (λ e. types_named e ≡ true) (sync_type_reference_names id name es)
  unfolding sync_type_reference_names on_classifier
  classifiers_named [] = tt
  classifiers_named (e ∷ es) = (
    ground (arith, attributes_named e.attributes, operations_named e.operations),
    classifiers_named es,
  )

-- After an update that renames a classifier, every type reference to it, in any classifier of
-- the diagram, carries the new name.
pub mutate_rename :
    (d d' : Diagram) (id : String) (before c : UmlClassifier)
    → find_classifier d id ≡ some before
    → before.name ≢ c.name
    → mutate d (classifier_update id c) ≡ some d'
    → All (λ e. types_named id c.name e ≡ true) d'.elements
unfolding mutate find_classifier classifier_index
mutate_rename d d' id before c f n e =
    elim (Option-cases (find_index (λ y. y.id == id) d.elements)) [
      | inl lost ↦ absurd (ground arith)
      | inr (i, found) ↦
          let synced = sync_type_reference_names id c.name (set d.elements i c) in
          let same : d'.elements ≡ synced = ground (arith, eq_iff before.name c.name) in
          rw same (classifiers_named id c.name (set d.elements i c))
    ]
