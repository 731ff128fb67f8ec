-- ===== src/Uml/Executor/Untouched.antt =====
-- uml-command.executor.ts: what a rename leaves alone.
use uml_class_designer_be.Common.{
  String, false, ◌≡◌, refl, inl, inr, Option, List, [], ◌∷◌, map, any, find, filter, contains, All,
  arith, ◌==◌, eq_iff, Bool-cases,
}
use uml_class_designer_be.Uml.Types.{
  UmlTypeReference, UmlParameter, UmlAttribute, UmlOperation, UmlClassifier, Diagram,
}
use uml_class_designer_be.Uml.Executor.References.{
  is_id, on_parameter, on_attribute, on_operation, on_classifier, sync_type_name,
  references_classifier, parameter_references, operation_references,
}

-- The classifier with an identifier.
abbrev pub element : String → Diagram → Option UmlClassifier
element x d = find (λ e. e.id == x) d.elements

-- A rename leaves alone what does not refer to the renamed classifier.
module _ (id name : String) where
  sync_type_name_fixed :
      (r : UmlTypeReference) → is_id r.element_id id ≡ false → sync_type_name id name r ≡ r
  unfolding sync_type_name
  sync_type_name_fixed r h = ground arith

  parameters_fixed :
      (ps : List UmlParameter)
      → any (parameter_references id) ps ≡ false
      → map (on_parameter (sync_type_name id name)) ps ≡ ps
  parameters_fixed [] h = refl
  parameters_fixed (p ∷ ps) h = ground (arith, sync_type_name_fixed p.type, parameters_fixed ps)

  attributes_fixed :
      (xs : List UmlAttribute)
      → any (λ a. is_id a.type.element_id id) xs ≡ false
      → map (on_attribute (sync_type_name id name)) xs ≡ xs
  attributes_fixed [] h = refl
  attributes_fixed (a ∷ xs) h = ground (arith, sync_type_name_fixed a.type, attributes_fixed xs)

  operations_fixed :
      (os : List UmlOperation)
      → any (operation_references id) os ≡ false
      → map (on_operation (sync_type_name id name)) os ≡ os
  operations_fixed [] h = refl
  operations_fixed (o ∷ os) h = ground (
    arith,
    sync_type_name_fixed o.return_type,
    parameters_fixed o.parameters,
    operations_fixed os,
  )

  pub on_classifier_fixed :
      (c : UmlClassifier)
      → references_classifier c id ≡ false
      → on_classifier (sync_type_name id name) c ≡ c
  unfolding on_classifier references_classifier
  on_classifier_fixed c h =
      ground (arith, attributes_fixed c.attributes, operations_fixed c.operations)

pub id-on_classifier :
    (f : UmlTypeReference → UmlTypeReference) (c : UmlClassifier) → (on_classifier f c).id ≡ c.id
unfolding on_classifier
id-on_classifier f c = refl

-- The classifiers with an identifier outside the affected set hold no reference to the renamed one.
pub fixed_outside :
    (id name x : String) (es : List UmlClassifier)
    → contains x (map (λ e. e.id) (filter (λ e. references_classifier e id) es)) ≡ false
    → All (λ e. e.id ≡ x → on_classifier (sync_type_name id name) e ≡ e) es
fixed_outside id name x [] h = tt
fixed_outside id name x (e ∷ es) h = elim (Bool-cases (references_classifier e id)) [
  | inl refers ↦
      (λ same. absurd (ground (arith, eq_iff e.id x)), fixed_outside id name x es (ground arith))
  | inr free ↦
      (λ same. on_classifier_fixed id name e free, fixed_outside id name x es (ground arith))
]
