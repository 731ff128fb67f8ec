-- ===== src/Uml/Validation/Classifiers.antt =====
-- canonical-model.validation.ts: the loops over the classifiers and the positions. What the loops
-- change is passed from turn to turn: the identifiers and the map of the classifiers.
pub mod Identifiers
pub mod References
pub mod Placement
use Prim.Native.String.{◌++◌ as str_append}
use uml_class_designer_be.Common.{
  ℕ, suc, String, Bool, not, Option, none, some, List, [], ◌∷◌, ◌++◌, map, contains, add, insert,
  lookup, is_some, ◌==◌,
}
use uml_class_designer_be.Uml.Types.{
  UmlTypeReference, UmlParameter, UmlAttribute, UmlOperation, UmlClassifier, UmlPosition,
}
use uml_class_designer_be.Uml.Executor.References.{truthy}
use uml_class_designer_be.Uml.Validation.Outcome.{
  IssuePath, PathStep, key, index, Outcome, returned, ◌>>=◌, ◌>>◌, refuse_if,
}
use uml_class_designer_be.Uml.Validation.Names.{
  register_id, assert_non_blank_name, assert_unique_names,
}

abbrev pub Classifiers : Type 0
Classifiers = List (String × UmlClassifier)

-- the path of a field of the item at an index
abbrev pub field : IssuePath → ℕ → String → IssuePath
field path i name = path ++ index i ∷ key name ∷ []

abbrev pub elements_path : IssuePath
elements_path = key "diagram" ∷ key "elements" ∷ []

abbrev pub positions_path : IssuePath
positions_path = key "diagram" ∷ key "visual" ∷ key "positions" ∷ []

-- The loops over attributes, parameters and operations, from an index.
unfoldable pub register_attributes :
    IssuePath → ℕ → List UmlAttribute → List String → Outcome (List String)
register_attributes path i [] ids = returned ids
register_attributes path i (attribute ∷ attributes) ids = do
  ids₁ ← register_id attribute.id (field path i "id") ids
  _ ← assert_non_blank_name attribute.name (field path i "name")
  register_attributes path (suc i) attributes ids₁

unfoldable pub register_parameters :
    IssuePath → ℕ → List UmlParameter → List String → Outcome (List String)
register_parameters path i [] ids = returned ids
register_parameters path i (parameter ∷ parameters) ids = do
  ids₁ ← register_id parameter.id (field path i "id") ids
  _ ← assert_non_blank_name parameter.name (field path i "name")
  register_parameters path (suc i) parameters ids₁

module _ (lower_case : String → String) where
  unfoldable pub register_operations :
      IssuePath → ℕ → List UmlOperation → List String → Outcome (List String)
  register_operations path i [] ids = returned ids
  register_operations path i (operation ∷ operations) ids = do
    ids₁ ← register_id operation.id (field path i "id") ids
    _ ← assert_non_blank_name operation.name (field path i "name")
    _ ←
        assert_unique_names lower_case (map (λ p. p.name) operation.parameters)
          (field path i "parameters")
    ids₂ ← register_parameters (field path i "parameters") 0 operation.parameters ids₁
    register_operations path (suc i) operations ids₂

  unfoldable pub register_elements :
      ℕ → List UmlClassifier → List String → Classifiers → Outcome (List String × Classifiers)
  register_elements i [] ids elements = returned (ids, elements)
  register_elements i (element ∷ rest) ids elements = do
    ids₁ ← register_id element.id (field elements_path i "id") ids
    _ ← assert_non_blank_name element.name (field elements_path i "name")
    let elements₁ = insert element.id element elements
    _ ←
        assert_unique_names lower_case (map (λ a. a.name) element.attributes)
          (field elements_path i "attributes")
    ids₂ ← register_attributes (field elements_path i "attributes") 0 element.attributes ids₁
    ids₃ ← register_operations (field elements_path i "operations") 0 element.operations ids₂
    register_elements (suc i) rest ids₃ elements₁

module _ (elements : Classifiers) where
  unfoldable pub assert_type_reference : UmlTypeReference → IssuePath → Outcome (Unit {0})
  assert_type_reference reference path = do
    _ ← assert_non_blank_name reference.name (path ++ key "name" ∷ [])
    elim (truthy reference.element_id) [
      | none ↦ returned tt
      | some id ↦ elim (lookup id elements) [
        | none ↦ refuse_if Bool.true path "references a classifier that does not exist."
        | some referenced_element ↦
            refuse_if (not (referenced_element.name == reference.name)) path (
              str_append "must use the referenced classifier name "
                (str_append referenced_element.name "."))
      ]
    ]

  unfoldable pub assert_attribute_types : IssuePath → ℕ → List UmlAttribute → Outcome (Unit {0})
  assert_attribute_types path i [] = returned tt
  assert_attribute_types path i (attribute ∷ attributes) = do
    _ ← assert_type_reference attribute.type (field path i "type")
    assert_attribute_types path (suc i) attributes

  unfoldable pub assert_parameter_types : IssuePath → ℕ → List UmlParameter → Outcome (Unit {0})
  assert_parameter_types path i [] = returned tt
  assert_parameter_types path i (parameter ∷ parameters) = do
    _ ← assert_type_reference parameter.type (field path i "type")
    assert_parameter_types path (suc i) parameters

  unfoldable pub assert_operation_types : IssuePath → ℕ → List UmlOperation → Outcome (Unit {0})
  assert_operation_types path i [] = returned tt
  assert_operation_types path i (operation ∷ operations) = do
    _ ← assert_type_reference operation.return_type (field path i "returnType")
    _ ← assert_parameter_types (field path i "parameters") 0 operation.parameters
    assert_operation_types path (suc i) operations

  unfoldable pub assert_element_types : ℕ → List UmlClassifier → Outcome (Unit {0})
  assert_element_types i [] = returned tt
  assert_element_types i (element ∷ rest) = do
    _ ← assert_attribute_types (field elements_path i "attributes") 0 element.attributes
    _ ← assert_operation_types (field elements_path i "operations") 0 element.operations
    assert_element_types (suc i) rest

  -- The loop over the positions; the result is the set of the classifiers that have one.
  unfoldable pub assert_positions : ℕ → List UmlPosition → List String → Outcome (List String)
  assert_positions i [] positioned = returned positioned
  assert_positions i (position ∷ positions) positioned = do
    _ ←
        refuse_if (not (is_some (lookup position.element_id elements)))
          (field positions_path i "elementId") "references a classifier that does not exist."
    _ ←
        refuse_if (contains position.element_id positioned) (field positions_path i "elementId")
          "duplicates the position of a classifier."
    assert_positions (suc i) positions (add position.element_id positioned)

-- The loop over the values of the map.
unfoldable pub assert_positioned : List String → Classifiers → Outcome (Unit {0})
assert_positioned positioned [] = returned tt
assert_positioned positioned ((_, element) ∷ rest) = do
  _ ←
      refuse_if (not (contains element.id positioned)) positions_path
        (str_append "has no position for " (str_append element.id "."))
  assert_positioned positioned rest
