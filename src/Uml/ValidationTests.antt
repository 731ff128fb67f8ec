-- ===== src/Uml/ValidationTests.antt =====
-- The validation on small documents: tests, and the theorems at concrete inputs.
use uml_class_designer_be.Common.{
  All, arith, ◌≤◌, String, true, false, ◌≡◌, ◌⊎◌, ◌↔◌, refl, none, some, [], ◌∷◌,
}
use uml_class_designer_be.Uml.Types.{RelationshipKind, Diagram, CanonicalUmlModel}
use uml_class_designer_be.Uml.Json.{Json, string, array, end_of_array, item}
use uml_class_designer_be.Uml.View.{document_view}
use uml_class_designer_be.Uml.Engine.{Engine}
use uml_class_designer_be.Uml.Multiplicity.{
  codes, decimal, big_int, split_dots, ends_with_dots_star, is_many, is_many_multiplicity,
}
use uml_class_designer_be.Uml.Validation.Outcome.{returned, thrown, Failure, key, index}
use uml_class_designer_be.Uml.Validation.Acyclic.{
  Adjacency, adjacency_from, visit, visit_all, has_cycle,
}
use uml_class_designer_be.Uml.Validation.Acyclic.Cycles.{Cycle}
use uml_class_designer_be.Uml.Validation.Acyclic.Fuel.{NoCycle, has_cycle-decides}
use uml_class_designer_be.Uml.Validation.Names.{
  register_id, assert_non_blank_name, assert_unique_names, assert_unique_names_from,
}
use uml_class_designer_be.Uml.Validation.Characters.{
  is_invalid_code_point, contains_invalid_xml10_character, assert_xml10_safe_strings,
}
use uml_class_designer_be.Uml.Validation.Characters.Laws.{
  IsXmlChar, At, Tells, assert_xml10_safe_strings-Tells,
}
use uml_class_designer_be.Uml.Validation.Classifiers.{
  register_attributes, register_parameters, register_operations, register_elements,
  assert_type_reference, assert_attribute_types, assert_parameter_types, assert_operation_types,
  assert_element_types, assert_positions, assert_positioned,
}
use uml_class_designer_be.Uml.Validation.Relationships.{
  assert_multiplicity_range, relationship_signature, same_signature, assert_ends,
  assert_association_class, assert_connected, assert_relationship, assert_relationships,
}
use uml_class_designer_be.Uml.Validation.Relationships.Ranges.{assert_multiplicity_range_lem}
use uml_class_designer_be.Uml.Validation.{assert_acyclic, assert_canonical_semantic_integrity}
use uml_class_designer_be.Uml.Validation.Semantics.{
  IsSound, assert_canonical_semantic_integrity-IsSound,
}
use uml_class_designer_be.Uml.Persistence.{
  PersistenceIdentity, validate_canonical_model, to_canonical_persistence_id, remapped, stamped,
  validate_and_normalize,
}
use uml_class_designer_be.Uml.Persistence.Laws.{validate_and_normalize-IsSound}
use uml_class_designer_be.Uml.Tests.{sample, contains_lines}

unfoldable pub validation : Unit {0}
unfolding document_view decimal big_int split_dots ends_with_dots_star is_many is_many_multiplicity
    adjacency_from visit visit_all has_cycle register_id assert_non_blank_name assert_unique_names
    assert_unique_names_from is_invalid_code_point contains_invalid_xml10_character
    assert_xml10_safe_strings register_attributes register_parameters register_operations
    register_elements assert_type_reference assert_attribute_types assert_parameter_types
    assert_operation_types assert_element_types assert_positions assert_positioned
    assert_multiplicity_range relationship_signature same_signature assert_ends
    assert_association_class assert_connected assert_relationship assert_relationships
    assert_acyclic assert_canonical_semantic_integrity validate_canonical_model
    to_canonical_persistence_id remapped stamped validate_and_normalize
validation = tt

abbrev pub same : String → String
same s = s

abbrev pub document_of : Diagram → CanonicalUmlModel
document_of d = record {
  project = record { id = "p"; name = "Project"; description = none };
  diagram = d;
  metadata = record { created_at = "2024"; updated_at = "2024"; revision = 3; tags = none };
}

abbrev cyclic : Diagram
cyclic = record sample {
  relationships =
      record contains_lines { kind = RelationshipKind.composition; association_class_id = none }
      ∷ record contains_lines {
        id = "r2";
        kind = RelationshipKind.composition;
        source = contains_lines.target;
        target = contains_lines.source;
        association_class_id = none;
      }
      ∷ [];
}

sample_passes : assert_canonical_semantic_integrity same (document_of sample) ≡ returned tt
unfolding validation
sample_passes = refl

cycle_refused :
    assert_canonical_semantic_integrity same (document_of cyclic)
    ≡ thrown (
        Failure.semantic
          (key "diagram" ∷ key "relationships" ∷ [])
          "composition relationships cannot form a cycle.")
unfolding validation
cycle_refused = refl

duplicate_refused :
    assert_canonical_semantic_integrity same
      (document_of (record sample { relationships = contains_lines ∷ contains_lines ∷ [] }))
    ≡ thrown (
        Failure.semantic
          (key "diagram" ∷ key "relationships" ∷ index 1 ∷ key "id" ∷ [])
          "duplicates the identifier r1.")
unfolding validation
duplicate_refused = refl

range_refused :
    assert_multiplicity_range "5..2" []
    ≡ thrown (Failure.semantic [] "has a lower bound greater than its upper bound.")
unfolding validation
range_refused = refl

assert_canonical_semantic_integrity-IsSound_example : IsSound (document_of sample)
assert_canonical_semantic_integrity-IsSound_example =
    assert_canonical_semantic_integrity-IsSound same (document_of sample) sample_passes

abbrev loop : Adjacency
loop = ("a", "b" ∷ []) ∷ ("b", "c" ∷ "a" ∷ []) ∷ []

has_cycle-decides_example :
    ((has_cycle loop ≡ some true) × Cycle loop) ⊎ ((has_cycle loop ≡ some false) × NoCycle loop)
has_cycle-decides_example = has_cycle-decides loop

abbrev texts : Json
texts = array (item (string "fine") (item (string "\t") end_of_array))

assert_xml10_safe_strings-Tells_example : Tells (At texts) [] (assert_xml10_safe_strings texts [])
assert_xml10_safe_strings-Tells_example = assert_xml10_safe_strings-Tells texts

abbrev pub engine : Engine
engine = record {
  locale_lower_case = same;
  lower_case = same;
  stringify = λ d. elim d.elements [ [] ↦ "" | c ∷ [] ↦ "1" | _ ↦ "2" ];
  iso = λ n. "2025";
  conforms = λ d. true;
  is_uuid = λ s. true;
  fingerprint = λ n c. "f";
}

-- the text of any time
pub printable : All IsXmlChar (codes "2025")
printable = ground arith

abbrev stored_identity : PersistenceIdentity
stored_identity = record { project_id = "a-1"; document_id = "b-2" }

abbrev normalized : CanonicalUmlModel
normalized = stamped 4 "2025" (remapped engine stored_identity (document_of sample))

normalizes :
    validate_and_normalize engine (document_of sample) 4 9 (some stored_identity)
    ≡ returned normalized
unfolding validation
normalizes = refl

renames : (normalized.project.id ≡ "project_a1") × (normalized.diagram.id ≡ "diagram_b2")
unfolding validation
renames = (refl, refl)

validate_and_normalize-IsSound_example :
    (normalized ≡ record (document_of sample) {
      project = record (document_of sample).project {
        id = to_canonical_persistence_id engine "project" "a-1";
      };
      diagram = record (document_of sample).diagram {
        id = to_canonical_persistence_id engine "diagram" "b-2";
      };
      metadata = record (document_of sample).metadata { revision = 4; updated_at = "2025" };
    })
    × (true ≡ true)
    × IsSound normalized
validate_and_normalize-IsSound_example =
    validate_and_normalize-IsSound engine (document_of sample) normalized 4 9 stored_identity
      printable normalizes

assert_multiplicity_range_lem_example :
    (assert_multiplicity_range "3..12" [] ≡ returned tt)
    ↔ (decimal 0 (codes "3") ≤ decimal 0 (codes "12"))
unfolding validation
assert_multiplicity_range_lem_example =
    assert_multiplicity_range_lem "3..12" [] (codes "3") (codes "12") refl refl refl
