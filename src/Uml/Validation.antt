-- ===== src/Uml/Validation.antt =====
-- src/modules/uml-domain/canonical-model.validation.ts: `assertCanonicalSemanticIntegrity`, its
-- parts in the children. A path of an issue is the list of its steps, which the source joins by
-- slashes.
pub mod Outcome
pub mod Acyclic
pub mod Names
pub mod Characters
pub mod Classifiers
pub mod Relationships
pub mod Semantics
use Prim.Native.String.{◌++◌ as str_append}
use uml_class_designer_be.Common.{
  String, Bool, true, false, Option, none, some, List, [], ◌∷◌, map, keys,
}
use uml_class_designer_be.Uml.Types.{UmlRelationship, RelationshipKind, CanonicalUmlModel}
use uml_class_designer_be.Uml.View.{document_view}
use Outcome.{PathStep, key, Outcome as Checked, returned, thrown, ◌>>=◌, ◌>>◌, refuse_if}
use Acyclic.{Adjacency, adjacency_from, has_cycle}
use Names.{register_id, assert_non_blank_name, assert_unique_names}
use Characters.{assert_xml10_safe_strings}
use Classifiers.{
  register_elements, assert_element_types, assert_positions, assert_positioned, elements_path,
}
use Relationships.{Seen, assert_relationships, kind_name, is_kind}

-- The map of the relationships of a kind.
abbrev pub adjacency : List UmlRelationship → RelationshipKind → Adjacency
adjacency rs kind = adjacency_from (is_kind kind) rs []

-- The search has a result: `Acyclic.Fuel.has_cycle-decides`.
abbrev pub refuse_cycle : Option Bool → RelationshipKind → Checked (Unit {0})
refuse_cycle found kind =
    refuse_if (elim found [ none ↦ false | some b ↦ b ]) (key "diagram" ∷ key "relationships" ∷ [])
      (str_append (kind_name kind) " relationships cannot form a cycle.")

unfoldable pub assert_acyclic : List UmlRelationship → RelationshipKind → Checked (Unit {0})
assert_acyclic rs kind = refuse_cycle (has_cycle (adjacency rs kind)) kind

module _ (lower_case : String → String) where
  unfoldable pub assert_canonical_semantic_integrity : CanonicalUmlModel → Checked (Unit {0})
  assert_canonical_semantic_integrity document = do
    _ ← assert_xml10_safe_strings (document_view document) []
    ids₁ ← register_id document.project.id (key "project" ∷ key "id" ∷ []) []
    ids₂ ← register_id document.diagram.id (key "diagram" ∷ key "id" ∷ []) ids₁
    _ ← assert_non_blank_name document.project.name (key "project" ∷ key "name" ∷ [])
    _ ← assert_non_blank_name document.diagram.name (key "diagram" ∷ key "name" ∷ [])
    (ids₃, elements) ← register_elements lower_case 0 document.diagram.elements ids₂ []
    _ ← assert_unique_names lower_case (map (λ e. e.name) document.diagram.elements) elements_path
    _ ← assert_element_types elements 0 document.diagram.elements
    positioned ← assert_positions elements 0 document.diagram.positions []
    _ ← assert_positioned positioned elements
    _ ←
        assert_relationships elements 0 document.diagram.relationships
          (record { ids = ids₃; relationship_signatures = []; association_classes = [] })
    _ ← assert_acyclic document.diagram.relationships RelationshipKind.generalization
    assert_acyclic document.diagram.relationships RelationshipKind.composition
