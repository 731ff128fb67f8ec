-- ===== src/Uml/Validation/Semantics.antt =====
-- canonical-model.validation.ts: what a document that passes has.
pub mod Registered
pub mod Passed
use uml_class_designer_be.Common.{
  String, true, false, ◌≡◌, refl, sym, ap, subst, ◌∙◌, inl, inr, List, [], ◌∷◌, ◌++◌, map, contains,
  keys, IsDistinct, All, All-of_Memᴰ, All-Memᴰ, arith, contains-append, Bool-cases, true≢false,
  eq_iff, insert, keys-insert_new, IsDistinct-append-ne, IsDistinct-append_left,
  IsDistinct-append_right,
}
use mathlib.Core.List.{append_assoc, append-nil}
use uml_class_designer_be.Uml.Types.{
  UmlClassifier, UmlPosition, RelationshipKind, Diagram, CanonicalUmlModel,
}
use uml_class_designer_be.Uml.View.{document_view}
use uml_class_designer_be.Uml.Executor.{element_ids}
use uml_class_designer_be.Uml.Executor.Identity.{IsWellFormed, relationship_ids, position_ids}
use uml_class_designer_be.Uml.Executor.Removal.Cascade.{resolves}
use uml_class_designer_be.Uml.Executor.Links.{IsLinked, types_resolve}
use uml_class_designer_be.Uml.Validation.Outcome.{key, returned, >>=-eq-returned}
use uml_class_designer_be.Uml.Validation.Acyclic.Cycles.{Walk}
use uml_class_designer_be.Uml.Validation.Acyclic.Fuel.{has_cycle-decides}
use uml_class_designer_be.Uml.Validation.Names.{
  register_id, assert_non_blank_name, assert_unique_names,
}
use uml_class_designer_be.Uml.Validation.Characters.{assert_xml10_safe_strings}
use uml_class_designer_be.Uml.Validation.Characters.Laws.{
  IsXmlSafe, At, assert_xml10_safe_strings-Tells,
}
use uml_class_designer_be.Uml.Validation.Classifiers.{
  Classifiers, register_elements, assert_element_types, assert_positions, assert_positioned,
}
use uml_class_designer_be.Uml.Validation.Classifiers.Identifiers.{
  Extends, Extends-trans, register_id-Extends, classifier_ids, operation_ids, insert_all,
  register_elements-Extends,
}
use uml_class_designer_be.Uml.Validation.Classifiers.References.{elements-resolve}
use uml_class_designer_be.Uml.Validation.Classifiers.Placement.{
  IsKeyed, IsKeyed-insert_all, positions-Extends, positioned_all,
}
use uml_class_designer_be.Uml.Validation.Relationships.{Seen, assert_relationships}
use uml_class_designer_be.Uml.Validation.Relationships.Ends.{IsConnected, relationships-eq-returned}
use uml_class_designer_be.Uml.Validation.Relationships.Signatures.{IsApart, relationships-IsApart}
use uml_class_designer_be.Uml.Validation.{
  adjacency, assert_acyclic, assert_canonical_semantic_integrity,
}
use uml_class_designer_be.Uml.Validation.Semantics.Passed.{
  Passed as Steps, passed, ids-IsDistinct, below, elements-IsDistinct, positions_lem,
  diagram-IsLinked, strings-IsXmlSafe,
}
use uml_class_designer_be.Uml.Validation.Semantics.Registered.{
  all_ids, IsAcyclic, assert_acyclic-IsAcyclic,
}

-- The semantic integrity of a document, as properties of it.
pub record IsSound (d : CanonicalUmlModel) : Type 0 where
  pub safe : IsXmlSafe (At (document_view d))
  pub ids_distinct : IsDistinct (all_ids d)
  pub well_formed : IsWellFormed d.diagram
  pub linked : IsLinked d.diagram
  pub apart : IsApart d.diagram.relationships
  pub generalization_acyclic : IsAcyclic d.diagram RelationshipKind.generalization
  pub composition_acyclic : IsAcyclic d.diagram RelationshipKind.composition

-- A document that passes the check, whatever the locale's lower case: each code point of its
-- strings is a `Char` of XML 1.0; no identifier of its parts occurs twice; each
-- classifier has one position; type references, ends and association classes name classifiers;
-- no relationship repeats another; and no classifier is reached from itself by generalizations
-- alone, or by compositions alone.
pub assert_canonical_semantic_integrity-IsSound :
    (lower_case : String → String) (d : CanonicalUmlModel)
    → assert_canonical_semantic_integrity lower_case d ≡ returned tt
    → IsSound d
assert_canonical_semantic_integrity-IsSound lower_case d h =
    let p = passed lower_case d h in
    record {
      safe = strings-IsXmlSafe lower_case d p;
      ids_distinct = ids-IsDistinct lower_case d p;
      well_formed = record {
        classifiers_distinct = elements-IsDistinct lower_case d p;
        relationships_distinct =
            IsDistinct-append_right (classifier_ids d.diagram.elements) _ (below lower_case d p);
        positions_distinct = (positions_lem lower_case d p).0;
        placed = (positions_lem lower_case d p).1;
      };
      linked = diagram-IsLinked lower_case d p;
      apart = relationships-IsApart p.elements d.diagram.relationships _ p.seen p.related;
      generalization_acyclic =
          assert_acyclic-IsAcyclic d.diagram RelationshipKind.generalization p.generalizations;
      composition_acyclic =
          assert_acyclic-IsAcyclic d.diagram RelationshipKind.composition p.compositions;
    }
