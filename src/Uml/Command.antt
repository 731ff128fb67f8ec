-- ===== src/Uml/Command.antt =====
-- The sixteen commands (`UmlCommand` of src/modules/uml-domain/collaboration.types.ts). The
-- timestamp, which the executor does not read, is left out.
use uml_class_designer_be.Common.{String}
use uml_class_designer_be.Uml.Types.{
  UmlClassifier, UmlPosition, UmlAttribute, UmlOperation, UmlRelationship,
}

-- The class of `association-class.create` is a classifier with the kind `class`.
pub data UmlCommand : Type 0 where
  classifier_create : (classifier : UmlClassifier) (position : UmlPosition) → UmlCommand
  classifier_update : (element_id : String) (classifier : UmlClassifier) → UmlCommand
  classifier_move : (element_id x y : String) → UmlCommand
  classifier_delete : (element_id : String) → UmlCommand
  classifier_duplicate :
      (source_element_id : String) (classifier : UmlClassifier) (position : UmlPosition)
      → UmlCommand
  attribute_add : (classifier_id : String) (attribute : UmlAttribute) → UmlCommand
  attribute_update : (classifier_id attribute_id : String) (attribute : UmlAttribute) → UmlCommand
  attribute_delete : (classifier_id attribute_id : String) → UmlCommand
  operation_add : (classifier_id : String) (operation : UmlOperation) → UmlCommand
  operation_update : (classifier_id operation_id : String) (operation : UmlOperation) → UmlCommand
  operation_delete : (classifier_id operation_id : String) → UmlCommand
  relationship_create : (relationship : UmlRelationship) → UmlCommand
  relationship_update : (relationship_id : String) (relationship : UmlRelationship) → UmlCommand
  relationship_delete : (relationship_id : String) → UmlCommand
  association_class_create :
      (relationship_id : String) (classifier : UmlClassifier) (position : UmlPosition) → UmlCommand
  diagram_clear : UmlCommand
