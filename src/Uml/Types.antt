-- ===== src/Uml/Types.antt =====
-- The canonical UML document (src/modules/uml-domain/collaboration.types.ts). A number of JSON
-- is kept as the text that `JSON.stringify` prints for it: the code only copies and compares it.
-- A field that may be missing is an `Option`.
use uml_class_designer_be.Common.{ℕ, String, Bool, Option, List}

pub record UmlTypeReference : Type 0 where
  pub name : String
  pub element_id : Option String
  pub collection : Option Bool
  pub nullable : Option Bool

pub data Visibility : Type 0 where
  public protected private package_visible : Visibility

pub record UmlParameter : Type 0 where
  pub id : String
  pub name : String
  pub type : UmlTypeReference
  pub default_value : Option String

pub record UmlAttribute : Type 0 where
  pub id : String
  pub name : String
  pub visibility : Visibility
  pub type : UmlTypeReference
  pub is_static : Bool
  pub is_read_only : Bool
  pub default_value : Option String

pub record UmlOperation : Type 0 where
  pub id : String
  pub name : String
  pub visibility : Visibility
  pub parameters : List UmlParameter
  pub return_type : UmlTypeReference
  pub is_abstract : Bool
  pub is_static : Bool

-- `kind`, with the field that only a class has
pub data ClassifierKind : Type 0 where
  class : (is_abstract : Bool) → ClassifierKind
  interface : ClassifierKind

pub record UmlClassifier : Type 0 where
  pub id : String
  pub name : String
  pub stereotypes : Option (List String)
  pub attributes : List UmlAttribute
  pub operations : List UmlOperation
  pub kind : ClassifierKind

pub record UmlPosition : Type 0 where
  pub element_id : String
  pub x : String
  pub y : String
  pub width : Option String
  pub height : Option String

pub record UmlRelationshipEnd : Type 0 where
  pub element_id : String
  pub role : String
  pub multiplicity : String
  pub navigable : Bool

pub data RelationshipKind : Type 0 where
  association aggregation composition generalization realization dependency : RelationshipKind

pub record UmlRelationship : Type 0 where
  pub id : String
  pub kind : RelationshipKind
  pub name : Option String
  pub source : UmlRelationshipEnd
  pub target : UmlRelationshipEnd
  pub association_class_id : Option String

pub record Project : Type 0 where
  pub id : String
  pub name : String
  pub description : Option String

-- `visual: { positions }` is flattened.
pub record Diagram : Type 0 where
  pub id : String
  pub name : String
  pub elements : List UmlClassifier
  pub relationships : List UmlRelationship
  pub positions : List UmlPosition

pub record Metadata : Type 0 where
  pub created_at : String
  pub updated_at : String
  pub revision : ℕ
  pub tags : Option (List String)

-- `schemaVersion` has one value.
pub record CanonicalUmlModel : Type 0 where
  pub project : Project
  pub diagram : Diagram
  pub metadata : Metadata
