-- ===== src/Uml/View.antt =====
-- A document as the JSON object that the code walks by `Object.entries`, with the keys in the
-- order of the types; a field that is missing has no entry.
use uml_class_designer_be.Common.{String, Option, none, some, List, [], ◌∷◌, map}
use uml_class_designer_be.Uml.Json.{
  Json, Items, Entries, bool, number, string, array, object, end_of_array, item, end_of_object,
  entry,
}
use uml_class_designer_be.Uml.Types.{
  UmlTypeReference, Visibility, UmlParameter, UmlAttribute, UmlOperation, ClassifierKind,
  UmlClassifier, UmlPosition, UmlRelationshipEnd, UmlRelationship, Project, Diagram, Metadata,
  CanonicalUmlModel,
}
use uml_class_designer_be.Uml.Validation.Relationships.{kind_name}

abbrev pub items : List Json → Items
items [] = end_of_array
items (v ∷ vs) = item v (items vs)

abbrev pub entries : List (String × Json) → Entries
entries [] = end_of_object
entries ((k, v) ∷ rest) = entry k v (entries rest)

-- an optional entry, before others
abbrev pub optional {ℓ} :
    {A : Type ℓ} → String → (A → Json) → Option A → List (String × Json) → List (String × Json)
optional k f none rest = rest
optional k f (some a) rest = (k, f a) ∷ rest

abbrev pub text : String → Option String → List (String × Json) → List (String × Json)
text k o rest = optional k string o rest

abbrev pub texts : List String → Json
texts ss = array (items (map string ss))

abbrev pub type_reference_view : UmlTypeReference → Json
type_reference_view r = object (
    entries (
      ("name", string r.name)
      ∷ text "elementId" r.element_id
          (optional "collection" bool r.collection (optional "nullable" bool r.nullable []))))

abbrev pub visibility_name : Visibility → String
visibility_name Visibility.public = "public"
visibility_name Visibility.protected = "protected"
visibility_name Visibility.private = "private"
visibility_name Visibility.package_visible = "package"

abbrev pub parameter_view : UmlParameter → Json
parameter_view p = object (
    entries (
      ("id", string p.id)
      ∷ ("name", string p.name)
      ∷ ("type", type_reference_view p.type)
      ∷ text "defaultValue" p.default_value []))

abbrev pub attribute_view : UmlAttribute → Json
attribute_view a = object (
    entries (
      ("id", string a.id)
      ∷ ("name", string a.name)
      ∷ ("visibility", string (visibility_name a.visibility))
      ∷ ("type", type_reference_view a.type)
      ∷ ("isStatic", bool a.is_static)
      ∷ ("isReadOnly", bool a.is_read_only)
      ∷ text "defaultValue" a.default_value []))

abbrev pub operation_view : UmlOperation → Json
operation_view o = object (
    entries (
      ("id", string o.id)
      ∷ ("name", string o.name)
      ∷ ("visibility", string (visibility_name o.visibility))
      ∷ ("parameters", array (items (map parameter_view o.parameters)))
      ∷ ("returnType", type_reference_view o.return_type)
      ∷ ("isAbstract", bool o.is_abstract)
      ∷ ("isStatic", bool o.is_static)
      ∷ []))

abbrev pub kind_entries : ClassifierKind → List (String × Json)
kind_entries (ClassifierKind.class is_abstract) =
    ("kind", string "class") ∷ ("isAbstract", bool is_abstract) ∷ []
kind_entries ClassifierKind.interface = ("kind", string "interface") ∷ []

abbrev pub classifier_view : UmlClassifier → Json
classifier_view c = object (
    entries (
      ("id", string c.id)
      ∷ ("name", string c.name)
      ∷ optional "stereotypes" texts c.stereotypes (
          ("attributes", array (items (map attribute_view c.attributes)))
          ∷ ("operations", array (items (map operation_view c.operations)))
          ∷ kind_entries c.kind)))

abbrev pub position_view : UmlPosition → Json
position_view p = object (
    entries (
      ("elementId", string p.element_id)
      ∷ ("x", number)
      ∷ ("y", number)
      ∷ optional "width" (λ w. number) p.width (optional "height" (λ h. number) p.height [])))

abbrev pub end_view : UmlRelationshipEnd → Json
end_view e = object (
    entries (
      ("elementId", string e.element_id)
      ∷ ("role", string e.role)
      ∷ ("multiplicity", string e.multiplicity)
      ∷ ("navigable", bool e.navigable)
      ∷ []))

abbrev pub relationship_view : UmlRelationship → Json
relationship_view r = object (
    entries (
      ("id", string r.id)
      ∷ ("kind", string (kind_name r.kind))
      ∷ text "name" r.name (
          ("source", end_view r.source)
          ∷ ("target", end_view r.target)
          ∷ text "associationClassId" r.association_class_id [])))

abbrev pub project_view : Project → Json
project_view p =
    object (
      entries (("id", string p.id) ∷ ("name", string p.name) ∷ text "description" p.description []))

abbrev pub metadata_view : Metadata → Json
metadata_view m = object (
    entries (
      ("createdAt", string m.created_at)
      ∷ ("updatedAt", string m.updated_at)
      ∷ ("revision", number)
      ∷ optional "tags" texts m.tags []))

abbrev pub diagram_view : Diagram → Json
diagram_view d = object (
    entries (
      ("id", string d.id)
      ∷ ("name", string d.name)
      ∷ ("elements", array (items (map classifier_view d.elements)))
      ∷ ("relationships", array (items (map relationship_view d.relationships)))
      ∷ (
        "visual",
        object (entries (("positions", array (items (map position_view d.positions))) ∷ [])),
      )
      ∷ []))

unfoldable pub document_view : CanonicalUmlModel → Json
document_view d = object (
    entries (
      ("schemaVersion", string "0.1.0")
      ∷ ("project", project_view d.project)
      ∷ ("diagram", diagram_view d.diagram)
      ∷ ("metadata", metadata_view d.metadata)
      ∷ []))
