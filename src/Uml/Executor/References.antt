-- ===== src/Uml/Executor/References.antt =====
-- uml-command.executor.ts: the loops over the type references of a classifier.
use uml_class_designer_be.Common.{
  String, Bool, false, ◌||◌, Option, none, some, List, map, any, contains, ◌==◌, if◌then◌else◌,
}
use uml_class_designer_be.Uml.Types.{
  UmlTypeReference, UmlParameter, UmlAttribute, UmlOperation, UmlClassifier,
}

-- An identifier as a condition: missing and empty count as false.
abbrev pub truthy : Option String → Option String
truthy none = none
truthy (some s) = if s == "" then none else some s

-- `x === id`, for an `x` that may be missing
abbrev pub is_id : Option String → String → Bool
is_id none id = false
is_id (some s) id = s == id

-- `x && ids.has(x)`
abbrev pub is_in : Option String → List String → Bool
is_in o ids = elim (truthy o) [ none ↦ false | some s ↦ contains s ids ]

module _ (f : UmlTypeReference → UmlTypeReference) where
  abbrev pub on_parameter : UmlParameter → UmlParameter
  on_parameter p = record p { type = f p.type }

  abbrev pub on_attribute : UmlAttribute → UmlAttribute
  on_attribute a = record a { type = f a.type }

  abbrev pub on_operation : UmlOperation → UmlOperation
  on_operation o = record o {
    parameters = map on_parameter o.parameters;
    return_type = f o.return_type;
  }

  -- Each type reference of a classifier is replaced.
  unfoldable pub on_classifier : UmlClassifier → UmlClassifier
  on_classifier c = record c {
    attributes = map on_attribute c.attributes;
    operations = map on_operation c.operations;
  }

unfoldable pub sync_type_name : String → String → UmlTypeReference → UmlTypeReference
sync_type_name element_id name r =
    if is_id r.element_id element_id then record r { name = name } else r

unfoldable pub sync_type_reference_names : String → String → List UmlClassifier → List UmlClassifier
sync_type_reference_names element_id name = map (on_classifier (sync_type_name element_id name))

abbrev pub parameter_references : String → UmlParameter → Bool
parameter_references element_id p = is_id p.type.element_id element_id

abbrev pub operation_references : String → UmlOperation → Bool
operation_references element_id o =
    is_id o.return_type.element_id element_id || any (parameter_references element_id) o.parameters

unfoldable pub references_classifier : UmlClassifier → String → Bool
references_classifier c element_id =
    any (λ a. is_id a.type.element_id element_id) c.attributes
    || any (operation_references element_id) c.operations

unfoldable pub remove_type_reference : List String → UmlTypeReference → UmlTypeReference
remove_type_reference deleted r =
    if is_in r.element_id deleted then record r { element_id = none } else r
