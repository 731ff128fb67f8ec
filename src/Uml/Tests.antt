-- ===== src/Uml/Tests.antt =====
-- The executor on a small diagram: tests, and the theorems at concrete inputs.
use uml_class_designer_be.Common.{
  String, true, false, ◌≡◌, ◌↔◌, refl, Option, none, some, List, [], ◌∷◌, contains, All,
}
use uml_class_designer_be.Uml.Types.{
  UmlTypeReference, Visibility, UmlAttribute, UmlClassifier, ClassifierKind, UmlPosition,
  UmlRelationshipEnd, UmlRelationship, RelationshipKind, Diagram,
}
use uml_class_designer_be.Uml.Command.{UmlCommand, classifier_update, classifier_delete}
use uml_class_designer_be.Uml.Executor.{
  mutate, affected_element_ids, find_classifier, find_relationship, classifier_index,
  relationship_index, push_classifier, assert_missing_classifier, assert_position, edit_classifier,
  delete_relationship_aggregate, relationship_element_ids,
}
use uml_class_designer_be.Uml.Executor.References.{
  on_classifier, sync_type_name, sync_type_reference_names, references_classifier,
  remove_type_reference,
}
use uml_class_designer_be.Uml.Executor.Removal.{
  visit, sweep, close, closure, without_association_class, remove_deleted,
  remove_classifiers_and_references,
}
use uml_class_designer_be.Uml.Executor.Removal.Closure.{IsStable, closure-IsStable}
use uml_class_designer_be.Uml.Executor.Removal.Cascade.{Cascades, closure_iff_Cascades}
use uml_class_designer_be.Uml.Executor.Affected.{element, mutate-outside_affected}
use uml_class_designer_be.Uml.Executor.Identity.{IsWellFormed}
use uml_class_designer_be.Uml.Executor.Identity.Commands.{mutate-IsWellFormed}
use uml_class_designer_be.Uml.Executor.Links.{IsLinked, mutate-IsLinked}
use uml_class_designer_be.Uml.Executor.Deletion.{IsGone, mutate_delete-IsGone}
use uml_class_designer_be.Uml.Executor.Renaming.{types_named, mutate_rename}

unfoldable pub executor : Unit {0}
unfolding mutate affected_element_ids find_classifier find_relationship classifier_index
    relationship_index push_classifier assert_missing_classifier assert_position edit_classifier
    delete_relationship_aggregate relationship_element_ids on_classifier sync_type_name
    sync_type_reference_names references_classifier remove_type_reference visit sweep close closure
    without_association_class remove_deleted remove_classifiers_and_references
executor = tt

abbrev pub reference : String → Option String → UmlTypeReference
reference name id = record { name = name; element_id = id; collection = none; nullable = none }

abbrev pub attribute : String → String → UmlTypeReference → UmlAttribute
attribute id name type = record {
  id = id;
  name = name;
  visibility = Visibility.private;
  type = type;
  is_static = false;
  is_read_only = false;
  default_value = none;
}

abbrev pub classifier : String → String → List UmlAttribute → UmlClassifier
classifier id name attributes = record {
  id = id;
  name = name;
  stereotypes = none;
  attributes = attributes;
  operations = [];
  kind = ClassifierKind.class false;
}

abbrev pub position : String → UmlPosition
position id = record { element_id = id; x = "0"; y = "10"; width = none; height = none }

abbrev pub end : String → UmlRelationshipEnd
end id = record { element_id = id; role = ""; multiplicity = "*"; navigable = true }

-- An order has lines; `line` is the association class of orders and products.
abbrev pub order : UmlClassifier
order = classifier "order" "Order" (attribute "o1" "total" (reference "Money" none) ∷ [])

abbrev pub product : UmlClassifier
product =
    classifier "product" "Product" (attribute "p1" "last" (reference "Order" (some "order")) ∷ [])

abbrev pub line : UmlClassifier
line = classifier "line" "Line" []

abbrev pub contains_lines : UmlRelationship
contains_lines = record {
  id = "r1";
  kind = RelationshipKind.association;
  name = none;
  source = end "order";
  target = end "product";
  association_class_id = some "line";
}

abbrev pub sample : Diagram
sample = record {
  id = "d";
  name = "Shop";
  elements = order ∷ product ∷ line ∷ [];
  relationships = contains_lines ∷ [];
  positions = position "order" ∷ position "product" ∷ position "line" ∷ [];
}

abbrev pub rename : UmlCommand
rename = classifier_update "order" (classifier "order" "Purchase" [])

abbrev pub renamed : Diagram
renamed = record sample {
  elements =
      classifier "order" "Purchase" []
      ∷ classifier "product" "Product"
          (attribute "p1" "last" (reference "Purchase" (some "order")) ∷ [])
      ∷ line
      ∷ [];
}

-- Deleting the order takes the relationship, its association class and the reference with it.
abbrev without_order : Diagram
without_order = record sample {
  elements =
      classifier "product" "Product" (attribute "p1" "last" (reference "Order" none) ∷ []) ∷ [];
  relationships = [];
  positions = position "product" ∷ [];
}

tests :
    (mutate sample rename ≡ some renamed)
    × (affected_element_ids sample rename ≡ some ("order" ∷ "product" ∷ []))
    × (mutate sample (classifier_delete "order") ≡ some without_order)
    × (mutate sample (classifier_delete "x") ≡ none)
unfolding executor
tests = (refl, refl, refl, refl)

mutate-outside_affected_example : element "line" renamed ≡ element "line" sample
unfolding executor
mutate-outside_affected_example =
    mutate-outside_affected sample renamed rename ("order" ∷ "product" ∷ []) "line" tests.1 tests.0
      refl

abbrev sample-IsWellFormed : IsWellFormed sample
sample-IsWellFormed = record {
  classifiers_distinct = (refl, (refl, (refl, tt)));
  relationships_distinct = (refl, tt);
  positions_distinct = (refl, (refl, (refl, tt)));
  placed = λ x. refl;
}

mutate-IsWellFormed_example : IsWellFormed without_order
mutate-IsWellFormed_example =
    mutate-IsWellFormed sample without_order (classifier_delete "order") tests.2 sample-IsWellFormed

mutate-IsLinked_example : IsLinked without_order
mutate-IsLinked_example =
    mutate-IsLinked sample without_order (classifier_delete "order") refl tests.2 (record {
      sources = (refl, tt);
      targets = (refl, tt);
      classes = (refl, tt);
      types = (refl, (refl, (refl, tt)));
    })

mutate_delete-IsGone_example : IsGone "order" without_order
mutate_delete-IsGone_example = mutate_delete-IsGone sample without_order "order" tests.2

mutate_rename_example : All (λ e. types_named "order" "Purchase" e ≡ true) renamed.elements
unfolding executor
mutate_rename_example =
    mutate_rename sample renamed "order" order (classifier "order" "Purchase" []) refl (λ e. cc)
      tests.0

closure-IsStable_example :
    ((closure (contains_lines ∷ []) ("order" ∷ [])).changed ≡ false)
    × IsStable (closure (contains_lines ∷ []) ("order" ∷ [])) (contains_lines ∷ [])
closure-IsStable_example = closure-IsStable (contains_lines ∷ []) ("order" ∷ [])

closure_iff_Cascades_example :
    (contains "line" (closure (contains_lines ∷ []) ("order" ∷ [])).deleted_ids ≡ true)
    ↔ Cascades (contains_lines ∷ []) ("order" ∷ []) "line"
closure_iff_Cascades_example =
    closure_iff_Cascades (contains_lines ∷ []) ("order" ∷ []) "line" (refl, tt)
