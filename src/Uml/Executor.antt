-- ===== src/Uml/Executor.antt =====
-- src/modules/uml-domain/uml-command.executor.ts. `mutate` and `affectedElementIds` read and
-- write the diagram alone; `UmlCommandExecutionError`, the only error, is `none`.
pub mod References
pub mod Removal
pub mod Untouched
pub mod Affected
pub mod Identity
pub mod Links
pub mod Deletion
pub mod Renaming
use uml_class_designer_be.Common.{
  ℕ, String, Bool, true, false, not, ◌&&◌, ◌||◌, Option, none, some, List, [], ◌∷◌, ◌++◌, map, any,
  find, filter, find_index, get_elem?, set, remove_at, contains, add, add_all, guard, is_some, ◌==◌,
  if◌then◌else◌, ◌>>=◌, ◌>>◌,
}
use uml_class_designer_be.Uml.Types.{
  UmlClassifier, UmlAttribute, UmlOperation, UmlPosition, UmlRelationship, RelationshipKind,
  Diagram, CanonicalUmlModel,
}
use uml_class_designer_be.Uml.Multiplicity.{is_many_multiplicity}
use uml_class_designer_be.Uml.Command.{
  UmlCommand, classifier_create, classifier_update, classifier_move, classifier_delete,
  classifier_duplicate, attribute_add, attribute_update, attribute_delete, operation_add,
  operation_update, operation_delete, relationship_create, relationship_update, relationship_delete,
  association_class_create, diagram_clear,
}
use References.{truthy, sync_type_reference_names, references_classifier}
use Removal.{add_class, remove_classifiers_and_references}

unfoldable pub classifier_index : Diagram → String → Option ℕ
classifier_index d id = find_index (λ e. e.id == id) d.elements

unfoldable pub relationship_index : Diagram → String → Option ℕ
relationship_index d id = find_index (λ r. r.id == id) d.relationships

unfoldable pub find_classifier : Diagram → String → Option UmlClassifier
find_classifier d id = do i ← classifier_index d id; get_elem? d.elements i

unfoldable pub find_relationship : Diagram → String → Option UmlRelationship
find_relationship d id = do i ← relationship_index d id; get_elem? d.relationships i

unfoldable pub assert_missing_classifier : Diagram → String → Option (Unit {0})
assert_missing_classifier d id = guard (not (any (λ e. e.id == id) d.elements))

unfoldable pub assert_position : String → String → Option (Unit {0})
assert_position position_element_id classifier_id = guard (position_element_id == classifier_id)

-- `push` of a classifier and its position
unfoldable pub push_classifier : Diagram → UmlClassifier → UmlPosition → Diagram
push_classifier d c p = record d {
  elements = d.elements ++ c ∷ [];
  positions = d.positions ++ p ∷ [];
}

-- `classifier` is the object in the array: a change to it is a write at its index.
unfoldable pub edit_classifier :
    Diagram → String → (UmlClassifier → Option UmlClassifier) → Option Diagram
edit_classifier d id f = do
  i ← classifier_index d id
  c ← get_elem? d.elements i
  c' ← f c
  some (record d { elements = set d.elements i c' })

abbrev pub is_association : RelationshipKind → Bool
is_association RelationshipKind.association = true
is_association _ = false

-- The condition of `association-class.create`, negated.
abbrev pub takes_association_class : UmlRelationship → Bool
takes_association_class r =
    is_association r.kind
    && not (is_some (truthy r.association_class_id))
    && is_many_multiplicity r.source.multiplicity
    && is_many_multiplicity r.target.multiplicity

unfoldable pub delete_relationship_aggregate : Diagram → String → Option Diagram
delete_relationship_aggregate d id = do
  i ← relationship_index d id
  r ← get_elem? d.relationships i
  let rest = record d { relationships = remove_at d.relationships i }
  some (elim (truthy r.association_class_id) [
    | none ↦ rest
    | some c ↦ remove_classifiers_and_references (c ∷ []) rest
  ])

-- `mutate`
unfoldable pub mutate : Diagram → UmlCommand → Option Diagram
mutate d (classifier_create c p) = do
  assert_missing_classifier d c.id
  assert_position p.element_id c.id
  some (push_classifier d c p)
mutate d (classifier_update id c) = do
  i ← classifier_index d id
  guard (c.id == id)
  previous ← get_elem? d.elements i
  let elements = set d.elements i c
  some (record d {
    elements =
        if not (previous.name == c.name)
        then sync_type_reference_names id c.name elements
        else elements;
  })
mutate d (classifier_move id x y) = do
  _ ← find_classifier d id
  i ← find_index (λ p. p.element_id == id) d.positions
  p ← get_elem? d.positions i
  some (record d { positions = set d.positions i (record p { x = x; y = y }) })
mutate d (classifier_delete id) = do
  _ ← find_classifier d id
  some (remove_classifiers_and_references (id ∷ []) d)
mutate d (classifier_duplicate source_id c p) = do
  _ ← find_classifier d source_id
  assert_missing_classifier d c.id
  assert_position p.element_id c.id
  some (push_classifier d c p)
mutate d (attribute_add id a) =
    edit_classifier d id (λ c. some (record c { attributes = c.attributes ++ a ∷ [] }))
mutate d (attribute_update id attribute_id a) = edit_classifier d id (λ c. do
  i ← find_index (λ b. b.id == attribute_id) c.attributes
  guard (a.id == attribute_id)
  some (record c { attributes = set c.attributes i a }))
mutate d (attribute_delete id attribute_id) = edit_classifier d id (λ c. do
  i ← find_index (λ b. b.id == attribute_id) c.attributes
  some (record c { attributes = remove_at c.attributes i }))
mutate d (operation_add id o) =
    edit_classifier d id (λ c. some (record c { operations = c.operations ++ o ∷ [] }))
mutate d (operation_update id operation_id o) = edit_classifier d id (λ c. do
  i ← find_index (λ b. b.id == operation_id) c.operations
  guard (o.id == operation_id)
  some (record c { operations = set c.operations i o }))
mutate d (operation_delete id operation_id) = edit_classifier d id (λ c. do
  i ← find_index (λ b. b.id == operation_id) c.operations
  some (record c { operations = remove_at c.operations i }))
mutate d (relationship_create r) = do
  guard (not (any (λ s. s.id == r.id) d.relationships))
  some (record d { relationships = d.relationships ++ r ∷ [] })
mutate d (relationship_update id r) = do
  i ← relationship_index d id
  guard (r.id == id)
  some (record d { relationships = set d.relationships i r })
mutate d (relationship_delete id) = delete_relationship_aggregate d id
mutate d (association_class_create id c p) = do
  i ← relationship_index d id
  r ← get_elem? d.relationships i
  guard (takes_association_class r)
  assert_missing_classifier d c.id
  assert_position p.element_id c.id
  some (record (push_classifier d c p) {
    relationships = set d.relationships i (record r { association_class_id = some c.id });
  })
mutate d diagram_clear = some (record d { elements = []; relationships = []; positions = [] })

-- `execute`. `stringify` is `JSON.stringify` on the diagram.
unfoldable pub execute :
    (Diagram → String) → CanonicalUmlModel → UmlCommand → Option CanonicalUmlModel
execute stringify document command = do
  next ← mutate document.diagram command
  guard (not (stringify document.diagram == stringify next))
  some (record document { diagram = next })

abbrev pub element_ids : Diagram → List String
element_ids d = map (λ e. e.id) d.elements

-- `relationshipElementIds`
unfoldable pub relationship_element_ids : List UmlRelationship → List String → List String
relationship_element_ids [] ids = ids
relationship_element_ids (r ∷ rs) ids =
    relationship_element_ids rs
      (add_class r.association_class_id (add r.target.element_id (add r.source.element_id ids)))

-- `affectedElementIds`
unfoldable pub affected_element_ids : Diagram → UmlCommand → Option (List String)
affected_element_ids d (classifier_create c p) = some (c.id ∷ [])
affected_element_ids d (classifier_duplicate source_id c p) = some (c.id ∷ [])
affected_element_ids d (classifier_update id c) = do
  classifier ← find_classifier d id
  some (
      if not (classifier.name == c.name)
      then add_all (map (λ e. e.id) (filter (λ e. references_classifier e id) d.elements)) (id ∷ [])
      else id ∷ [])
affected_element_ids d (classifier_delete id) = some (add_all (element_ids d) [])
affected_element_ids d diagram_clear = some (add_all (element_ids d) [])
affected_element_ids d (classifier_move id x y) = some (id ∷ [])
affected_element_ids d (attribute_add id a) = some (id ∷ [])
affected_element_ids d (attribute_update id attribute_id a) = some (id ∷ [])
affected_element_ids d (attribute_delete id attribute_id) = some (id ∷ [])
affected_element_ids d (operation_add id o) = some (id ∷ [])
affected_element_ids d (operation_update id operation_id o) = some (id ∷ [])
affected_element_ids d (operation_delete id operation_id) = some (id ∷ [])
affected_element_ids d (relationship_create r) = some (relationship_element_ids (r ∷ []) [])
affected_element_ids d (relationship_update id r) = do
  existing ← find_relationship d id
  some (relationship_element_ids (existing ∷ r ∷ []) [])
affected_element_ids d (relationship_delete id) = do
  r ← find_relationship d id
  some (
      if is_some (truthy r.association_class_id)
      then add_all (element_ids d) []
      else relationship_element_ids (r ∷ []) [])
affected_element_ids d (association_class_create id c p) = do
  r ← find_relationship d id
  some (add c.id (add r.target.element_id (r.source.element_id ∷ [])))
