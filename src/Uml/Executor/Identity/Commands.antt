-- ===== src/Uml/Executor/Identity/Commands.antt =====
-- uml-command.executor.ts: `mutate`, command by command, keeps a diagram well formed.
use uml_class_designer_be.Common.{
  String, false, ◌≡◌, refl, subst, inl, inr, some, [], ◌∷◌, ◌++◌, find_index, set, contains, arith,
  ◌==◌, eq_iff, Option-cases, IsDistinct-map-append_one, map-map_same, map-set_same,
  contains-map_of_any, get_elem?-find_index,
}
use uml_class_designer_be.Uml.Types.{UmlClassifier, UmlPosition, UmlRelationship, Diagram}
use uml_class_designer_be.Uml.Command.{
  UmlCommand, classifier_create, classifier_update, classifier_move, classifier_delete,
  classifier_duplicate, attribute_add, attribute_update, attribute_delete, operation_add,
  operation_update, operation_delete, relationship_create, relationship_update, relationship_delete,
  association_class_create, diagram_clear,
}
use uml_class_designer_be.Uml.Executor.References.{
  sync_type_name, sync_type_reference_names, on_classifier,
}
use uml_class_designer_be.Uml.Executor.Removal.{remove_classifiers_and_references}
use uml_class_designer_be.Uml.Executor.Untouched.{id-on_classifier}
use uml_class_designer_be.Uml.Executor.{
  classifier_index, relationship_index, push_classifier, assert_missing_classifier, assert_position,
  mutate, element_ids,
}
use uml_class_designer_be.Uml.Executor.Identity.{
  relationship_ids, position_ids, IsWellFormed, IsWellFormed-same, push_classifier-IsWellFormed,
  remove_deleted-IsWellFormed, delete_relationship-IsWellFormed, edit_classifier-IsWellFormed,
}

classifier_update-IsWellFormed :
    (d d' : Diagram) (id : String) (c : UmlClassifier)
    → mutate d (classifier_update id c) ≡ some d'
    → IsWellFormed d
    → IsWellFormed d'
unfolding mutate classifier_index sync_type_reference_names
classifier_update-IsWellFormed d d' id c e v =
    elim (Option-cases (find_index (λ y. y.id == id) d.elements)) [
      | inl lost ↦ absurd (ground arith)
      | inr (i, found) ↦
          let (b, there, named) = get_elem?-find_index (λ y. y.id) id d.elements i found in
          let same : element_ids d' ≡ element_ids d = ground (
            arith,
            map-set_same (λ y. y.id) d.elements i c b there,
            map-map_same (λ y. y.id) (on_classifier (sync_type_name id c.name)) (set d.elements i c)
                (id-on_classifier _),
            eq_iff c.id id,
          ) in
          IsWellFormed-same same (ground arith) (ground arith) v
    ]

classifier_move-IsWellFormed :
    (d d' : Diagram) (id x y : String)
    → mutate d (classifier_move id x y) ≡ some d'
    → IsWellFormed d
    → IsWellFormed d'
unfolding mutate
classifier_move-IsWellFormed d d' id x y e v =
    elim (Option-cases (find_index (λ p. p.element_id == id) d.positions)) [
      | inl lost ↦ absurd (ground arith)
      | inr (i, found) ↦
          let (p, there, named) = get_elem?-find_index (λ q. q.element_id) id d.positions i found in
          let moved : UmlPosition = record p { x = x; y = y } in
          let same : position_ids d' ≡ position_ids d =
            ground (arith, map-set_same (λ q. q.element_id) d.positions i moved p there refl) in
          IsWellFormed-same (ground arith) (ground arith) same v
    ]

create-IsWellFormed :
    (d d' : Diagram) (c : UmlClassifier) (p : UmlPosition)
    → mutate d (classifier_create c p) ≡ some d'
    → IsWellFormed d
    → IsWellFormed d'
unfolding mutate assert_missing_classifier assert_position
create-IsWellFormed d d' c p e v = subst IsWellFormed {x = push_classifier d c p} (ground arith) (
    push_classifier-IsWellFormed d c p
      (ground (arith, contains-map_of_any (λ y. y.id) c.id d.elements))
      (ground (arith, eq_iff p.element_id c.id)) v)

relationship_create-IsWellFormed :
    (d d' : Diagram) (r : UmlRelationship)
    → mutate d (relationship_create r) ≡ some d'
    → IsWellFormed d
    → IsWellFormed d'
unfolding mutate
relationship_create-IsWellFormed d d' r e v =
    let fresh : contains r.id (relationship_ids d) ≡ false =
      ground (arith, contains-map_of_any (λ s. s.id) r.id d.relationships) in
    let next : Diagram = record d { relationships = d.relationships ++ r ∷ [] } in
    subst IsWellFormed {x = next} (ground arith) (record {
      classifiers_distinct = v.classifiers_distinct;
      relationships_distinct =
          IsDistinct-map-append_one (λ s. s.id) d.relationships r v.relationships_distinct fresh;
      positions_distinct = v.positions_distinct;
      placed = v.placed;
    })

relationship_update-IsWellFormed :
    (d d' : Diagram) (id : String) (r : UmlRelationship)
    → mutate d (relationship_update id r) ≡ some d'
    → IsWellFormed d
    → IsWellFormed d'
unfolding mutate relationship_index
relationship_update-IsWellFormed d d' id r e v =
    elim (Option-cases (find_index (λ s. s.id == id) d.relationships)) [
      | inl lost ↦ absurd (ground arith)
      | inr (i, found) ↦
          let (old, there, named) = get_elem?-find_index (λ s. s.id) id d.relationships i found in
          let same : relationship_ids d' ≡ relationship_ids d =
            ground
              (arith, map-set_same (λ s. s.id) d.relationships i r old there, eq_iff r.id id) in
          IsWellFormed-same (ground arith) same (ground arith) v
    ]

association_class_create-IsWellFormed :
    (d d' : Diagram) (id : String) (c : UmlClassifier) (p : UmlPosition)
    → mutate d (association_class_create id c p) ≡ some d'
    → IsWellFormed d
    → IsWellFormed d'
unfolding mutate relationship_index assert_missing_classifier assert_position push_classifier
association_class_create-IsWellFormed d d' id c p e v =
    elim (Option-cases (find_index (λ s. s.id == id) d.relationships)) [
      | inl lost ↦ absurd (ground arith)
      | inr (i, found) ↦
          let (old, there, named) = get_elem?-find_index (λ s. s.id) id d.relationships i found in
          let assigned : UmlRelationship = record old { association_class_id = some c.id } in
          let pushed =
            push_classifier-IsWellFormed d c p
              (ground (arith, contains-map_of_any (λ y. y.id) c.id d.elements))
              (ground (arith, eq_iff p.element_id c.id)) v in
          IsWellFormed-same {d = push_classifier d c p} (ground arith)
            (ground (arith, map-set_same (λ s. s.id) d.relationships i assigned old there refl))
            (ground arith) pushed
    ]

-- Every command that succeeds keeps a diagram well formed: identifiers of classifiers and of
-- relationships stay unique, no classifier gets a second position, and exactly the classifiers
-- of the diagram have one.
pub mutate-IsWellFormed :
    (d d' : Diagram) (command : UmlCommand)
    → mutate d command ≡ some d'
    → IsWellFormed d
    → IsWellFormed d'
unfolding mutate remove_classifiers_and_references
mutate-IsWellFormed d d' (classifier_create c p) e v = create-IsWellFormed d d' c p e v
mutate-IsWellFormed d d' (classifier_update id c) e v = classifier_update-IsWellFormed d d' id c e v
mutate-IsWellFormed d d' (classifier_move id x y) e v = classifier_move-IsWellFormed d d' id x y e v
mutate-IsWellFormed d d' (classifier_delete id) e v =
    subst IsWellFormed {x = remove_classifiers_and_references (id ∷ []) d} (ground arith)
      (remove_deleted-IsWellFormed _ d v)
mutate-IsWellFormed d d' (classifier_duplicate id c p) e v =
    create-IsWellFormed d d' c p (ground arith) v
mutate-IsWellFormed d d' (attribute_add id t) e v =
    edit_classifier-IsWellFormed d d' id _ (λ c c' s. ground arith) e v
mutate-IsWellFormed d d' (attribute_update id b t) e v =
    edit_classifier-IsWellFormed d d' id _ (λ c c' s. ground arith) e v
mutate-IsWellFormed d d' (attribute_delete id b) e v =
    edit_classifier-IsWellFormed d d' id _ (λ c c' s. ground arith) e v
mutate-IsWellFormed d d' (operation_add id t) e v =
    edit_classifier-IsWellFormed d d' id _ (λ c c' s. ground arith) e v
mutate-IsWellFormed d d' (operation_update id b t) e v =
    edit_classifier-IsWellFormed d d' id _ (λ c c' s. ground arith) e v
mutate-IsWellFormed d d' (operation_delete id b) e v =
    edit_classifier-IsWellFormed d d' id _ (λ c c' s. ground arith) e v
mutate-IsWellFormed d d' (relationship_create r) e v = relationship_create-IsWellFormed d d' r e v
mutate-IsWellFormed d d' (relationship_update id r) e v =
    relationship_update-IsWellFormed d d' id r e v
mutate-IsWellFormed d d' (relationship_delete id) e v = delete_relationship-IsWellFormed d d' id e v
mutate-IsWellFormed d d' (association_class_create id c p) e v =
    association_class_create-IsWellFormed d d' id c p e v
mutate-IsWellFormed d d' diagram_clear e v =
    let cleared : Diagram = record d { elements = []; relationships = []; positions = [] } in
    subst IsWellFormed {x = cleared} (ground arith) (record {
      classifiers_distinct = tt;
      relationships_distinct = tt;
      positions_distinct = tt;
      placed = λ x. refl;
    })
