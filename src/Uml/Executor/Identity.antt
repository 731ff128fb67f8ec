-- ===== src/Uml/Executor/Identity.antt =====
-- uml-command.executor.ts: identifiers stay unique, and each classifier has one position.
pub mod Commands
use uml_class_designer_be.Common.{
  ℕ, String, Bool, true, false, not, ◌||◌, ◌≡◌, ◌≢◌, refl, sym, subst, ◌∙◌, inl, inr, Option, none,
  some, List, [], ◌∷◌, ◌++◌, map, any, find_index, get_elem?, filter, set, remove_at, contains,
  IsDistinct, arith, ◌==◌, eq_iff, if◌then◌else◌, ◌>>=◌, Option-cases, contains-map-filter,
  IsDistinct-map-filter, contains-map-append_one, IsDistinct-map-append_one,
  IsDistinct-map-remove_at, map-map_same, map-set_same, contains-map_of_any, get_elem?-find_index,
}
use uml_class_designer_be.Uml.Types.{UmlClassifier, UmlPosition, UmlRelationship, Diagram}
use uml_class_designer_be.Uml.Command.{
  UmlCommand, classifier_create, classifier_update, classifier_move, classifier_delete,
  classifier_duplicate, attribute_add, attribute_update, attribute_delete, operation_add,
  operation_update, operation_delete, relationship_create, relationship_update, relationship_delete,
  association_class_create, diagram_clear,
}
use uml_class_designer_be.Uml.Executor.References.{
  truthy, sync_type_name, sync_type_reference_names, on_classifier, remove_type_reference,
}
use uml_class_designer_be.Uml.Executor.Removal.{
  Deletion, remove_classifiers_and_references, remove_deleted, without_association_class,
}
use uml_class_designer_be.Uml.Executor.Affected.{IsEdited, edit_classifier-IsEdited}
use uml_class_designer_be.Uml.Executor.Untouched.{id-on_classifier}
use uml_class_designer_be.Uml.Executor.{
  classifier_index, find_classifier, find_relationship, relationship_index, push_classifier,
  assert_missing_classifier, assert_position, edit_classifier, mutate, element_ids,
  delete_relationship_aggregate,
}

abbrev pub relationship_ids : Diagram → List String
relationship_ids d = map (λ r. r.id) d.relationships

abbrev pub position_ids : Diagram → List String
position_ids d = map (λ p. p.element_id) d.positions

-- No two classifiers, relationships or positions share an identifier, and exactly the
-- classifiers have positions.
pub record IsWellFormed (d : Diagram) : Type 0 where
  pub classifiers_distinct : IsDistinct (element_ids d)
  pub relationships_distinct : IsDistinct (relationship_ids d)
  pub positions_distinct : IsDistinct (position_ids d)
  pub placed : (x : String) → contains x (position_ids d) ≡ contains x (element_ids d)

-- Only the identifiers matter.
pub IsWellFormed-same :
    {d d' : Diagram}
    → element_ids d' ≡ element_ids d
    → relationship_ids d' ≡ relationship_ids d
    → position_ids d' ≡ position_ids d
    → IsWellFormed d
    → IsWellFormed d'
IsWellFormed-same e r p v = record {
  classifiers_distinct = rw e v.classifiers_distinct;
  relationships_distinct = rw r v.relationships_distinct;
  positions_distinct = rw p v.positions_distinct;
  placed = λ x. rw (e, p) (v.placed x);
}

pub push_classifier-IsWellFormed :
    (d : Diagram) (c : UmlClassifier) (p : UmlPosition)
    → contains c.id (element_ids d) ≡ false
    → p.element_id ≡ c.id
    → IsWellFormed d
    → IsWellFormed (push_classifier d c p)
unfolding push_classifier
push_classifier-IsWellFormed d c p fresh same v = record {
  classifiers_distinct =
      IsDistinct-map-append_one (λ e. e.id) d.elements c v.classifiers_distinct fresh;
  relationships_distinct = v.relationships_distinct;
  positions_distinct =
      IsDistinct-map-append_one (λ q. q.element_id) d.positions p v.positions_distinct
        (ground (arith, v.placed p.element_id));
  placed = λ x. ground (
    arith,
    contains-map-append_one (λ e. e.id) x d.elements c,
    contains-map-append_one (λ q. q.element_id) x d.positions p,
    v.placed x,
  );
}

id-without_association_class :
    (ids : List String) (r : UmlRelationship) → (without_association_class ids r).id ≡ r.id
unfolding without_association_class
id-without_association_class ids r = ground arith

pub remove_deleted-IsWellFormed :
    (s : Deletion) (d : Diagram) → IsWellFormed d → IsWellFormed (remove_deleted s d)
unfolding remove_deleted
remove_deleted-IsWellFormed s d v =
    let same_elements =
      map-map_same (λ e. e.id) (on_classifier (remove_type_reference s.deleted_ids))
        (filter (λ e. not (contains e.id s.deleted_ids)) d.elements) (id-on_classifier _) in
    let same_relationships =
      map-map_same (λ r. r.id) (without_association_class s.deleted_ids)
        (filter (λ r. not (contains r.id s.deleted_relationship_ids)) d.relationships)
        (id-without_association_class _) in
    record {
      classifiers_distinct = rw same_elements (
          IsDistinct-map-filter (λ e. e.id) (λ x. not (contains x s.deleted_ids)) d.elements
            v.classifiers_distinct);
      relationships_distinct = rw same_relationships (
          IsDistinct-map-filter (λ r. r.id) (λ x. not (contains x s.deleted_relationship_ids))
            d.relationships v.relationships_distinct);
      positions_distinct =
          IsDistinct-map-filter (λ p. p.element_id) (λ x. not (contains x s.deleted_ids))
            d.positions v.positions_distinct;
      placed = λ x. rw same_elements (
          ground (
            arith,
            contains-map-filter (λ e. e.id) x (λ y. not (contains y s.deleted_ids)) d.elements,
            contains-map-filter (λ p. p.element_id) x (λ y. not (contains y s.deleted_ids))
                d.positions,
            v.placed x,
          ));
    }

pub delete_relationship-IsWellFormed :
    (d d' : Diagram) (id : String)
    → delete_relationship_aggregate d id ≡ some d'
    → IsWellFormed d
    → IsWellFormed d'
unfolding delete_relationship_aggregate relationship_index remove_classifiers_and_references
delete_relationship-IsWellFormed d d' id e v =
    elim (Option-cases (find_index (λ r. r.id == id) d.relationships)) [
      | inl lost ↦ absurd (ground arith)
      | inr (i, found) ↦
          let (r, there, _) = get_elem?-find_index (λ r. r.id) id d.relationships i found in
          let rest : Diagram = record d { relationships = remove_at d.relationships i } in
          let kept : IsWellFormed rest = record {
            classifiers_distinct = v.classifiers_distinct;
            relationships_distinct =
                IsDistinct-map-remove_at (λ r. r.id) d.relationships i v.relationships_distinct;
            positions_distinct = v.positions_distinct;
            placed = v.placed;
          } in
          elim (Option-cases (truthy r.association_class_id)) [
            | inl plain ↦ subst IsWellFormed {x = rest} (ground arith) kept
            | inr (c, named) ↦
                subst IsWellFormed {x = remove_classifiers_and_references (c ∷ []) rest}
                  (ground arith) (remove_deleted-IsWellFormed _ rest kept)
          ]
    ]

pub edit_classifier-IsWellFormed :
    (d d' : Diagram) (id : String) (f : UmlClassifier → Option UmlClassifier)
    → ((c c' : UmlClassifier) → f c ≡ some c' → c'.id ≡ c.id)
    → edit_classifier d id f ≡ some d'
    → IsWellFormed d
    → IsWellFormed d'
edit_classifier-IsWellFormed d d' id f same e v =
    let w = edit_classifier-IsEdited d d' id f e in
    rw w.result (
      IsWellFormed-same
        (map-set_same (λ y. y.id) d.elements w.index w.after w.before w.there
          (same w.before w.after w.edited))
        refl refl v)
