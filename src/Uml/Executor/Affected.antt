-- ===== src/Uml/Executor/Affected.antt =====
-- uml-command.executor.ts: what `affectedElementIds` promises of `mutate`. The collaboration
-- locks exclude two editors from one classifier by these identifiers alone.
use uml_class_designer_be.Common.{
  ℕ, find_index, get_elem?, remove_at, String, false, ◌≡◌, ◌≢◌, sym, ◌∙◌, inl, inr, Option, some,
  List, [], ◌∷◌, map, find, filter, set, contains, arith, ◌==◌, eq_iff, Option-cases, contains-add,
  contains-add_all, All-set, find-append_ne, find-set_ne, find-none, find-map_fixed,
  contains-map-map-filter, get_elem?-find_index,
}
use uml_class_designer_be.Uml.Types.{UmlClassifier, UmlPosition, Diagram}
use uml_class_designer_be.Uml.Command.{
  UmlCommand, classifier_create, classifier_update, classifier_move, classifier_delete,
  classifier_duplicate, attribute_add, attribute_update, attribute_delete, operation_add,
  operation_update, operation_delete, relationship_create, relationship_update, relationship_delete,
  association_class_create, diagram_clear,
}
use uml_class_designer_be.Uml.Executor.References.{
  truthy, sync_type_reference_names, references_classifier,
}
use uml_class_designer_be.Uml.Executor.Removal.{remove_classifiers_and_references, remove_deleted}
use uml_class_designer_be.Uml.Executor.{
  classifier_index, find_classifier, find_relationship, relationship_index, push_classifier,
  edit_classifier, mutate, affected_element_ids, element_ids, delete_relationship_aggregate,
}
use uml_class_designer_be.Uml.Executor.Untouched.{id-on_classifier, fixed_outside}

-- The classifier with an identifier.
abbrev pub element : String → Diagram → Option UmlClassifier
element x d = find (λ e. e.id == x) d.elements

-- What a successful edit of a classifier did.
pub record IsEdited (d d' : Diagram) (id : String) (f : UmlClassifier → Option UmlClassifier)
    : Type 0 where
  pub index : ℕ
  pub before : UmlClassifier
  pub after : UmlClassifier
  pub found : find_index (λ e. e.id == id) d.elements ≡ some index
  pub there : get_elem? d.elements index ≡ some before
  pub named : before.id ≡ id
  pub edited : f before ≡ some after
  pub result : d' ≡ record d { elements = set d.elements index after }

pub edit_classifier-IsEdited :
    (d d' : Diagram) (id : String) (f : UmlClassifier → Option UmlClassifier)
    → edit_classifier d id f ≡ some d'
    → IsEdited d d' id f
unfolding edit_classifier classifier_index
edit_classifier-IsEdited d d' id f e =
    elim (Option-cases (find_index (λ y. y.id == id) d.elements)) [
      | inl lost ↦ absurd (ground arith)
      | inr (i, found) ↦
          let (c, there, named) = get_elem?-find_index (λ y. y.id) id d.elements i found in
          elim (Option-cases (f c)) [
            | inl failed ↦ absurd (ground arith)
            | inr (c', edited) ↦ record {
              index = i;
              before = c;
              after = c';
              found = found;
              there = there;
              named = named;
              edited = edited;
              result = ground arith;
            }
          ]
    ]

edit_classifier_outside :
    (d d' : Diagram) (id x : String) (f : UmlClassifier → Option UmlClassifier)
    → ((c c' : UmlClassifier) → f c ≡ some c' → c'.id ≡ c.id)
    → edit_classifier d id f ≡ some d'
    → id ≢ x
    → element x d' ≡ element x d
edit_classifier_outside d d' id x f same e n =
    let w = edit_classifier-IsEdited d d' id f e in
    rw w.result (
      find-set_ne (λ y. y.id) id x d.elements w.index w.after w.found
        (same w.before w.after w.edited ∙ w.named) n)

push_classifier_outside :
    (d : Diagram) (c : UmlClassifier) (p : UmlPosition) (x : String)
    → c.id ≢ x
    → element x (push_classifier d c p) ≡ element x d
unfolding push_classifier
push_classifier_outside d c p x n = find-append_ne (λ e. e.id) x d.elements c n

-- Where every identifier is affected, nothing is found outside, before or after.
removal_outside :
    (d : Diagram) (ids : List String) (x : String)
    → contains x (element_ids d) ≡ false
    → element x (remove_classifiers_and_references ids d) ≡ element x d
unfolding remove_classifiers_and_references remove_deleted
removal_outside d ids x h =
    find-none _ x _ (contains-map-map-filter (λ e. e.id) x _ _ d.elements (id-on_classifier _) h)
    ∙ sym (find-none _ x d.elements h)

delete_relationship_outside :
    (d d' : Diagram) (ids : List String) (id x : String)
    → affected_element_ids d (relationship_delete id) ≡ some ids
    → delete_relationship_aggregate d id ≡ some d'
    → contains x ids ≡ false
    → element x d' ≡ element x d
unfolding delete_relationship_aggregate affected_element_ids find_relationship relationship_index
delete_relationship_outside d d' ids id x a e n =
    elim (Option-cases (find_index (λ r. r.id == id) d.relationships)) [
      | inl lost ↦ absurd (ground arith)
      | inr (i, found) ↦
          let (r, there, _) = get_elem?-find_index (λ r. r.id) id d.relationships i found in
          let rest : Diagram = record d { relationships = remove_at d.relationships i } in
          elim (Option-cases (truthy r.association_class_id)) [
            | inl plain ↦ ground arith
            | inr (c, named) ↦
                ground
                  (arith, removal_outside rest (c ∷ []) x, contains-add_all x (element_ids d) [])
          ]
    ]

module _ (d : Diagram) (id x : String) (c : UmlClassifier) (i : ℕ)
    (found : find_index (λ y. y.id == id) d.elements ≡ some i) where
  replaced_outside :
      c.id ≡ id
      → id ≢ x
      → find (λ y. y.id == x) (set d.elements i c) ≡ find (λ y. y.id == x) d.elements
  replaced_outside named n = find-set_ne (λ y. y.id) id x d.elements i c found named n

  renamed_outside :
      c.id ≡ id
      → id ≢ x
      → contains x (map (λ e. e.id) (filter (λ e. references_classifier e id) d.elements)) ≡ false
      → find (λ y. y.id == x) (sync_type_reference_names id c.name (set d.elements i c))
        ≡ find (λ y. y.id == x) d.elements
  unfolding sync_type_reference_names
  renamed_outside named n h =
      find-map_fixed (λ y. y.id) x _ (set d.elements i c) (id-on_classifier _)
        (All-set _ d.elements i c (fixed_outside id c.name x d.elements h)
          (λ same. absurd (n (sym named ∙ same))))
      ∙ replaced_outside named n

classifier_update_outside :
    (d d' : Diagram) (ids : List String) (id x : String) (c : UmlClassifier)
    → affected_element_ids d (classifier_update id c) ≡ some ids
    → mutate d (classifier_update id c) ≡ some d'
    → contains x ids ≡ false
    → element x d' ≡ element x d
unfolding mutate affected_element_ids find_classifier classifier_index
classifier_update_outside d d' ids id x c a e n =
    elim (Option-cases (find_index (λ y. y.id == id) d.elements)) [
      | inl lost ↦ absurd (ground arith)
      | inr (i, found) ↦
          let (b, there, _) = get_elem?-find_index (λ y. y.id) id d.elements i found in
          ground (
            arith,
            replaced_outside d id x c i found,
            renamed_outside d id x c i found,
            contains-add_all x
                (map (λ y. y.id) (filter (λ y. references_classifier y id) d.elements)) (id ∷ []),
            eq_iff id x,
            eq_iff c.id id,
          )
    ]

-- A command that succeeds changes no classifier outside the set computed for it: looked up by
-- any identifier that is not in `affectedElementIds`, the diagram gives the same classifier
-- (or none) before and after.
pub mutate-outside_affected :
    (d d' : Diagram) (command : UmlCommand) (ids : List String) (x : String)
    → affected_element_ids d command ≡ some ids
    → mutate d command ≡ some d'
    → contains x ids ≡ false
    → element x d' ≡ element x d
unfolding mutate affected_element_ids
mutate-outside_affected d d' (classifier_create c p) ids x a e n =
    ground (arith, push_classifier_outside d c p x, eq_iff c.id x)
mutate-outside_affected d d' (classifier_update id c) ids x a e n =
    classifier_update_outside d d' ids id x c a e n
mutate-outside_affected d d' (classifier_move id x' y') ids x a e n = ground arith
mutate-outside_affected d d' (classifier_delete id) ids x a e n =
    ground (arith, removal_outside d (id ∷ []) x, contains-add_all x (element_ids d) [])
mutate-outside_affected d d' (classifier_duplicate id c p) ids x a e n =
    ground (arith, push_classifier_outside d c p x, eq_iff c.id x)
mutate-outside_affected d d' (attribute_add id t) ids x a e n =
    edit_classifier_outside d d' id x _ (λ c c' s. ground arith) e (ground (arith, eq_iff id x))
mutate-outside_affected d d' (attribute_update id b t) ids x a e n =
    edit_classifier_outside d d' id x _ (λ c c' s. ground arith) e (ground (arith, eq_iff id x))
mutate-outside_affected d d' (attribute_delete id b) ids x a e n =
    edit_classifier_outside d d' id x _ (λ c c' s. ground arith) e (ground (arith, eq_iff id x))
mutate-outside_affected d d' (operation_add id t) ids x a e n =
    edit_classifier_outside d d' id x _ (λ c c' s. ground arith) e (ground (arith, eq_iff id x))
mutate-outside_affected d d' (operation_update id b t) ids x a e n =
    edit_classifier_outside d d' id x _ (λ c c' s. ground arith) e (ground (arith, eq_iff id x))
mutate-outside_affected d d' (operation_delete id b) ids x a e n =
    edit_classifier_outside d d' id x _ (λ c c' s. ground arith) e (ground (arith, eq_iff id x))
mutate-outside_affected d d' (relationship_create r) ids x a e n = ground arith
mutate-outside_affected d d' (relationship_update id r) ids x a e n = ground arith
mutate-outside_affected d d' (relationship_delete id) ids x a e n =
    delete_relationship_outside d d' ids id x a e n
mutate-outside_affected d d' (association_class_create id c p) ids x a e n =
    ground (arith, push_classifier_outside d c p x, eq_iff c.id x, contains-add c.id x)
mutate-outside_affected d d' diagram_clear ids x a e n =
    ground (arith, find-none (λ y. y.id) x d.elements, contains-add_all x (element_ids d) [])
