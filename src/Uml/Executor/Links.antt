-- ===== src/Uml/Executor/Links.antt =====
-- uml-command.executor.ts: a deletion leaves no reference to what it deleted.
use uml_class_designer_be.Common.{
  String, Bool, true, false, not, ◌&&◌, ◌≡◌, refl, subst, inl, inr, some, List, [], ◌∷◌, map, all,
  filter, find_index, remove_at, contains, All, arith, ◌==◌, Option-cases, contains-map-filter,
  map-map_same, All-Memᴰ, All-map-filter, All-remove_at, get_elem?-find_index,
}
use uml_class_designer_be.Uml.Types.{
  UmlTypeReference, UmlParameter, UmlAttribute, UmlOperation, UmlClassifier, UmlRelationship,
  Diagram,
}
use uml_class_designer_be.Uml.Command.{
  UmlCommand, classifier_delete, relationship_delete, diagram_clear,
}
use uml_class_designer_be.Uml.Executor.References.{
  truthy, on_parameter, on_attribute, on_operation, on_classifier, remove_type_reference,
}
use uml_class_designer_be.Uml.Executor.Removal.{
  Deletion, is_skipped, remove_classifiers_and_references, remove_deleted,
  without_association_class,
}
use uml_class_designer_be.Uml.Executor.Removal.Closure.{closure-IsStable}
use uml_class_designer_be.Uml.Executor.Removal.Cascade.{resolves}
use uml_class_designer_be.Uml.Executor.Untouched.{id-on_classifier}
use uml_class_designer_be.Uml.Executor.{
  mutate, element_ids, relationship_index, delete_relationship_aggregate,
}

abbrev pub operation_resolves : List String → UmlOperation → Bool
operation_resolves ids o =
    resolves o.return_type.element_id ids && all (λ p. resolves p.type.element_id ids) o.parameters

-- Each type reference of the classifier that names a classifier names one of the set.
abbrev pub types_resolve : List String → UmlClassifier → Bool
types_resolve ids c =
    all (λ a. resolves a.type.element_id ids) c.attributes
    && all (operation_resolves ids) c.operations

-- Whatever a relationship or a type reference names is a classifier of the diagram.
pub record IsLinked (d : Diagram) : Type 0 where
  pub sources : All (λ r. contains r.source.element_id (element_ids d) ≡ true) d.relationships
  pub targets : All (λ r. contains r.target.element_id (element_ids d) ≡ true) d.relationships
  pub classes : All (λ r. resolves r.association_class_id (element_ids d) ≡ true) d.relationships
  pub types : All (λ c. types_resolve (element_ids d) c ≡ true) d.elements

-- From a set to the one without the deleted identifiers.
module _ (old new deleted : List String)
    (less : (x : String) → contains x new ≡ (not (contains x deleted) && contains x old)) where
  reference_resolves :
      (r : UmlTypeReference)
      → resolves r.element_id old ≡ true
      → resolves (remove_type_reference deleted r).element_id new ≡ true
  unfolding remove_type_reference
  reference_resolves r h = elim (Option-cases (truthy r.element_id)) [
    | inl e ↦ ground arith
    | inr (c, e) ↦ ground (arith, less c)
  ]

  class_resolves :
      (r : UmlRelationship)
      → resolves r.association_class_id old ≡ true
      → resolves (without_association_class deleted r).association_class_id new ≡ true
  unfolding without_association_class
  class_resolves r h = elim (Option-cases (truthy r.association_class_id)) [
    | inl e ↦ ground arith
    | inr (c, e) ↦ ground (arith, less c)
  ]

  parameters_resolve :
      (ps : List UmlParameter)
      → all (λ p. resolves p.type.element_id old) ps ≡ true
      → all
          (λ p. resolves p.type.element_id new)
          (map (on_parameter (remove_type_reference deleted)) ps)
        ≡ true
  parameters_resolve [] h = refl
  parameters_resolve (p ∷ ps) h = ground (arith, reference_resolves p.type, parameters_resolve ps)

  attributes_resolve :
      (xs : List UmlAttribute)
      → all (λ a. resolves a.type.element_id old) xs ≡ true
      → all
          (λ a. resolves a.type.element_id new)
          (map (on_attribute (remove_type_reference deleted)) xs)
        ≡ true
  attributes_resolve [] h = refl
  attributes_resolve (a ∷ xs) h = ground (arith, reference_resolves a.type, attributes_resolve xs)

  operations_resolve :
      (os : List UmlOperation)
      → all (operation_resolves old) os ≡ true
      → all (operation_resolves new) (map (on_operation (remove_type_reference deleted)) os) ≡ true
  operations_resolve [] h = refl
  operations_resolve (o ∷ os) h = ground (
    arith,
    reference_resolves o.return_type,
    parameters_resolve o.parameters,
    operations_resolve os,
  )

  classifier_resolves :
      (c : UmlClassifier)
      → types_resolve old c ≡ true
      → types_resolve new (on_classifier (remove_type_reference deleted) c) ≡ true
  unfolding on_classifier
  classifier_resolves c h =
      ground (arith, attributes_resolve c.attributes, operations_resolve c.operations)

pub contains-removed :
    (s : Deletion) (d : Diagram) (x : String)
    → contains x (element_ids (remove_deleted s d))
      ≡ (not (contains x s.deleted_ids) && contains x (element_ids d))
unfolding remove_deleted
contains-removed s d x =
    rw
      (map-map_same (λ e. e.id) (on_classifier (remove_type_reference s.deleted_ids))
        (filter (λ e. not (contains e.id s.deleted_ids)) d.elements) (id-on_classifier _))
      (contains-map-filter (λ e. e.id) x (λ y. not (contains y s.deleted_ids)) d.elements)

pub ends-without_association_class :
    (ids : List String) (r : UmlRelationship)
    → ((without_association_class ids r).source ≡ r.source)
      × ((without_association_class ids r).target ≡ r.target)
unfolding without_association_class
ends-without_association_class ids r = ground arith

remove_deleted-IsLinked :
    (s : Deletion) (d : Diagram)
    → All (λ r. is_skipped s r ≡ true) d.relationships
    → IsLinked d
    → IsLinked (remove_deleted s d)
unfolding remove_deleted
remove_deleted-IsLinked s d stable v = record {
  sources = All-map-filter _ _ _ d.relationships (λ r m kept. ground (
    arith,
    ends-without_association_class s.deleted_ids r,
    contains-removed s d r.source.element_id,
    All-Memᴰ _ d.relationships v.sources m,
    All-Memᴰ _ d.relationships stable m,
  ));
  targets = All-map-filter _ _ _ d.relationships (λ r m kept. ground (
    arith,
    ends-without_association_class s.deleted_ids r,
    contains-removed s d r.target.element_id,
    All-Memᴰ _ d.relationships v.targets m,
    All-Memᴰ _ d.relationships stable m,
  ));
  classes = All-map-filter _ _ _ d.relationships (λ r m kept.
      class_resolves (element_ids d) _ s.deleted_ids (contains-removed s d) r
        (All-Memᴰ _ d.relationships v.classes m));
  types = All-map-filter _ _ _ d.elements (λ c m kept.
      classifier_resolves (element_ids d) _ s.deleted_ids (contains-removed s d) c
        (All-Memᴰ _ d.elements v.types m));
}

removal-IsLinked :
    (ids : List String) (d : Diagram)
    → IsLinked d
    → IsLinked (remove_classifiers_and_references ids d)
unfolding remove_classifiers_and_references
removal-IsLinked ids d v = remove_deleted-IsLinked _ d (closure-IsStable d.relationships ids).1 v

delete_relationship-IsLinked :
    (d d' : Diagram) (id : String)
    → delete_relationship_aggregate d id ≡ some d'
    → IsLinked d
    → IsLinked d'
unfolding delete_relationship_aggregate relationship_index
delete_relationship-IsLinked d d' id e v =
    elim (Option-cases (find_index (λ r. r.id == id) d.relationships)) [
      | inl lost ↦ absurd (ground arith)
      | inr (i, found) ↦
          let (r, there, _) = get_elem?-find_index (λ r. r.id) id d.relationships i found in
          let rest : Diagram = record d { relationships = remove_at d.relationships i } in
          let kept : IsLinked rest = record {
            sources = All-remove_at _ d.relationships i v.sources;
            targets = All-remove_at _ d.relationships i v.targets;
            classes = All-remove_at _ d.relationships i v.classes;
            types = v.types;
          } in
          elim (Option-cases (truthy r.association_class_id)) [
            | inl plain ↦ subst IsLinked {x = rest} (ground arith) kept
            | inr (c, named) ↦
                subst IsLinked {x = remove_classifiers_and_references (c ∷ []) rest} (ground arith)
                  (removal-IsLinked (c ∷ []) rest kept)
          ]
    ]

-- The commands that delete classifiers or relationships.
abbrev pub deletes : UmlCommand → Bool
deletes (classifier_delete id) = true
deletes (relationship_delete id) = true
deletes diagram_clear = true
deletes _ = false

-- A command that deletes leaves nothing dangling: if before it the ends of relationships, their
-- association classes and the type references named classifiers of the diagram, they do after it.
pub mutate-IsLinked :
    (d d' : Diagram) (command : UmlCommand)
    → deletes command ≡ true
    → mutate d command ≡ some d'
    → IsLinked d
    → IsLinked d'
unfolding mutate
mutate-IsLinked d d' (classifier_delete id) p e v =
    subst IsLinked {x = remove_classifiers_and_references (id ∷ []) d} (ground arith)
      (removal-IsLinked (id ∷ []) d v)
mutate-IsLinked d d' (relationship_delete id) p e v = delete_relationship-IsLinked d d' id e v
mutate-IsLinked d d' diagram_clear p e v =
    let cleared : Diagram = record d { elements = []; relationships = []; positions = [] } in
    subst IsLinked {x = cleared} (ground arith)
      (record { sources = tt; targets = tt; classes = tt; types = tt })
mutate-IsLinked d d' _ p e v = absurd (cc)
