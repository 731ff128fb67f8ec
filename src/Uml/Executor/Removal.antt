-- ===== src/Uml/Executor/Removal.antt =====
-- uml-command.executor.ts: `removeClassifiersAndReferences`.
pub mod Closure
pub mod Cascade
use uml_class_designer_be.Common.{
  ℕ, zero, suc, ◌+◌, String, Bool, true, false, not, ◌&&◌, ◌||◌, Option, none, some, List, [], ◌∷◌,
  map, filter, length, contains, add, if◌then◌else◌,
}
use uml_class_designer_be.Uml.Types.{UmlRelationship, Diagram}
use uml_class_designer_be.Uml.Executor.References.{
  truthy, is_in, on_classifier, remove_type_reference,
}

-- The variables of the `while` loop.
pub record Deletion : Type 0 where
  pub deleted_ids : List String
  pub deleted_relationship_ids : List String
  pub changed : Bool

abbrev pub add_class : Option String → List String → List String
add_class o ids = elim (truthy o) [ none ↦ ids | some c ↦ add c ids ]

-- The test before `continue`.
abbrev pub is_skipped : Deletion → UmlRelationship → Bool
is_skipped s r =
    contains r.id s.deleted_relationship_ids
    || (not (contains r.source.element_id s.deleted_ids)
        && not (contains r.target.element_id s.deleted_ids))

-- The body of the `for` loop.
unfoldable pub visit : Deletion → UmlRelationship → Deletion
visit s r = if is_skipped s r then s else record {
  deleted_ids = add_class r.association_class_id s.deleted_ids;
  deleted_relationship_ids = add r.id s.deleted_relationship_ids;
  changed = true;
}

unfoldable pub sweep : List UmlRelationship → Deletion → Deletion
sweep [] s = s
sweep (r ∷ rs) s = sweep rs (visit s r)

-- The `while` loop, with fuel.
unfoldable pub close : ℕ → List UmlRelationship → Deletion → Deletion
close zero rs s = s
close (suc fuel) rs s = elim s.changed [
  | true ↦ close fuel rs (sweep rs (record s { changed = false }))
  | false ↦ s
]

-- Two rounds more than there are relationships: one that another follows has deleted one of them.
unfoldable pub closure : List UmlRelationship → List String → Deletion
closure rs initial =
    close (length rs + 2) rs
      (record { deleted_ids = initial; deleted_relationship_ids = []; changed = true })

unfoldable pub without_association_class : List String → UmlRelationship → UmlRelationship
without_association_class deleted r =
    if is_in r.association_class_id deleted then record r { association_class_id = none } else r

unfoldable pub remove_deleted : Deletion → Diagram → Diagram
remove_deleted s d = record d {
  elements =
      map (on_classifier (remove_type_reference s.deleted_ids))
        (filter (λ e. not (contains e.id s.deleted_ids)) d.elements);
  relationships =
      map (without_association_class s.deleted_ids)
        (filter (λ r. not (contains r.id s.deleted_relationship_ids)) d.relationships);
  positions = filter (λ p. not (contains p.element_id s.deleted_ids)) d.positions;
}

unfoldable pub remove_classifiers_and_references : List String → Diagram → Diagram
remove_classifiers_and_references initial d = remove_deleted (closure d.relationships initial) d
