-- ===== src/Uml/Validation/Acyclic.antt =====
-- canonical-model.validation.ts: `assertAcyclic`.
pub mod Cycles
pub mod Fuel
use uml_class_designer_be.Common.{
  ℕ, zero, suc, ◌+◌, String, Bool, true, false, not, ◌&&◌, Option, none, some, List, [], ◌∷◌, ◌++◌,
  length, contains, add, filter, lookup, insert, keys, ◌==◌, if◌then◌else◌,
}
use uml_class_designer_be.Uml.Types.{RelationshipKind, UmlRelationship}

abbrev pub Adjacency : Type 0
Adjacency = List (String × List String)

-- `adjacency.get(id) ?? []`
abbrev pub targets_of : Adjacency → String → List String
targets_of g id = elim (lookup id g) [ none ↦ [] | some ts ↦ ts ]

-- The loop that fills the map, for the relationships that pass a test.
unfoldable pub adjacency_from :
    (RelationshipKind → Bool) → List UmlRelationship → Adjacency → Adjacency
adjacency_from p [] g = g
adjacency_from p (r ∷ rs) g = adjacency_from p rs (
    if p r.kind
    then insert r.source.element_id (targets_of g r.source.element_id ++ r.target.element_id ∷ []) g
    else g)

pub record Marks : Type 0 where
  pub visiting : List String
  pub visited : List String

-- `set.delete(id)`
abbrev pub delete : String → List String → List String
delete id = filter (λ x. not (x == id))

-- The loop over the targets: true as soon as one lies on a cycle.
unfoldable pub visit_all :
    (String → Marks → Option (Bool × Marks)) → List String → Marks → Option (Bool × Marks)
visit_all v [] m = some (false, m)
visit_all v (t ∷ ts) m = elim (v t m) [
  | none ↦ none
  | some (true, m') ↦ some (true, m')
  | some (false, m') ↦ visit_all v ts m'
]

abbrev pub leave : String → Marks → Marks
leave id m = record { visiting = delete id m.visiting; visited = add id m.visited }

abbrev pub finish : String → Option (Bool × Marks) → Option (Bool × Marks)
finish id none = none
finish id (some (true, m)) = some (true, m)
finish id (some (false, m)) = some (false, leave id m)

-- `visit`, with fuel for the depth of the recursion; none where that runs out.
unfoldable pub visit : ℕ → Adjacency → String → Marks → Option (Bool × Marks)
visit zero g id m = none
visit (suc fuel) g id m =
    let deeper =
      finish id
        (visit_all (visit fuel g) (targets_of g id) (record m { visiting = add id m.visiting })) in
    if contains id m.visiting
    then some (true, m)
    else (if contains id m.visited then some (false, m) else deeper)

-- The nodes on a path are keys of the map, but for the last: see `Fuel`.
abbrev pub enough : Adjacency → ℕ
enough g = length g + 2

-- The loop over the keys, from no marks.
unfoldable pub has_cycle : Adjacency → Option Bool
has_cycle g =
    elim (visit_all (visit (enough g) g) (keys g) (record { visiting = []; visited = [] })) [
      | none ↦ none
      | some (found, m) ↦ some found
    ]
