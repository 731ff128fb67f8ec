-- ===== src/Uml/Validation/Relationships.antt =====
-- canonical-model.validation.ts: `assertMultiplicityRange`, `relationshipSignature`, and the loop
-- over the relationships. `JSON.stringify` tells apart the arrays that it is given here, so a
-- signature is the list of its cells, a missing one for `null`.
pub mod Ends
pub mod Signatures
pub mod Ranges
use Prim.Native.String.{◌++◌ as str_append}
use uml_class_designer_be.Common.{
  ℕ, suc, String, Bool, true, false, not, ◌&&◌, ◌||◌, Option, none, some, List, [], ◌∷◌, ◌++◌, any,
  contains, add, lookup, ltb, ◌==◌, if◌then◌else◌,
}
use uml_class_designer_be.Uml.Types.{
  UmlClassifier, ClassifierKind, UmlRelationship, UmlRelationshipEnd, RelationshipKind,
}
use uml_class_designer_be.Uml.Executor.References.{truthy}
use uml_class_designer_be.Uml.Multiplicity.{
  codes, split_dots, is_star, big_int, is_many_multiplicity,
}
use uml_class_designer_be.Uml.Validation.Outcome.{
  IssuePath, PathStep, key, index, Failure, Outcome, returned, thrown, ◌>>=◌, ◌>>◌, refuse_if,
}
use uml_class_designer_be.Uml.Validation.Names.{register_id}
use uml_class_designer_be.Uml.Validation.Classifiers.{Classifiers}

-- The comparison of two bounds, after `BigInt` of each.
abbrev pub assert_ordered : Option ℕ → Option ℕ → IssuePath → Outcome (Unit {0})
assert_ordered (some lower) (some upper) path =
    refuse_if (ltb upper lower) path "has a lower bound greater than its upper bound."
assert_ordered _ _ path = thrown Failure.syntax_error

unfoldable pub assert_multiplicity_range : String → IssuePath → Outcome (Unit {0})
assert_multiplicity_range value path = elim (split_dots [] (codes value)) [
  | lower ∷ upper ∷ _ ↦
      if is_star upper then returned tt else assert_ordered (big_int lower) (big_int upper) path
  | _ ↦ returned tt
]

abbrev pub kind_name : RelationshipKind → String
kind_name RelationshipKind.association = "association"
kind_name RelationshipKind.aggregation = "aggregation"
kind_name RelationshipKind.composition = "composition"
kind_name RelationshipKind.generalization = "generalization"
kind_name RelationshipKind.realization = "realization"
kind_name RelationshipKind.dependency = "dependency"

abbrev pub is_class : ClassifierKind → Bool
is_class (ClassifierKind.class _) = true
is_class ClassifierKind.interface = false

-- `source.kind !== target.kind`
abbrev pub differ_in_kind : ClassifierKind → ClassifierKind → Bool
differ_in_kind a b = if is_class a then not (is_class b) else is_class b

abbrev pub Signature : Type 0
Signature = List (Option String)

abbrev pub end_cells : UmlRelationshipEnd → Signature
end_cells e =
    some e.element_id
    ∷ some e.role
    ∷ some e.multiplicity
    ∷ some (if e.navigable then "true" else "false")
    ∷ []

unfoldable pub relationship_signature : UmlRelationship → Bool → Signature
relationship_signature r reversed =
    let source = if reversed then r.target else r.source in
    let target = if reversed then r.source else r.target in
    (some (kind_name r.kind) ∷ r.name ∷ end_cells source)
    ++ (end_cells target ++ r.association_class_id ∷ [])

abbrev pub same_cell : Option String → Option String → Bool
same_cell none none = true
same_cell (some s) (some t) = s == t
same_cell _ _ = false

unfoldable pub same_signature : Signature → Signature → Bool
same_signature [] [] = true
same_signature (a ∷ rest) (b ∷ others) = same_cell a b && same_signature rest others
same_signature _ _ = false

-- `signatures.has(signature)`
abbrev pub has_signature : Signature → List Signature → Bool
has_signature s seen = any (same_signature s) seen

abbrev pub relationship_path : ℕ → IssuePath
relationship_path i = key "diagram" ∷ key "relationships" ∷ index i ∷ []

abbrev pub is_kind : RelationshipKind → RelationshipKind → Bool
is_kind a b = kind_name a == kind_name b

-- The tests on the ends, up to the multiplicities.
unfoldable pub assert_ends :
    UmlRelationship → UmlClassifier → UmlClassifier → IssuePath → Outcome (Unit {0})
assert_ends r source target path = do
  _ ←
      refuse_if
        (source.id == target.id
          && not (is_kind r.kind RelationshipKind.association)
          && not (is_kind r.kind RelationshipKind.dependency))
        path (str_append (kind_name r.kind) " cannot be self-referential.")
  _ ←
      refuse_if
        (is_kind r.kind RelationshipKind.realization
          && (not (is_class source.kind) || is_class target.kind))
        path "realization must connect a class to an interface."
  _ ←
      refuse_if
        (is_kind r.kind RelationshipKind.generalization && differ_in_kind source.kind target.kind)
        path "generalization must connect classifiers of the same kind."
  _ ←
      assert_multiplicity_range r.source.multiplicity
        (path ++ key "source" ∷ key "multiplicity" ∷ [])
  assert_multiplicity_range r.target.multiplicity (path ++ key "target" ∷ key "multiplicity" ∷ [])

-- The tests on the association class; the result is the set of those that are assigned.
unfoldable pub assert_association_class :
    UmlRelationship
    → UmlClassifier
    → UmlClassifier
    → Option UmlClassifier
    → List String
    → IssuePath
    → Outcome (List String)
assert_association_class r source target none assigned path =
    thrown (Failure.semantic path "must reference a class from an association.")
assert_association_class r source target (some association_class) assigned path = do
  _ ←
      refuse_if
        (not (is_kind r.kind RelationshipKind.association) || not (is_class association_class.kind))
        path "must reference a class from an association."
  _ ←
      refuse_if
        (not (is_many_multiplicity r.source.multiplicity)
          || not (is_many_multiplicity r.target.multiplicity))
        path "association classes require many-to-many multiplicities."
  _ ←
      refuse_if (association_class.id == source.id || association_class.id == target.id) path
        "association class cannot also be an association endpoint."
  _ ←
      refuse_if (contains association_class.id assigned) path
        "association class is already assigned to another relationship."
  returned (add association_class.id assigned)

-- The sets that the loop fills.
pub record Seen : Type 0 where
  pub ids : List String
  pub relationship_signatures : List Signature
  pub association_classes : List String

module _ (elements : Classifiers) where
  -- The body of the loop, with both ends found.
  unfoldable pub assert_connected :
      ℕ → UmlRelationship → UmlClassifier → UmlClassifier → Seen → Outcome Seen
  assert_connected i r source target s = do
    let path = relationship_path i
    _ ← assert_ends r source target path
    let signature = relationship_signature r false
    _ ←
        refuse_if
          (has_signature signature s.relationship_signatures
            || (is_kind r.kind RelationshipKind.association
                && has_signature (relationship_signature r true) s.relationship_signatures))
          path "duplicates an existing semantic relationship."
    let s₁ = record s { relationship_signatures = s.relationship_signatures ++ signature ∷ [] }
    elim (truthy r.association_class_id) [
      | none ↦ returned s₁
      | some id ↦ do
        assigned ←
            assert_association_class r source target (lookup id elements) s.association_classes path
        returned (record s₁ { association_classes = assigned })
    ]

  unfoldable pub assert_relationship : ℕ → UmlRelationship → Seen → Outcome Seen
  assert_relationship i r s = do
    let path = relationship_path i
    ids ← register_id r.id (path ++ key "id" ∷ []) s.ids
    elim (lookup r.source.element_id elements) [
      | none ↦ thrown (Failure.semantic path "must connect classifiers that exist.")
      | some source ↦ elim (lookup r.target.element_id elements) [
        | none ↦ thrown (Failure.semantic path "must connect classifiers that exist.")
        | some target ↦ assert_connected i r source target (record s { ids = ids })
      ]
    ]

  unfoldable pub assert_relationships : ℕ → List UmlRelationship → Seen → Outcome Seen
  assert_relationships i [] s = returned s
  assert_relationships i (r ∷ rest) s = do
    s₁ ← assert_relationship i r s
    assert_relationships (suc i) rest s₁
