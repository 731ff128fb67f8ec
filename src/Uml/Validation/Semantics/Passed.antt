-- ===== src/Uml/Validation/Semantics/Passed.antt =====
-- canonical-model.validation.ts: the steps of a check that passes, and what each has checked.
use uml_class_designer_be.Common.{
  String, true, ◌≡◌, sym, ap, subst, ◌∙◌, inl, inr, List, [], ◌∷◌, ◌++◌, map, contains, keys,
  IsDistinct, All, All-of_Memᴰ, All-Memᴰ, arith, Bool-cases, true≢false, IsDistinct-append_left,
  IsDistinct-append_right,
}
use uml_class_designer_be.Uml.Types.{RelationshipKind, CanonicalUmlModel}
use uml_class_designer_be.Uml.View.{document_view}
use uml_class_designer_be.Uml.Executor.{element_ids}
use uml_class_designer_be.Uml.Executor.Identity.{relationship_ids, position_ids}
use uml_class_designer_be.Uml.Executor.Removal.Cascade.{resolves}
use uml_class_designer_be.Uml.Executor.Links.{IsLinked, types_resolve}
use uml_class_designer_be.Uml.Validation.Outcome.{key, returned, >>=-eq-returned}
use uml_class_designer_be.Uml.Validation.Names.{
  register_id, assert_non_blank_name, assert_unique_names,
}
use uml_class_designer_be.Uml.Validation.Characters.{assert_xml10_safe_strings}
use uml_class_designer_be.Uml.Validation.Characters.Laws.{
  IsXmlSafe, AllGood-IsXmlSafe, At, assert_xml10_safe_strings-Tells,
}
use uml_class_designer_be.Uml.Validation.Classifiers.{
  Classifiers, register_elements, assert_element_types, assert_positions, assert_positioned,
}
use uml_class_designer_be.Uml.Validation.Classifiers.Identifiers.{
  Extends, Extends-trans, register_id-Extends, classifier_ids, insert_all,
  register_elements-Extends,
}
use uml_class_designer_be.Uml.Validation.Classifiers.References.{elements-resolve}
use uml_class_designer_be.Uml.Validation.Classifiers.Placement.{
  IsKeyed, IsKeyed-insert_all, positions-Extends, positioned_all,
}
use uml_class_designer_be.Uml.Validation.Relationships.{Seen, assert_relationships}
use uml_class_designer_be.Uml.Validation.Relationships.Ends.{IsConnected, relationships-eq-returned}
use uml_class_designer_be.Uml.Validation.{assert_acyclic, assert_canonical_semantic_integrity}
use uml_class_designer_be.Uml.Validation.Semantics.Registered.{
  all_ids, IsDistinct-elements, keys-insert_all, positions_known,
}

-- The results of the steps of a check that passes.
pub record Passed (lower_case : String → String) (d : CanonicalUmlModel) : Type 0 where
  pub ids₁ : List String
  pub ids₂ : List String
  pub ids₃ : List String
  pub positioned : List String
  pub elements : Classifiers
  pub seen : Seen
  pub safe : assert_xml10_safe_strings (document_view d) [] ≡ returned tt
  pub first : register_id d.project.id (key "project" ∷ key "id" ∷ []) [] ≡ returned ids₁
  pub second : register_id d.diagram.id (key "diagram" ∷ key "id" ∷ []) ids₁ ≡ returned ids₂
  pub third : register_elements lower_case 0 d.diagram.elements ids₂ [] ≡ returned (ids₃, elements)
  pub typed : assert_element_types elements 0 d.diagram.elements ≡ returned tt
  pub placed : assert_positions elements 0 d.diagram.positions [] ≡ returned positioned
  pub all_placed : assert_positioned positioned elements ≡ returned tt
  pub related :
      assert_relationships elements 0 d.diagram.relationships
        (record { ids = ids₃; relationship_signatures = []; association_classes = [] })
      ≡ returned seen
  pub generalizations :
      assert_acyclic d.diagram.relationships RelationshipKind.generalization ≡ returned tt
  pub compositions :
      assert_acyclic d.diagram.relationships RelationshipKind.composition ≡ returned tt

module _ (lower_case : String → String) (d : CanonicalUmlModel) where
  pub passed : assert_canonical_semantic_integrity lower_case d ≡ returned tt → Passed lower_case d
  unfolding assert_canonical_semantic_integrity
  passed h =
      let (_, safe, h₁) = >>=-eq-returned (assert_xml10_safe_strings (document_view d) []) _ h in
      let (ids₁, first, h₂) = >>=-eq-returned (register_id d.project.id _ []) _ h₁ in
      let (ids₂, second, h₃) = >>=-eq-returned (register_id d.diagram.id _ ids₁) _ h₂ in
      let (_, _, h₄) = >>=-eq-returned (assert_non_blank_name d.project.name _) _ h₃ in
      let (_, _, h₅) = >>=-eq-returned (assert_non_blank_name d.diagram.name _) _ h₄ in
      let ((ids₃, elements), third, h₆) =
        >>=-eq-returned (register_elements lower_case 0 d.diagram.elements ids₂ []) _ h₅ in
      let (_, _, h₇) =
        >>=-eq-returned (assert_unique_names lower_case (map (λ e. e.name) d.diagram.elements) _) _
          h₆ in
      let (_, typed, h₈) =
        >>=-eq-returned (assert_element_types elements 0 d.diagram.elements) _ h₇ in
      let (positioned, placed, h₉) =
        >>=-eq-returned (assert_positions elements 0 d.diagram.positions []) _ h₈ in
      let (_, all_placed, h₁₀) = >>=-eq-returned (assert_positioned positioned elements) _ h₉ in
      let (seen, related, h₁₁) =
        >>=-eq-returned (assert_relationships elements 0 d.diagram.relationships _) _ h₁₀ in
      let (_, generalizations, compositions) =
        >>=-eq-returned (assert_acyclic d.diagram.relationships RelationshipKind.generalization) _
          h₁₁ in
      record {
        ids₁ = ids₁;
        ids₂ = ids₂;
        ids₃ = ids₃;
        positioned = positioned;
        elements = elements;
        seen = seen;
        safe = safe;
        first = first;
        second = second;
        third = third;
        typed = typed;
        placed = placed;
        all_placed = all_placed;
        related = related;
        generalizations = generalizations;
        compositions = compositions;
      }

module _ (lower_case : String → String) (d : CanonicalUmlModel) (p : Passed lower_case d) where
  registered : Extends [] (all_ids d) p.seen.ids × (p.elements ≡ insert_all d.diagram.elements [])
  registered =
      let (extended, same) =
        register_elements-Extends lower_case 0 d.diagram.elements p.ids₂ [] p.third in
      (
        Extends-trans (register_id-Extends d.project.id _ p.first) (
            Extends-trans (register_id-Extends d.diagram.id _ p.second) (
              Extends-trans extended
                (relationships-eq-returned p.elements 0 d.diagram.relationships _ p.seen
                  p.related).0)),
        same,
      )

  pub ids-IsDistinct : IsDistinct (all_ids d)
  ids-IsDistinct = subst IsDistinct registered.0.appended (registered.0.distinct tt)

  pub below : IsDistinct (classifier_ids d.diagram.elements ++ relationship_ids d.diagram)
  below = IsDistinct-append_right (d.project.id ∷ d.diagram.id ∷ []) _ ids-IsDistinct

  pub elements-IsDistinct : IsDistinct (element_ids d.diagram)
  elements-IsDistinct = IsDistinct-elements d.diagram.elements (
      IsDistinct-append_left (classifier_ids d.diagram.elements) (relationship_ids d.diagram) below)

  keys-elements : keys p.elements ≡ element_ids d.diagram
  keys-elements = ap keys registered.1 ∙ keys-insert_all d.diagram.elements [] elements-IsDistinct

  elements-IsKeyed : IsKeyed p.elements
  elements-IsKeyed = subst IsKeyed (sym registered.1) (IsKeyed-insert_all d.diagram.elements [] tt)

  pub positions_lem :
      IsDistinct (position_ids d.diagram)
      × ((x : String) → contains x (position_ids d.diagram) ≡ contains x (element_ids d.diagram))
  positions_lem =
      let (more, known) = positions-Extends p.elements 0 d.diagram.positions [] p.placed in
      (
        subst IsDistinct more.appended (more.distinct tt),
        λ x. elim (Bool-cases (contains x (position_ids d.diagram))) [
          | inl here ↦
              here
              ∙ sym (
                  ap (contains x) (sym keys-elements)
                  ∙ positions_known x d.diagram.positions (keys p.elements) known here)
          | inr away ↦ elim (Bool-cases (contains x (element_ids d.diagram))) [
            | inl e ↦ absurd (
                true≢false (
                  sym (
                    ap (contains x) (sym more.appended)
                    ∙ positioned_all x p.positioned p.elements p.all_placed elements-IsKeyed
                        (ap (contains x) keys-elements ∙ e))
                  ∙ away))
            | inr e ↦ away ∙ sym e
          ]
        ],
      )

  connected : All (IsConnected p.elements) d.diagram.relationships
  connected = (relationships-eq-returned p.elements 0 d.diagram.relationships _ p.seen p.related).1

  pub diagram-IsLinked : IsLinked d.diagram
  diagram-IsLinked = record {
    sources = All-of_Memᴰ _ d.diagram.relationships (λ r m.
        ap (contains r.source.element_id) (sym keys-elements)
        ∙ (All-Memᴰ _ d.diagram.relationships connected m).source_found);
    targets = All-of_Memᴰ _ d.diagram.relationships (λ r m.
        ap (contains r.target.element_id) (sym keys-elements)
        ∙ (All-Memᴰ _ d.diagram.relationships connected m).target_found);
    classes = All-of_Memᴰ _ d.diagram.relationships (λ r m.
        ap (resolves r.association_class_id) (sym keys-elements)
        ∙ (All-Memᴰ _ d.diagram.relationships connected m).class_found);
    types =
        subst (λ ids. All (λ c. types_resolve ids c ≡ true) d.diagram.elements) keys-elements
          (elements-resolve p.elements 0 d.diagram.elements p.typed);
  }

  pub strings-IsXmlSafe : IsXmlSafe (At (document_view d))
  strings-IsXmlSafe = elim (assert_xml10_safe_strings-Tells (document_view d)) [
    | inl (_, good) ↦ AllGood-IsXmlSafe (At (document_view d)) good
    | inr (_, _, _, _, refused) ↦ absurd (ground (arith, p.safe))
  ]
