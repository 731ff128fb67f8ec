-- ===== src/Uml/Validation/Classifiers/Identifiers.antt =====
-- canonical-model.validation.ts: the identifiers that the loops register are new and distinct.
use mathlib.Core.List.{append_assoc, append-nil}
use uml_class_designer_be.Common.{
  ℕ, suc, String, ◌≡◌, sym, ap, subst, ◌∙◌, List, [], ◌∷◌, ◌++◌, map, contains, insert, IsDistinct,
  IsDistinct-append_one, arith,
}
use uml_class_designer_be.Uml.Types.{UmlParameter, UmlAttribute, UmlOperation, UmlClassifier}
use uml_class_designer_be.Uml.Validation.Outcome.{
  IssuePath, returned, >>=-eq-returned, refuse_if-eq-returned, returned_inj,
}
use uml_class_designer_be.Uml.Validation.Names.{
  register_id, assert_non_blank_name, assert_unique_names,
}
use uml_class_designer_be.Uml.Validation.Classifiers.{
  Classifiers, register_attributes, register_parameters, register_operations, register_elements,
}

-- A set with identifiers added that were not in it, each once.
pub record Extends (ids new ids' : List String) : Type 0 where
  pub appended : ids' ≡ ids ++ new
  pub distinct : IsDistinct ids → IsDistinct ids'

pub Extends-refl : (ids : List String) → Extends ids [] ids
Extends-refl ids = record { appended = sym (append-nil ids); distinct = λ d. d }

pub Extends-trans :
    {xs ys zs new more : List String}
    → Extends xs new ys
    → Extends ys more zs
    → Extends xs (new ++ more) zs
Extends-trans {xs = xs} {new = new} {more = more} a b = record {
  appended = b.appended ∙ ap (λ l. l ++ more) a.appended ∙ append_assoc xs new more;
  distinct = λ d. b.distinct (a.distinct d);
}

pub register_id-Extends :
    (id : String) (path : IssuePath) {ids ids' : List String}
    → register_id id path ids ≡ returned ids'
    → Extends ids (id ∷ []) ids'
unfolding register_id
register_id-Extends id path {ids = ids} h =
    let (fresh, done) = refuse_if-eq-returned (contains id ids) path _ _ h in
    record {
      appended = ground (arith, fresh, done);
      distinct = λ d.
          subst IsDistinct {x = ids ++ id ∷ []} (ground (arith, fresh, done))
            (IsDistinct-append_one ids id d fresh);
    }

pub done-Extends : {ids ids' : List String} → returned ids ≡ returned ids' → Extends ids [] ids'
done-Extends {ids = ids} h = subst (Extends ids []) (returned_inj h) (Extends-refl ids)

pub register_attributes-Extends :
    (path : IssuePath) (i : ℕ) (attributes : List UmlAttribute) {ids ids' : List String}
    → register_attributes path i attributes ids ≡ returned ids'
    → Extends ids (map (λ a. a.id) attributes) ids'
unfolding register_attributes
register_attributes-Extends path i [] h = done-Extends h
register_attributes-Extends path i (a ∷ rest) h =
    let (ids₁, first, h₁) = >>=-eq-returned (register_id a.id _ _) _ h in
    let (_, _, h₂) = >>=-eq-returned (assert_non_blank_name a.name _) _ h₁ in
    Extends-trans (register_id-Extends a.id _ first)
      (register_attributes-Extends path (suc i) rest h₂)

pub register_parameters-Extends :
    (path : IssuePath) (i : ℕ) (parameters : List UmlParameter) {ids ids' : List String}
    → register_parameters path i parameters ids ≡ returned ids'
    → Extends ids (map (λ p. p.id) parameters) ids'
unfolding register_parameters
register_parameters-Extends path i [] h = done-Extends h
register_parameters-Extends path i (p ∷ rest) h =
    let (ids₁, first, h₁) = >>=-eq-returned (register_id p.id _ _) _ h in
    let (_, _, h₂) = >>=-eq-returned (assert_non_blank_name p.name _) _ h₁ in
    Extends-trans (register_id-Extends p.id _ first)
      (register_parameters-Extends path (suc i) rest h₂)

-- The identifiers of what the document holds, in the order of the loops.
abbrev pub operation_ids : List UmlOperation → List String
operation_ids [] = []
operation_ids (o ∷ rest) = (o.id ∷ []) ++ (map (λ p. p.id) o.parameters ++ operation_ids rest)

abbrev pub classifier_ids : List UmlClassifier → List String
classifier_ids [] = []
classifier_ids (c ∷ rest) =
    (c.id ∷ [])
    ++ (map (λ a. a.id) c.attributes ++ (operation_ids c.operations ++ classifier_ids rest))

-- The entries that the loop adds to the map.
abbrev pub insert_all : List UmlClassifier → Classifiers → Classifiers
insert_all [] elements = elements
insert_all (c ∷ rest) elements = insert_all rest (insert c.id c elements)

module _ (lower_case : String → String) where
  pub register_operations-Extends :
      (path : IssuePath) (i : ℕ) (operations : List UmlOperation) {ids ids' : List String}
      → register_operations lower_case path i operations ids ≡ returned ids'
      → Extends ids (operation_ids operations) ids'
  unfolding register_operations
  register_operations-Extends path i [] h = done-Extends h
  register_operations-Extends path i (o ∷ rest) h =
      let (ids₁, first, h₁) = >>=-eq-returned (register_id o.id _ _) _ h in
      let (_, _, h₂) = >>=-eq-returned (assert_non_blank_name o.name _) _ h₁ in
      let (_, _, h₃) =
        >>=-eq-returned (assert_unique_names lower_case (map (λ p. p.name) o.parameters) _) _ h₂ in
      let (ids₂, second, h₄) = >>=-eq-returned (register_parameters _ 0 o.parameters ids₁) _ h₃ in
      Extends-trans (register_id-Extends o.id _ first) (
        Extends-trans (register_parameters-Extends _ 0 o.parameters second)
          (register_operations-Extends path (suc i) rest h₄))

  pub register_elements-Extends :
      (i : ℕ) (es : List UmlClassifier) (ids : List String) (elements : Classifiers)
      {ids' : List String} {elements' : Classifiers}
      → register_elements lower_case i es ids elements ≡ returned (ids', elements')
      → Extends ids (classifier_ids es) ids' × (elements' ≡ insert_all es elements)
  unfolding register_elements
  register_elements-Extends i [] ids elements h =
      let e = returned_inj h in (done-Extends (ap (λ p. returned p.0) e), sym (ap (λ p. p.1) e))
  register_elements-Extends i (c ∷ rest) ids elements h =
      let (ids₁, first, h₁) = >>=-eq-returned (register_id c.id _ _) _ h in
      let (_, _, h₂) = >>=-eq-returned (assert_non_blank_name c.name _) _ h₁ in
      let (_, _, h₃) =
        >>=-eq-returned (assert_unique_names lower_case (map (λ a. a.name) c.attributes) _) _ h₂ in
      let (ids₂, second, h₄) = >>=-eq-returned (register_attributes _ 0 c.attributes ids₁) _ h₃ in
      let (ids₃, third, h₅) =
        >>=-eq-returned (register_operations lower_case _ 0 c.operations ids₂) _ h₄ in
      let (more, same) = register_elements-Extends (suc i) rest ids₃ (insert c.id c elements) h₅ in
      (
        Extends-trans (register_id-Extends c.id _ first) (
            Extends-trans (register_attributes-Extends _ 0 c.attributes second)
              (Extends-trans (register_operations-Extends _ 0 c.operations third) more)),
        same,
      )
