-- ===== src/Uml/Validation/Classifiers/Placement.antt =====
-- canonical-model.validation.ts: what the loops over the positions check, with the map that
-- holds the classifiers by their identifiers.
use uml_class_designer_be.Common.{
  ℕ, suc, String, true, not, ◌≡◌, refl, List, [], ◌∷◌, map, add, contains, insert, keys, lookup,
  is_some, lookup-keys, contains-keys-insert, All, arith, eq_iff, ◌||◌, IsDistinct-append_one,
}
use uml_class_designer_be.Uml.Types.{UmlClassifier, UmlPosition}
use uml_class_designer_be.Uml.Validation.Outcome.{returned, refuse_if-eq-returned}
use uml_class_designer_be.Uml.Validation.Classifiers.{
  Classifiers, assert_positions, assert_positioned,
}
use uml_class_designer_be.Uml.Validation.Classifiers.Identifiers.{
  insert_all, Extends, Extends-trans, done-Extends,
}

-- Each entry has the identifier of its classifier as its key.
abbrev pub IsKeyed : Classifiers → Type 0
IsKeyed elements = All (λ e. e.1.id ≡ e.0) elements

IsKeyed-insert :
    (c : UmlClassifier) (elements : Classifiers)
    → IsKeyed elements
    → IsKeyed (insert c.id c elements)
IsKeyed-insert c [] k = (refl, tt)
IsKeyed-insert c ((j, e) ∷ rest) k =
    ground (arith, eq_iff j c.id, k.0, k.1, IsKeyed-insert c rest k.1)

pub IsKeyed-insert_all :
    (es : List UmlClassifier) (elements : Classifiers)
    → IsKeyed elements
    → IsKeyed (insert_all es elements)
IsKeyed-insert_all [] elements k = k
IsKeyed-insert_all (c ∷ es) elements k =
    IsKeyed-insert_all es (insert c.id c elements) (IsKeyed-insert c elements k)

pub contains-keys-insert_all :
    (x : String) (es : List UmlClassifier) (elements : Classifiers)
    → contains x (keys (insert_all es elements))
      ≡ (contains x (map (λ e. e.id) es) || contains x (keys elements))
contains-keys-insert_all x [] elements = refl
contains-keys-insert_all x (c ∷ es) elements = ground (
  arith,
  contains-keys-insert_all x es (insert c.id c elements),
  contains-keys-insert x c.id c elements,
)

module _ (elements : Classifiers) where
  -- The set of the positioned classifiers is that of the positions, each new.
  pub positions-Extends :
      (i : ℕ) (ps : List UmlPosition) (positioned : List String) {positioned' : List String}
      → assert_positions elements i ps positioned ≡ returned positioned'
      → Extends positioned (map (λ p. p.element_id) ps) positioned'
        × All (λ p. contains p.element_id (keys elements) ≡ true) ps
  unfolding assert_positions
  positions-Extends i [] positioned h = (done-Extends h, tt)
  positions-Extends i (p ∷ ps) positioned h =
      let (known, h₁) =
        refuse_if-eq-returned (not (is_some (lookup p.element_id elements))) _ _ _ h in
      let (fresh, h₂) = refuse_if-eq-returned (contains p.element_id positioned) _ _ _ h₁ in
      let (more, rest) = positions-Extends (suc i) ps (add p.element_id positioned) h₂ in
      let first : Extends positioned (p.element_id ∷ []) (add p.element_id positioned) = record {
        appended = ground (arith, fresh);
        distinct =
            λ d. ground (arith, fresh, IsDistinct-append_one positioned p.element_id d fresh);
      } in
      (Extends-trans first more, (ground (arith, lookup-keys p.element_id elements), rest))

pub positioned_all :
    (x : String) (positioned : List String) (elements : Classifiers)
    → assert_positioned positioned elements ≡ returned tt
    → IsKeyed elements
    → contains x (keys elements) ≡ true
    → contains x positioned ≡ true
unfolding assert_positioned
positioned_all x positioned [] h k m = absurd (cc)
positioned_all x positioned ((j, e) ∷ rest) h k m =
    let (there, h₁) = refuse_if-eq-returned (not (contains e.id positioned)) _ _ _ h in
    ground (arith, k.0, eq_iff j x, positioned_all x positioned rest h₁ k.1)
