-- ===== src/Uml/Validation/Relationships/Ranges.antt =====
-- canonical-model.validation.ts: `assertMultiplicityRange` on a range of decimal digits.
use uml_class_designer_be.Common.{
  ℕ, ◌≤◌, String, true, false, ◌≡◌, ◌↔◌, ◌∙◌, ap, List, [], ◌∷◌, ◌++◌, all, arith, refl,
}
use uml_class_designer_be.Uml.Multiplicity.{
  codes, decimal, big_int, is_digit, is_number, is_star, split_dots,
}
use uml_class_designer_be.Uml.Multiplicity.Laws.{split_dots-digits, split_dots-range, all_of_number}
use uml_class_designer_be.Uml.Validation.Outcome.{IssuePath, returned}
use uml_class_designer_be.Uml.Validation.Relationships.{assert_multiplicity_range}

digits-not_star : (cs : List ℕ) → all is_digit cs ≡ true → is_star cs ≡ false
digits-not_star [] h = refl
digits-not_star (c ∷ []) h = ground arith
digits-not_star (c ∷ d ∷ cs) h = refl

split_range :
    (lower upper : List ℕ)
    → all is_digit lower ≡ true
    → all is_digit upper ≡ true
    → split_dots [] (lower ++ b'.' ∷ b'.' ∷ upper) ≡ lower ∷ upper ∷ []
split_range lower upper h k =
    split_dots-range [] lower upper h ∙ ap (λ l. lower ∷ l) (split_dots-digits [] upper k)

-- A multiplicity that is a range of two decimal numbers passes exactly where the lower one is at
-- most the upper one.
pub assert_multiplicity_range_lem :
    (value : String) (path : IssuePath) (lower upper : List ℕ)
    → is_number lower ≡ true
    → is_number upper ≡ true
    → codes value ≡ (lower ++ b'.' ∷ b'.' ∷ upper)
    → ((assert_multiplicity_range value path ≡ returned tt) ↔ (decimal 0 lower ≤ decimal 0 upper))
unfolding assert_multiplicity_range big_int
assert_multiplicity_range_lem value path lower upper h k e =
    let ds = all_of_number lower h in
    let es = all_of_number upper k in
    let split = ap (split_dots []) e ∙ split_range lower upper ds es in
    let ns = digits-not_star upper es in ground (arith, split, ds, es, ns, h, k)
