-- ===== src/Uml/Multiplicity/Laws.antt =====
-- `isManyMultiplicity` (src/modules/uml-domain) on each form of a multiplicity.
use uml_class_designer_be.Common.{ℕ, true, false, ◌≡◌, refl, List, [], ◌∷◌, ◌++◌, ltb, all, arith}
use mathlib.Core.List.{append_assoc, append-nil}
use uml_class_designer_be.Uml.Multiplicity.{
  is_digit, is_number, decimal, split_dots, is_star, is_dots_star, ends_with_dots_star, is_many,
}

pub split_dots-digits :
    (current cs : List ℕ) → all is_digit cs ≡ true → split_dots current cs ≡ (current ++ cs) ∷ []
unfolding split_dots
split_dots-digits current [] h = rw append-nil
split_dots-digits current (c ∷ []) h = refl
split_dots-digits current (c ∷ d ∷ cs) h =
    ground (
      arith,
      split_dots-digits (current ++ c ∷ []) (d ∷ cs),
      append_assoc current (c ∷ []) (d ∷ cs),
    )

pub split_dots-range :
    (current cs ds : List ℕ)
    → all is_digit cs ≡ true
    → split_dots current (cs ++ b'.' ∷ b'.' ∷ ds) ≡ (current ++ cs) ∷ split_dots [] ds
unfolding split_dots
split_dots-range current [] ds h = rw append-nil
split_dots-range current (c ∷ []) ds h =
    ground (arith, split_dots-range (current ++ c ∷ []) [] ds, append-nil (current ++ c ∷ []))
split_dots-range current (c ∷ d ∷ cs) ds h = ground (
  arith,
  split_dots-range (current ++ c ∷ []) (d ∷ cs) ds,
  append_assoc current (c ∷ []) (d ∷ cs),
)

-- No digit is a star, so a text that ends in digits does not end in `..*`.
ends-digits : (cs : List ℕ) → all is_digit cs ≡ true → ends_with_dots_star cs ≡ false
unfolding ends_with_dots_star
ends-digits [] h = refl
ends-digits (a ∷ []) h = refl
ends-digits (a ∷ b ∷ []) h = refl
ends-digits (a ∷ b ∷ c ∷ []) h = ground arith
ends-digits (a ∷ b ∷ c ∷ d ∷ cs) h = ground (arith, ends-digits (b ∷ c ∷ d ∷ cs))

dots_star-digits :
    (x : ℕ) (xs ds : List ℕ) → is_number ds ≡ true → is_dots_star (x ∷ (xs ++ ds)) ≡ false
dots_star-digits x [] [] h = refl
dots_star-digits x [] (a ∷ []) h = refl
dots_star-digits x [] (a ∷ b ∷ []) h = ground arith
dots_star-digits x [] (a ∷ b ∷ c ∷ ds) h = refl
dots_star-digits x (y ∷ []) [] h = refl
dots_star-digits x (y ∷ []) (a ∷ []) h = ground arith
dots_star-digits x (y ∷ []) (a ∷ b ∷ ds) h = refl
dots_star-digits x (y ∷ z ∷ []) [] h = absurd (ground arith)
dots_star-digits x (y ∷ z ∷ []) (a ∷ ds) h = refl
dots_star-digits x (y ∷ z ∷ w ∷ xs) ds h = refl

ends-append_digits : (xs ds : List ℕ) → is_number ds ≡ true → ends_with_dots_star (xs ++ ds) ≡ false
unfolding ends_with_dots_star
ends-append_digits [] [] h = refl
ends-append_digits [] (d ∷ ds) h = ends-digits (d ∷ ds) h
ends-append_digits (x ∷ xs) ds h =
    ground (arith, dots_star-digits x xs ds h, ends-append_digits xs ds h)

ends-append_dots_star : (xs : List ℕ) → ends_with_dots_star (xs ++ b'.' ∷ b'.' ∷ b'*' ∷ []) ≡ true
unfolding ends_with_dots_star
ends-append_dots_star [] = refl
ends-append_dots_star (x ∷ xs) = ground (arith, ends-append_dots_star xs)

not_all_digits : (xs ys : List ℕ) → all is_digit (xs ++ b'.' ∷ ys) ≡ false
not_all_digits [] ys = refl
not_all_digits (x ∷ xs) ys = ground (arith, not_all_digits xs ys)

pub all_of_number : (cs : List ℕ) → is_number cs ≡ true → all is_digit cs ≡ true
all_of_number [] h = refl
all_of_number (c ∷ cs) h = h

many_number : (cs : List ℕ) → is_number cs ≡ true → is_many cs ≡ ltb 1 (decimal 0 cs)
unfolding is_many
many_number [] h = absurd (cc)
many_number (c ∷ []) h =
    ground (arith, ends-append_digits [] (c ∷ []) h, split_dots-digits [] (c ∷ []) h)
many_number (c ∷ d ∷ cs) h =
    ground (arith, ends-append_digits [] (c ∷ d ∷ cs) h, split_dots-digits [] (c ∷ d ∷ cs) h)

is_star_append : (c : ℕ) (cs ys : List ℕ) → is_star (c ∷ (cs ++ b'.' ∷ ys)) ≡ false
is_star_append c [] ys = refl
is_star_append c (d ∷ cs) ys = refl

many_range :
    (lower upper : List ℕ)
    → is_number lower ≡ true
    → is_number upper ≡ true
    → is_many (lower ++ b'.' ∷ b'.' ∷ upper) ≡ ltb 1 (decimal 0 upper)
unfolding is_many
many_range [] upper h k = absurd (cc)
many_range (c ∷ cs) upper h k = ground (
  arith,
  append_assoc (c ∷ cs) (b'.' ∷ b'.' ∷ []) upper,
  ends-append_digits ((c ∷ cs) ++ b'.' ∷ b'.' ∷ []) upper k,
  split_dots-range [] (c ∷ cs) upper h,
  split_dots-digits [] upper (all_of_number upper k),
  not_all_digits cs (b'.' ∷ upper),
  is_star_append c cs (b'.' ∷ upper),
)

-- On the forms that the schema allows beside `*`: a number is many if it is above 1, a range if
-- its upper end is, and a range without an upper end always.
pub is_many_forms :
    (lower upper : List ℕ)
    → is_number lower ≡ true
    → is_number upper ≡ true
    → (is_many upper ≡ ltb 1 (decimal 0 upper))
      × (is_many (lower ++ b'.' ∷ b'.' ∷ upper) ≡ ltb 1 (decimal 0 upper))
      × (is_many (lower ++ b'.' ∷ b'.' ∷ b'*' ∷ []) ≡ true)
unfolding is_many
is_many_forms lower upper h k =
    (many_number upper k, many_range lower upper h k, ground (arith, ends-append_dots_star lower))
