-- ===== src/Auth/Tokens/Digits.antt =====
-- auth.service.ts: the decimal digits that a number is printed as, and read from.
use Prim.Native.Char.{Char, code}
use uml_class_designer_be.Common.{
  ℕ, zero, suc, ◌+◌, ◌*◌, ◌/◌, ◌%◌, ◌≤◌, ◌<◌, String, true, false, ◌&&◌, ◌≡◌, refl, inl, inr, ◌∙◌,
  ap, List, [], ◌∷◌, all, leb, ltb, arith, Bool-cases,
}
use uml_class_designer_be.Uml.Multiplicity.{codes, decimal, is_digit}
use uml_class_designer_be.Auth.Tokens.{
  digit, digits_before, decimal_text, utf16_length, is_sequence,
}

pub code-digit : (d : ℕ) → d < 10 → code (digit d) ≡ 48 + d
unfolding digit
code-digit zero h = refl
code-digit (suc zero) h = refl
code-digit (suc (suc zero)) h = refl
code-digit (suc (suc (suc zero))) h = refl
code-digit (suc (suc (suc (suc zero)))) h = refl
code-digit (suc (suc (suc (suc (suc zero))))) h = refl
code-digit (suc (suc (suc (suc (suc (suc zero)))))) h = refl
code-digit (suc (suc (suc (suc (suc (suc (suc zero))))))) h = refl
code-digit (suc (suc (suc (suc (suc (suc (suc (suc zero)))))))) h = refl
code-digit (suc (suc (suc (suc (suc (suc (suc (suc (suc zero))))))))) h = refl
code-digit (suc (suc (suc (suc (suc (suc (suc (suc (suc (suc n)))))))))) h = absurd (omega arith)

-- The value of the digits of `n`, and of what follows them.
pub decimal-digits_before :
    (fuel n : ℕ) (text : String)
    → n < fuel
    → decimal 0 (codes (digits_before fuel n text)) ≡ decimal n (codes text)
unfolding digits_before decimal
decimal-digits_before zero n text h = absurd (omega arith)
decimal-digits_before (suc fuel) n text h = elim (Bool-cases (ltb n 10)) [
  | inl last ↦
      rw last (ap (λ (k : ℕ). decimal k (codes text)) (omega (arith, code-digit n (ground arith))))
  | inr more ↦ rw more (
      decimal-digits_before fuel (n / 10) (String.◌∷◌ (digit (n % 10)) text) (ground arith)
      ∙ ap (λ (k : ℕ). decimal k (codes text)) (omega (arith, code-digit (n % 10) (omega arith))))
]

is_digit-code : (d : ℕ) → d < 10 → is_digit (code (digit d)) ≡ true
is_digit-code d h = ground (arith, code-digit d h)

all_digits-digits_before :
    (fuel n : ℕ) (text : String)
    → all is_digit (codes text) ≡ true
    → all is_digit (codes (digits_before fuel n text)) ≡ true
unfolding digits_before
all_digits-digits_before zero n text h = h
all_digits-digits_before (suc fuel) n text h = elim (Bool-cases (ltb n 10)) [
  | inl last ↦ rw (last, is_digit-code n (ground arith)) h
  | inr more ↦ rw more (
      all_digits-digits_before fuel (n / 10) (String.◌∷◌ (digit (n % 10)) text)
        (rw (is_digit-code (n % 10) (omega arith)) h))
]

positive_sequence :
    (c : ℕ) (cs : List ℕ)
    → (leb b'1' c && leb c b'9') ≡ true
    → all is_digit cs ≡ true
    → is_sequence (c ∷ cs) ≡ true
positive_sequence c [] h k = ground arith
positive_sequence c (d ∷ ds) h k = ground arith

-- No number but zero has a leading zero.
is_sequence-digits_before :
    (fuel n : ℕ) (text : String)
    → n < fuel
    → 0 < n
    → all is_digit (codes text) ≡ true
    → is_sequence (codes (digits_before fuel n text)) ≡ true
unfolding digits_before
is_sequence-digits_before zero n text h pos k = absurd (omega arith)
is_sequence-digits_before (suc fuel) n text h pos k = elim (Bool-cases (ltb n 10)) [
  | inl last ↦
      rw last (positive_sequence (code (digit n)) (codes text) (ground (arith, code-digit n)) k)
  | inr more ↦ rw more (
      is_sequence-digits_before fuel (n / 10) (String.◌∷◌ (digit (n % 10)) text) (ground arith)
        (ground arith) (rw (is_digit-code (n % 10) (omega arith)) k))
]

pub is_sequence-decimal_text : (n : ℕ) → is_sequence (codes (decimal_text n)) ≡ true
unfolding decimal_text digits_before digit
is_sequence-decimal_text zero = refl
is_sequence-decimal_text (suc n) =
    is_sequence-digits_before (suc (suc n)) (suc n) String.[] (omega arith) (omega arith) refl

pub decimal-decimal_text : (n : ℕ) → decimal 0 (codes (decimal_text n)) ≡ n
unfolding decimal_text decimal
decimal-decimal_text n = decimal-digits_before (suc n) n String.[] (omega arith)

abbrev pub power_of_ten : ℕ → ℕ
power_of_ten zero = 1
power_of_ten (suc k) = 10 * power_of_ten k

pub utf16_length-small :
    (c : Char) (text : String)
    → code c < 0x10000
    → utf16_length (String.◌∷◌ c text) ≡ suc (utf16_length text)
unfolding utf16_length
utf16_length-small c text h = ground arith

ltb_below : (n : ℕ) → n < 10 → ltb n 10 ≡ true
ltb_below n h = ground arith

ltb_at_least : (n : ℕ) → ltb n 10 ≡ false → 10 ≤ n
ltb_at_least n h = ground arith

-- A number of at most k + 1 digits is printed with no more.
length-digits_before :
    (k fuel n : ℕ) (text : String)
    → n < fuel
    → n < power_of_ten (suc k)
    → utf16_length (digits_before fuel n text) ≤ suc k + utf16_length text
unfolding digits_before
length-digits_before k zero n text h small = absurd (omega arith)
length-digits_before zero (suc fuel) n text h small =
    rw (ltb_below n (omega arith), utf16_length-small (digit n) text (omega (arith, code-digit n)))
      (omega arith)
length-digits_before (suc k) (suc fuel) n text h small = elim (Bool-cases (ltb n 10)) [
  | inl last ↦
      rw (last, utf16_length-small (digit n) text (ground (arith, code-digit n))) (omega arith)
  | inr more ↦ rw more (
      omega (
        arith,
        length-digits_before k fuel (n / 10) (String.◌∷◌ (digit (n % 10)) text),
        utf16_length-small (digit (n % 10)) text,
        code-digit (n % 10),
        ltb_at_least n more,
      ))
]

length_of_nil : utf16_length String.[] ≡ 0
unfolding utf16_length
length_of_nil = refl

pub length-decimal_text : (n : ℕ) → n < power_of_ten 16 → utf16_length (decimal_text n) ≤ 16
unfolding decimal_text
length-decimal_text n small =
    omega (arith, length-digits_before 15 (suc n) n String.[], length_of_nil)

pub digits-decimal_text : (n : ℕ) → all is_digit (codes (decimal_text n)) ≡ true
unfolding decimal_text
digits-decimal_text n = all_digits-digits_before (suc n) n String.[] refl
