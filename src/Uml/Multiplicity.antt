-- ===== src/Uml/Multiplicity.antt =====
-- The multiplicity tests (`isManyMultiplicity` stands in uml-command.executor.ts and, with the
-- same body, in canonical-model.validation.ts), over the code points of the text. `BigInt` is
-- modelled on decimal digits, the only numerals that the schema's pattern lets through.
pub mod Laws
use Prim.Native.Char.{code}
use uml_class_designer_be.Common.{
  ℕ, ◌+◌, ◌-◌, ◌*◌, String, Bool, true, false, ◌&&◌, ◌||◌, Option, none, some, List, [], ◌∷◌, ◌++◌,
  leb, ltb, nat_eq, if◌then◌else◌, all,
}

abbrev pub codes : String → List ℕ
codes (String.◌∷◌ first rest) = code first ∷ codes rest
codes String.[] = []

abbrev pub is_digit : ℕ → Bool
is_digit c = leb b'0' c && leb c b'9'

-- `/^\d+$/`
abbrev pub is_number : List ℕ → Bool
is_number [] = false
is_number (c ∷ cs) = is_digit c && all is_digit cs

unfoldable pub decimal : ℕ → List ℕ → ℕ
decimal acc [] = acc
decimal acc (c ∷ cs) = decimal (acc * 10 + (c - 48)) cs

-- `BigInt(s)`; none where it throws
unfoldable pub big_int : List ℕ → Option ℕ
big_int cs = if all is_digit cs then some (decimal 0 cs) else none

-- `split('..')`, after the text `current`
unfoldable pub split_dots : List ℕ → List ℕ → List (List ℕ)
split_dots current [] = current ∷ []
split_dots current (c ∷ []) = (current ++ c ∷ []) ∷ []
split_dots current (c ∷ d ∷ cs) = elim (nat_eq c b'.' && nat_eq d b'.') [
  | true ↦ current ∷ split_dots [] cs
  | false ↦ split_dots (current ++ c ∷ []) (d ∷ cs)
]

abbrev pub is_star : List ℕ → Bool
is_star (c ∷ []) = nat_eq c b'*'
is_star _ = false

-- the text is `..*`
abbrev pub is_dots_star : List ℕ → Bool
is_dots_star (a ∷ b ∷ c ∷ []) = nat_eq a b'.' && nat_eq b b'.' && nat_eq c b'*'
is_dots_star _ = false

-- `endsWith('..*')`
unfoldable pub ends_with_dots_star : List ℕ → Bool
ends_with_dots_star [] = false
ends_with_dots_star (c ∷ cs) = is_dots_star (c ∷ cs) || ends_with_dots_star cs

-- `/^\d+\.\.\d+$/`, and the part behind the dots is above 1
abbrev pub is_wide_range : List (List ℕ) → Bool
is_wide_range (lower ∷ upper ∷ []) = is_number lower && is_number upper && ltb 1 (decimal 0 upper)
is_wide_range _ = false

unfoldable pub is_many : List ℕ → Bool
is_many cs =
    is_star cs
    || ends_with_dots_star cs
    || (is_number cs && ltb 1 (decimal 0 cs))
    || is_wide_range (split_dots [] cs)

unfoldable pub is_many_multiplicity : String → Bool
is_many_multiplicity value = is_many (codes value)
