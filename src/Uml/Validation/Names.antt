-- ===== src/Uml/Validation/Names.antt =====
-- canonical-model.validation.ts: `registerId`, `assertUniqueNames` and `assertNonBlankName`. A set
-- that the source closes over is an argument, and the result where it changes. The locale tables
-- of `toLocaleLowerCase('es')` are a parameter.
use Prim.Native.Char.{code}
use Prim.Native.String.{◌++◌ as str_append}
use uml_class_designer_be.Common.{
  ℕ, String, Bool, true, false, ◌&&◌, ◌||◌, List, [], ◌∷◌, contains, add, leb, nat_eq,
  if◌then◌else◌,
}
use uml_class_designer_be.Uml.Validation.Outcome.{IssuePath, Outcome, returned, ◌>>=◌, refuse_if}

-- The white space and line terminators of ECMAScript.
abbrev pub is_white : ℕ → Bool
is_white c =
    (leb 9 c && leb c 13)
    || nat_eq c 32
    || nat_eq c 160
    || nat_eq c 5760
    || (leb 8192 c && leb c 8202)
    || nat_eq c 8232
    || nat_eq c 8233
    || nat_eq c 8239
    || nat_eq c 8287
    || nat_eq c 12288
    || nat_eq c 65279

abbrev pub trim_start : String → String
trim_start String.[] = String.[]
trim_start (String.◌∷◌ c s) = if is_white (code c) then trim_start s else String.◌∷◌ c s

abbrev pub trim_end : String → String
trim_end String.[] = String.[]
trim_end (String.◌∷◌ c s) = elim (trim_end s) [
  | String.[] ↦ if is_white (code c) then String.[] else String.◌∷◌ c String.[]
  | String.◌∷◌ d t ↦ String.◌∷◌ c (String.◌∷◌ d t)
]

abbrev pub trim : String → String
trim s = trim_start (trim_end s)

abbrev pub is_empty : String → Bool
is_empty String.[] = true
is_empty (String.◌∷◌ c s) = false

unfoldable pub register_id : String → IssuePath → List String → Outcome (List String)
register_id id path ids = do
  _ ← refuse_if (contains id ids) path (str_append "duplicates the identifier " (str_append id "."))
  returned (add id ids)

unfoldable pub assert_non_blank_name : String → IssuePath → Outcome (Unit {0})
assert_non_blank_name value path = refuse_if (is_empty (trim value)) path "must not be blank."

module _ (lower_case : String → String) where
  abbrev pub normalized_name : String → String
  normalized_name value = lower_case (trim value)

  -- The loop, with the names met so far.
  unfoldable pub assert_unique_names_from :
      List String → List String → IssuePath → Outcome (Unit {0})
  assert_unique_names_from names [] path = returned tt
  assert_unique_names_from names (value ∷ values) path = do
    _ ←
        refuse_if (contains (normalized_name value) names) path
          (str_append "contains the duplicate name " (str_append value "."))
    assert_unique_names_from (add (normalized_name value) names) values path

  unfoldable pub assert_unique_names : List String → IssuePath → Outcome (Unit {0})
  assert_unique_names values path = assert_unique_names_from [] values path
