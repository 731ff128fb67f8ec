-- ===== src/Uml/Validation/Characters.antt =====
-- canonical-model.validation.ts: `assertXml10SafeStrings` and `containsInvalidXml10Character`. The
-- path of the whole value is empty, which the source prints as `/`.
pub mod Laws
use uml_class_designer_be.Common.{
  ℕ, suc, String, Bool, true, false, not, ◌&&◌, ◌||◌, List, [], ◌∷◌, ◌++◌, leb, nat_eq, any,
}
use uml_class_designer_be.Uml.Json.{
  Json, Items, Entries, null, bool, number, string, array, object, end_of_array, item,
  end_of_object, entry,
}
use uml_class_designer_be.Uml.Multiplicity.{codes}
use uml_class_designer_be.Uml.Validation.Outcome.{
  IssuePath, PathStep, key, index, Outcome, returned, ◌>>=◌, ◌>>◌, refuse_if,
}

unfoldable pub is_invalid_code_point : ℕ → Bool
is_invalid_code_point c =
    not (nat_eq c 0x9)
    && not (nat_eq c 0xa)
    && not (nat_eq c 0xd)
    && not (
        (leb 0x20 c && leb c 0xd7ff)
        || (leb 0xe000 c && leb c 0xfffd)
        || (leb 0x10000 c && leb c 0x10ffff))

unfoldable pub contains_invalid_xml10_character : String → Bool
contains_invalid_xml10_character value = any is_invalid_code_point (codes value)

unfoldable mutual
  pub assert_xml10_safe_strings : Json → IssuePath → Outcome (Unit {0})
  assert_xml10_safe_strings null path = returned tt
  assert_xml10_safe_strings (bool b) path = returned tt
  assert_xml10_safe_strings number path = returned tt
  assert_xml10_safe_strings (string s) path =
      refuse_if (contains_invalid_xml10_character s) path
        "contains characters that are invalid in XML 1.0."
  assert_xml10_safe_strings (array items) path = assert_safe_items items 0 path
  assert_xml10_safe_strings (object entries) path = assert_safe_entries entries path

  -- the loop over an array, from an index
  pub assert_safe_items : Items → ℕ → IssuePath → Outcome (Unit {0})
  assert_safe_items end_of_array i path = returned tt
  assert_safe_items (item v items) i path = do
    _ ← assert_xml10_safe_strings v (path ++ index i ∷ [])
    assert_safe_items items (suc i) path

  -- the loop over the entries of an object
  pub assert_safe_entries : Entries → IssuePath → Outcome (Unit {0})
  assert_safe_entries end_of_object path = returned tt
  assert_safe_entries (entry k v entries) path = do
    _ ← assert_xml10_safe_strings v (path ++ key k ∷ [])
    assert_safe_entries entries path
