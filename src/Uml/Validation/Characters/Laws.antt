-- ===== src/Uml/Validation/Characters/Laws.antt =====
-- canonical-model.validation.ts: what `assertXml10SafeStrings` reports.
use uml_class_designer_be.Common.{
  ℕ, suc, String, true, false, ◌≡◌, refl, ap, ◌⊎◌, inl, inr, List, [], ◌∷◌, ◌++◌, arith, Bool-cases,
  any, All, ◌↔◌, ◌≤◌,
}
use uml_class_designer_be.Uml.Multiplicity.{codes}
use uml_class_designer_be.Uml.Json.{
  Json, Items, Entries, null, bool, number, string, array, object, end_of_array, item,
  end_of_object, entry,
}
use uml_class_designer_be.Uml.Validation.Outcome.{
  IssuePath, PathStep, key, index, Failure, semantic, Outcome, returned, thrown, ◌>>◌,
}
use uml_class_designer_be.Uml.Validation.Characters.{
  is_invalid_code_point, contains_invalid_xml10_character, assert_xml10_safe_strings,
  assert_safe_items, assert_safe_entries,
}

-- `Char` of the XML 1.0 grammar, production 2.
abbrev pub IsXmlChar : ℕ → Type 0
IsXmlChar c =
    (c ≡ 9)
    ⊎ ((c ≡ 10)
        ⊎ ((c ≡ 13)
            ⊎ (((32 ≤ c) × (c ≤ 55295))
                ⊎ (((57344 ≤ c) × (c ≤ 65533)) ⊎ ((65536 ≤ c) × (c ≤ 1114111))))))

valid_code : (c : ℕ) → (is_invalid_code_point c ≡ false) ↔ IsXmlChar c
unfolding is_invalid_code_point
valid_code c = ground arith

valid_codes : (cs : List ℕ) → (any is_invalid_code_point cs ≡ false) ↔ All IsXmlChar cs
valid_codes [] = (λ h. tt, λ h. refl)
valid_codes (c ∷ cs) = (
  λ h. ((valid_code c).0 (ground arith), (valid_codes cs).0 (ground arith)),
  λ h. ground (arith, (valid_code c).1 h.0, (valid_codes cs).1 h.1),
)

-- The strings of a value, with their paths.
mutual
  pub data At : Json → IssuePath → String → Type 0 where
    here : (s : String) → At (string s) [] s
    in_array :
        (items : Items) (p : IssuePath) (s : String) → InItems items 0 p s → At (array items) p s
    in_object :
        (entries : Entries) (p : IssuePath) (s : String)
        → InEntries entries p s
        → At (object entries) p s

  pub data InItems : Items → ℕ → IssuePath → String → Type 0 where
    in_first :
        (v : Json) (items : Items) (i : ℕ) (p : IssuePath) (s : String)
        → At v p s
        → InItems (item v items) i (index i ∷ p) s
    in_rest :
        (v : Json) (items : Items) (i : ℕ) (p : IssuePath) (s : String)
        → InItems items (suc i) p s
        → InItems (item v items) i p s

  pub data InEntries : Entries → IssuePath → String → Type 0 where
    in_value :
        (k : String) (v : Json) (entries : Entries) (p : IssuePath) (s : String)
        → At v p s
        → InEntries (entry k v entries) (key k ∷ p) s
    in_others :
        (k : String) (v : Json) (entries : Entries) (p : IssuePath) (s : String)
        → InEntries entries p s
        → InEntries (entry k v entries) p s

-- The issue that a bad string raises.
abbrev pub invalid_at : IssuePath → Failure
invalid_at path = semantic path "contains characters that are invalid in XML 1.0."

abbrev pub AllGood : (IssuePath → String → Type 0) → Type 0
AllGood P = (p : IssuePath) (s : String) → P p s → contains_invalid_xml10_character s ≡ false

-- An outcome that tells the strings apart: all are good, or the issue is of one that is not.
abbrev pub Tells : (IssuePath → String → Type 0) → IssuePath → Outcome (Unit {0}) → Type 0
Tells P path o =
    ((o ≡ returned tt) × AllGood P)
    ⊎ ((p : IssuePath) × (s : String) × P p s
        × (contains_invalid_xml10_character s ≡ true)
        × (o ≡ thrown (invalid_at (path ++ p))))

append_step : (path p : IssuePath) (x : PathStep) → ((path ++ x ∷ []) ++ p) ≡ (path ++ x ∷ p)
append_step [] p x = refl
append_step (y ∷ path) p x = ap (λ q. y ∷ q) (append_step path p x)

append_nothing : (path : IssuePath) → (path ++ []) ≡ path
append_nothing [] = refl
append_nothing (y ∷ path) = ap (λ q. y ∷ q) (append_nothing path)

-- A value under a step, and then the rest.
both :
    (P Q R : IssuePath → String → Type 0) (path : IssuePath) (x : PathStep)
    (m n : Outcome (Unit {0}))
    → Tells P (path ++ x ∷ []) m
    → Tells Q path n
    → ((p : IssuePath) (s : String) → P p s → R (x ∷ p) s)
    → ((p : IssuePath) (s : String) → Q p s → R p s)
    → (AllGood P → AllGood Q → AllGood R)
    → Tells R path (m >> n)
both P Q R path x m n (inl (e, h)) (inl (f, k)) in_m in_n all_good =
    inl (rw (e, f) refl, all_good h k)
both P Q R path x m n (inl (e, h)) (inr (p, s, q, bad, f)) in_m in_n all_good =
    inr (p, s, in_n p s q, bad, rw (e, f) refl)
both P Q R path x m n (inr (p, s, q, bad, e)) rest in_m in_n all_good =
    inr (x ∷ p, s, in_m p s q, bad, rw (e, append_step path p x) refl)

only_string :
    (t : String) (p : IssuePath) (s : String)
    → contains_invalid_xml10_character t ≡ false
    → At (string t) p s
    → contains_invalid_xml10_character s ≡ false
only_string t p s good (here _) = good

items_good :
    (v : Json) (items : Items) (i : ℕ)
    → AllGood (At v)
    → AllGood (InItems items (suc i))
    → AllGood (InItems (item v items) i)
items_good v items i h k p s (in_first _ _ _ q _ m) = h q s m
items_good v items i h k p s (in_rest _ _ _ _ _ m) = k p s m

entries_good :
    (k : String) (v : Json) (entries : Entries)
    → AllGood (At v)
    → AllGood (InEntries entries)
    → AllGood (InEntries (entry k v entries))
entries_good k v entries h g p s (in_value _ _ _ q _ m) = h q s m
entries_good k v entries h g p s (in_others _ _ _ _ _ m) = g p s m

mutual
  unfolding assert_xml10_safe_strings

  Tells-json : (v : Json) (path : IssuePath) → Tells (At v) path (assert_xml10_safe_strings v path)
  Tells-json null path = inl (refl, λ p s m. elim m [ ])
  Tells-json (bool b) path = inl (refl, λ p s m. elim m [ ])
  Tells-json number path = inl (refl, λ p s m. elim m [ ])
  Tells-json (string t) path = elim (Bool-cases (contains_invalid_xml10_character t)) [
    | inl bad ↦ inr ([], t, here t, bad, rw (bad, append_nothing path) refl)
    | inr good ↦ inl (rw good refl, λ p s m. only_string t p s good m)
  ]
  Tells-json (array items) path = elim (Tells-items items 0 path) [
    | inl (e, h) ↦ inl (e, λ p s m. elim m [ in_array _ _ _ n ↦ h p s n ])
    | inr (p, s, m, bad, e) ↦ inr (p, s, in_array items p s m, bad, e)
  ]
  Tells-json (object entries) path = elim (Tells-entries entries path) [
    | inl (e, h) ↦ inl (e, λ p s m. elim m [ in_object _ _ _ n ↦ h p s n ])
    | inr (p, s, m, bad, e) ↦ inr (p, s, in_object entries p s m, bad, e)
  ]

  Tells-items :
      (items : Items) (i : ℕ) (path : IssuePath)
      → Tells (InItems items i) path (assert_safe_items items i path)
  Tells-items end_of_array i path = inl (refl, λ p s m. elim m [ ])
  Tells-items (item v items) i path =
      both (At v) (InItems items (suc i)) (InItems (item v items) i) path (index i)
        (assert_xml10_safe_strings v (path ++ index i ∷ [])) (assert_safe_items items (suc i) path)
        (Tells-json v (path ++ index i ∷ [])) (Tells-items items (suc i) path)
        (λ p s m. in_first v items i p s m) (λ p s m. in_rest v items i p s m)
        (items_good v items i)

  Tells-entries :
      (entries : Entries) (path : IssuePath)
      → Tells (InEntries entries) path (assert_safe_entries entries path)
  Tells-entries end_of_object path = inl (refl, λ p s m. elim m [ ])
  Tells-entries (entry k v entries) path =
      both (At v) (InEntries entries) (InEntries (entry k v entries)) path (key k)
        (assert_xml10_safe_strings v (path ++ key k ∷ [])) (assert_safe_entries entries path)
        (Tells-json v (path ++ key k ∷ [])) (Tells-entries entries path)
        (λ p s m. in_value k v entries p s m) (λ p s m. in_others k v entries p s m)
        (entries_good k v entries)

-- For every value: either it passes and each string in it, keys aside, is free of characters that
-- are invalid in XML 1.0, or the error names the path of a string in it that has one.
pub assert_xml10_safe_strings-Tells : (v : Json) → Tells (At v) [] (assert_xml10_safe_strings v [])
assert_xml10_safe_strings-Tells v = Tells-json v []

-- Every code point of every string is a `Char` of XML 1.0.
abbrev pub IsXmlSafe : (IssuePath → String → Type 0) → Type 0
IsXmlSafe P = (p : IssuePath) (s : String) → P p s → All IsXmlChar (codes s)

pub AllGood-IsXmlSafe : (P : IssuePath → String → Type 0) → AllGood P → IsXmlSafe P
unfolding contains_invalid_xml10_character
AllGood-IsXmlSafe P good p s m = (valid_codes (codes s)).0 (good p s m)
