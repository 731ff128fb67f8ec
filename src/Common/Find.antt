-- ===== src/Common/Find.antt =====
-- The first item that passes a test.
use Prim.Native.String.{String}
use mathlib.Core.Path.{◌≡◌, refl}
use mathlib.Core.Logic.{inl, inr}
use mathlib.Core.Bool.{Bool, true, false}
use mathlib.Core.Option.{Option, none, some}
use mathlib.Core.List.{List, [], ◌∷◌, ◌++◌, map, Memᴰ}
use native.Mathlib.Omega.{arith}
use text.Mathlib.TextEquality.{eq_iff}
use package.uml_class_designer_be.Common.Tests.{◌==◌, Bool-cases}
use package.uml_class_designer_be.Common.Lists.{find, filter, length, IsDistinct, any}
use package.uml_class_designer_be.Common.Keyed.{contains-map_of_Memᴰ}

-- `Option.map` by the first argument
abbrev pub on_some {ℓ κ} : {A : Type ℓ} {B : Type κ} → (A → B) → Option A → Option B
on_some f none = none
on_some f (some a) = some (f a)

module _ {ℓ} {A : Type ℓ} where
  pub find-some :
      (p : A → Bool) (xs : List A) {x : A} → find p xs ≡ some x → Memᴰ x xs × (p x ≡ true)
  find-some p [] h = absurd (cc)
  find-some p (y ∷ xs) {x = x} h = elim (Bool-cases (p y)) [
    | inl hit ↦ (Memᴰ.head (ground arith), ground arith)
    | inr miss ↦ let (m, e) = find-some p xs {x = x} (ground arith) in (Memᴰ.tail m, e)
  ]

  pub find-append_new :
      (p : A → Bool) (xs : List A) (x : A)
      → any p xs ≡ false
      → p x ≡ true
      → find p (xs ++ x ∷ []) ≡ some x
  find-append_new p [] x h e = ground arith
  find-append_new p (y ∷ xs) x h e = ground (arith, find-append_new p xs x)

  pub find-append_other :
      (p : A → Bool) (xs : List A) (x : A) → p x ≡ false → find p (xs ++ x ∷ []) ≡ find p xs
  find-append_other p [] x e = ground arith
  find-append_other p (y ∷ xs) x e = ground (arith, find-append_other p xs x e)

  pub find-any : (p : A → Bool) (xs : List A) → any p xs ≡ false → find p xs ≡ none
  find-any p [] h = refl
  find-any p (x ∷ xs) h = ground (arith, find-any p xs)

  pub filter-one :
      (p : A → Bool) (xs : List A) → length (filter p xs) ≡ 1 → (x : A) × Memᴰ x xs × (p x ≡ true)
  filter-one p [] h = absurd (omega (arith, h))
  filter-one p (x ∷ xs) h = elim (Bool-cases (p x)) [
    | inl hit ↦ (x, Memᴰ.head refl, hit)
    | inr miss ↦ let (y, m, e) = filter-one p xs (ground arith) in (y, Memᴰ.tail m, e)
  ]

  module _ (key : A → String) where
    pub find-map_same :
        (s : String) (f : A → A) (xs : List A)
        → ((x : A) → key (f x) ≡ key x)
        → find (λ x. key x == s) (map f xs) ≡ on_some f (find (λ x. key x == s) xs)
    find-map_same s f [] same = refl
    find-map_same s f (x ∷ xs) same = ground (arith, same x, find-map_same s f xs same)

    -- Where the keys are distinct, an item is the first that has its key.
    pub find_of_Memᴰ :
        (xs : List A) (x : A)
        → IsDistinct (map key xs)
        → Memᴰ x xs
        → find (λ y. key y == key x) xs ≡ some x
    find_of_Memᴰ [] x d m = elim m [ ]
    find_of_Memᴰ (y ∷ xs) x d (Memᴰ.head e) = ground (arith, e, eq_iff (key y) (key x))
    find_of_Memᴰ (y ∷ xs) x d (Memᴰ.tail m) = ground (
      arith,
      d.0,
      eq_iff (key y) (key x),
      contains-map_of_Memᴰ key xs x m,
      find_of_Memᴰ xs x d.1 m,
    )
