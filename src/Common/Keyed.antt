-- ===== src/Common/Keyed.antt =====
-- Lists of items that are told apart by a key.
use Prim.Native.Nat.{ℕ, zero, suc}
use Prim.Native.String.{String}
use mathlib.Core.Path.{◌≡◌, refl, sym, ◌∙◌}
use mathlib.Core.Logic.{◌≢◌, inl, inr}
use mathlib.Core.Bool.{Bool, true, false, ◌&&◌, ◌||◌}
use mathlib.Core.Option.{none, some}
use mathlib.Core.List.{List, [], ◌∷◌, ◌++◌, map, Memᴰ}
use native.Mathlib.Omega.{arith}
use text.Mathlib.TextEquality.{eq_iff}
use package.uml_class_designer_be.Common.Tests.{◌==◌, ==-cases, Option-cases}
use package.uml_class_designer_be.Common.Lists.{
  get_elem?, set, remove_at, find, find_index, filter, contains, IsDistinct, All, any,
}

pub All-set {ℓ κ} :
    {A : Type ℓ} (P : A → Type κ) (xs : List A) (i : ℕ) (v : A)
    → All P xs
    → P v
    → All P (set xs i v)
All-set P [] i v h p = tt
All-set P (x ∷ xs) zero v h p = (p, h.1)
All-set P (x ∷ xs) (suc i) v h p = (h.0, All-set P xs i v h.1 p)

module _ {ℓ} {A : Type ℓ} (key : A → String) where
  pub contains-map-filter :
      (s : String) (p : String → Bool) (xs : List A)
      → contains s (map key (filter (λ x. p (key x)) xs)) ≡ (p s && contains s (map key xs))
  contains-map-filter s p [] = ground arith
  contains-map-filter s p (x ∷ xs) = ground (arith, contains-map-filter s p xs, eq_iff (key x) s)

  pub IsDistinct-map-filter :
      (p : String → Bool) (xs : List A)
      → IsDistinct (map key xs)
      → IsDistinct (map key (filter (λ x. p (key x)) xs))
  IsDistinct-map-filter p [] d = tt
  IsDistinct-map-filter p (x ∷ xs) d =
      ground (arith, contains-map-filter (key x) p xs, IsDistinct-map-filter p xs d.1)

  -- The item at an index that was found by its key.
  pub get_elem?-find_index :
      (s : String) (xs : List A) (i : ℕ)
      → find_index (λ x. key x == s) xs ≡ some i
      → (x : A) × (get_elem? xs i ≡ some x) × (key x ≡ s)
  get_elem?-find_index s [] i h = cc
  get_elem?-find_index s (x ∷ xs) i h = elim (==-cases (key x) s) [
    | inl hit ↦ (x, ground arith, hit.1)
    | inr miss ↦ elim (Option-cases (find_index (λ y. key y == s) xs)) [
      | inl e ↦ absurd (ground arith)
      | inr (j, e) ↦ let (y, there, same) = get_elem?-find_index s xs j e in (y, ground arith, same)
    ]
  ]

  pub find_index-none_iff :
      (s : String) (xs : List A)
      → contains s (map key xs) ≡ false
      → find_index (λ x. key x == s) xs ≡ none
  find_index-none_iff s [] h = refl
  find_index-none_iff s (x ∷ xs) h = ground (arith, find_index-none_iff s xs)

  pub map-set_same :
      (xs : List A) (i : ℕ) (v w : A)
      → get_elem? xs i ≡ some w
      → key v ≡ key w
      → map key (set xs i v) ≡ map key xs
  map-set_same [] i v w h e = refl
  map-set_same (x ∷ xs) zero v w h e = ground arith
  map-set_same (x ∷ xs) (suc i) v w h e = ground (arith, map-set_same xs i v w h e)

  pub find-append_ne :
      (s : String) (xs : List A) (v : A)
      → key v ≢ s
      → find (λ x. key x == s) (xs ++ v ∷ []) ≡ find (λ x. key x == s) xs
  find-append_ne s [] v h = ground (arith, eq_iff (key v) s)
  find-append_ne s (x ∷ xs) v h = ground (arith, find-append_ne s xs v h)

  pub find-set_ne :
      (s t : String) (xs : List A) (i : ℕ) (v : A)
      → find_index (λ x. key x == s) xs ≡ some i
      → key v ≡ s
      → s ≢ t
      → find (λ x. key x == t) (set xs i v) ≡ find (λ x. key x == t) xs
  find-set_ne s t [] i v h e n = refl
  find-set_ne s t (x ∷ xs) i v h e n = elim (==-cases (key x) s) [
    | inl hit ↦ ground (arith, eq_iff (key x) t, eq_iff (key v) t)
    | inr miss ↦ elim (Option-cases (find_index (λ y. key y == s) xs)) [
      | inl f ↦ absurd (ground arith)
      | inr (j, f) ↦ ground (arith, find-set_ne s t xs j v f e n)
    ]
  ]

  pub find-none :
      (s : String) (xs : List A)
      → contains s (map key xs) ≡ false
      → find (λ x. key x == s) xs ≡ none
  find-none s [] h = refl
  find-none s (x ∷ xs) h = ground (arith, find-none s xs)

  pub find-map_fixed :
      (s : String) (f : A → A) (xs : List A)
      → ((x : A) → key (f x) ≡ key x)
      → All (λ x. key x ≡ s → f x ≡ x) xs
      → find (λ x. key x == s) (map f xs) ≡ find (λ x. key x == s) xs
  find-map_fixed s f [] same h = refl
  find-map_fixed s f (x ∷ xs) same h =
      ground (arith, same x, h.0, eq_iff (key x) s, find-map_fixed s f xs same h.1)

  pub contains-map-map-filter :
      (s : String) (f : A → A) (p : A → Bool) (xs : List A)
      → ((x : A) → key (f x) ≡ key x)
      → contains s (map key xs) ≡ false
      → contains s (map key (map f (filter p xs))) ≡ false
  contains-map-map-filter s f p [] same h = refl
  contains-map-map-filter s f p (x ∷ xs) same h =
      ground (arith, same x, contains-map-map-filter s f p xs same)

  pub contains-map_of_any :
      (s : String) (xs : List A) → any (λ x. key x == s) xs ≡ contains s (map key xs)
  contains-map_of_any s [] = refl
  contains-map_of_any s (x ∷ xs) = ground (arith, contains-map_of_any s xs)

  pub contains-map-append_one :
      (s : String) (xs : List A) (v : A)
      → contains s (map key (xs ++ v ∷ [])) ≡ (contains s (map key xs) || key v == s)
  contains-map-append_one s [] v = ground arith
  contains-map-append_one s (x ∷ xs) v = ground (arith, contains-map-append_one s xs v)

  pub IsDistinct-map-append_one :
      (xs : List A) (v : A)
      → IsDistinct (map key xs)
      → contains (key v) (map key xs) ≡ false
      → IsDistinct (map key (xs ++ v ∷ []))
  IsDistinct-map-append_one [] v d h = (refl, tt)
  IsDistinct-map-append_one (x ∷ xs) v d h = (
    ground (
      arith,
      contains-map-append_one (key x) xs v,
      eq_iff (key x) (key v),
      eq_iff (key v) (key x),
    ),
    IsDistinct-map-append_one xs v d.1 (ground arith),
  )

  pub contains-map-remove_at :
      (s : String) (xs : List A) (i : ℕ)
      → contains s (map key xs) ≡ false
      → contains s (map key (remove_at xs i)) ≡ false
  contains-map-remove_at s [] i h = refl
  contains-map-remove_at s (x ∷ xs) zero h = ground arith
  contains-map-remove_at s (x ∷ xs) (suc i) h = ground (arith, contains-map-remove_at s xs i)

  pub IsDistinct-map-remove_at :
      (xs : List A) (i : ℕ) → IsDistinct (map key xs) → IsDistinct (map key (remove_at xs i))
  IsDistinct-map-remove_at [] i d = tt
  IsDistinct-map-remove_at (x ∷ xs) zero d = d.1
  IsDistinct-map-remove_at (x ∷ xs) (suc i) d =
      (contains-map-remove_at (key x) xs i d.0, IsDistinct-map-remove_at xs i d.1)

  pub map-map_same :
      (f : A → A) (xs : List A) → ((x : A) → key (f x) ≡ key x) → map key (map f xs) ≡ map key xs
  map-map_same f [] same = refl
  map-map_same f (x ∷ xs) same = ground (arith, same x, map-map_same f xs same)

  pub contains-map_of_Memᴰ :
      (xs : List A) (x : A) → Memᴰ x xs → contains (key x) (map key xs) ≡ true
  contains-map_of_Memᴰ [] x m = elim m [ ]
  contains-map_of_Memᴰ (y ∷ xs) x (Memᴰ.head e) = ground (arith, e, eq_iff (key y) (key x))
  contains-map_of_Memᴰ (y ∷ xs) x (Memᴰ.tail m) = ground (arith, contains-map_of_Memᴰ xs x m)

  -- Distinct keys tell the items apart.
  pub Memᴰ_inj :
      (xs : List A) (x y : A)
      → IsDistinct (map key xs)
      → Memᴰ x xs
      → Memᴰ y xs
      → key x ≡ key y
      → x ≡ y
  Memᴰ_inj [] x y d m n e = elim m [ ]
  Memᴰ_inj (z ∷ xs) x y d (Memᴰ.head p) (Memᴰ.head q) e = p ∙ sym q
  Memᴰ_inj (z ∷ xs) x y d (Memᴰ.head p) (Memᴰ.tail n) e =
      absurd (ground (arith, p, contains-map_of_Memᴰ xs y n))
  Memᴰ_inj (z ∷ xs) x y d (Memᴰ.tail m) (Memᴰ.head q) e =
      absurd (ground (arith, q, contains-map_of_Memᴰ xs x m))
  Memᴰ_inj (z ∷ xs) x y d (Memᴰ.tail m) (Memᴰ.tail n) e = Memᴰ_inj xs x y d.1 m n e

pub map_fixed {ℓ} : {A : Type ℓ} (f : A → A) (xs : List A) → All (λ x. f x ≡ x) xs → map f xs ≡ xs
map_fixed f [] h = refl
map_fixed f (x ∷ xs) h = ground (arith, h.0, map_fixed f xs h.1)
