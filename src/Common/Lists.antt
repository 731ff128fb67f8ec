-- ===== src/Common/Lists.antt =====
-- Lists by Boolean tests and native indices; a set of strings is the list of its elements.
use Prim.Native.Nat.{ℕ, zero, suc, ◌+◌, ◌≤◌}
use Prim.Native.String.{String}
use mathlib.Core.Path.{◌≡◌, refl}
use mathlib.Core.Logic.{inl, inr}
use mathlib.Core.Bool.{Bool, true, false, ◌&&◌, ◌||◌}
use mathlib.Core.Option.{Option, none, some}
use mathlib.Core.List.{List, [], ◌∷◌, ◌++◌, map, Memᴰ}
use native.Mathlib.Omega.{arith}
use text.Mathlib.TextEquality.{eq_iff}
use package.uml_class_designer_be.Common.Tests.{if◌then◌else◌, ◌==◌, Bool-cases}

module _ {ℓ} {A : Type ℓ} where
  abbrev pub length : List A → ℕ
  length [] = 0
  length (x ∷ xs) = suc (length xs)

  abbrev pub get_elem? : List A → ℕ → Option A
  get_elem? [] i = none
  get_elem? (x ∷ xs) zero = some x
  get_elem? (x ∷ xs) (suc i) = get_elem? xs i

  abbrev pub set : List A → ℕ → A → List A
  set [] i v = []
  set (x ∷ xs) zero v = v ∷ xs
  set (x ∷ xs) (suc i) v = x ∷ set xs i v

  -- `splice(i, 1)`
  abbrev pub remove_at : List A → ℕ → List A
  remove_at [] i = []
  remove_at (x ∷ xs) zero = xs
  remove_at (x ∷ xs) (suc i) = x ∷ remove_at xs i

  abbrev pub any : (A → Bool) → List A → Bool
  any p [] = false
  any p (x ∷ xs) = p x || any p xs

  abbrev pub all : (A → Bool) → List A → Bool
  all p [] = true
  all p (x ∷ xs) = p x && all p xs

  abbrev pub filter : (A → Bool) → List A → List A
  filter p [] = []
  filter p (x ∷ xs) = if p x then x ∷ filter p xs else filter p xs

  abbrev pub find : (A → Bool) → List A → Option A
  find p [] = none
  find p (x ∷ xs) = if p x then some x else find p xs

  -- `findIndex`, with none for -1
  abbrev pub find_index : (A → Bool) → List A → Option ℕ
  find_index p [] = none
  find_index p (x ∷ xs) =
      if p x then some 0 else elim (find_index p xs) [ none ↦ none | some i ↦ some (suc i) ]

module _ {ℓ} {A : Type ℓ} where
  abbrev pub take : ℕ → List A → List A
  take zero xs = []
  take (suc n) [] = []
  take (suc n) (x ∷ xs) = x ∷ take n xs

  pub length-append : (xs ys : List A) → length (xs ++ ys) ≡ length xs + length ys
  length-append [] ys = omega arith
  length-append (x ∷ xs) ys = omega (arith, length-append xs ys)

  pub length-filter-le : (p : A → Bool) (xs : List A) → length (filter p xs) ≤ length xs
  length-filter-le p [] = omega arith
  length-filter-le p (x ∷ xs) = ground (arith, length-filter-le p xs)

module _ {ℓ κ} {A : Type ℓ} (P : A → Type κ) where
  abbrev pub All : List A → Type κ
  All [] = Unit
  All (x ∷ xs) = P x × All xs

  pub All-append : (xs ys : List A) → All xs → All ys → All (xs ++ ys)
  All-append [] ys hx hy = hy
  All-append (x ∷ xs) ys hx hy = (hx.0, All-append xs ys hx.1 hy)

  pub All-filter : (p : A → Bool) (xs : List A) → All xs → All (filter p xs)
  All-filter p [] h = tt
  All-filter p (x ∷ xs) h = ground (arith, All-filter p xs h.1)

module _ {ℓ κ} {A : Type ℓ} (P : A → Type κ) where
  pub All-of_Memᴰ : (xs : List A) → ((x : A) → Memᴰ x xs → P x) → All P xs
  All-of_Memᴰ [] f = tt
  All-of_Memᴰ (x ∷ xs) f = (f x (Memᴰ.head refl), All-of_Memᴰ xs (λ y m. f y (Memᴰ.tail m)))

  pub All-Memᴰ : (xs : List A) {x : A} → All P xs → Memᴰ x xs → P x
  All-Memᴰ [] h m = elim m [ ]
  All-Memᴰ (y ∷ xs) h (Memᴰ.head e) = rw e h.0
  All-Memᴰ (y ∷ xs) h (Memᴰ.tail m) = All-Memᴰ xs h.1 m

pub All-map-filter {ℓ κ} :
    {A : Type ℓ} (P : A → Type κ) (f : A → A) (p : A → Bool) (xs : List A)
    → ((x : A) → Memᴰ x xs → p x ≡ true → P (f x))
    → All P (map f (filter p xs))
All-map-filter P f p [] h = tt
All-map-filter P f p (x ∷ xs) h = elim (Bool-cases (p x)) [
  | inl kept ↦
      rw kept (h x (Memᴰ.head refl) kept, All-map-filter P f p xs (λ y m q. h y (Memᴰ.tail m) q))
  | inr dropped ↦ rw dropped (All-map-filter P f p xs (λ y m q. h y (Memᴰ.tail m) q))
]

pub All-remove_at {ℓ κ} :
    {A : Type ℓ} (P : A → Type κ) (xs : List A) (i : ℕ) → All P xs → All P (remove_at xs i)
All-remove_at P [] i h = tt
All-remove_at P (x ∷ xs) zero h = h.1
All-remove_at P (x ∷ xs) (suc i) h = (h.0, All-remove_at P xs i h.1)

-- `set.has(s)`
abbrev pub contains : String → List String → Bool
contains s [] = false
contains s (x ∷ xs) = x == s || contains s xs

-- `set.add(s)`
abbrev pub add : String → List String → List String
add s xs = if contains s xs then xs else xs ++ s ∷ []

-- Each element of the first list is added to the set; `new Set(xs)` adds to the empty one.
abbrev pub add_all : List String → List String → List String
add_all [] s = s
add_all (x ∷ xs) s = add_all xs (add x s)

-- No string occurs twice.
abbrev pub IsDistinct : List String → Type 0
IsDistinct [] = Unit
IsDistinct (x ∷ xs) = (contains x xs ≡ false) × IsDistinct xs

pub contains-append :
    (s : String) (xs ys : List String) → contains s (xs ++ ys) ≡ (contains s xs || contains s ys)
contains-append s [] ys = refl
contains-append s (x ∷ xs) ys = ground (arith, contains-append s xs ys)

pub contains-add :
    (s t : String) (xs : List String) → contains t (add s xs) ≡ (s == t || contains t xs)
contains-add s t xs = ground (arith, contains-append t xs (s ∷ []), eq_iff s t)

pub contains-add_all :
    (t : String) (xs s : List String) → contains t (add_all xs s) ≡ (contains t xs || contains t s)
contains-add_all t [] s = refl
contains-add_all t (x ∷ xs) s = ground (arith, contains-add_all t xs (add x s), contains-add x t s)

pub IsDistinct-append_one :
    (xs : List String) (s : String)
    → IsDistinct xs
    → contains s xs ≡ false
    → IsDistinct (xs ++ s ∷ [])
IsDistinct-append_one [] s d h = (refl, tt)
IsDistinct-append_one (x ∷ xs) s d h = (
  ground (arith, contains-append x xs (s ∷ []), eq_iff s x, eq_iff x s),
  IsDistinct-append_one xs s d.1 (ground arith),
)

pub Memᴰ_of_contains : (s : String) (xs : List String) → contains s xs ≡ true → Memᴰ s xs
Memᴰ_of_contains s [] h = absurd (cc)
Memᴰ_of_contains s (x ∷ xs) h = elim (Bool-cases (x == s)) [
  | inl same ↦ Memᴰ.head (ground (arith, eq_iff x s))
  | inr other ↦ Memᴰ.tail (Memᴰ_of_contains s xs (ground arith))
]

pub length-filter_same {ℓ} :
    {A : Type ℓ} (p q : A → Bool) (xs : List A)
    → ((x : A) → p x ≡ q x)
    → length (filter p xs) ≡ length (filter q xs)
length-filter_same p q [] h = refl
length-filter_same p q (x ∷ xs) h = ground (arith, h x, length-filter_same p q xs h)

pub IsDistinct-append_left : (xs ys : List String) → IsDistinct (xs ++ ys) → IsDistinct xs
IsDistinct-append_left [] ys d = tt
IsDistinct-append_left (x ∷ xs) ys d =
    (ground (arith, contains-append x xs ys, d.0), IsDistinct-append_left xs ys d.1)

pub IsDistinct-append_right : (xs ys : List String) → IsDistinct (xs ++ ys) → IsDistinct ys
IsDistinct-append_right [] ys d = d
IsDistinct-append_right (x ∷ xs) ys d = IsDistinct-append_right xs ys d.1

pub IsDistinct-append-ne :
    (xs ys : List String) (y : String) → IsDistinct (xs ++ y ∷ ys) → contains y xs ≡ false
IsDistinct-append-ne [] ys y d = refl
IsDistinct-append-ne (x ∷ xs) ys y d = ground (
  arith,
  d.0,
  contains-append x xs (y ∷ ys),
  eq_iff x y,
  eq_iff y x,
  IsDistinct-append-ne xs ys y d.1,
)
