-- ===== src/Common/Maps.antt =====
-- A JavaScript `Map` with string keys: its entries in insertion order, each key once.
use Prim.Native.String.{String}
use mathlib.Core.Path.{◌≡◌, refl}
use mathlib.Core.Bool.{false, not, ◌&&◌, ◌||◌}
use mathlib.Core.Option.{Option, none, some}
use mathlib.Core.List.{List, [], ◌∷◌, ◌++◌}
use native.Mathlib.Omega.{arith}
use text.Mathlib.TextEquality.{eq_iff}
use package.uml_class_designer_be.Common.Tests.{if◌then◌else◌, ◌==◌, is_some}
use package.uml_class_designer_be.Common.Lists.{contains, IsDistinct}

module _ {ℓ} {V : Type ℓ} where
  -- `get`
  abbrev pub lookup : String → List (String × V) → Option V
  lookup k [] = none
  lookup k ((j, v) ∷ m) = if j == k then some v else lookup k m

  -- `set`: in place for a key that is there, else at the end
  abbrev pub insert : String → V → List (String × V) → List (String × V)
  insert s new ((t, old) ∷ others) =
      if t == s then (t, new) ∷ others else (t, old) ∷ insert s new others
  insert s new [] = (s, new) ∷ []

  -- `delete`
  abbrev pub erase : String → List (String × V) → List (String × V)
  erase k [] = []
  erase k ((j, w) ∷ m) = if j == k then erase k m else (j, w) ∷ erase k m

  abbrev pub keys : List (String × V) → List String
  keys [] = []
  keys ((j, w) ∷ m) = j ∷ keys m

  pub lookup-insert :
      (s t : String) (new : V) (entries : List (String × V))
      → lookup t (insert s new entries) ≡ (if s == t then some new else lookup t entries)
  lookup-insert s t new [] = refl
  lookup-insert s t new ((u, old) ∷ rest) =
      ground (arith, eq_iff s t, eq_iff u s, eq_iff u t, lookup-insert s t new rest)

  pub lookup-erase :
      (k j : String) (m : List (String × V))
      → lookup j (erase k m) ≡ (if k == j then none else lookup j m)
  lookup-erase k j [] = ground arith
  lookup-erase k j ((i, w) ∷ m) =
      ground (arith, eq_iff k j, eq_iff i k, eq_iff i j, lookup-erase k j m)

  pub contains-keys-insert :
      (s k : String) (v : V) (m : List (String × V))
      → contains s (keys (insert k v m)) ≡ (k == s || contains s (keys m))
  contains-keys-insert s k v [] = ground arith
  contains-keys-insert s k v ((j, w) ∷ m) =
      ground (arith, eq_iff j k, eq_iff j s, eq_iff k s, contains-keys-insert s k v m)

  pub IsDistinct-keys-insert :
      (k : String) (v : V) (m : List (String × V))
      → IsDistinct (keys m)
      → IsDistinct (keys (insert k v m))
  IsDistinct-keys-insert k v [] d = (refl, tt)
  IsDistinct-keys-insert k v ((j, w) ∷ m) d = ground (
    arith,
    eq_iff j k,
    eq_iff k j,
    contains-keys-insert j k v m,
    IsDistinct-keys-insert k v m d.1,
  )

  pub contains-keys-erase :
      (s k : String) (m : List (String × V))
      → contains s (keys (erase k m)) ≡ (not (k == s) && contains s (keys m))
  contains-keys-erase s k [] = ground arith
  contains-keys-erase s k ((j, w) ∷ m) =
      ground (arith, eq_iff j k, eq_iff j s, eq_iff k s, contains-keys-erase s k m)

  pub IsDistinct-keys-erase :
      (k : String) (m : List (String × V)) → IsDistinct (keys m) → IsDistinct (keys (erase k m))
  IsDistinct-keys-erase k [] d = tt
  IsDistinct-keys-erase k ((j, w) ∷ m) d =
      ground (arith, contains-keys-erase j k m, IsDistinct-keys-erase k m d.1)

  pub lookup-keys :
      (k : String) (m : List (String × V)) → is_some (lookup k m) ≡ contains k (keys m)
  lookup-keys k [] = refl
  lookup-keys k ((j, w) ∷ m) = ground (arith, lookup-keys k m)

  pub keys-insert_new :
      (k : String) (v : V) (m : List (String × V))
      → contains k (keys m) ≡ false
      → keys (insert k v m) ≡ (keys m ++ k ∷ [])
  keys-insert_new k v [] h = refl
  keys-insert_new k v ((j, w) ∷ m) h = ground (arith, keys-insert_new k v m)
