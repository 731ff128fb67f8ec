-- ===== src/Uml/Executor/Removal/Cascade.antt =====
-- uml-command.executor.ts: what `removeClassifiersAndReferences` deletes, against a description
-- that knows nothing of the loop.
use mathlib.Core.List.{Memᴰ}
use uml_class_designer_be.Common.{
  String, Bool, true, false, ◌≡◌, subst, ◌↔◌, inl, inr, Option, none, some, List, map, contains,
  IsDistinct, All, arith, eq_iff, Bool-cases, Option-cases, ==-cases, contains-add, All-Memᴰ,
  Memᴰ_inj,
}
use uml_class_designer_be.Uml.Types.{UmlRelationship}
use uml_class_designer_be.Uml.Executor.References.{truthy}
use uml_class_designer_be.Uml.Executor.Removal.{Deletion, add_class, is_skipped, visit, closure}
use uml_class_designer_be.Uml.Executor.Removal.Closure.{closure-IsStable, closure_inv}

-- The classifiers that go with the initial ones: the association class of each relationship
-- that has an end among them.
pub data Cascades (rs : List UmlRelationship) (initial : List String) : String → Type 0 where
  seed : (x : String) → contains x initial ≡ true → Cascades rs initial x
  by_source :
      (r : UmlRelationship) (c : String)
      → Memᴰ r rs
      → Cascades rs initial r.source.element_id
      → truthy r.association_class_id ≡ some c
      → Cascades rs initial c
  by_target :
      (r : UmlRelationship) (c : String)
      → Memᴰ r rs
      → Cascades rs initial r.target.element_id
      → truthy r.association_class_id ≡ some c
      → Cascades rs initial c

-- An identifier that is there is in the set.
abbrev pub resolves : Option String → List String → Bool
resolves o ids = elim (truthy o) [ none ↦ true | some c ↦ contains c ids ]

contains-add_class :
    (o : Option String) (x : String) (ids : List String)
    → contains x ids ≡ true
    → contains x (add_class o ids) ≡ true
contains-add_class o x ids h = elim (Option-cases (truthy o)) [
  | inl e ↦ ground arith
  | inr (c, e) ↦ ground (arith, contains-add c x ids)
]

resolves_self : (o : Option String) (ids : List String) → resolves o (add_class o ids) ≡ true
resolves_self o ids = elim (Option-cases (truthy o)) [
  | inl e ↦ ground arith
  | inr (c, e) ↦ ground (arith, contains-add c c ids, eq_iff c c)
]

resolves_mono :
    (o p : Option String) (ids : List String)
    → resolves o ids ≡ true
    → resolves o (add_class p ids) ≡ true
resolves_mono o p ids h = elim (Option-cases (truthy o)) [
  | inl e ↦ ground arith
  | inr (c, e) ↦ ground (arith, contains-add_class p c ids)
]

module _ (rs : List UmlRelationship) (initial : List String) where
  abbrev IsSound : Deletion → Type 0
  IsSound s = (x : String) → contains x s.deleted_ids ≡ true → Cascades rs initial x

  added :
      (s : Deletion) (r : UmlRelationship) (x : String)
      → Memᴰ r rs
      → IsSound s
      → is_skipped s r ≡ false
      → contains x (add_class r.association_class_id s.deleted_ids) ≡ true
      → Cascades rs initial x
  added s r x m sound taken h = elim (Option-cases (truthy r.association_class_id)) [
    | inl e ↦ sound x (ground arith)
    | inr (c, e) ↦ elim (==-cases c x) [
      | inr other ↦ sound x (ground (arith, contains-add c x s.deleted_ids))
      | inl same ↦
          subst (Cascades rs initial) same.1
            (elim (Bool-cases (contains r.source.element_id s.deleted_ids)) [
              | inl source ↦ by_source r c m (sound _ source) e
              | inr free ↦ by_target r c m (sound _ (ground arith)) e
            ])
    ]
  ]

  visit-IsSound : (s : Deletion) (r : UmlRelationship) → Memᴰ r rs → IsSound s → IsSound (visit s r)
  unfolding visit
  visit-IsSound s r m sound x h = elim (Bool-cases (is_skipped s r)) [
    | inl skipped ↦ sound x (ground arith)
    | inr taken ↦ added s r x m sound taken (ground arith)
  ]

  abbrev IsMarked : Deletion → Type 0
  IsMarked s =
      (r : UmlRelationship)
      → Memᴰ r rs
      → contains r.id s.deleted_relationship_ids ≡ true
      → resolves r.association_class_id s.deleted_ids ≡ true

  visit-IsMarked :
      IsDistinct (map (λ r. r.id) rs)
      → (s : Deletion) (q : UmlRelationship) → Memᴰ q rs
      → IsMarked s
      → IsMarked (visit s q)
  unfolding visit
  visit-IsMarked d s q n marked r m h = elim (Bool-cases (is_skipped s q)) [
    | inl skipped ↦ ground (arith, marked r m)
    | inr taken ↦ elim (==-cases q.id r.id) [
      | inl same ↦
          let e = Memᴰ_inj (λ t. t.id) rs q r d n m same.1 in
          ground (arith, e, resolves_self r.association_class_id s.deleted_ids)
      | inr other ↦ ground (
        arith,
        marked r m,
        contains-add q.id r.id s.deleted_relationship_ids,
        resolves_mono r.association_class_id q.association_class_id s.deleted_ids,
      )
    ]
  ]

  abbrev IsSeeded : Deletion → Type 0
  IsSeeded s = (x : String) → contains x initial ≡ true → contains x s.deleted_ids ≡ true

  visit-IsSeeded :
      (s : Deletion) (r : UmlRelationship) → Memᴰ r rs → IsSeeded s → IsSeeded (visit s r)
  unfolding visit
  visit-IsSeeded s r m seeded x h =
      ground (arith, seeded x h, contains-add_class r.association_class_id x s.deleted_ids)

  complete :
      (s : Deletion) (x : String)
      → All (λ r. is_skipped s r ≡ true) rs
      → IsMarked s
      → IsSeeded s
      → Cascades rs initial x
      → contains x s.deleted_ids ≡ true
  complete s x stable marked seeded (seed _ h) = seeded x h
  complete s x stable marked seeded (by_source r c m from e) = ground (
    arith,
    complete s r.source.element_id stable marked seeded from,
    All-Memᴰ _ rs stable m,
    marked r m,
  )
  complete s x stable marked seeded (by_target r c m from e) = ground (
    arith,
    complete s r.target.element_id stable marked seeded from,
    All-Memᴰ _ rs stable m,
    marked r m,
  )

-- The initial classifiers are among the deleted ones.
pub closure-IsSeeded :
    (rs : List UmlRelationship) (initial : List String) (x : String)
    → contains x initial ≡ true
    → contains x (closure rs initial).deleted_ids ≡ true
closure-IsSeeded rs initial =
    closure_inv (IsSeeded rs initial) rs (visit-IsSeeded rs initial) (λ s h. h) initial (λ y h. h)

-- Where the relationships have distinct identifiers, the loop deletes exactly the classifiers
-- of the cascade: the initial ones, and with each relationship that has an end in the cascade
-- its association class.
pub closure_iff_Cascades :
    (rs : List UmlRelationship) (initial : List String) (x : String)
    → IsDistinct (map (λ r. r.id) rs)
    → (contains x (closure rs initial).deleted_ids ≡ true) ↔ Cascades rs initial x
closure_iff_Cascades rs initial x d = (
  closure_inv (IsSound rs initial) rs (visit-IsSound rs initial) (λ s h. h) initial seed x,
  complete rs initial (closure rs initial) x (closure-IsStable rs initial).1
      (closure_inv (IsMarked rs initial) rs (visit-IsMarked rs initial d) (λ s h. h) initial
        (λ r m h. absurd (cc)))
      (closure-IsSeeded rs initial),
)
