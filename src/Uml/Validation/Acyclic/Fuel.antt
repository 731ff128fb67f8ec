-- ===== src/Uml/Validation/Acyclic/Fuel.antt =====
-- canonical-model.validation.ts: the recursion of `assertAcyclic` ends, and what it then tells.
use mathlib.Core.List.{Memᴰ}
use uml_class_designer_be.Common.{
  ℕ, zero, suc, ◌≤◌, ◌<◌, String, true, false, not, ◌≡◌, ◌≢◌, ◌⊎◌, refl, ap, subst, inl, inr, none,
  some, List, [], ◌∷◌, length, contains, add, filter, arith, eq_iff, Bool-cases, Option-cases,
  contains-add, keys, lookup-keys, length-filter-le, length-filter_same, Memᴰ_of_contains,
}
use uml_class_designer_be.Uml.Validation.Acyclic.{
  Adjacency, targets_of, Marks, visit_all, visit, enough, has_cycle,
}
use uml_class_designer_be.Uml.Validation.Acyclic.Cycles.{
  Walk, Grounded, grounded, Grounded-no_cycle, Visits, Restores, Cycle, visit_all-Grounds,
  visit-Grounds, visit-Restores, visit_all-Finds, visit-Finds,
}

-- How many of some nodes are not under visit.
free : List String → List String → ℕ
free ks visiting = length (filter (λ k. not (contains k visiting)) ks)

free-add-le : (ks visiting : List String) (x : String) → free ks (add x visiting) ≤ free ks visiting
unfolding free
free-add-le [] visiting x = omega arith
free-add-le (k ∷ ks) visiting x =
    ground (arith, contains-add x k visiting, free-add-le ks visiting x)

free-add-lt :
    (ks visiting : List String) (x : String)
    → contains x ks ≡ true
    → contains x visiting ≡ false
    → free ks (add x visiting) < free ks visiting
unfolding free
free-add-lt [] visiting x h n = absurd (cc)
free-add-lt (k ∷ ks) visiting x h n = ground (
  arith,
  eq_iff k x,
  eq_iff x k,
  contains-add x k visiting,
  free-add-le ks visiting x,
  free-add-lt ks visiting x,
)

module _ (g : Adjacency) where
  room : Marks → ℕ
  room m = free (keys g) m.visiting

  -- A visit with this much room has a result.
  abbrev Returns : ℕ → Visits → Type 0
  Returns fuel v = (x : String) (m : Marks) → room m < fuel → v x m ≢ none

  visit_all-Returns :
      (fuel : ℕ) (v : Visits) (ts : List String) (m : Marks)
      → Returns fuel v
      → Restores g v
      → room m < fuel
      → visit_all v ts m ≢ none
  unfolding visit_all room free
  visit_all-Returns fuel v [] m h r k = λ e. cc
  visit_all-Returns fuel v (t ∷ ts) m h r k = elim (Option-cases (v t m)) [
    | inl out ↦ absurd (h t m k out)
    | inr ((true, m₁), done) ↦ ground arith
    | inr ((false, m₁), done) ↦
        let same =
          length-filter_same (λ y. not (contains y m₁.visiting)) (λ y. not (contains y m.visiting))
            (keys g) (λ y. ap not (r t m m₁ done y)) in
        ground (arith, visit_all-Returns fuel v ts m₁ h r (omega (arith, same)))
  ]

  no_targets : (x : String) → contains x (keys g) ≡ false → targets_of g x ≡ []
  no_targets x h = ground (arith, lookup-keys x g)

  nothing_below : (fuel : ℕ) (m : Marks) → visit_all (visit fuel g) [] m ≢ none
  unfolding visit_all
  nothing_below fuel m = λ e. cc

  visit-Returns : (fuel : ℕ) → Returns fuel (visit fuel g)
  unfolding visit room
  visit-Returns zero x m k = absurd (omega arith)
  visit-Returns (suc fuel) x m k = elim (Bool-cases (contains x m.visiting)) [
    | inl again ↦ ground arith
    | inr fresh ↦
        let entered : Marks = record m { visiting = add x m.visiting } in
        let below : visit_all (visit fuel g) (targets_of g x) entered ≢ none =
          elim (Bool-cases (contains x (keys g))) [
            | inl inner ↦
                visit_all-Returns fuel (visit fuel g) (targets_of g x) entered (visit-Returns fuel)
                  (visit-Restores g fuel)
                  (omega (arith, free-add-lt (keys g) m.visiting x inner fresh))
            | inr last ↦ rw (no_targets x last) (nothing_below fuel entered)
          ] in
        elim (Option-cases (visit_all (visit fuel g) (targets_of g x) entered)) [
          | inl out ↦ absurd (below out)
          | inr ((true, m₁), done) ↦ ground arith
          | inr ((false, m₁), done) ↦ ground arith
        ]
  ]

  length-keys : (h : Adjacency) → length (keys h) ≡ length h
  length-keys [] = refl
  length-keys (e ∷ h) = ground (arith, length-keys h)

  no_marks : Marks
  no_marks = record { visiting = []; visited = [] }

  abbrev pub NoCycle : Type 0
  NoCycle = (x : String) → ¬ Walk g x x

  -- A search that finds nothing has grounded every node.
  none_found :
      (m : Marks) → visit_all (visit (enough g) g) (keys g) no_marks ≡ some (false, m) → NoCycle
  unfolding no_marks
  none_found m done x = Grounded-no_cycle g x (all_grounded x)
    where
      all_grounded : (y : String) → Grounded g y
      all_grounded y =
          let (below, _) =
            visit_all-Grounds g (visit (enough g) g) (keys g) no_marks m
              (visit-Grounds g (enough g)) done (λ z n. absurd (cc)) in
          elim (Bool-cases (contains y (keys g))) [
            | inl inner ↦ below y (Memᴰ_of_contains y (keys g) inner)
            | inr last ↦ grounded y (λ z n. elim (subst (Memᴰ z) (no_targets y last) n) [ ])
          ]

  -- The check ends, for every map. It answers true only where some node leads back to itself by
  -- edges of the map, and false only where none does.
  pub has_cycle-decides :
      ((has_cycle g ≡ some true) × Cycle g) ⊎ ((has_cycle g ≡ some false) × NoCycle)
  unfolding has_cycle no_marks room free
  has_cycle-decides = elim (Option-cases (visit_all (visit (enough g) g) (keys g) no_marks)) [
    | inl out ↦ absurd (
        visit_all-Returns (enough g) (visit (enough g) g) (keys g) no_marks
          (visit-Returns (enough g)) (visit-Restores g (enough g)) starts out)
    | inr ((true, m), done) ↦ inl (
      ground arith,
      visit_all-Finds g (visit (enough g) g) (keys g) no_marks m (visit-Restores g (enough g))
          (visit-Finds g (enough g)) done (λ t n u k. absurd (cc)),
    )
    | inr ((false, m), done) ↦ inr (ground arith, none_found m done)
  ]
    where
      starts : room no_marks < enough g
      starts = omega (arith, length-keys g, length-filter-le (λ k. true) (keys g))
