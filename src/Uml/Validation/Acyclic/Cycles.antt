-- ===== src/Uml/Validation/Acyclic/Cycles.antt =====
-- canonical-model.validation.ts: `assertAcyclic` finds a cycle exactly where there is one.
use mathlib.Core.List.{Memᴰ}
use mathlib.Core.List.Memᴰ
use uml_class_designer_be.Common.{
  ℕ, zero, suc, String, Bool, true, false, not, ◌&&◌, ◌≡◌, ◌⊎◌, refl, sym, subst, ◌∙◌, inl, inr,
  Option, some, List, [], ◌∷◌, contains, add, arith, ◌==◌, eq_iff, Bool-cases, Option-cases,
  ==-cases, contains-add,
}
use uml_class_designer_be.Uml.Validation.Acyclic.{
  Adjacency, targets_of, Marks, delete, visit_all, leave, visit,
}

-- A walk of one edge or more.
pub data Walk (g : Adjacency) : String → String → Type 0 where
  edge : (x y : String) → Memᴰ y (targets_of g x) → Walk g x y
  after : (x y z : String) → Walk g x y → Memᴰ z (targets_of g y) → Walk g x z

-- Every walk from the node ends.
pub data Grounded (g : Adjacency) : String → Type 0 where
  grounded : (x : String) → ((y : String) → Memᴰ y (targets_of g x) → Grounded g y) → Grounded g x

-- What is grounded lies on no cycle.
Grounded-Walk : (g : Adjacency) (x y : String) → Grounded g x → Walk g x y → Grounded g y
Grounded-Walk g x y (grounded _ f) (edge _ _ m) = f y m
Grounded-Walk g x z h (after _ y _ w m) = next (Grounded-Walk g x y h w)
  where
    next : Grounded g y → Grounded g z
    next (grounded _ f) = f z m

Walk-trans : (g : Adjacency) (x y z : String) → Walk g x y → Walk g y z → Walk g x z
Walk-trans g x y z w (edge _ _ m) = after x y z w m
Walk-trans g x y z w (after _ u _ v m) = after x u z (Walk-trans g x y u w v) m

-- The first edge of a walk, and what follows.
Walk-head :
    (g : Adjacency) (x z : String)
    → Walk g x z
    → (y : String) × Memᴰ y (targets_of g x) × ((y ≡ z) ⊎ Walk g y z)
Walk-head g x z (edge _ _ m) = (z, m, inl refl)
Walk-head g x z (after _ u _ w m) =
    let (y, first, rest) = Walk-head g x u w in (y, first, inr (extend y rest))
  where
    extend : (y : String) → (y ≡ u) ⊎ Walk g y u → Walk g y z
    extend y (inl e) = edge y z (rw e m)
    extend y (inr v) = after y u z v m

pub Grounded-no_cycle : (g : Adjacency) (x : String) → Grounded g x → ¬ Walk g x x
Grounded-no_cycle g x (grounded _ f) w =
    let (y, first, rest) = Walk-head g x x w in
    Grounded-no_cycle g y (f y first) (turn y first rest)
  where
    turn : (y : String) → Memᴰ y (targets_of g x) → (y ≡ x) ⊎ Walk g y x → Walk g y y
    turn y first (inl e) = subst (λ z. Walk g z z) (sym e) w
    turn y first (inr v) = after y x y v first

abbrev pub Visits : Type 0
Visits = String → Marks → Option (Bool × Marks)

module _ (g : Adjacency) where
  -- What has been visited is grounded.
  abbrev pub AllGrounded : Marks → Type 0
  AllGrounded m = (x : String) → contains x m.visited ≡ true → Grounded g x

  left : (x : String) (m : Marks) → Grounded g x → AllGrounded m → AllGrounded (leave x m)
  left x m here a y h = elim (==-cases x y) [
    | inl same ↦ subst (Grounded g) same.1 here
    | inr other ↦ a y (ground (arith, contains-add x y m.visited))
  ]

  -- A visit that finds nothing grounds the node, and keeps what was grounded.
  abbrev pub Grounds : Visits → Type 0
  Grounds v =
      (x : String) (m m' : Marks)
      → v x m ≡ some (false, m')
      → AllGrounded m
      → Grounded g x × AllGrounded m'

  pub visit_all-Grounds :
      (v : Visits) (ts : List String) (m m' : Marks)
      → Grounds v
      → visit_all v ts m ≡ some (false, m')
      → AllGrounded m
      → ((y : String) → Memᴰ y ts → Grounded g y) × AllGrounded m'
  unfolding visit_all
  visit_all-Grounds v [] m m' h e a =
      (λ y n. elim n [ ], subst AllGrounded {x = m} {y = m'} (ground arith) a)
  visit_all-Grounds v (t ∷ ts) m m' h e a = elim (Option-cases (v t m)) [
    | inl out ↦ absurd (ground arith)
    | inr ((true, m₁), done) ↦ absurd (ground arith)
    | inr ((false, m₁), done) ↦
        let (here, a₁) = h t m m₁ done a in
        let (later, a₂) = visit_all-Grounds v ts m₁ m' h (ground arith) a₁ in
        (
          λ y n. elim (Memᴰ.cases_cons n) [
            | inl same ↦ subst (Grounded g) (sym same) here
            | inr rest ↦ later y rest
          ],
          a₂,
        )
  ]

  pub visit-Grounds : (fuel : ℕ) → Grounds (visit fuel g)
  unfolding visit
  visit-Grounds zero x m m' e a = absurd (cc)
  visit-Grounds (suc fuel) x m m' e a = elim (Bool-cases (contains x m.visiting)) [
    | inl again ↦ absurd (ground arith)
    | inr fresh ↦ elim (Bool-cases (contains x m.visited)) [
      | inl old ↦ (a x old, subst AllGrounded {x = m} {y = m'} (ground arith) a)
      | inr new ↦
          let entered : Marks = record m { visiting = add x m.visiting } in
          elim (Option-cases (visit_all (visit fuel g) (targets_of g x) entered)) [
            | inl out ↦ absurd (ground arith)
            | inr ((true, m₁), done) ↦ absurd (ground arith)
            | inr ((false, m₁), done) ↦
                let (below, a₁) =
                  visit_all-Grounds (visit fuel g) (targets_of g x) entered m₁ (visit-Grounds fuel)
                    done a in
                let here = grounded x below in
                (
                  here,
                  subst AllGrounded {x = leave x m₁} {y = m'} (ground arith) (left x m₁ here a₁),
                )
          ]
    ]
  ]

  contains-delete :
      (x u : String) (ids : List String)
      → contains u (delete x ids) ≡ (not (x == u) && contains u ids)
  contains-delete x u [] = ground arith
  contains-delete x u (y ∷ ids) =
      ground (arith, eq_iff y x, eq_iff y u, eq_iff x u, contains-delete x u ids)

  -- A visit that finds nothing leaves under visit the nodes that it met.
  abbrev pub IsWithin : Marks → Marks → Type 0
  IsWithin m' m = (u : String) → contains u m'.visiting ≡ contains u m.visiting

  abbrev pub Restores : Visits → Type 0
  Restores v = (x : String) (m m' : Marks) → v x m ≡ some (false, m') → IsWithin m' m

  pub visit_all-Restores :
      (v : Visits) (ts : List String) (m m' : Marks)
      → Restores v
      → visit_all v ts m ≡ some (false, m')
      → IsWithin m' m
  unfolding visit_all
  visit_all-Restores v [] m m' h e u = ground arith
  visit_all-Restores v (t ∷ ts) m m' h e u = elim (Option-cases (v t m)) [
    | inl out ↦ absurd (ground arith)
    | inr ((true, m₁), done) ↦ absurd (ground arith)
    | inr ((false, m₁), done) ↦ visit_all-Restores v ts m₁ m' h (ground arith) u ∙ h t m m₁ done u
  ]

  pub visit-Restores : (fuel : ℕ) → Restores (visit fuel g)
  unfolding visit
  visit-Restores zero x m m' e u = absurd (cc)
  visit-Restores (suc fuel) x m m' e u = elim (Bool-cases (contains x m.visiting)) [
    | inl again ↦ absurd (ground arith)
    | inr fresh ↦ elim (Bool-cases (contains x m.visited)) [
      | inl old ↦ ground arith
      | inr new ↦
          let entered : Marks = record m { visiting = add x m.visiting } in
          elim (Option-cases (visit_all (visit fuel g) (targets_of g x) entered)) [
            | inl out ↦ absurd (ground arith)
            | inr ((true, m₁), done) ↦ absurd (ground arith)
            | inr ((false, m₁), done) ↦ ground (
              arith,
              visit_all-Restores (visit fuel g) (targets_of g x) entered m₁ (visit-Restores fuel)
                  done u,
              contains-delete x u m₁.visiting,
              contains-add x u m.visiting,
              eq_iff x u,
            )
          ]
    ]
  ]

  -- Each node under visit leads to the node by a walk.
  abbrev pub Leads : Marks → String → Type 0
  Leads m x = (u : String) → contains u m.visiting ≡ true → Walk g u x

  abbrev pub Cycle : Type 0
  Cycle = (c : String) × Walk g c c

  abbrev pub Finds : Visits → Type 0
  Finds v = (x : String) (m m' : Marks) → v x m ≡ some (true, m') → Leads m x → Cycle

  pub visit_all-Finds :
      (v : Visits) (ts : List String) (m m' : Marks)
      → Restores v
      → Finds v
      → visit_all v ts m ≡ some (true, m')
      → ((t : String) → Memᴰ t ts → Leads m t)
      → Cycle
  unfolding visit_all
  visit_all-Finds v [] m m' r f e l = absurd (cc)
  visit_all-Finds v (t ∷ ts) m m' r f e l = elim (Option-cases (v t m)) [
    | inl out ↦ absurd (ground arith)
    | inr ((true, m₁), done) ↦ f t m m₁ done (l t (Memᴰ.head refl))
    | inr ((false, m₁), done) ↦
        visit_all-Finds v ts m₁ m' r f (ground arith)
          (λ y n u k. l y (Memᴰ.tail n) u (sym (r t m m₁ done u) ∙ k))
  ]

  step :
      (x : String) (m : Marks)
      → Leads m x
      → (t : String) → Memᴰ t (targets_of g x)
      → Leads (record m { visiting = add x m.visiting }) t
  step x m l t n u k = elim (==-cases x u) [
    | inl same ↦ subst (λ w. Walk g w t) same.1 (edge x t n)
    | inr other ↦ after u x t (l u (ground (arith, contains-add x u m.visiting))) n
  ]

  pub visit-Finds : (fuel : ℕ) → Finds (visit fuel g)
  unfolding visit
  visit-Finds zero x m m' e l = absurd (cc)
  visit-Finds (suc fuel) x m m' e l = elim (Bool-cases (contains x m.visiting)) [
    | inl again ↦ (x, l x again)
    | inr fresh ↦ elim (Bool-cases (contains x m.visited)) [
      | inl old ↦ absurd (ground arith)
      | inr new ↦
          let entered : Marks = record m { visiting = add x m.visiting } in
          elim (Option-cases (visit_all (visit fuel g) (targets_of g x) entered)) [
            | inl out ↦ absurd (ground arith)
            | inr ((false, m₁), done) ↦ absurd (ground arith)
            | inr ((true, m₁), done) ↦
                visit_all-Finds (visit fuel g) (targets_of g x) entered m₁ (visit-Restores fuel)
                  (visit-Finds fuel) done (step x m l)
          ]
    ]
  ]
