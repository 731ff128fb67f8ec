-- ===== src/Uml/Executor/Removal/Closure.antt =====
-- uml-command.executor.ts: the `while` loop of `removeClassifiersAndReferences` ends by its test.
use mathlib.Core.List.{Memᴰ}
use uml_class_designer_be.Common.{
  ℕ, zero, suc, ◌+◌, ◌≤◌, ◌<◌, String, true, false, not, ◌≡◌, refl, sym, ap, subst, ◌∙◌, inl, inr,
  ◌⊎◌, List, [], ◌∷◌, filter, length, contains, add, All, arith, eq_iff, Bool-cases, contains-add,
  length-filter-le, All-of_Memᴰ,
}
use uml_class_designer_be.Uml.Types.{UmlRelationship}
use uml_class_designer_be.Uml.Executor.Removal.{Deletion, is_skipped, visit, sweep, close, closure}

-- How many relationships are not marked yet.
pending : List UmlRelationship → List String → ℕ
pending rs marked = length (filter (λ r. not (contains r.id marked)) rs)

pending-add-le :
    (rs : List UmlRelationship) (marked : List String) (x : String)
    → pending rs (add x marked) ≤ pending rs marked
unfolding pending
pending-add-le [] marked x = omega arith
pending-add-le (r ∷ rs) marked x =
    ground (arith, contains-add x r.id marked, pending-add-le rs marked x)

pending-add-lt :
    (rs : List UmlRelationship) (marked : List String) (r : UmlRelationship)
    → Memᴰ r rs
    → contains r.id marked ≡ false
    → pending rs (add r.id marked) < pending rs marked
unfolding pending
pending-add-lt [] marked r m h = elim m [ ]
pending-add-lt (q ∷ rs) marked r (Memᴰ.head e) h =
    ground
      (arith, e, contains-add r.id q.id marked, pending-add-le rs marked r.id, eq_iff r.id q.id)
pending-add-lt (q ∷ rs) marked r (Memᴰ.tail m) h =
    ground (arith, contains-add r.id q.id marked, pending-add-lt rs marked r m h)

visit-keeps_changed :
    (s : Deletion) (r : UmlRelationship) → s.changed ≡ true → (visit s r).changed ≡ true
unfolding visit
visit-keeps_changed s r h = ground arith

sweep-keeps_changed :
    (rs : List UmlRelationship) (s : Deletion) → s.changed ≡ true → (sweep rs s).changed ≡ true
unfolding sweep
sweep-keeps_changed [] s h = h
sweep-keeps_changed (r ∷ rs) s h = sweep-keeps_changed rs (visit s r) (visit-keeps_changed s r h)

-- The state is at rest: a round of the loop would skip every relationship.
abbrev pub IsStable : Deletion → List UmlRelationship → Type 0
IsStable s = All (λ r. is_skipped s r ≡ true)

-- A round that changes nothing leaves the state as it was, at rest.
visit-still :
    (s : Deletion) (r : UmlRelationship)
    → (visit s r).changed ≡ false
    → (visit s r ≡ s) × (is_skipped s r ≡ true)
unfolding visit
visit-still s r h = ground arith

sweep-still :
    (rs : List UmlRelationship) (s : Deletion)
    → (sweep rs s).changed ≡ false
    → (sweep rs s ≡ s) × IsStable s rs
unfolding sweep
sweep-still [] s h = (refl, tt)
sweep-still (r ∷ rs) s h =
    let (same, stable) = sweep-still rs (visit s r) h in
    let (kept, skipped) = visit-still s r (rw (← same) h) in
    (same ∙ kept, (skipped, rw kept at stable))

-- Any other round marks a relationship.
module _ (all : List UmlRelationship) where
  visit-pending :
      (s : Deletion) (r : UmlRelationship)
      → Memᴰ r all
      → (visit s r ≡ s)
        ⊎ (pending all (visit s r).deleted_relationship_ids
            < pending all s.deleted_relationship_ids)
  unfolding visit
  visit-pending s r m = elim (Bool-cases (is_skipped s r)) [
    | inl skipped ↦ inl (ground arith)
    | inr taken ↦ inr (ground (arith, pending-add-lt all s.deleted_relationship_ids r m))
  ]

  sweep-pending :
      (rs : List UmlRelationship) (s : Deletion)
      → All (λ r. Memᴰ r all) rs
      → (sweep rs s ≡ s)
        ⊎ (pending all (sweep rs s).deleted_relationship_ids
            < pending all s.deleted_relationship_ids)
  unfolding sweep
  sweep-pending [] s m = inl refl
  sweep-pending (r ∷ rs) s m =
      ground (arith, visit-pending s r m.0, sweep-pending rs (visit s r) m.1)

  abbrev round : Deletion → Deletion
  round s = sweep all (record s { changed = false })

  IsStable-of_idle :
      (s : Deletion) → s.changed ≡ false → (s.changed ≡ true) ⊎ IsStable s all → IsStable s all
  IsStable-of_idle s idle (inl active) = absurd (cc)
  IsStable-of_idle s idle (inr stable) = stable

  close_idle : (fuel : ℕ) (s : Deletion) → s.changed ≡ false → close fuel all s ≡ s
  unfolding close
  close_idle zero s h = refl
  close_idle (suc fuel) s h = ground arith

  next_round :
      (fuel : ℕ) (s : Deletion)
      → All (λ r. Memᴰ r all) all
      → pending all s.deleted_relationship_ids < suc fuel
      → (pending all (round s).deleted_relationship_ids < fuel
          → ((round s).changed ≡ true) ⊎ IsStable (round s) all
          → ((close fuel all (round s)).changed ≡ false) × IsStable (close fuel all (round s)) all)
      → ((close fuel all (round s)).changed ≡ false) × IsStable (close fuel all (round s)) all
  next_round fuel s m h ih = elim (Bool-cases (round s).changed) [
    | inl active ↦ elim (sweep-pending all (record s { changed = false }) m) [
      | inl same ↦ absurd (ground (arith, ap (λ (t : Deletion). t.changed) same))
      | inr less ↦ ih (omega arith) (inl active)
    ]
    | inr idle ↦
        let (same, stable) = sweep-still all (record s { changed = false }) idle in
        rw (close_idle fuel (round s) idle) (idle, rw same stable)
  ]

  close-IsStable :
      (fuel : ℕ) (s : Deletion)
      → All (λ r. Memᴰ r all) all
      → pending all s.deleted_relationship_ids < fuel
      → (s.changed ≡ true) ⊎ IsStable s all
      → ((close fuel all s).changed ≡ false) × IsStable (close fuel all s) all
  unfolding close
  close-IsStable zero s m h c = absurd (omega arith)
  close-IsStable (suc fuel) s m h c = elim (Bool-cases s.changed) [
    | inr idle ↦ rw (idle, close) (idle, IsStable-of_idle s idle c)
    | inl active ↦ rw (active, close) (next_round fuel s m h (close-IsStable fuel (round s) m))
  ]

-- The `while` loop ends by its own test, `changed` being false, within two rounds more than
-- there are relationships; and then another round would skip every relationship.
pub closure-IsStable :
    (rs : List UmlRelationship) (initial : List String)
    → ((closure rs initial).changed ≡ false) × IsStable (closure rs initial) rs
unfolding closure pending
closure-IsStable rs initial =
    close-IsStable rs (length rs + 2) _ (All-of_Memᴰ _ rs (λ r m. m))
      (omega (arith, length-filter-le (λ r. not (contains r.id [])) rs)) (inl refl)

-- What holds before the loop, and is kept by the body and by the reset of `changed`, holds after.
module _ {ℓ} (P : Deletion → Type ℓ) (all : List UmlRelationship)
    (keep : (s : Deletion) (r : UmlRelationship) → Memᴰ r all → P s → P (visit s r))
    (reset : (s : Deletion) → P s → P (record s { changed = false })) where
  sweep_inv :
      (rs : List UmlRelationship) (s : Deletion) → All (λ r. Memᴰ r all) rs → P s → P (sweep rs s)
  unfolding sweep
  sweep_inv [] s m h = h
  sweep_inv (r ∷ rs) s m h = sweep_inv rs (visit s r) m.1 (keep s r m.0 h)

  close_inv : (fuel : ℕ) (s : Deletion) → P s → P (close fuel all s)
  unfolding close
  close_inv zero s h = h
  close_inv (suc fuel) s h = elim (Bool-cases s.changed) [
    | inl active ↦
        rw (active, close)
          (close_inv fuel _ (sweep_inv all _ (All-of_Memᴰ _ all (λ r m. m)) (reset s h)))
    | inr idle ↦ subst P (sym (close_idle all (suc fuel) s idle)) h
  ]

  pub closure_inv :
      (initial : List String)
      → P (record { deleted_ids = initial; deleted_relationship_ids = []; changed = true })
      → P (closure all initial)
  unfolding closure
  closure_inv initial h = close_inv (length all + 2) _ h
