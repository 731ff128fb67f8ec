-- ===== src/Collaboration/MutationQueue/Moves.antt =====
-- document-mutation-queue.service.ts: what changes when a call begins or finishes its operation.
use uml_class_designer_be.Common.{
  ℕ, suc, ◌≤◌, String, true, false, ◌≡◌, refl, inl, inr, Option, none, some, List, [], ◌∷◌, length,
  nat_eq, ◌==◌, if◌then◌else◌, arith, Bool-cases, ==_of_eq, subst, sym,
}
use uml_class_designer_be.Collaboration.MutationQueue.{
  Phase, QueuedCall, is_waiting, is_running, is_released, find_call, is_resolved, with_phase,
}
use uml_class_designer_be.Collaboration.MutationQueue.Order.{
  newest, open_tail, all_released, open_count, Precedes, IsNumbered, Follows, IsOrdered,
  all_released-of_resolved, is_resolved-older, resolved-of_all_released, Follows-resolved,
}

-- the calls before the one with this ticket
abbrev pub before : ℕ → List QueuedCall → List QueuedCall
before t [] = []
before t (x ∷ older) = if nat_eq x.ticket t then older else before t older

-- the promise of a document, once that of the ticket `t` is no longer the last
abbrev pub unless_ticket : ℕ → Option ℕ → Option ℕ
unless_ticket t none = none
unless_ticket t (some s) = if nat_eq s t then none else some s

module _ (t : ℕ) (phase : Phase) where
  pub length-with_phase :
      (calls : List QueuedCall) → length (with_phase t phase calls) ≡ length calls
  length-with_phase [] = refl
  length-with_phase (x ∷ older) = ground (arith, length-with_phase older)

  pub with_phase-IsNumbered :
      (calls : List QueuedCall) → IsNumbered calls → IsNumbered (with_phase t phase calls)
  with_phase-IsNumbered [] n = n
  with_phase-IsNumbered (x ∷ older) n = elim (Bool-cases (nat_eq x.ticket t)) [
    | inl hit ↦ rw hit n
    | inr miss ↦ rw (miss, length-with_phase older) (n.0, n.1, with_phase-IsNumbered older n.2)
  ]

  -- A call of another document does not count.
  pub with_phase_other :
      (d : String) (calls : List QueuedCall) (c : QueuedCall)
      → find_call t calls ≡ some c
      → (c.document_id == d) ≡ false
      → (all_released d (with_phase t phase calls) ≡ all_released d calls)
        × (open_count d (with_phase t phase calls) ≡ open_count d calls)
        × (newest d (with_phase t phase calls) ≡ newest d calls)
  with_phase_other d [] c h e = absurd (cc)
  with_phase_other d (x ∷ older) c h e = ground (arith, with_phase_other d older c)

  -- What was over stays over.
  pub all_released-with_phase :
      (d : String) (calls : List QueuedCall) (c : QueuedCall)
      → find_call t calls ≡ some c
      → is_released c.phase ≡ false
      → all_released d calls ≡ true
      → all_released d (with_phase t phase calls) ≡ true
  all_released-with_phase d [] c h e r = refl
  all_released-with_phase d (x ∷ older) c h e r = ground (arith, all_released-with_phase d older c)

  newest-with_phase :
      (d : String) (calls : List QueuedCall) (y : QueuedCall)
      → newest d calls ≡ some y
      → (z : QueuedCall) × (newest d (with_phase t phase calls) ≡ some z) × (z.ticket ≡ y.ticket)
  newest-with_phase d [] y h = absurd (cc)
  newest-with_phase d (x ∷ older) y h = elim (Bool-cases (nat_eq x.ticket t)) [
    | inl hit ↦ elim (Bool-cases (x.document_id == d)) [
      | inl own ↦ (record x { phase = phase }, ground arith, ground arith)
      | inr other ↦ (y, ground arith, refl)
    ]
    | inr miss ↦ elim (Bool-cases (x.document_id == d)) [
      | inl own ↦ (y, ground arith, refl)
      | inr other ↦
          let (z, e, same) = newest-with_phase d older y (ground arith) in (z, ground arith, same)
    ]
  ]

  with_phase-Follows :
      (d : String) (p : Option ℕ) (calls : List QueuedCall) (c : QueuedCall)
      → find_call t calls ≡ some c
      → is_released c.phase ≡ false
      → Follows p d calls
      → Follows p d (with_phase t phase calls)
  with_phase-Follows d none calls c h e f = all_released-with_phase d calls c h e f
  with_phase-Follows d (some s) calls c h e (y, last, same) =
      let (z, e', same') = newest-with_phase d calls y last in (z, e', omega arith)

  pub with_phase-IsOrdered :
      (d : String) (calls : List QueuedCall) (c : QueuedCall)
      → find_call t calls ≡ some c
      → is_released c.phase ≡ false
      → (c.document_id ≡ d → all_released d (before t calls) ≡ true)
      → IsOrdered d calls
      → IsOrdered d (with_phase t phase calls)
  with_phase-IsOrdered d [] c h e ready o = tt
  with_phase-IsOrdered d (x ∷ older) c h e ready o = elim (Bool-cases (nat_eq x.ticket t)) [
    | inl hit ↦
        let same : x ≡ c = ground arith in
        rw hit (
          λ own. record {
            follows = (o.0 own).follows;
            after = λ _. rw hit at (ready (subst (λ (y : QueuedCall). y.document_id ≡ d) same own));
          },
          o.1,
        )
    | inr miss ↦
        let h' : find_call t older ≡ some c = ground arith in
        rw miss (
          λ own. record {
            follows = with_phase-Follows d x.previous older c h' e (o.0 own).follows;
            after = λ began. all_released-with_phase d older c h' e ((o.0 own).after began);
          },
          with_phase-IsOrdered d older c h' e (λ own. rw miss at (ready own)) o.1,
        )
  ]

-- A call that has begun has none of its document before it that is not over.
pub all_released-before :
    (t : ℕ) (d : String) (calls : List QueuedCall) (c : QueuedCall)
    → IsOrdered d calls
    → find_call t calls ≡ some c
    → c.document_id ≡ d
    → is_waiting c.phase ≡ false
    → all_released d (before t calls) ≡ true
all_released-before t d [] c o h own began = absurd (cc)
all_released-before t d (x ∷ older) c o h own began = elim (Bool-cases (nat_eq x.ticket t)) [
  | inl hit ↦
      let same : c ≡ x = ground arith in
      let turn = o.0 (subst (λ (y : QueuedCall). y.document_id ≡ d) same own) in
      rw hit (turn.after (subst (λ (y : QueuedCall). is_waiting y.phase ≡ false) same began))
  | inr miss ↦ rw miss (all_released-before t d older c o.1 (ground arith) own began)
]

Precedes-older : (p : Option ℕ) (m n : ℕ) → Precedes p m → m ≤ n → Precedes p n
Precedes-older none m n h k = tt
Precedes-older (some s) m n h k = omega arith

Precedes-found :
    (t : ℕ) (calls : List QueuedCall) (c : QueuedCall)
    → IsNumbered calls
    → find_call t calls ≡ some c
    → Precedes c.previous (length calls)
Precedes-found t [] c n h = absurd (cc)
Precedes-found t (x ∷ older) c n h = elim (Bool-cases (nat_eq x.ticket t)) [
  | inl hit ↦
      let same : x ≡ c = ground arith in
      subst (λ (y : QueuedCall). Precedes y.previous (suc (length older))) same
        (Precedes-older x.previous (length older) (suc (length older)) n.1 (omega arith))
  | inr miss ↦
      Precedes-older c.previous (length older) (suc (length older))
        (Precedes-found t older c n.2 (ground arith)) (omega arith)
]

released_of_Follows :
    (d : String) (older : List QueuedCall) (p : Option ℕ)
    → IsNumbered older
    → IsOrdered d older
    → Follows p d older
    → is_resolved older p ≡ true
    → all_released d older ≡ true
released_of_Follows d older none n o f r = f
released_of_Follows d older (some s) n o (y, last, same) r =
    all_released-of_resolved d older y n o last (rw same r)

-- The same once the promise that a call awaits is resolved.
pub all_released_of_resolved :
    (t : ℕ) (d : String) (calls : List QueuedCall) (c : QueuedCall)
    → IsNumbered calls
    → IsOrdered d calls
    → find_call t calls ≡ some c
    → c.document_id ≡ d
    → is_resolved calls c.previous ≡ true
    → all_released d (before t calls) ≡ true
all_released_of_resolved t d [] c n o h own r = absurd (cc)
all_released_of_resolved t d (x ∷ older) c n o h own r = elim (Bool-cases (nat_eq x.ticket t)) [
  | inl hit ↦
      let same : c ≡ x = ground arith in
      let r' = subst (λ (y : QueuedCall). is_resolved (x ∷ older) y.previous ≡ true) same r in
      rw hit (
        released_of_Follows d older x.previous n.2 o.1
          (o.0 (subst (λ (y : QueuedCall). y.document_id ≡ d) same own)).follows
          (rw (← is_resolved-older x older x.previous n.0 n.1) r'))
  | inr miss ↦
      let h' : find_call t older ≡ some c = ground arith in
      rw miss (
        all_released_of_resolved t d older c n.2 o.1 h' own
          (rw (← is_resolved-older x older c.previous n.0 (Precedes-found t older c n.2 h')) r))
]

-- The other way.
pub resolved_of_all_released :
    (t : ℕ) (d : String) (calls : List QueuedCall) (c : QueuedCall)
    → IsNumbered calls
    → IsOrdered d calls
    → find_call t calls ≡ some c
    → c.document_id ≡ d
    → all_released d (before t calls) ≡ true
    → is_resolved calls c.previous ≡ true
resolved_of_all_released t d [] c n o h own r = absurd (cc)
resolved_of_all_released t d (x ∷ older) c n o h own r = elim (Bool-cases (nat_eq x.ticket t)) [
  | inl hit ↦
      let same : x ≡ c = ground arith in
      let over = rw hit at r in
      let turn = o.0 (subst (λ (y : QueuedCall). y.document_id ≡ d) (sym same) own) in
      subst (λ (y : QueuedCall). is_resolved (x ∷ older) y.previous ≡ true) same
        (rw (is_resolved-older x older x.previous n.0 n.1) (
          Follows-resolved d older x.previous turn.follows
            (λ y last. resolved-of_all_released d older y n.2 o.1 last over)))
  | inr miss ↦
      let h' : find_call t older ≡ some c = ground arith in
      rw (is_resolved-older x older c.previous n.0 (Precedes-found t older c n.2 h'))
        (resolved_of_all_released t d older c n.2 o.1 h' own (rw miss at r))
]

-- The counters and the promise of a document when a call of it is over.
pub finished :
    (t : ℕ) (d : String) (calls : List QueuedCall) (c : QueuedCall)
    → IsNumbered calls
    → find_call t calls ≡ some c
    → is_running c.phase ≡ true
    → c.document_id ≡ d
    → (open_count d calls ≡ suc (open_count d (with_phase t Phase.released calls)))
      × (open_tail (newest d (with_phase t Phase.released calls))
          ≡ unless_ticket t (open_tail (newest d calls)))
finished t d [] c n h e own = absurd (cc)
finished t d (x ∷ older) c n h e own =
    ground (arith, ==_of_eq c.document_id d own, finished t d older c n.2)

-- Beginning changes neither.
pub begun :
    (t : ℕ) (d : String) (calls : List QueuedCall) (c : QueuedCall)
    → find_call t calls ≡ some c
    → is_waiting c.phase ≡ true
    → (open_count d (with_phase t Phase.running calls) ≡ open_count d calls)
      × (open_tail (newest d (with_phase t Phase.running calls)) ≡ open_tail (newest d calls))
begun t d [] c h e = absurd (cc)
begun t d (x ∷ older) c h e = ground (arith, begun t d older c)
