-- ===== src/Collaboration/MutationQueue/Exclusion.antt =====
-- document-mutation-queue.service.ts: the operations of a document run one at a time, in order.
use mathlib.Core.List.{Memᴰ}
use uml_class_designer_be.Common.{
  ℕ, ◌<◌, String, true, false, not, ◌||◌, ◌≡◌, refl, ◌⊎◌, inl, inr, some, List, [], ◌∷◌, length,
  nat_eq, ◌==◌, arith, Bool-cases, ==_of_eq, subst, sym, some_inj, ◌∙◌,
}
use uml_class_designer_be.Collaboration.MutationQueue.{
  Phase, QueuedCall, MutationQueue, is_waiting, is_released, find_call, Reaches,
}
use uml_class_designer_be.Collaboration.MutationQueue.Order.{all_released, IsNumbered, and_both}
use uml_class_designer_be.Collaboration.MutationQueue.Moves.{before, all_released-before}
use uml_class_designer_be.Collaboration.MutationQueue.Invariant.{Reaches-IsConsistent}
use uml_class_designer_be.Collaboration.MutationQueue.Kept.{IsConsistent}

pub find_call_of_Memᴰ :
    (calls : List QueuedCall) (c : QueuedCall)
    → IsNumbered calls
    → Memᴰ c calls
    → (find_call c.ticket calls ≡ some c) × (c.ticket < length calls)
find_call_of_Memᴰ [] c n m = elim m [ ]
find_call_of_Memᴰ (x ∷ older) c n (Memᴰ.head e) = ground (arith, e)
find_call_of_Memᴰ (x ∷ older) c n (Memᴰ.tail m) = ground (arith, find_call_of_Memᴰ older c n.2 m)

released_of_all : (p : Phase) → is_released p ≡ true → p ≡ Phase.released
released_of_all Phase.waiting h = cc
released_of_all Phase.running h = cc
released_of_all Phase.released h = refl

pub all_released-Memᴰ :
    (d : String) (calls : List QueuedCall) (y : QueuedCall)
    → all_released d calls ≡ true
    → Memᴰ y calls
    → y.document_id ≡ d
    → y.phase ≡ Phase.released
all_released-Memᴰ d [] y h m own = elim m [ ]
all_released-Memᴰ d (x ∷ older) y h (Memᴰ.head e) own =
    released_of_all y.phase (ground (arith, e, ==_of_eq y.document_id d own))
all_released-Memᴰ d (x ∷ older) y h (Memᴰ.tail m) own =
    all_released-Memᴰ d older y
      (and_both (not (x.document_id == d) || is_released x.phase) (all_released d older) h).1 m own

Memᴰ-before :
    (t : ℕ) (calls : List QueuedCall) (y : QueuedCall)
    → IsNumbered calls
    → Memᴰ y calls
    → y.ticket < t
    → t < length calls
    → Memᴰ y (before t calls)
Memᴰ-before t [] y n m lt below = elim m [ ]
Memᴰ-before t (x ∷ older) y n (Memᴰ.head e) lt below = absurd (ground (arith, e))
Memᴰ-before t (x ∷ older) y n (Memᴰ.tail m) lt below = elim (Bool-cases (nat_eq x.ticket t)) [
  | inl hit ↦ rw hit m
  | inr miss ↦ rw miss (Memᴰ-before t older y n.2 m lt (ground arith))
]

earlier_released :
    (q : MutationQueue) (x y : QueuedCall)
    → IsConsistent q
    → Memᴰ x q.calls
    → Memᴰ y q.calls
    → x.document_id ≡ y.document_id
    → is_waiting x.phase ≡ false
    → y.ticket < x.ticket
    → y.phase ≡ Phase.released
earlier_released q x y c mx my same began lt =
    let (found, below) = find_call_of_Memᴰ q.calls x c.numbered mx in
    all_released-Memᴰ x.document_id (before x.ticket q.calls) y
      (all_released-before x.ticket x.document_id q.calls x (c.kept x.document_id).ordered found
        refl began)
      (Memᴰ-before x.ticket q.calls y c.numbered my lt below) (sym same)

pub Phase-cases : (p : Phase) → (p ≡ Phase.waiting) ⊎ (is_waiting p ≡ false)
Phase-cases Phase.waiting = inl refl
Phase-cases Phase.running = inr refl
Phase-cases Phase.released = inr refl

-- While an operation runs on a document, every call of that document that was admitted before is
-- over, every one that was admitted after it still waits, and there is no other under its ticket.
pub Reaches-IsExclusive :
    {capacity : ℕ} {q : MutationQueue} (x y : QueuedCall)
    → Reaches capacity q
    → Memᴰ x q.calls
    → Memᴰ y q.calls
    → x.document_id ≡ y.document_id
    → x.phase ≡ Phase.running
    → (y.ticket < x.ticket → y.phase ≡ Phase.released)
      × (x.ticket < y.ticket → y.phase ≡ Phase.waiting)
      × (x.ticket ≡ y.ticket → x ≡ y)
Reaches-IsExclusive {q = q} x y r mx my same run =
    let c = Reaches-IsConsistent r in
    (
      earlier_released q x y c mx my same (ground (arith, run)),
      λ lt. elim (Phase-cases y.phase) [
        | inl w ↦ w
        | inr began ↦
            absurd (ground (arith, run, earlier_released q y x c my mx (sym same) began lt))
      ],
      λ e. some_inj (
          sym (find_call_of_Memᴰ q.calls x c.numbered mx).0
          ∙ subst (λ (t : ℕ). find_call t q.calls ≡ some y) (sym e)
              (find_call_of_Memᴰ q.calls y c.numbered my).0),
    )
