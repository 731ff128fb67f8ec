-- ===== src/Collaboration/MutationQueue/Bounds.antt =====
-- document-mutation-queue.service.ts: how many calls of a document are pending.
use uml_class_designer_be.Common.{
  ℕ, zero, suc, ◌≤◌, max, String, false, ◌≡◌, refl, inl, inr, none, some, List, [], ◌∷◌, lookup,
  arith, ==-cases, subst, sym,
}
use uml_class_designer_be.Collaboration.MutationQueue.{
  Priority, Phase, QueuedCall, MutationQueue, find_call, is_full, or_else, admitted, enqueues,
  begins, finishes, Reaches, start, next,
}
use uml_class_designer_be.Collaboration.MutationQueue.Steps.{
  enqueue-inverse, begin_operation-inverse, finish_operation-inverse,
}
use uml_class_designer_be.Collaboration.MutationQueue.Order.{
  newest, open_tail, open_count, find_call-lt,
}
use uml_class_designer_be.Collaboration.MutationQueue.Moves.{with_phase_other, begun, finished}
use uml_class_designer_be.Collaboration.MutationQueue.Invariant.{Reaches-IsConsistent}
use uml_class_designer_be.Collaboration.MutationQueue.Kept.{IsKept, IsConsistent, positive}

found_again :
    (t : ℕ) (q : MutationQueue) (x : QueuedCall)
    → IsConsistent q
    → find_call t q.calls ≡ some x
    → find_call x.ticket q.calls ≡ some x
found_again t q x c h =
    let (below, same) = find_call-lt t q.calls x c.numbered h in
    subst (λ (n : ℕ). find_call n q.calls ≡ some x) (sym same) h

open_tail-none :
    (d : String) (calls : List QueuedCall)
    → open_count d calls ≡ 0
    → open_tail (newest d calls) ≡ none
open_tail-none d [] h = refl
open_tail-none d (x ∷ older) h = ground (arith, open_tail-none d older)

or_else-positive : (n : ℕ) → or_else (positive n) 0 ≡ n
or_else-positive zero = refl
or_else-positive (suc n) = refl

is_full-bound :
    (capacity : ℕ) (p : Priority) (n : ℕ) → is_full capacity p n ≡ false → suc n ≤ max 1 capacity
unfolding is_full
is_full-bound capacity Priority.standard n h = grind arith
is_full-bound capacity Priority.critical n h = grind arith

open_count-admitted :
    (capacity : ℕ) (p : Priority) (id d : String) (q : MutationQueue)
    → IsKept id q
    → is_full capacity p (or_else (lookup id q.pending_by_document) 0) ≡ false
    → open_count d q.calls ≤ max 1 capacity
    → open_count d (admitted id q).calls ≤ max 1 capacity
open_count-admitted capacity p id d q k room h = elim (==-cases id d) [
  | inl own ↦
      let pending = rw (k.pending, or_else-positive (open_count id q.calls)) at room in
      rw own.0 (
        subst (λ (s : String). suc (open_count s q.calls) ≤ max 1 capacity) own.1
          (is_full-bound capacity p (open_count id q.calls) pending))
  | inr other ↦ rw other.0 h
]

open_count-le :
    {capacity : ℕ} {q : MutationQueue} (d : String)
    → Reaches capacity q
    → open_count d q.calls ≤ max 1 capacity
open_count-le d start = omega arith
open_count-le {capacity} d (next {q} reached (enqueues p id h)) =
    let (room, e) = enqueue-inverse capacity p id q _ h in
    let k = (Reaches-IsConsistent reached).kept in
    rw e (open_count-admitted capacity p id d q (k id) room (open_count-le d reached))
open_count-le {capacity} d (next {q} reached (begins t h)) =
    let (x, found, w, ready, e) = begin_operation-inverse t q _ h in
    rw (e, (begun t d q.calls x found w).0) (open_count-le d reached)
open_count-le {capacity} d (next {q} reached (finishes t h)) =
    let (x, found, w, e) = finish_operation-inverse t q _ h in
    let c = Reaches-IsConsistent reached in
    rw e (elim (==-cases x.document_id d) [
      | inl own ↦ omega (
        arith,
        (finished x.ticket d q.calls x c.numbered (found_again t q x c found) w own.1).0,
        open_count-le {capacity = capacity} d reached,
      )
      | inr other ↦
          rw
            (with_phase_other x.ticket Phase.released d q.calls x (found_again t q x c found)
              other.0).1
            (open_count-le d reached)
    ])

-- The map of pending calls counts those of a document that are not over, which are never more
-- than the capacity or one, and both maps forget a document that has none.
pub Reaches-IsBounded :
    {capacity : ℕ} {q : MutationQueue} (d : String)
    → Reaches capacity q
    → (or_else (lookup d q.pending_by_document) 0 ≡ open_count d q.calls)
      × (open_count d q.calls ≤ max 1 capacity)
      × (open_count d q.calls ≡ 0
          → (lookup d q.pending_by_document ≡ none) × (lookup d q.tails ≡ none))
Reaches-IsBounded {capacity} {q} d r =
    let k = (Reaches-IsConsistent r).kept d in
    (
      rw k.pending (or_else-positive (open_count d q.calls)),
      open_count-le d r,
      λ e. (rw (k.pending, e), rw k.tail (open_tail-none d q.calls e)),
    )
