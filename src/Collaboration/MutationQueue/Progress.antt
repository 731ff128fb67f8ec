-- ===== src/Collaboration/MutationQueue/Progress.antt =====
-- document-mutation-queue.service.ts: a call that waits is never stuck.
use mathlib.Core.List.{Memᴰ}
use uml_class_designer_be.Common.{
  ℕ, String, true, false, ◌≡◌, refl, ◌⊎◌, inl, inr, some, List, [], ◌∷◌, arith, Bool-cases, eq_iff,
}
use uml_class_designer_be.Collaboration.MutationQueue.{
  Phase, QueuedCall, MutationQueue, is_released, with_phase, settled, begin_operation,
  finish_operation, Reaches,
}
use uml_class_designer_be.Collaboration.MutationQueue.Order.{all_released, IsNumbered}
use uml_class_designer_be.Collaboration.MutationQueue.Moves.{before, resolved_of_all_released}
use uml_class_designer_be.Collaboration.MutationQueue.Invariant.{Reaches-IsConsistent}
use uml_class_designer_be.Collaboration.MutationQueue.Exclusion.{
  find_call_of_Memᴰ, all_released-Memᴰ, Phase-cases,
}

-- The first call of a document that is not over.
first_open :
    (d : String) (calls : List QueuedCall)
    → IsNumbered calls
    → all_released d calls ≡ false
    → (x : QueuedCall) × Memᴰ x calls
      × (x.document_id ≡ d)
      × (is_released x.phase ≡ false)
      × (all_released d (before x.ticket calls) ≡ true)
first_open d [] n h = absurd (cc)
first_open d (x ∷ older) n h = elim (Bool-cases (all_released d older)) [
  | inl over ↦
      (x, Memᴰ.head refl, (eq_iff x.document_id d).0 (ground arith), ground arith, ground arith)
  | inr some_open ↦
      let (y, m, own, still, first) = first_open d older n.2 some_open in
      let (found, below) = find_call_of_Memᴰ older y n.2 m in
      (y, Memᴰ.tail m, own, still, ground arith)
]

some_open :
    (q : MutationQueue) (y : QueuedCall)
    → Memᴰ y q.calls
    → y.phase ≡ Phase.waiting
    → all_released y.document_id q.calls ≡ false
some_open q y m w = elim (Bool-cases (all_released y.document_id q.calls)) [
  | inl over ↦
      let done = all_released-Memᴰ y.document_id q.calls y over m refl in absurd (ground arith)
  | inr e ↦ e
]

-- While a call waits, some call of its document can begin its operation or is in it, and can then
-- finish.
pub Reaches-Progresses :
    {capacity : ℕ} {q : MutationQueue} (y : QueuedCall)
    → Reaches capacity q
    → Memᴰ y q.calls
    → y.phase ≡ Phase.waiting
    → (x : QueuedCall) × (next : MutationQueue) × (x.document_id ≡ y.document_id)
      × ((begin_operation x.ticket q ≡ some next) ⊎ (finish_operation x.ticket q ≡ some next))
unfolding begin_operation finish_operation
Reaches-Progresses {q = q} y r m w =
    let c = Reaches-IsConsistent r in
    let (x, mx, own, still, first) =
      first_open y.document_id q.calls c.numbered (some_open q y m w) in
    let (found, below) = find_call_of_Memᴰ q.calls x c.numbered mx in
    elim (Phase-cases x.phase) [
      | inl waits ↦
          let ready =
            resolved_of_all_released x.ticket y.document_id q.calls x c.numbered
              (c.kept y.document_id).ordered found own first in
          (
            x,
            record q { calls = with_phase x.ticket Phase.running q.calls },
            own,
            inl (ground (arith, found, ready, waits)),
          )
      | inr began ↦ (x, settled x q, own, inr (ground (arith, found, still, began)))
    ]
