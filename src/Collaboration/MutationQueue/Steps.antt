-- ===== src/Collaboration/MutationQueue/Steps.antt =====
-- document-mutation-queue.service.ts: what a step has found and done, read off its result.
use uml_class_designer_be.Common.{
  ℕ, String, true, false, ◌≡◌, inl, inr, some, lookup, arith, Bool-cases, Option-cases, sym,
  some_inj,
}
use uml_class_designer_be.Collaboration.MutationQueue.{
  Priority, Phase, QueuedCall, MutationQueue, is_waiting, is_running, find_call, is_resolved,
  with_phase, is_full, or_else, admitted, settled, enqueue, begin_operation, finish_operation,
}

-- What a step did, in the words of the source.
pub enqueue-inverse :
    (capacity : ℕ) (p : Priority) (id : String) (q r : MutationQueue)
    → enqueue capacity p id q ≡ some r
    → (is_full capacity p (or_else (lookup id q.pending_by_document) 0) ≡ false)
      × (r ≡ admitted id q)
unfolding enqueue
enqueue-inverse capacity p id q r h =
    elim (Bool-cases (is_full capacity p (or_else (lookup id q.pending_by_document) 0))) [
      | inl full ↦ absurd (cc (rw full at h))
      | inr room ↦ (room, sym (some_inj (rw room at h)))
    ]

pub begin_operation-inverse :
    (t : ℕ) (q r : MutationQueue)
    → begin_operation t q ≡ some r
    → (x : QueuedCall) × (find_call t q.calls ≡ some x)
      × (is_waiting x.phase ≡ true)
      × (is_resolved q.calls x.previous ≡ true)
      × (r ≡ record q { calls = with_phase t Phase.running q.calls })
unfolding begin_operation
begin_operation-inverse t q r h = elim (Option-cases (find_call t q.calls)) [
  | inl nobody ↦ absurd (ground (arith, nobody))
  | inr (x, found) ↦ (x, found, ground (arith, found), ground (arith, found), ground (arith, found))
]

pub finish_operation-inverse :
    (t : ℕ) (q r : MutationQueue)
    → finish_operation t q ≡ some r
    → (x : QueuedCall) × (find_call t q.calls ≡ some x)
      × (is_running x.phase ≡ true)
      × (r ≡ settled x q)
unfolding finish_operation
finish_operation-inverse t q r h = elim (Option-cases (find_call t q.calls)) [
  | inl nobody ↦ absurd (ground (arith, nobody))
  | inr (x, found) ↦ (x, found, ground (arith, found), ground (arith, found))
]
