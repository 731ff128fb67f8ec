-- ===== src/Collaboration/QueueTests.antt =====
-- The mutation queue on three calls: tests, and the theorems at a moment that is reached.
use mathlib.Core.List.{Memᴰ}
use uml_class_designer_be.Common.{
  ℕ, ◌≤◌, ◌<◌, max, ◌≡◌, ◌≢◌, refl, ◌⊎◌, Option, none, some, [], ◌∷◌, lookup,
}
use uml_class_designer_be.Collaboration.MutationQueue.{
  Priority, Phase, QueuedCall, MutationQueue, or_else, is_full, enqueue, begin_operation,
  finish_operation, without_tail, with_remaining, enqueues, begins, Reaches, start, next,
  empty_queue,
}
use uml_class_designer_be.Collaboration.MutationQueue.Order.{open_count}
use uml_class_designer_be.Collaboration.MutationQueue.Exclusion.{Reaches-IsExclusive}
use uml_class_designer_be.Collaboration.MutationQueue.Bounds.{Reaches-IsBounded}
use uml_class_designer_be.Collaboration.MutationQueue.Progress.{Reaches-Progresses}

abbrev call : ℕ → Option ℕ → Phase → QueuedCall
call ticket previous phase = record {
  ticket = ticket;
  document_id = "d";
  previous = previous;
  phase = phase;
}

-- two calls of one document, the first in its operation
abbrev busy : MutationQueue
busy = record {
  tails = ("d", 1) ∷ [];
  pending_by_document = ("d", 2) ∷ [];
  calls = call 1 (some 0) Phase.waiting ∷ call 0 none Phase.running ∷ [];
}

unfoldable queue : Unit {0}
unfolding enqueue is_full begin_operation finish_operation without_tail with_remaining
queue = tt

first_call :
    enqueue 4 Priority.standard "d" empty_queue
    ≡ some (record {
      tails = ("d", 0) ∷ [];
      pending_by_document = ("d", 1) ∷ [];
      calls = call 0 none Phase.waiting ∷ [];
    })
unfolding queue
first_call = refl

busy-Reaches : Reaches 4 busy
unfolding queue
busy-Reaches =
    next (next (next start (enqueues Priority.standard "d" refl)) (begins 0 refl))
      (enqueues Priority.critical "d" refl)

-- The second call has to wait for the first.
second_waits : begin_operation 1 busy ≡ none
unfolding queue
second_waits = refl

-- With a capacity of three, a standard call is refused here and a critical one is not.
full : (enqueue 3 Priority.standard "d" busy ≡ none) × (enqueue 3 Priority.critical "d" busy ≢ none)
unfolding queue
full = (refl, λ e. cc)

Reaches-IsExclusive_example :
    (1 < 0 → Phase.waiting ≡ Phase.released)
    × (0 < 1 → Phase.waiting ≡ Phase.waiting)
    × (◌≡◌ {A = ℕ} 0 1 → call 0 none Phase.running ≡ call 1 (some 0) Phase.waiting)
Reaches-IsExclusive_example =
    Reaches-IsExclusive (call 0 none Phase.running) (call 1 (some 0) Phase.waiting) busy-Reaches
      (Memᴰ.tail (Memᴰ.head refl)) (Memᴰ.head refl) refl refl

Reaches-IsBounded_example :
    (or_else (lookup "d" busy.pending_by_document) 0 ≡ open_count "d" busy.calls)
    × (open_count "d" busy.calls ≤ max 1 4)
    × (open_count "d" busy.calls ≡ 0
        → (lookup "d" busy.pending_by_document ≡ none) × (lookup "d" busy.tails ≡ none))
Reaches-IsBounded_example = Reaches-IsBounded "d" busy-Reaches

Reaches-Progresses_example :
    (x : QueuedCall) × (next : MutationQueue) × (x.document_id ≡ "d")
    × ((begin_operation x.ticket busy ≡ some next) ⊎ (finish_operation x.ticket busy ≡ some next))
Reaches-Progresses_example =
    Reaches-Progresses (call 1 (some 0) Phase.waiting) busy-Reaches (Memᴰ.head refl) refl
