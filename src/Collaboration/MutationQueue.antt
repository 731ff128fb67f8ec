-- ===== src/Collaboration/MutationQueue.antt =====
-- src/modules/uml-domain/document-mutation-queue.service.ts. The part of `enqueue` before its first
-- `await` and its `finally` block run without interruption; in between a call waits for the promise
-- `previous`, then for its operation. A call is told apart by its ticket, the number of the calls
-- before it, and its promise `tail` is named by that ticket.
pub mod Order
pub mod Moves
pub mod Steps
pub mod Kept
pub mod Invariant
pub mod Exclusion
pub mod Bounds
pub mod Progress
use uml_class_designer_be.Common.{
  ℕ, zero, suc, ◌-◌, max, String, Bool, true, false, ◌&&◌, ◌≡◌, Option, none, some, List, [], ◌∷◌,
  lookup, insert, erase, length, find, leb, nat_eq, if◌then◌else◌,
}

pub data Priority : Type 0 where
  standard critical : Priority

-- Where a call of `enqueue` is: before its operation, in it, or after its `finally` block.
pub data Phase : Type 0 where
  waiting running released : Phase

-- `previous` is the promise that the call awaits; none is `Promise.resolve()`.
pub record QueuedCall : Type 0 where
  pub ticket : ℕ
  pub document_id : String
  pub previous : Option ℕ
  pub phase : Phase

-- The two maps, and the promises: the calls that were admitted, the last one first.
pub record MutationQueue : Type 0 where
  pub tails : List (String × ℕ)
  pub pending_by_document : List (String × ℕ)
  pub calls : List QueuedCall

abbrev pub is_waiting : Phase → Bool
is_waiting Phase.waiting = true
is_waiting _ = false

abbrev pub is_running : Phase → Bool
is_running Phase.running = true
is_running _ = false

abbrev pub is_released : Phase → Bool
is_released Phase.released = true
is_released _ = false

-- `value ?? fallback`
abbrev pub or_else : Option ℕ → ℕ → ℕ
or_else none fallback = fallback
or_else (some n) fallback = n

abbrev pub find_call : ℕ → List QueuedCall → Option QueuedCall
find_call ticket calls = find (λ c. nat_eq c.ticket ticket) calls

-- `pending >= standardCapacity` or `pending >= capacity`
unfoldable pub is_full : ℕ → Priority → ℕ → Bool
is_full capacity Priority.standard pending = leb (max 1 (capacity - 1)) pending
is_full capacity Priority.critical pending = leb capacity pending

-- `pendingByDocument.set`, `tails.get` and `tails.set`
abbrev pub admitted : String → MutationQueue → MutationQueue
admitted id q = record {
  pending_by_document =
      insert id (suc (or_else (lookup id q.pending_by_document) 0)) q.pending_by_document;
  tails = insert id (length q.calls) q.tails;
  calls =
      record {
        ticket = length q.calls;
        document_id = id;
        previous = lookup id q.tails;
        phase = Phase.waiting;
      }
      ∷ q.calls;
}

-- The start of `enqueue`; no queue is the error that it is overloaded.
unfoldable pub enqueue : ℕ → Priority → String → MutationQueue → Option MutationQueue
enqueue capacity priority id q =
    if is_full capacity priority (or_else (lookup id q.pending_by_document) 0)
    then none
    else some (admitted id q)

-- Whether a promise is resolved: of the `tail` of a call, `previous` has to be, and then `current`.
abbrev pub is_resolved : List QueuedCall → Option ℕ → Bool
is_resolved calls none = true
is_resolved [] (some ticket) = false
is_resolved (c ∷ older) (some ticket) = elim (nat_eq c.ticket ticket) [
  | true ↦ is_released c.phase && is_resolved older c.previous
  | false ↦ is_resolved older (some ticket)
]

-- the call with this ticket, in another phase
abbrev pub with_phase : ℕ → Phase → List QueuedCall → List QueuedCall
with_phase ticket phase [] = []
with_phase ticket phase (c ∷ older) =
    if nat_eq c.ticket ticket
    then record c { phase = phase } ∷ older
    else c ∷ with_phase ticket phase older

-- `await previous` is over and the operation starts.
unfoldable pub begin_operation : ℕ → MutationQueue → Option MutationQueue
begin_operation ticket q = elim (find_call ticket q.calls) [
  | none ↦ none
  | some c ↦
      if is_waiting c.phase && is_resolved q.calls c.previous
      then some (record q { calls = with_phase ticket Phase.running q.calls })
      else none
]

-- `if (this.tails.get(documentId) === tail) this.tails.delete(documentId)`
unfoldable pub without_tail : String → ℕ → List (String × ℕ) → List (String × ℕ)
without_tail id ticket tails = elim (lookup id tails) [
  | none ↦ tails
  | some t ↦ if nat_eq t ticket then erase id tails else tails
]

unfoldable pub with_remaining : String → ℕ → List (String × ℕ) → List (String × ℕ)
with_remaining id zero pending = erase id pending
with_remaining id (suc n) pending = insert id (suc n) pending

-- the `finally` block of a call
abbrev pub settled : QueuedCall → MutationQueue → MutationQueue
settled c q = record {
  tails = without_tail c.document_id c.ticket q.tails;
  pending_by_document =
      with_remaining c.document_id (or_else (lookup c.document_id q.pending_by_document) 1 - 1)
        q.pending_by_document;
  calls = with_phase c.ticket Phase.released q.calls;
}

-- The operation has returned or thrown.
unfoldable pub finish_operation : ℕ → MutationQueue → Option MutationQueue
finish_operation ticket q = elim (find_call ticket q.calls) [
  | none ↦ none
  | some c ↦ if is_running c.phase then some (settled c q) else none
]

unfoldable pub on_application_shutdown : MutationQueue → MutationQueue
on_application_shutdown q = record q { tails = []; pending_by_document = [] }

abbrev pub empty_queue : MutationQueue
empty_queue = record { tails = []; pending_by_document = []; calls = [] }

-- What may happen until the application shuts down, at a configured capacity.
pub data Step (capacity : ℕ) (q r : MutationQueue) : Type 0 where
  enqueues : (p : Priority) (id : String) → enqueue capacity p id q ≡ some r → Step capacity q r
  begins : (ticket : ℕ) → begin_operation ticket q ≡ some r → Step capacity q r
  finishes : (ticket : ℕ) → finish_operation ticket q ≡ some r → Step capacity q r

pub data Reaches (capacity : ℕ) : MutationQueue → Type 0 where
  start : Reaches capacity empty_queue
  next : {q r : MutationQueue} → Reaches capacity q → Step capacity q r → Reaches capacity r
