-- ===== src/Collaboration/MutationQueue/Kept.antt =====
-- document-mutation-queue.service.ts: the entries of one document, and what releasing a call does to
-- them.
use uml_class_designer_be.Common.{
  ℕ, zero, suc, ◌-◌, ◌<◌, String, true, false, ◌≡◌, refl, ◌⊎◌, inl, inr, Option, none, some, List,
  ◌∷◌, lookup, lookup-insert, lookup-erase, ◌==◌, if◌then◌else◌, arith, Bool-cases, ==-cases, ap,
}
use uml_class_designer_be.Collaboration.MutationQueue.{
  Phase, QueuedCall, MutationQueue, is_waiting, is_running, is_released, find_call, with_phase,
  or_else, admitted, without_tail, with_remaining,
}
use uml_class_designer_be.Collaboration.MutationQueue.Order.{
  newest, open_tail, open_count, Precedes, IsNumbered, Follows, IsOrdered,
}
use uml_class_designer_be.Collaboration.MutationQueue.Moves.{
  unless_ticket, with_phase_other, finished,
}

-- A count as the map keeps it: nothing for zero.
abbrev pub positive : ℕ → Option ℕ
positive zero = none
positive (suc n) = some (suc n)

-- What holds of one document.
pub record IsKept (d : String) (q : MutationQueue) : Type 0 where
  pub ordered : IsOrdered d q.calls
  pub tail : lookup d q.tails ≡ open_tail (newest d q.calls)
  pub pending : lookup d q.pending_by_document ≡ positive (open_count d q.calls)

pub record IsConsistent (q : MutationQueue) : Type 0 where
  pub numbered : IsNumbered q.calls
  pub kept : (d : String) → IsKept d q

pub lookup-without_tail :
    (id d : String) (t : ℕ) (tails : List (String × ℕ))
    → lookup d (without_tail id t tails)
      ≡ (if id == d then unless_ticket t (lookup d tails) else lookup d tails)
unfolding without_tail
lookup-without_tail id d t tails = elim (==-cases id d) [
  | inl hit ↦ ground (arith, hit, lookup-erase id d tails, ap (λ k. lookup k tails) hit.1)
  | inr miss ↦ ground (arith, miss, lookup-erase id d tails)
]

pub lookup-with_remaining :
    (id d : String) (n : ℕ) (pending : List (String × ℕ))
    → lookup d (with_remaining id n pending) ≡ (if id == d then positive n else lookup d pending)
unfolding with_remaining
lookup-with_remaining id d zero pending = lookup-erase id d pending
lookup-with_remaining id d (suc n) pending = lookup-insert id d (suc n) pending

pub released_by_phase : (p : Phase) → is_released p ≡ true → is_waiting p ≡ false
released_by_phase Phase.waiting h = cc
released_by_phase Phase.running h = refl
released_by_phase Phase.released h = refl

pub not_over : (p : Phase) → (is_waiting p ≡ true) ⊎ (is_running p ≡ true) → is_released p ≡ false
not_over Phase.waiting h = refl
not_over Phase.running h = refl
not_over Phase.released h = ground arith

pub begun_phase : (p : Phase) → is_running p ≡ true → is_waiting p ≡ false
begun_phase Phase.waiting h = cc
begun_phase Phase.running h = refl
begun_phase Phase.released h = refl

pub Follows-past :
    (d : String) (x : QueuedCall) (older : List QueuedCall) (p : Option ℕ)
    → (x.document_id == d) ≡ false
    → Follows p d older
    → Follows p d (x ∷ older)
Follows-past d x older none other f = ground arith
Follows-past d x older (some t) other (y, last, same) = (y, ground arith, same)

pub Precedes-one : (y : QueuedCall) (n : ℕ) → y.ticket < n → Precedes (open_tail (some y)) n
Precedes-one y n h = elim (Bool-cases (is_released y.phase)) [
  | inl over ↦ rw over tt
  | inr still ↦ rw still h
]

or_else-positive : (n : ℕ) → some (suc (or_else (positive n) 0)) ≡ positive (suc n)
or_else-positive zero = refl
or_else-positive (suc n) = refl

positive_pred : (n : ℕ) → positive (or_else (positive (suc n)) 1 - 1) ≡ positive n
positive_pred n = ground arith

pub pending_admitted :
    (id d : String) (q : MutationQueue)
    → IsKept d q
    → (if id == d
        then some (suc (or_else (lookup id q.pending_by_document) 0))
        else lookup d q.pending_by_document)
      ≡ positive (open_count d (admitted id q).calls)
pending_admitted id d q k = elim (==-cases id d) [
  | inl own ↦ rw (own.0, own.1, k.pending) (or_else-positive (open_count d q.calls))
  | inr other ↦ rw other.0 k.pending
]

module _ (d : String) (q : MutationQueue) (x : QueuedCall) (n : IsNumbered q.calls) (k : IsKept d q)
    (h : find_call x.ticket q.calls ≡ some x) (w : is_running x.phase ≡ true) where
  pub tail_released :
      (if x.document_id == d then unless_ticket x.ticket (lookup d q.tails) else lookup d q.tails)
      ≡ open_tail (newest d (with_phase x.ticket Phase.released q.calls))
  tail_released = elim (==-cases x.document_id d) [
    | inl own ↦
        let (count, last) = finished x.ticket d q.calls x n h w own.1 in rw (own.0, k.tail, last)
    | inr other ↦
        let (over, count, last) = with_phase_other x.ticket Phase.released d q.calls x h other.0 in
        rw (other.0, last) k.tail
  ]

  pub pending_released :
      (if x.document_id == d
        then positive (or_else (lookup x.document_id q.pending_by_document) 1 - 1)
        else lookup d q.pending_by_document)
      ≡ positive (open_count d (with_phase x.ticket Phase.released q.calls))
  pending_released = elim (==-cases x.document_id d) [
    | inl own ↦
        let (count, last) = finished x.ticket d q.calls x n h w own.1 in
        rw (own.0, own.1, k.pending, count) (positive_pred _)
    | inr other ↦
        let (over, count, last) = with_phase_other x.ticket Phase.released d q.calls x h other.0 in
        rw (other.0, count) k.pending
  ]
