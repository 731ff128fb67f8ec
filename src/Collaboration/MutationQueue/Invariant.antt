-- ===== src/Collaboration/MutationQueue/Invariant.antt =====
-- document-mutation-queue.service.ts: the two maps agree with the calls, at every moment.
use uml_class_designer_be.Common.{
  ℕ, suc, ◌-◌, String, true, ◌≡◌, refl, inl, inr, some, List, [], ◌∷◌, lookup, lookup-insert,
  length, arith, Bool-cases, Option-cases, ==-cases, subst, sym,
}
use uml_class_designer_be.Collaboration.MutationQueue.{
  Phase, QueuedCall, MutationQueue, is_waiting, is_running, is_released, find_call, is_resolved,
  with_phase, or_else, admitted, settled, Step, enqueues, begins, finishes, Reaches, start, next,
}
use uml_class_designer_be.Collaboration.MutationQueue.Steps.{
  enqueue-inverse, begin_operation-inverse, finish_operation-inverse,
}
use uml_class_designer_be.Collaboration.MutationQueue.Order.{
  newest, open_tail, Precedes, IsNumbered, Follows, IsOrdered, find_call-lt, newest-lt,
  all_released-cons,
}
use uml_class_designer_be.Collaboration.MutationQueue.Moves.{
  with_phase-IsNumbered, with_phase-IsOrdered, all_released-before, all_released_of_resolved, begun,
}
use uml_class_designer_be.Collaboration.MutationQueue.Kept.{
  IsConsistent, lookup-without_tail, lookup-with_remaining, released_by_phase, not_over,
  begun_phase, Follows-past, Precedes-one, pending_admitted, tail_released, pending_released,
}

-- What a new call awaits is in order.
Follows-open_tail :
    (d : String) (calls : List QueuedCall)
    → IsOrdered d calls
    → Follows (open_tail (newest d calls)) d calls
Follows-open_tail d [] o = refl
Follows-open_tail d (x ∷ older) o = elim (==-cases x.document_id d) [
  | inl own ↦ elim (Bool-cases (is_released x.phase)) [
    | inl over ↦
        rw (own.0, over)
          (all_released-cons d x older (inr over)
            ((o.0 own.1).after (released_by_phase x.phase over)))
    | inr still ↦ rw (own.0, still) (x, ground (arith, own.0), refl)
  ]
  | inr other ↦
      rw other.0 (
        Follows-past d x older (open_tail (newest d older)) other.0 (Follows-open_tail d older o.1))
]

Precedes-open_tail :
    (d : String) (calls : List QueuedCall)
    → IsNumbered calls
    → Precedes (open_tail (newest d calls)) (length calls)
Precedes-open_tail d calls n = elim (Option-cases (newest d calls)) [
  | inl nobody ↦ rw nobody tt
  | inr (y, last) ↦ rw last (Precedes-one y (length calls) (newest-lt d calls y n last))
]

-- A new call.
admitted-IsConsistent :
    (id : String) (q : MutationQueue) → IsConsistent q → IsConsistent (admitted id q)
admitted-IsConsistent id q c = record {
  numbered = (refl, rw (c.kept id).tail (Precedes-open_tail id q.calls c.numbered), c.numbered);
  kept = λ d.
      let k = c.kept d in
      record {
        ordered = (
          λ own. record {
            follows = rw (own, k.tail) (Follows-open_tail d q.calls k.ordered);
            after = λ began. absurd (cc);
          },
          k.ordered,
        );
        tail = rw (lookup-insert id d (length q.calls) q.tails) (ground (arith, k.tail));
        pending =
            rw
              (lookup-insert id d (suc (or_else (lookup id q.pending_by_document) 0))
                q.pending_by_document)
              (pending_admitted id d q k);
      };
}

-- A call that begins.
begins-IsConsistent :
    (t : ℕ) (q : MutationQueue) (x : QueuedCall)
    → find_call t q.calls ≡ some x
    → is_waiting x.phase ≡ true
    → is_resolved q.calls x.previous ≡ true
    → IsConsistent q
    → IsConsistent (record q { calls = with_phase t Phase.running q.calls })
begins-IsConsistent t q x h w r c = record {
  numbered = with_phase-IsNumbered t Phase.running q.calls c.numbered;
  kept = λ d.
      let k = c.kept d in
      let (count, last) = begun t d q.calls x h w in
      record {
        ordered =
            with_phase-IsOrdered t Phase.running d q.calls x h (not_over x.phase (inl w))
              (λ own. all_released_of_resolved t d q.calls x c.numbered k.ordered h own r)
              k.ordered;
        tail = rw last k.tail;
        pending = rw count k.pending;
      };
}

-- A call that is over.
settled-IsConsistent :
    (t : ℕ) (q : MutationQueue) (x : QueuedCall)
    → find_call t q.calls ≡ some x
    → is_running x.phase ≡ true
    → IsConsistent q
    → IsConsistent (settled x q)
settled-IsConsistent t q x h w c = record {
  numbered = with_phase-IsNumbered x.ticket Phase.released q.calls c.numbered;
  kept = λ d.
      let k = c.kept d in
      record {
        ordered =
            with_phase-IsOrdered x.ticket Phase.released d q.calls x h' (not_over x.phase (inr w))
              (λ own.
                all_released-before x.ticket d q.calls x k.ordered h' own (begun_phase x.phase w))
              k.ordered;
        tail =
            rw (lookup-without_tail x.document_id d x.ticket q.tails)
              (tail_released d q x c.numbered k h' w);
        pending =
            rw
              (lookup-with_remaining x.document_id d
                (or_else (lookup x.document_id q.pending_by_document) 1 - 1) q.pending_by_document)
              (pending_released d q x c.numbered k h' w);
      };
}
  where
    h' : find_call x.ticket q.calls ≡ some x
    h' =
        let (below, same) = find_call-lt t q.calls x c.numbered h in
        subst (λ (n : ℕ). find_call n q.calls ≡ some x) (sym same) h

Step-IsConsistent :
    {capacity : ℕ} {q r : MutationQueue} → Step capacity q r → IsConsistent q → IsConsistent r
Step-IsConsistent {capacity} {q} {r} (enqueues p id h) c =
    let (room, e) = enqueue-inverse capacity p id q r h in rw e (admitted-IsConsistent id q c)
Step-IsConsistent {capacity} {q} {r} (begins t h) c =
    let (x, found, w, ready, e) = begin_operation-inverse t q r h in
    rw e (begins-IsConsistent t q x found w ready c)
Step-IsConsistent {capacity} {q} {r} (finishes t h) c =
    let (x, found, w, e) = finish_operation-inverse t q r h in
    rw e (settled-IsConsistent t q x found w c)

pub Reaches-IsConsistent : {capacity : ℕ} {q : MutationQueue} → Reaches capacity q → IsConsistent q
Reaches-IsConsistent start = record {
  numbered = tt;
  kept = λ d. record { ordered = tt; tail = refl; pending = refl };
}
Reaches-IsConsistent (next r step) = Step-IsConsistent step (Reaches-IsConsistent r)
