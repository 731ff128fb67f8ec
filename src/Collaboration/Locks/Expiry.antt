-- ===== src/Collaboration/Locks/Expiry.antt =====
-- collaboration-lock.store.ts: `expireDocument` and the other loops that remove locks.
use uml_class_designer_be.Common.{
  ℕ, String, Bool, false, ◌≡◌, refl, inl, inr, ◌⊎◌, Option, none, some, List, [], ◌∷◌, any, lookup,
  keys, IsDistinct, All, arith, ◌==◌, eq_iff, if◌then◌else◌, Bool-cases, lookup-keys,
}
use uml_class_designer_be.Collaboration.Locks.{
  ElementLock, LockStore, or_empty, get_lock, values, document_locks, remove, remove_where,
  is_expired, expire_document, emit_change,
}
use uml_class_designer_be.Collaboration.Locks.Laws.{get_lock-remove, get_lock-emit}
use uml_class_designer_be.Collaboration.Locks.Index.{
  IsIndexed, passes, at, any-values, get_lock-remove_document, emit-IsIndexed, remove-IsIndexed,
}

-- A lock that has not expired.
abbrev pub live : ℕ → Option ElementLock → Option ElementLock
live now none = none
live now (some l) = if is_expired now l then none else some l

All-values :
    (P : ElementLock → Type 0) (m : List (String × ElementLock))
    → IsDistinct (keys m)
    → ((f : String) (l : ElementLock) → lookup f m ≡ some l → P l)
    → All P (values m)
unfolding values
All-values P [] u h = tt
All-values P ((f, l) ∷ m) u h = (
  h f l (ground (arith, eq_iff f f)),
  All-values P m u.1 (λ g q e. h g q (ground (arith, eq_iff f g, lookup-keys g m))),
)

-- The lock is there under its identifiers, or nothing is.
abbrev IsPresent : LockStore → ElementLock → Type 0
IsPresent s l =
    (get_lock s l.document_id l.element_id ≡ some l)
    ⊎ (get_lock s l.document_id l.element_id ≡ none)

remove-IsPresent :
    (s : LockStore) (l : ElementLock) (ls : List ElementLock)
    → All (IsPresent s) ls
    → All (IsPresent (remove l s)) ls
remove-IsPresent s l [] h = tt
remove-IsPresent s l (q ∷ ls) h = (
  ground (arith, h.0, get_lock-remove s l q.document_id q.element_id),
  remove-IsPresent s l ls h.1,
)

remove_where-IsIndexed :
    (p : ElementLock → Bool) (ls : List ElementLock) (s : LockStore)
    → All (IsPresent s) ls
    → IsIndexed s
    → IsIndexed (remove_where p ls s)
unfolding remove_where
remove_where-IsIndexed p [] s h v = v
remove_where-IsIndexed p (l ∷ ls) s h v = elim (Bool-cases (p l)) [
  | inl goes ↦ rw goes (
      remove_where-IsIndexed p ls (remove l s) (remove-IsPresent s l ls h.1)
        (remove-IsIndexed s l h.0 v))
  | inr stays ↦ rw stays (remove_where-IsIndexed p ls s h.1 v)
]

pub document_locks-IsPresent :
    (s : LockStore) (d : String) → IsIndexed s → All (IsPresent s) (document_locks s d)
unfolding document_locks get_lock
document_locks-IsPresent s d v =
    All-values _ (or_empty (lookup d s.locks_by_document)) (v.once d)
      (λ f l h. inl (ground (arith, v.in_document d f l, v.at_element d f l)))

pub remove_document-IsIndexed :
    (p : ElementLock → Bool) (d : String) (s : LockStore)
    → IsIndexed s
    → IsIndexed (remove_where p (document_locks s d) s)
remove_document-IsIndexed p d s v = remove_where-IsIndexed p _ s (document_locks-IsPresent s d v) v

pub expire_document-IsIndexed :
    (now : ℕ) (d : String) (s : LockStore) → IsIndexed s → IsIndexed (expire_document now d s)
unfolding expire_document
expire_document-IsIndexed now d s v =
    elim (Bool-cases (any (is_expired now) (document_locks s d))) [
      | inl some_expired ↦
          rw some_expired (emit-IsIndexed _ d (remove_document-IsIndexed (is_expired now) d s v))
      | inr none_expired ↦ rw none_expired v
    ]

pub emit_change-IsIndexed :
    (now : ℕ) (d : String) (s : LockStore) → IsIndexed s → IsIndexed (emit_change now d s)
unfolding emit_change
emit_change-IsIndexed now d s v = emit-IsIndexed _ d (expire_document-IsIndexed now d s v)

any-at-false :
    (p : ElementLock → Bool) (d e : String) (ls : List ElementLock)
    → any p ls ≡ false
    → any (at p d e) ls ≡ false
unfolding at
any-at-false p d e [] h = refl
any-at-false p d e (l ∷ ls) h = ground (arith, any-at-false p d e ls)

-- A lock of the document that passes no test of any lock passes none itself.
pub passes_of_any :
    (p : ElementLock → Bool) (s : LockStore) (d e : String)
    → IsIndexed s
    → any p (document_locks s d) ≡ false
    → passes p (get_lock s d e) ≡ false
unfolding document_locks get_lock
passes_of_any p s d e v h = ground (
  arith,
  eq_iff d d,
  any-at-false p d e (values (or_empty (lookup d s.locks_by_document))),
  any-values p d d e (or_empty (lookup d s.locks_by_document)) (v.once d)
      (λ f l. v.in_document d f l) (λ f l. v.at_element d f l),
)

-- After `expireDocument` the document has its live locks, and other documents are as before.
pub get_lock-expire_document :
    (now : ℕ) (s : LockStore) (d d' e : String)
    → IsIndexed s
    → get_lock (expire_document now d s) d' e
      ≡ (if d == d' then live now (get_lock s d' e) else get_lock s d' e)
unfolding expire_document
get_lock-expire_document now s d d' e v = ground (
  arith,
  eq_iff d d',
  passes_of_any (is_expired now) s d e v,
  get_lock-emit (remove_where (is_expired now) (document_locks s d) s) d d' e,
  get_lock-remove_document s v (is_expired now) d d' e,
)

pub get_lock-emit_change :
    (now : ℕ) (s : LockStore) (d d' e : String)
    → IsIndexed s
    → get_lock (emit_change now d s) d' e
      ≡ (if d == d' then live now (get_lock s d' e) else get_lock s d' e)
unfolding emit_change
get_lock-emit_change now s d d' e v =
    ground (
      arith,
      get_lock-emit (expire_document now d s) d d' e,
      get_lock-expire_document now s d d' e v,
    )
