-- ===== src/Collaboration/Locks/Disconnect.antt =====
-- collaboration-lock.store.ts: `releaseBySocket` and `reconcileDocumentElements`.
use uml_class_designer_be.Common.{
  ℕ, String, true, false, not, ◌≡◌, ◌≢◌, refl, inl, inr, none, List, [], ◌∷◌, filter, contains,
  lookup, arith, ◌==◌, eq_iff, if◌then◌else◌, Bool-cases, Option-cases,
}
use uml_class_designer_be.Collaboration.Locks.{
  ElementLock, LockStore, Keys, has_key, or_empty, get_lock, document_locks, remove_where,
  expire_document,
}
use uml_class_designer_be.Collaboration.Locks.Releases.{
  release_key, release_keys, emit_all, release_by_socket, reconcile_document_elements,
}
use uml_class_designer_be.Collaboration.Locks.Laws.{holds, get_lock-remove}
use uml_class_designer_be.Collaboration.Locks.Index.{IsIndexed, held_by, get_lock-remove_document}
use uml_class_designer_be.Collaboration.Locks.Expiry.{
  live, expire_document-IsIndexed, emit_change-IsIndexed, remove_document-IsIndexed, passes_of_any,
  get_lock-expire_document, get_lock-emit_change,
}
use uml_class_designer_be.Collaboration.Locks.Invariant.{
  release_key-IsIndexed, release_keys-IsIndexed,
}

-- The locks of the socket are under the keys that are still to be released.
abbrev IsLeft : String → Keys → LockStore → Type 0
IsLeft k js s =
    (d e : String) → d ≢ "" → e ≢ "" → held_by k (get_lock s d e) ≡ true → has_key d e js ≡ true

release_key-IsLeft :
    (k : String) (j : String × String) (js : Keys) (a : List String × LockStore)
    → IsIndexed a.1
    → IsLeft k (j ∷ js) a.1
    → IsLeft k js (release_key k j a).1
unfolding release_key
release_key-IsLeft k (d', e') js (changed, s) v left d e nd ne h =
    elim (Option-cases (get_lock s d' e')) [
      | inl free ↦ ground (arith, left d e nd ne, eq_iff d' d, eq_iff e' e, eq_iff e' "")
      | inr (l, found) ↦ ground (
        arith,
        left d e nd ne,
        eq_iff d' d,
        eq_iff e' e,
        eq_iff e' "",
        get_lock-remove s l d e,
        v.in_document d' e' l,
        v.at_element d' e' l,
        eq_iff l.document_id d,
        eq_iff l.element_id e,
        eq_iff l.socket_id k,
      )
    ]

release_keys-none-IsLeft :
    (k : String) (js : Keys) (a : List String × LockStore)
    → IsIndexed a.1
    → IsLeft k js a.1
    → IsLeft k [] (release_keys k js a).1
unfolding release_keys
release_keys-none-IsLeft k [] a v left = left
release_keys-none-IsLeft k (j ∷ js) a v left =
    release_keys-none-IsLeft k js _ (release_key-IsIndexed 0 k j a v)
      (release_key-IsLeft k j js a v left)

emit_all-held_by :
    (now : ℕ) (k d e : String) (ds : List String) (s : LockStore)
    → IsIndexed s
    → held_by k (get_lock s d e) ≡ false
    → held_by k (get_lock (emit_all now ds s) d e) ≡ false
unfolding emit_all
emit_all-held_by now k d e [] s v h = h
emit_all-held_by now k d e (f ∷ fs) s v h =
    emit_all-held_by now k d e fs _ (emit_change-IsIndexed now f s v)
      (ground (arith, get_lock-emit_change now s f d e v))

has_key-filter_named :
    (d e : String) (ks : Keys)
    → d ≢ ""
    → has_key d e (filter (λ j. not (j.0 == "")) ks) ≡ has_key d e ks
has_key-filter_named d e [] n = refl
has_key-filter_named d e (k ∷ ks) n =
    ground (arith, eq_iff k.0 "", eq_iff k.0 d, has_key-filter_named d e ks)

key_of_held :
    (k : String) (s : LockStore) (d e : String)
    → IsIndexed s
    → d ≢ ""
    → held_by k (get_lock s d e) ≡ true
    → has_key d e (filter (λ j. not (j.0 == "")) (or_empty (lookup k s.lock_keys_by_socket))) ≡ true
unfolding holds
key_of_held k s d e v n h =
    ground (
      arith,
      v.indexed k d e,
      has_key-filter_named d e (or_empty (lookup k s.lock_keys_by_socket)) n,
    )

-- When a socket disconnects, no lock of any document is left to it.
pub release_by_socket_clears :
    (now : ℕ) (k d e : String) (s : LockStore)
    → IsIndexed s
    → d ≢ ""
    → e ≢ ""
    → held_by k (get_lock (release_by_socket now k s) d e) ≡ false
unfolding release_by_socket
release_by_socket_clears now k d e s v nd ne =
    let keys = filter (λ j. not (j.0 == "")) (or_empty (lookup k s.lock_keys_by_socket)) in
    let released = release_keys k keys ([], s) in
    let nothing =
      release_keys-none-IsLeft k keys ([], s) v (λ d' e' md me h. key_of_held k s d' e' v md h) in
    emit_all-held_by now k d e released.0 released.1 (release_keys-IsIndexed now k keys ([], s) v)
      (elim (Bool-cases (held_by k (get_lock released.1 d e))) [
        | inl held ↦ absurd (ground (arith, nothing d e nd ne held))
        | inr free ↦ free
      ])

-- After `reconcileDocumentElements` a lock of the document stands exactly if it was running and
-- its element is active; the other documents keep their locks.
pub get_lock-reconcile :
    (now : ℕ) (s : LockStore) (d d' e : String) (active : List String)
    → IsIndexed s
    → get_lock (reconcile_document_elements now d active s) d' e ≡ (
        if d == d'
        then (if contains e active then live now (get_lock s d' e) else none)
        else get_lock s d' e)
unfolding reconcile_document_elements
get_lock-reconcile now s d d' e active v =
    let s₁ = expire_document now d s in
    let v₁ = expire_document-IsIndexed now d s v in
    let stale = λ (l : ElementLock). not (contains l.element_id active) in
    let removed = remove_where stale (document_locks s₁ d) s₁ in
    let kept = get_lock-remove_document s₁ v₁ stale d d' e in
    let changed =
      get_lock-emit_change now removed d d' e (remove_document-IsIndexed stale d s₁ v₁) in
    elim (Option-cases (get_lock s₁ d e)) [
      | inl free ↦
          ground (arith, eq_iff d d', kept, changed, get_lock-expire_document now s d d' e v)
      | inr (l, found) ↦ ground (
        arith,
        eq_iff d d',
        kept,
        changed,
        get_lock-expire_document now s d d' e v,
        passes_of_any stale s₁ d e v₁,
        v₁.at_element d e l,
      )
    ]
