-- ===== src/Collaboration/Locks/Laws.antt =====
-- collaboration-lock.store.ts: what the primitive steps do to a lock and to a key.
use uml_class_designer_be.Common.{
  String, Bool, not, ◌&&◌, ◌||◌, ◌≡◌, refl, inl, inr, none, some, List, [], ◌∷◌, ◌++◌, filter,
  lookup, insert, erase, arith, ◌==◌, eq_iff, if◌then◌else◌, Option-cases, lookup-insert,
  lookup-erase,
}
use uml_class_designer_be.Collaboration.Locks.{
  ElementLock, LockStore, Keys, same_key, has_key, or_empty, get_lock, put_or_drop, without_lock,
  without_key, remove, emit, put_lock, add_key, put_key,
}

-- `lockKeysBySocket.get(k)?.has(key)`
unfoldable pub holds : LockStore → String → String → String → Bool
holds s k d e = has_key d e (or_empty (lookup k s.lock_keys_by_socket))

pub lookup-put_or_drop {ℓ} :
    {A : Type ℓ} (k j : String) (xs : List A) (m : List (String × List A))
    → or_empty (lookup j (put_or_drop k xs m)) ≡ (if k == j then xs else or_empty (lookup j m))
lookup-put_or_drop k j [] m = ground (arith, lookup-erase k j m)
lookup-put_or_drop k j (x ∷ xs) m = ground (arith, lookup-insert k j (x ∷ xs) m)

pub get_lock-put_lock :
    (s : LockStore) (l : ElementLock) (d e : String)
    → get_lock (put_lock l s) d e
      ≡ (if l.document_id == d && l.element_id == e then some l else get_lock s d e)
unfolding get_lock put_lock
get_lock-put_lock s l d e = ground (
  arith,
  eq_iff l.document_id d,
  lookup-insert l.document_id d
      (insert l.element_id l (or_empty (lookup l.document_id s.locks_by_document)))
      s.locks_by_document,
  lookup-insert l.element_id e l (or_empty (lookup l.document_id s.locks_by_document)),
)

pub get_lock-remove :
    (s : LockStore) (l : ElementLock) (d e : String)
    → get_lock (remove l s) d e
      ≡ (if l.document_id == d && l.element_id == e then none else get_lock s d e)
unfolding get_lock remove without_lock
get_lock-remove s l d e = elim (Option-cases (lookup l.document_id s.locks_by_document)) [
  | inl missing ↦ ground (arith, eq_iff l.document_id d)
  | inr (m, found) ↦ ground (
    arith,
    eq_iff l.document_id d,
    lookup-put_or_drop l.document_id d (erase l.element_id m) s.locks_by_document,
    lookup-erase l.element_id e m,
  )
]

has_key-filter :
    (d e d' e' : String) (ks : Keys)
    → has_key d' e' (filter (λ j. not (same_key d e j)) ks)
      ≡ (not (d == d' && e == e') && has_key d' e' ks)
has_key-filter d e d' e' [] = ground arith
has_key-filter d e d' e' (k ∷ ks) = ground (
  arith,
  eq_iff d d',
  eq_iff e e',
  eq_iff k.0 d,
  eq_iff k.1 e,
  eq_iff k.0 d',
  eq_iff k.1 e',
  has_key-filter d e d' e' ks,
)

has_key-append :
    (d e : String) (ks : Keys) (j : String × String)
    → has_key d e (ks ++ j ∷ []) ≡ (has_key d e ks || same_key d e j)
has_key-append d e [] j = ground arith
has_key-append d e (k ∷ ks) j = ground (arith, has_key-append d e ks j)

has_key-add_key :
    (d e d' e' : String) (ks : Keys)
    → has_key d' e' (add_key d e ks) ≡ ((d == d' && e == e') || has_key d' e' ks)
has_key-add_key d e d' e' ks =
    ground (arith, eq_iff d d', eq_iff e e', has_key-append d' e' ks (d, e))

pub holds-put_key :
    (s : LockStore) (k d e k' d' e' : String)
    → holds (put_key k d e s) k' d' e' ≡ ((k == k' && d == d' && e == e') || holds s k' d' e')
unfolding holds put_key
holds-put_key s k d e k' d' e' = ground (
  arith,
  eq_iff k k',
  lookup-insert k k' (add_key d e (or_empty (lookup k s.lock_keys_by_socket)))
      s.lock_keys_by_socket,
  has_key-add_key d e d' e' (or_empty (lookup k s.lock_keys_by_socket)),
)

pub holds-remove :
    (s : LockStore) (l : ElementLock) (k d e : String)
    → holds (remove l s) k d e
      ≡ (not (l.socket_id == k && l.document_id == d && l.element_id == e) && holds s k d e)
unfolding holds remove without_key
holds-remove s l k d e = elim (Option-cases (lookup l.socket_id s.lock_keys_by_socket)) [
  | inl missing ↦ ground (arith, eq_iff l.socket_id k)
  | inr (keys, found) ↦ ground (
    arith,
    eq_iff l.socket_id k,
    lookup-put_or_drop l.socket_id k
        (filter (λ j. not (same_key l.document_id l.element_id j)) keys) s.lock_keys_by_socket,
    has_key-filter l.document_id l.element_id d e keys,
  )
]

pub get_lock-put_key :
    (s : LockStore) (k d e d' e' : String) → get_lock (put_key k d e s) d' e' ≡ get_lock s d' e'
unfolding get_lock put_key
get_lock-put_key s k d e d' e' = refl

pub holds-put_lock :
    (s : LockStore) (l : ElementLock) (k d e : String) → holds (put_lock l s) k d e ≡ holds s k d e
unfolding holds put_lock
holds-put_lock s l k d e = refl

pub get_lock-emit :
    (s : LockStore) (d d' e' : String) → get_lock (emit d s) d' e' ≡ get_lock s d' e'
unfolding get_lock emit
get_lock-emit s d d' e' = refl

pub holds-emit : (s : LockStore) (d k d' e' : String) → holds (emit d s) k d' e' ≡ holds s k d' e'
unfolding holds emit
holds-emit s d k d' e' = refl
