-- ===== src/Collaboration/Locks/Index.antt =====
-- collaboration-lock.store.ts: the two maps agree. `lockKeysBySocket` holds a key for a socket
-- exactly when the lock with that key belongs to the socket.
use uml_class_designer_be.Common.{
  String, Bool, true, false, ◌&&◌, ◌≡◌, refl, ◌⊎◌, inl, inr, Option, none, some, List, [], ◌∷◌, any,
  lookup, insert, erase, keys, IsDistinct, arith, ◌==◌, eq_iff, if◌then◌else◌, Option-cases,
  lookup-insert, IsDistinct-keys-insert, IsDistinct-keys-erase, lookup-keys,
}
use uml_class_designer_be.Collaboration.Locks.{
  ElementLock, LockStore, or_empty, get_lock, values, document_locks, without_lock, remove,
  remove_where, emit, put_lock, put_key,
}
use uml_class_designer_be.Collaboration.Locks.Laws.{
  holds, lookup-put_or_drop, get_lock-put_lock, get_lock-remove, get_lock-put_key, holds-put_key,
  holds-put_lock, holds-remove,
}

abbrev pub held_by : String → Option ElementLock → Bool
held_by k none = false
held_by k (some l) = l.socket_id == k

abbrev pub passes : (ElementLock → Bool) → Option ElementLock → Bool
passes p none = false
passes p (some l) = p l

-- The keys of the map of a document.
abbrev pub element_keys : LockStore → String → List String
element_keys s d = keys (or_empty (lookup d s.locks_by_document))

-- Each lock stands under its own identifiers, once, and under the key of its socket alone.
pub record IsIndexed (s : LockStore) : Type 0 where
  pub once : (d : String) → IsDistinct (element_keys s d)
  pub in_document : (d e : String) (l : ElementLock) → get_lock s d e ≡ some l → l.document_id ≡ d
  pub at_element : (d e : String) (l : ElementLock) → get_lock s d e ≡ some l → l.element_id ≡ e
  pub indexed : (k d e : String) → holds s k d e ≡ held_by k (get_lock s d e)

-- Whether a lock with given identifiers passes a test, by the list of locks and by the map.
unfoldable pub at : (ElementLock → Bool) → String → String → ElementLock → Bool
at p d e l = p l && l.document_id == d && l.element_id == e

pub any-values :
    (p : ElementLock → Bool) (d d' e : String) (m : List (String × ElementLock))
    → IsDistinct (keys m)
    → ((f : String) (l : ElementLock) → lookup f m ≡ some l → l.document_id ≡ d)
    → ((f : String) (l : ElementLock) → lookup f m ≡ some l → l.element_id ≡ f)
    → any (at p d' e) (values m) ≡ (d == d' && passes p (lookup e m))
unfolding values at
any-values p d d' e [] u v w = ground arith
any-values p d d' e ((f, l) ∷ m) u v w = ground (
  arith,
  v f l,
  w f l,
  eq_iff f f,
  eq_iff f e,
  eq_iff l.document_id d',
  lookup-keys e m,
  any-values p d d' e m u.1 (λ g q h. v g q (ground (arith, eq_iff f g, lookup-keys g m)))
      (λ g q h. w g q (ground (arith, eq_iff f g, lookup-keys g m))),
)

pub get_lock-remove_where :
    (p : ElementLock → Bool) (ls : List ElementLock) (s : LockStore) (d e : String)
    → get_lock (remove_where p ls s) d e ≡ (if any (at p d e) ls then none else get_lock s d e)
unfolding remove_where at
get_lock-remove_where p [] s d e = refl
get_lock-remove_where p (l ∷ ls) s d e = ground (
  arith,
  get_lock-remove_where p ls (remove l s) d e,
  get_lock-remove_where p ls s d e,
  get_lock-remove s l d e,
)

module _ (s : LockStore) (v : IsIndexed s) where
  -- Removing the locks of a document that pass a test.
  pub get_lock-remove_document :
      (p : ElementLock → Bool) (d d' e : String)
      → get_lock (remove_where p (document_locks s d) s) d' e
        ≡ (if d == d' && passes p (get_lock s d e) then none else get_lock s d' e)
  unfolding document_locks get_lock
  get_lock-remove_document p d d' e = ground (
    arith,
    get_lock-remove_where p (document_locks s d) s d' e,
    any-values p d d' e (or_empty (lookup d s.locks_by_document)) (v.once d)
        (λ f l. v.in_document d f l) (λ f l. v.at_element d f l),
    eq_iff d d',
  )

-- The primitive steps keep the maps in agreement.
pub emit-IsIndexed : (s : LockStore) (d : String) → IsIndexed s → IsIndexed (emit d s)
unfolding emit get_lock holds
emit-IsIndexed s d v = record {
  once = v.once;
  in_document = v.in_document;
  at_element = v.at_element;
  indexed = v.indexed;
}

once-if :
    (b : Bool) (xs ys : List (String × ElementLock))
    → IsDistinct (keys xs)
    → IsDistinct (keys ys)
    → IsDistinct (keys (if b then xs else ys))
once-if true xs ys u v = u
once-if false xs ys u v = v

once-remove :
    (s : LockStore) (l : ElementLock) (d : String)
    → ((f : String) → IsDistinct (element_keys s f))
    → IsDistinct (element_keys (remove l s) d)
unfolding remove without_lock
once-remove s l d v = elim (Option-cases (lookup l.document_id s.locks_by_document)) [
  | inl missing ↦ rw (missing, without_lock) (v d)
  | inr (m, found) ↦
      let own = IsDistinct-keys-erase l.element_id m (rw found at (v l.document_id)) in
      rw (found, without_lock)
        (rw (lookup-put_or_drop l.document_id d (erase l.element_id m) s.locks_by_document)
          (once-if (l.document_id == d) _ _ own (v d)))
]

or_empty-lookup-insert :
    (k j : String) (xs : List (String × ElementLock))
    (m : List (String × List (String × ElementLock)))
    → or_empty (lookup j (insert k xs m)) ≡ (if k == j then xs else or_empty (lookup j m))
or_empty-lookup-insert k j xs m = ground (arith, lookup-insert k j xs m)

once-put_lock :
    (s : LockStore) (l : ElementLock) (d : String)
    → ((f : String) → IsDistinct (element_keys s f))
    → IsDistinct (element_keys (put_lock l s) d)
unfolding put_lock
once-put_lock s l d v =
    rw
      (or_empty-lookup-insert l.document_id d
        (insert l.element_id l (or_empty (lookup l.document_id s.locks_by_document)))
        s.locks_by_document)
      (once-if (l.document_id == d) _ _ (IsDistinct-keys-insert l.element_id l _ (v l.document_id))
        (v d))

once-put_key :
    (s : LockStore) (k d e f : String)
    → IsDistinct (element_keys s f)
    → IsDistinct (element_keys (put_key k d e s) f)
unfolding put_key
once-put_key s k d e f h = h

pub remove-IsIndexed :
    (s : LockStore) (l : ElementLock)
    → (get_lock s l.document_id l.element_id ≡ some l)
      ⊎ (get_lock s l.document_id l.element_id ≡ none)
    → IsIndexed s
    → IsIndexed (remove l s)
remove-IsIndexed s l there v = record {
  once = λ d. once-remove s l d v.once;
  in_document = λ d e q h. v.in_document d e q (ground (arith, get_lock-remove s l d e));
  at_element = λ d e q h. v.at_element d e q (ground (arith, get_lock-remove s l d e));
  indexed = λ k d e. ground (
    arith,
    there,
    holds-remove s l k d e,
    get_lock-remove s l d e,
    v.indexed k d e,
    eq_iff l.document_id d,
    eq_iff l.element_id e,
    eq_iff l.socket_id k,
  );
}

pub put_lock-IsIndexed :
    (s : LockStore) (old new : ElementLock)
    → get_lock s new.document_id new.element_id ≡ some old
    → old.socket_id ≡ new.socket_id
    → IsIndexed s
    → IsIndexed (put_lock new s)
put_lock-IsIndexed s old new there same v = record {
  once = λ d. once-put_lock s new d v.once;
  in_document = λ d e q h.
      ground (arith, v.in_document d e q, get_lock-put_lock s new d e, eq_iff new.document_id d);
  at_element = λ d e q h.
      ground (arith, v.at_element d e q, get_lock-put_lock s new d e, eq_iff new.element_id e);
  indexed = λ k d e. ground (
    arith,
    holds-put_lock s new k d e,
    get_lock-put_lock s new d e,
    v.indexed k d e,
    eq_iff new.document_id d,
    eq_iff new.element_id e,
  );
}

pub add-IsIndexed :
    (s : LockStore) (l : ElementLock)
    → get_lock s l.document_id l.element_id ≡ none
    → IsIndexed s
    → IsIndexed (put_key l.socket_id l.document_id l.element_id (put_lock l s))
add-IsIndexed s l free v = record {
  once = λ d. once-put_key (put_lock l s) _ _ _ d (once-put_lock s l d v.once);
  in_document = λ d e q h. ground (
    arith,
    v.in_document d e q,
    get_lock-put_key (put_lock l s) l.socket_id l.document_id l.element_id d e,
    get_lock-put_lock s l d e,
    eq_iff l.document_id d,
  );
  at_element = λ d e q h. ground (
    arith,
    v.at_element d e q,
    get_lock-put_key (put_lock l s) l.socket_id l.document_id l.element_id d e,
    get_lock-put_lock s l d e,
    eq_iff l.element_id e,
  );
  indexed = λ k d e. ground (
    arith,
    holds-put_key (put_lock l s) l.socket_id l.document_id l.element_id k d e,
    holds-put_lock s l k d e,
    get_lock-put_key (put_lock l s) l.socket_id l.document_id l.element_id d e,
    get_lock-put_lock s l d e,
    v.indexed k d e,
    eq_iff l.document_id d,
    eq_iff l.element_id e,
    eq_iff l.socket_id k,
  );
}
