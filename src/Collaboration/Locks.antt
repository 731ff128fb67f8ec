-- ===== src/Collaboration/Locks.antt =====
-- src/modules/uml-domain/collaboration-lock.store.ts. `Date.now()` is the argument `now`, in
-- milliseconds, one value for a call; `randomUUID()` is the argument `lease_id`. The timer of a
-- lock is not kept: that it fires is the operation `on_timer`, which may come at any time. A key
-- `document:element` is the pair: the identifiers are UUIDs and names without a colon.
pub mod Leases
pub mod Releases
pub mod Calls
pub mod Laws
pub mod Index
pub mod Expiry
pub mod Invariant
pub mod Holding
pub mod Exclusion
pub mod Disconnect
pub mod Grants
use uml_class_designer_be.Common.{
  ℕ, ◌+◌, ◌*◌, String, Bool, true, false, not, ◌&&◌, ◌||◌, Option, none, some, List, [], ◌∷◌, ◌++◌,
  map, any, filter, contains, add, leb, lookup, insert, erase, ◌==◌, if◌then◌else◌, ◌>>=◌,
}

-- `StoredElementLock` without its timer; `toPublic` copies these fields.
pub record ElementLock : Type 0 where
  pub document_id : String
  pub element_id : String
  pub user_id : String
  pub socket_id : String
  pub lease_id : String
  pub expires_at : ℕ

pub record ElementLockChange : Type 0 where
  pub document_id : String
  pub locks : List ElementLock

abbrev pub Keys : Type 0
Keys = List (String × String)

-- `emitted` holds what the listeners were told, oldest first.
pub record LockStore : Type 0 where
  pub locks_by_document : List (String × List (String × ElementLock))
  pub lock_keys_by_socket : List (String × Keys)
  pub emitted : List ElementLockChange

abbrev pub empty : LockStore
empty = record { locks_by_document = []; lock_keys_by_socket = []; emitted = [] }

abbrev pub same_key : String → String → String × String → Bool
same_key d e k = k.0 == d && k.1 == e

abbrev pub has_key : String → String → Keys → Bool
has_key d e ks = any (same_key d e) ks

abbrev pub or_empty {ℓ} : {A : Type ℓ} → Option (List A) → List A
or_empty none = []
or_empty (some xs) = xs

-- `locksByDocument.get(d)?.get(e)`
unfoldable pub get_lock : LockStore → String → String → Option ElementLock
get_lock s d e = lookup e (or_empty (lookup d s.locks_by_document))

-- `values()` of the map of a document
unfoldable pub values : List (String × ElementLock) → List ElementLock
values [] = []
values ((e, l) ∷ m) = l ∷ values m

unfoldable pub document_locks : LockStore → String → List ElementLock
document_locks s d = values (or_empty (lookup d s.locks_by_document))

-- A map without one entry: it goes from the outer map when it is empty.
abbrev pub put_or_drop {ℓ} :
    {A : Type ℓ} → String → List A → List (String × List A) → List (String × List A)
put_or_drop k [] m = erase k m
put_or_drop k (x ∷ xs) m = insert k (x ∷ xs) m

unfoldable pub without_lock :
    String
    → String
    → List (String × List (String × ElementLock))
    → List (String × List (String × ElementLock))
without_lock d e m = elim (lookup d m) [ none ↦ m | some locks ↦ put_or_drop d (erase e locks) m ]

unfoldable pub without_key : String → String → String → List (String × Keys) → List (String × Keys)
without_key k d e m = elim (lookup k m) [
  | none ↦ m
  | some keys ↦ put_or_drop k (filter (λ j. not (same_key d e j)) keys) m
]

-- `remove`
unfoldable pub remove : ElementLock → LockStore → LockStore
remove l s = record s {
  locks_by_document = without_lock l.document_id l.element_id s.locks_by_document;
  lock_keys_by_socket = without_key l.socket_id l.document_id l.element_id s.lock_keys_by_socket;
}

-- A loop that removes those of the locks that pass a test.
unfoldable pub remove_where : (ElementLock → Bool) → List ElementLock → LockStore → LockStore
remove_where p [] s = s
remove_where p (l ∷ ls) s = remove_where p ls (if p l then remove l s else s)

-- The listeners get the locks as they stand.
unfoldable pub emit : String → LockStore → LockStore
emit d s = record s {
  emitted = s.emitted ++ (record { document_id = d; locks = document_locks s d }) ∷ [];
}

abbrev pub is_expired : ℕ → ElementLock → Bool
is_expired now l = leb l.expires_at now

-- `expireDocument`. The `list` in its `emitChange` expires nothing more: no lock of the document
-- is left that has expired at `now`.
unfoldable pub expire_document : ℕ → String → LockStore → LockStore
expire_document now d s =
    if any (is_expired now) (document_locks s d)
    then emit d (remove_where (is_expired now) (document_locks s d) s)
    else s

-- `emitChange`
unfoldable pub emit_change : ℕ → String → LockStore → LockStore
emit_change now d s = emit d (expire_document now d s)

-- `list`
unfoldable pub list : ℕ → String → LockStore → LockStore × List ElementLock
list now d s = let s' = expire_document now d s in (s', document_locks s' d)

unfoldable pub put_lock : ElementLock → LockStore → LockStore
put_lock l s = record s {
  locks_by_document =
      insert l.document_id
        (insert l.element_id l (or_empty (lookup l.document_id s.locks_by_document)))
        s.locks_by_document;
}

-- `socketKeys.add(key)`
abbrev pub add_key : String → String → Keys → Keys
add_key d e ks = if has_key d e ks then ks else ks ++ (d, e) ∷ []

unfoldable pub put_key : String → String → String → LockStore → LockStore
put_key k d e s = record s {
  lock_keys_by_socket =
      insert k (add_key d e (or_empty (lookup k s.lock_keys_by_socket))) s.lock_keys_by_socket;
}

-- `renewStored`: the lock in the map has a new end.
abbrev pub renewed : ℕ → ℕ → ElementLock → ElementLock
renewed now ttl_seconds l = record l { expires_at = now + ttl_seconds * 1000 }

-- What `acquire` and `renew` return: the lock and the locks of the document.
abbrev pub Granted : Type 0
Granted = Option (ElementLock × List ElementLock)

abbrev pub granted : ℕ → String → ElementLock → LockStore → LockStore × Granted
granted now d l s = let (s', locks) = list now d (emit_change now d s) in (s', some (l, locks))
