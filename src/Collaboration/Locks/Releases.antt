-- ===== src/Collaboration/Locks/Releases.antt =====
-- collaboration-lock.store.ts: the releases of a socket, the queries, the reconciliation, the timer
-- and the shutdown.
use uml_class_designer_be.Common.{
  ℕ, String, Bool, true, false, not, none, some, List, [], ◌∷◌, any, filter, contains, add, lookup,
  ◌==◌, if◌then◌else◌,
}
use uml_class_designer_be.Collaboration.Locks.{
  ElementLock, Keys, LockStore, or_empty, get_lock, document_locks, remove, remove_where,
  is_expired, expire_document, emit_change,
}

-- The body of the loops that release, on the changed documents and the store.
unfoldable pub release_key :
    String → String × String → List String × LockStore → List String × LockStore
release_key k (d, e) (changed, s) = if e == "" then (changed, s) else elim (get_lock s d e) [
  | none ↦ (changed, s)
  | some l ↦ if l.socket_id == k then (add d changed, remove l s) else (changed, s)
]

unfoldable pub release_keys : String → Keys → List String × LockStore → List String × LockStore
release_keys k [] a = a
release_keys k (j ∷ js) a = release_keys k js (release_key k j a)

unfoldable pub emit_all : ℕ → List String → LockStore → LockStore
emit_all now [] s = s
emit_all now (d ∷ ds) s = emit_all now ds (emit_change now d s)

unfoldable pub release_by_socket : ℕ → String → LockStore → LockStore
release_by_socket now k s =
    let keys = filter (λ j. not (j.0 == "")) (or_empty (lookup k s.lock_keys_by_socket)) in
    let (changed, s') = release_keys k keys ([], s) in emit_all now changed s'

-- The keys of other documents are skipped.
unfoldable pub release_by_socket_in_document : ℕ → String → String → LockStore → LockStore
release_by_socket_in_document now k d s =
    let keys = filter (λ j. j.0 == d) (or_empty (lookup k s.lock_keys_by_socket)) in
    let (changed, s') = release_keys k keys ([], s) in emit_all now changed s'

unfoldable pub has_lock_owned_by_another_socket :
    ℕ → String → List String → String → LockStore → LockStore × Bool
has_lock_owned_by_another_socket now d element_ids k s =
    let s' = expire_document now d s in
    (
      s',
      any (λ e. elim (get_lock s' d e) [ none ↦ false | some l ↦ not (l.socket_id == k) ])
          element_ids,
    )

unfoldable pub has_any_lock : ℕ → String → List String → LockStore → LockStore × Bool
has_any_lock now d element_ids s =
    let s' = expire_document now d s in
    (s', any (λ e. elim (get_lock s' d e) [ none ↦ false | some l ↦ true ]) element_ids)

unfoldable pub reconcile_document_elements : ℕ → String → List String → LockStore → LockStore
reconcile_document_elements now d active s =
    let s' = expire_document now d s in
    let stale = λ (l : ElementLock). not (contains l.element_id active) in
    if any stale (document_locks s' d)
    then emit_change now d (remove_where stale (document_locks s' d) s')
    else s'

-- The callback of `createExpirationTimer`.
unfoldable pub on_timer : ℕ → String → String → LockStore → LockStore
on_timer now d e s = elim (get_lock s d e) [
  | none ↦ s
  | some l ↦ if is_expired now l then emit_change now d (remove l s) else s
]

-- `onApplicationShutdown`; the listeners, gone too, have no state here.
unfoldable pub on_application_shutdown : LockStore → LockStore
on_application_shutdown s = record s { locks_by_document = []; lock_keys_by_socket = [] }
