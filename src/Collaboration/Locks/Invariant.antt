-- ===== src/Collaboration/Locks/Invariant.antt =====
-- collaboration-lock.store.ts: every call keeps the two maps in agreement.
use uml_class_designer_be.Common.{
  ℕ, String, not, ◌||◌, ◌≡◌, refl, inl, inr, some, List, [], ◌∷◌, any, contains, arith, ◌==◌,
  Bool-cases, Option-cases,
}
use uml_class_designer_be.Collaboration.Locks.{
  ElementLock, LockStore, Keys, get_lock, document_locks, remove, is_expired, expire_document, list,
  put_lock, renewed, granted, empty,
}
use uml_class_designer_be.Collaboration.Locks.Leases.{
  Request, new_lock, acquire, owns, renew, release,
}
use uml_class_designer_be.Collaboration.Locks.Calls.{
  Call, acquires, renews, releases, releases_socket, releases_socket_in, asks_other, asks_any,
  reconciles, lists, timer, shuts_down, step, run,
}
use uml_class_designer_be.Collaboration.Locks.Releases.{
  release_key, release_keys, emit_all, release_by_socket, release_by_socket_in_document,
  has_lock_owned_by_another_socket, has_any_lock, reconcile_document_elements, on_timer,
  on_application_shutdown,
}
use uml_class_designer_be.Collaboration.Locks.Laws.{holds}
use uml_class_designer_be.Collaboration.Locks.Index.{
  IsIndexed, remove-IsIndexed, put_lock-IsIndexed, add-IsIndexed,
}
use uml_class_designer_be.Collaboration.Locks.Expiry.{
  remove_document-IsIndexed, expire_document-IsIndexed, emit_change-IsIndexed,
}

module _ (now : ℕ) where
  pub granted-IsIndexed :
      (d : String) (l : ElementLock) (s : LockStore) → IsIndexed s → IsIndexed (granted now d l s).0
  unfolding list
  granted-IsIndexed d l s v = expire_document-IsIndexed now d _ (emit_change-IsIndexed now d s v)

  -- The lock that stands under a pair of identifiers bears them.
  pub found-IsIndexed :
      (s : LockStore) (d e : String) (l : ElementLock)
      → IsIndexed s
      → get_lock s d e ≡ some l
      → get_lock s l.document_id l.element_id ≡ some l
  found-IsIndexed s d e l v h = ground (arith, v.in_document d e l, v.at_element d e l)

  pub renewed-IsIndexed :
      (s : LockStore) (d e : String) (l : ElementLock) (ttl : ℕ)
      → IsIndexed s
      → get_lock s d e ≡ some l
      → IsIndexed (put_lock (renewed now ttl l) s)
  renewed-IsIndexed s d e l ttl v h =
      put_lock-IsIndexed s l (renewed now ttl l) (found-IsIndexed s d e l v h) refl v

  pub removed-IsIndexed :
      (s : LockStore) (d e : String) (l : ElementLock)
      → IsIndexed s
      → get_lock s d e ≡ some l
      → IsIndexed (remove l s)
  removed-IsIndexed s d e l v h = remove-IsIndexed s l (inl (found-IsIndexed s d e l v h)) v

  acquire-IsIndexed :
      (r : Request) (lease : String) (ttl : ℕ) (s : LockStore)
      → IsIndexed s
      → IsIndexed (acquire now r lease ttl s).0
  unfolding acquire
  acquire-IsIndexed r lease ttl s v =
      let s₁ = expire_document now r.document_id s in
      let v₁ = expire_document-IsIndexed now r.document_id s v in
      elim (Option-cases (get_lock s₁ r.document_id r.element_id)) [
        | inl free ↦
            rw (free, acquire)
              (granted-IsIndexed _ (new_lock now r lease ttl) _
                (add-IsIndexed s₁ (new_lock now r lease ttl) free v₁))
        | inr (l, found) ↦
            rw (found, acquire)
              (elim (Bool-cases
                (not (l.user_id == r.user_id) || not (l.socket_id == r.socket_id))) [
                  | inl denied ↦ rw denied v₁
                  | inr allowed ↦ rw allowed (
                      granted-IsIndexed _ (renewed now ttl l) _
                        (renewed-IsIndexed s₁ _ _ l ttl v₁ found))
                ])
      ]

  renew-IsIndexed :
      (r : Request) (lease : String) (ttl : ℕ) (s : LockStore)
      → IsIndexed s
      → IsIndexed (renew now r lease ttl s).0
  unfolding renew
  renew-IsIndexed r lease ttl s v =
      let s₁ = expire_document now r.document_id s in
      let v₁ = expire_document-IsIndexed now r.document_id s v in
      elim (Option-cases (get_lock s₁ r.document_id r.element_id)) [
        | inl free ↦ rw (free, renew) v₁
        | inr (l, found) ↦
            rw (found, renew)
              (elim (Bool-cases (owns r lease l)) [
                | inr denied ↦ rw denied v₁
                | inl allowed ↦ rw allowed (
                    granted-IsIndexed _ (renewed now ttl l) _
                      (renewed-IsIndexed s₁ _ _ l ttl v₁ found))
              ])
      ]

  release-IsIndexed :
      (r : Request) (lease : String) (s : LockStore)
      → IsIndexed s
      → IsIndexed (release now r lease s).0
  unfolding release
  release-IsIndexed r lease s v =
      let s₁ = expire_document now r.document_id s in
      let v₁ = expire_document-IsIndexed now r.document_id s v in
      elim (Option-cases (get_lock s₁ r.document_id r.element_id)) [
        | inl free ↦ rw (free, release) v₁
        | inr (l, found) ↦
            rw (found, release)
              (elim (Bool-cases (owns r lease l)) [
                | inr denied ↦ rw denied v₁
                | inl allowed ↦
                    rw allowed (emit_change-IsIndexed now _ _ (removed-IsIndexed s₁ _ _ l v₁ found))
              ])
      ]

  pub release_key-IsIndexed :
      (k : String) (j : String × String) (a : List String × LockStore)
      → IsIndexed a.1
      → IsIndexed (release_key k j a).1
  unfolding release_key
  release_key-IsIndexed k (d, e) (changed, s) v = elim (Bool-cases (e == "")) [
    | inl blank ↦ rw blank v
    | inr named ↦ rw named (elim (Option-cases (get_lock s d e)) [
      | inl free ↦ rw (free, release_key) v
      | inr (l, found) ↦
          rw (found, release_key)
            (elim (Bool-cases (l.socket_id == k)) [
              | inl own ↦ rw own (removed-IsIndexed s d e l v found)
              | inr other ↦ rw other v
            ])
    ])
  ]

  pub release_keys-IsIndexed :
      (k : String) (js : Keys) (a : List String × LockStore)
      → IsIndexed a.1
      → IsIndexed (release_keys k js a).1
  unfolding release_keys
  release_keys-IsIndexed k [] a v = v
  release_keys-IsIndexed k (j ∷ js) a v =
      release_keys-IsIndexed k js (release_key k j a) (release_key-IsIndexed k j a v)

  pub emit_all-IsIndexed :
      (ds : List String) (s : LockStore) → IsIndexed s → IsIndexed (emit_all now ds s)
  unfolding emit_all
  emit_all-IsIndexed [] s v = v
  emit_all-IsIndexed (d ∷ ds) s v = emit_all-IsIndexed ds _ (emit_change-IsIndexed now d s v)

  reconcile-IsIndexed :
      (d : String) (active : List String) (s : LockStore)
      → IsIndexed s
      → IsIndexed (reconcile_document_elements now d active s)
  unfolding reconcile_document_elements
  reconcile-IsIndexed d active s v =
      let s₁ = expire_document now d s in
      let v₁ = expire_document-IsIndexed now d s v in
      let stale = λ (l : ElementLock). not (contains l.element_id active) in
      elim (Bool-cases (any stale (document_locks s₁ d))) [
        | inl dirty ↦
            rw dirty (emit_change-IsIndexed now d _ (remove_document-IsIndexed stale d s₁ v₁))
        | inr clean ↦ rw clean v₁
      ]

  on_timer-IsIndexed : (d e : String) (s : LockStore) → IsIndexed s → IsIndexed (on_timer now d e s)
  unfolding on_timer
  on_timer-IsIndexed d e s v = elim (Option-cases (get_lock s d e)) [
    | inl free ↦ rw (free, on_timer) v
    | inr (l, found) ↦
        rw (found, on_timer)
          (elim (Bool-cases (is_expired now l)) [
            | inl expired ↦
                rw expired (emit_change-IsIndexed now d _ (removed-IsIndexed s d e l v found))
            | inr running ↦ rw running v
          ])
  ]

shutdown-IsIndexed : (s : LockStore) → IsIndexed (on_application_shutdown s)
unfolding on_application_shutdown get_lock holds
shutdown-IsIndexed s = record {
  once = λ d. tt;
  in_document = λ d e l h. absurd (cc);
  at_element = λ d e l h. absurd (cc);
  indexed = λ k d e. refl;
}

-- Every call, at any time, keeps the maps in agreement: each lock stands once, under its own
-- document and element, and `lockKeysBySocket` has its key for its socket and for no other.
pub step-IsIndexed : (now : ℕ) (c : Call) (s : LockStore) → IsIndexed s → IsIndexed (step now c s)
unfolding step release_by_socket release_by_socket_in_document has_lock_owned_by_another_socket
    has_any_lock list
step-IsIndexed now (acquires r lease ttl) s v = acquire-IsIndexed now r lease ttl s v
step-IsIndexed now (renews r lease ttl) s v = renew-IsIndexed now r lease ttl s v
step-IsIndexed now (releases r lease) s v = release-IsIndexed now r lease s v
step-IsIndexed now (releases_socket k) s v =
    emit_all-IsIndexed now _ _ (release_keys-IsIndexed now k _ ([], s) v)
step-IsIndexed now (releases_socket_in k d) s v =
    emit_all-IsIndexed now _ _ (release_keys-IsIndexed now k _ ([], s) v)
step-IsIndexed now (asks_other d es k) s v = expire_document-IsIndexed now d s v
step-IsIndexed now (asks_any d es) s v = expire_document-IsIndexed now d s v
step-IsIndexed now (reconciles d active) s v = reconcile-IsIndexed now d active s v
step-IsIndexed now (lists d) s v = expire_document-IsIndexed now d s v
step-IsIndexed now (timer d e) s v = on_timer-IsIndexed now d e s v
step-IsIndexed now shuts_down s v = shutdown-IsIndexed s

run-IsIndexed : (cs : List (ℕ × Call)) (s : LockStore) → IsIndexed s → IsIndexed (run cs s)
unfolding run
run-IsIndexed [] s v = v
run-IsIndexed ((now, c) ∷ cs) s v = run-IsIndexed cs _ (step-IsIndexed now c s v)

-- So after any history of calls, at any times, on a new store.
pub run-empty-IsIndexed : (cs : List (ℕ × Call)) → IsIndexed (run cs empty)
unfolding get_lock holds
run-empty-IsIndexed cs = run-IsIndexed cs empty (record {
  once = λ d. tt;
  in_document = λ d e l h. absurd (cc);
  at_element = λ d e l h. absurd (cc);
  indexed = λ k d e. refl;
})
