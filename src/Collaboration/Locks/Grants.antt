-- ===== src/Collaboration/Locks/Grants.antt =====
-- collaboration-lock.store.ts: when `acquire` grants, and what it then leaves.
use uml_class_designer_be.Common.{
  ℕ, ◌+◌, ◌*◌, ◌<◌, String, not, ◌||◌, ◌≡◌, ◌≢◌, ◌↔◌, ◌⊎◌, inl, inr, none, some, List, arith, ◌==◌,
  eq_iff, Bool-cases, Option-cases,
}
use uml_class_designer_be.Collaboration.Locks.{
  ElementLock, LockStore, get_lock, expire_document, emit_change, list, put_lock, put_key, renewed,
  granted,
}
use uml_class_designer_be.Collaboration.Locks.Leases.{Request, new_lock, acquire}
use uml_class_designer_be.Collaboration.Locks.Laws.{get_lock-put_lock, get_lock-put_key}
use uml_class_designer_be.Collaboration.Locks.Index.{IsIndexed, add-IsIndexed}
use uml_class_designer_be.Collaboration.Locks.Expiry.{
  live, expire_document-IsIndexed, emit_change-IsIndexed, get_lock-expire_document,
  get_lock-emit_change,
}
use uml_class_designer_be.Collaboration.Locks.Invariant.{renewed-IsIndexed, found-IsIndexed}
use uml_class_designer_be.Collaboration.Locks.Holding.{Holds}

-- `acquire` refuses exactly where a running lock belongs to another user or another socket.
pub acquire-none_iff :
    (now : ℕ) (r : Request) (lease : String) (ttl : ℕ) (s : LockStore)
    → IsIndexed s
    → ((acquire now r lease ttl s).1 ≡ none) ↔ (
        (l : ElementLock) × (live now (get_lock s r.document_id r.element_id) ≡ some l)
        × ((l.user_id ≢ r.user_id) ⊎ (l.socket_id ≢ r.socket_id)))
unfolding acquire
acquire-none_iff now r lease ttl s v =
    let expired = get_lock-expire_document now s r.document_id r.document_id r.element_id v in
    elim (Option-cases (live now (get_lock s r.document_id r.element_id))) [
      | inl free ↦ (
        λ h. absurd (ground (arith, eq_iff r.document_id r.document_id, expired)),
        λ w. absurd (ground (arith, w.1)),
      )
      | inr (o, found) ↦ (
        λ h. (
          o,
          found,
          ground (
            arith,
            eq_iff r.document_id r.document_id,
            expired,
            eq_iff o.user_id r.user_id,
            eq_iff o.socket_id r.socket_id,
          ),
        ),
        λ w. ground (
          arith,
          w.1,
          w.2,
          eq_iff r.document_id r.document_id,
          expired,
          eq_iff o.user_id r.user_id,
          eq_iff o.socket_id r.socket_id,
        ),
      )
    ]

module _ (now : ℕ) where
  granted-found :
      (d e : String) (l q : ElementLock) (s : LockStore)
      → IsIndexed s
      → get_lock s d e ≡ some l
      → now < l.expires_at
      → get_lock (granted now d q s).0 d e ≡ some l
  unfolding list
  granted-found d e l q s v h t = ground (
    arith,
    get_lock-emit_change now s d d e v,
    get_lock-expire_document now (emit_change now d s) d d e (emit_change-IsIndexed now d s v),
  )

-- A grant with a positive term leaves the lock that it returns in the map, running, with the
-- user and the socket of the request, to the end of the term.
pub acquire-Holds_granted :
    (now : ℕ) (r : Request) (lease : String) (ttl : ℕ) (s : LockStore) (l : ElementLock)
    (ls : List ElementLock)
    → IsIndexed s
    → 0 < ttl
    → (acquire now r lease ttl s).1 ≡ some (l, ls)
    → Holds now (acquire now r lease ttl s).0 r.document_id r.element_id l
      × (l.user_id ≡ r.user_id)
      × (l.socket_id ≡ r.socket_id)
      × (l.expires_at ≡ now + ttl * 1000)
unfolding acquire
acquire-Holds_granted now r lease ttl s l ls v t h =
    let s₁ = expire_document now r.document_id s in
    let v₁ = expire_document-IsIndexed now r.document_id s v in
    elim (Option-cases (get_lock s₁ r.document_id r.element_id)) [
      | inl free ↦
          let q = new_lock now r lease ttl in
          let s₂ = put_key r.socket_id r.document_id r.element_id (put_lock q s₁) in
          let there : get_lock s₂ r.document_id r.element_id ≡ some q = ground (
            arith,
            eq_iff r.document_id r.document_id,
            eq_iff r.element_id r.element_id,
            get_lock-put_key (put_lock q s₁) r.socket_id r.document_id r.element_id r.document_id
                r.element_id,
            get_lock-put_lock s₁ q r.document_id r.element_id,
          ) in
          let found =
            granted-found now r.document_id r.element_id q q s₂ (add-IsIndexed s₁ q free v₁) there
              (omega arith) in
          let same : q ≡ l = ground arith in
          ((ground arith, ground arith), ground arith, ground arith, ground arith)
      | inr (o, found) ↦
          let q = renewed now ttl o in
          let place : get_lock s₁ o.document_id o.element_id ≡ some o =
            found-IsIndexed now s₁ r.document_id r.element_id o v₁ found in
          let there : get_lock (put_lock q s₁) r.document_id r.element_id ≡ some q = ground (
            arith,
            v₁.in_document r.document_id r.element_id o,
            v₁.at_element r.document_id r.element_id o,
            eq_iff q.document_id r.document_id,
            eq_iff q.element_id r.element_id,
            get_lock-put_lock s₁ q r.document_id r.element_id,
          ) in
          let kept =
            granted-found now r.document_id r.element_id q q (put_lock q s₁)
              (renewed-IsIndexed now s₁ r.document_id r.element_id o ttl v₁ found) there
              (omega arith) in
          elim (Bool-cases (not (o.user_id == r.user_id) || not (o.socket_id == r.socket_id))) [
            | inl denied ↦ absurd (ground arith)
            | inr allowed ↦
                let same : q ≡ l = ground arith in
                (
                  (ground arith, ground arith),
                  ground (arith, eq_iff o.user_id r.user_id),
                  ground (arith, eq_iff o.socket_id r.socket_id),
                  ground arith,
                )
          ]
    ]
