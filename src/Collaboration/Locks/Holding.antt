-- ===== src/Collaboration/Locks/Holding.antt =====
-- collaboration-lock.store.ts: what leaves a running lock of another socket in place.
use uml_class_designer_be.Common.{
  ℕ, ◌<◌, String, not, ◌||◌, ◌≡◌, ◌≢◌, ◌⊎◌, sym, ◌∙◌, inl, inr, none, some, List, [], ◌∷◌, arith,
  ◌==◌, eq_iff, Bool-cases, Option-cases, ==-cases,
}
use uml_class_designer_be.Collaboration.Locks.{
  ElementLock, LockStore, Keys, get_lock, remove, is_expired, expire_document, emit_change, list,
  put_lock, renewed, granted,
}
use uml_class_designer_be.Collaboration.Locks.Leases.{
  Request, new_lock, acquire, owns, renew, release,
}
use uml_class_designer_be.Collaboration.Locks.Releases.{
  release_key, release_keys, emit_all, on_timer,
}
use uml_class_designer_be.Collaboration.Locks.Laws.{
  get_lock-put_lock, get_lock-put_key, get_lock-remove,
}
use uml_class_designer_be.Collaboration.Locks.Index.{IsIndexed, add-IsIndexed}
use uml_class_designer_be.Collaboration.Locks.Expiry.{
  expire_document-IsIndexed, emit_change-IsIndexed, get_lock-expire_document, get_lock-emit_change,
}
use uml_class_designer_be.Collaboration.Locks.Invariant.{
  found-IsIndexed, release_key-IsIndexed, renewed-IsIndexed, removed-IsIndexed,
}

-- A lock stands under a pair of identifiers and runs on after `now`.
abbrev pub Holds : ℕ → LockStore → String → String → ElementLock → Type 0
Holds now s d e l = (get_lock s d e ≡ some l) × (now < l.expires_at)

module _ (now : ℕ) (d e : String) (l : ElementLock) where
  pub expire_document-Holds :
      (f : String) (s : LockStore)
      → IsIndexed s
      → Holds now s d e l
      → Holds now (expire_document now f s) d e l
  expire_document-Holds f s v h = ground (arith, get_lock-expire_document now s f d e v)

  pub emit_change-Holds :
      (f : String) (s : LockStore)
      → IsIndexed s
      → Holds now s d e l
      → Holds now (emit_change now f s) d e l
  emit_change-Holds f s v h = ground (arith, get_lock-emit_change now s f d e v)

  pub granted-Holds :
      (f : String) (q : ElementLock) (s : LockStore)
      → IsIndexed s
      → Holds now s d e l
      → Holds now (granted now f q s).0 d e l
  unfolding list
  granted-Holds f q s v h =
      expire_document-Holds f _ (emit_change-IsIndexed now f s v) (emit_change-Holds f s v h)

  -- A lock of another socket stands elsewhere.
  pub put_lock-Holds :
      (s : LockStore) (q : ElementLock)
      → (get_lock s q.document_id q.element_id ≡ none)
        ⊎ ((o : ElementLock) × (get_lock s q.document_id q.element_id ≡ some o)
            × (o.socket_id ≢ l.socket_id))
      → Holds now s d e l
      → Holds now (put_lock q s) d e l
  put_lock-Holds s q (inl free) h =
      ground (arith, get_lock-put_lock s q d e, eq_iff q.document_id d, eq_iff q.element_id e)
  put_lock-Holds s q (inr (o, there, other)) h =
      ground (arith, get_lock-put_lock s q d e, eq_iff q.document_id d, eq_iff q.element_id e)

  pub remove-Holds :
      (s : LockStore) (q : ElementLock)
      → get_lock s q.document_id q.element_id ≡ some q
      → q.socket_id ≢ l.socket_id
      → Holds now s d e l
      → Holds now (remove q s) d e l
  remove-Holds s q there other h =
      ground (arith, get_lock-remove s q d e, eq_iff q.document_id d, eq_iff q.element_id e)

  pub acquire-Holds :
      (r : Request) (lease : String) (ttl : ℕ) (s : LockStore)
      → IsIndexed s
      → r.socket_id ≢ l.socket_id
      → Holds now s d e l
      → Holds now (acquire now r lease ttl s).0 d e l
  unfolding acquire
  acquire-Holds r lease ttl s v other h =
      let s₁ = expire_document now r.document_id s in
      let v₁ = expire_document-IsIndexed now r.document_id s v in
      let h₁ = expire_document-Holds r.document_id s v h in
      elim (Option-cases (get_lock s₁ r.document_id r.element_id)) [
        | inl free ↦
            let q = new_lock now r lease ttl in
            let h₂ = put_lock-Holds s₁ q (inl free) h₁ in
            rw (free, acquire)
              (granted-Holds r.document_id q _ (add-IsIndexed s₁ q free v₁) (
                rw (get_lock-put_key (put_lock q s₁) r.socket_id r.document_id r.element_id d e)
                  h₂))
        | inr (o, found) ↦
            rw (found, acquire)
              (elim (Bool-cases
                (not (o.user_id == r.user_id) || not (o.socket_id == r.socket_id))) [
                  | inl denied ↦ rw denied h₁
                  | inr allowed ↦
                      let q = renewed now ttl o in
                      let own : o.socket_id ≡ r.socket_id =
                        ground (arith, eq_iff o.socket_id r.socket_id) in
                      rw allowed (
                        granted-Holds r.document_id q _
                          (renewed-IsIndexed now s₁ _ _ o ttl v₁ found)
                          (put_lock-Holds s₁ q
                            (inr
                              (o, found-IsIndexed now s₁ _ _ o v₁ found, λ p. other (sym own ∙ p)))
                            h₁))
                ])
      ]

  pub renew-Holds :
      (r : Request) (lease : String) (ttl : ℕ) (s : LockStore)
      → IsIndexed s
      → r.socket_id ≢ l.socket_id
      → Holds now s d e l
      → Holds now (renew now r lease ttl s).0 d e l
  unfolding renew
  renew-Holds r lease ttl s v other h =
      let s₁ = expire_document now r.document_id s in
      let v₁ = expire_document-IsIndexed now r.document_id s v in
      let h₁ = expire_document-Holds r.document_id s v h in
      elim (Option-cases (get_lock s₁ r.document_id r.element_id)) [
        | inl free ↦ rw (free, renew) h₁
        | inr (o, found) ↦
            rw (found, renew)
              (elim (Bool-cases (owns r lease o)) [
                | inr denied ↦ rw denied h₁
                | inl allowed ↦
                    let q = renewed now ttl o in
                    let own : o.socket_id ≡ r.socket_id =
                      ground (arith, eq_iff o.socket_id r.socket_id) in
                    rw allowed (
                      granted-Holds r.document_id q _ (renewed-IsIndexed now s₁ _ _ o ttl v₁ found)
                        (put_lock-Holds s₁ q
                          (inr (o, found-IsIndexed now s₁ _ _ o v₁ found, λ p. other (sym own ∙ p)))
                          h₁))
              ])
      ]

  -- Removing the lock of another socket, found in the map.
  pub other-Holds :
      (s : LockStore) (d' e' k : String) (o : ElementLock)
      → IsIndexed s
      → get_lock s d' e' ≡ some o
      → o.socket_id ≡ k
      → k ≢ l.socket_id
      → Holds now s d e l
      → Holds now (remove o s) d e l
  other-Holds s d' e' k o v found own other h =
      remove-Holds s o (found-IsIndexed now s d' e' o v found) (λ p. other (sym own ∙ p)) h

  pub release-Holds :
      (r : Request) (lease : String) (s : LockStore)
      → IsIndexed s
      → r.socket_id ≢ l.socket_id
      → Holds now s d e l
      → Holds now (release now r lease s).0 d e l
  unfolding release
  release-Holds r lease s v other h =
      let s₁ = expire_document now r.document_id s in
      let v₁ = expire_document-IsIndexed now r.document_id s v in
      let h₁ = expire_document-Holds r.document_id s v h in
      elim (Option-cases (get_lock s₁ r.document_id r.element_id)) [
        | inl free ↦ rw (free, release) h₁
        | inr (o, found) ↦
            rw (found, release)
              (elim (Bool-cases (owns r lease o)) [
                | inr denied ↦ rw denied h₁
                | inl allowed ↦
                    let own : o.socket_id ≡ r.socket_id =
                      ground (arith, eq_iff o.socket_id r.socket_id) in
                    rw allowed (
                      emit_change-Holds r.document_id _ (removed-IsIndexed now s₁ _ _ o v₁ found)
                        (other-Holds s₁ _ _ _ o v₁ found own other h₁))
              ])
      ]

  pub release_key-Holds :
      (k : String) (j : String × String) (a : List String × LockStore)
      → IsIndexed a.1
      → k ≢ l.socket_id
      → Holds now a.1 d e l
      → Holds now (release_key k j a).1 d e l
  unfolding release_key
  release_key-Holds k (d', e') (changed, s) v other h = elim (Bool-cases (e' == "")) [
    | inl blank ↦ rw blank h
    | inr named ↦ rw named (elim (Option-cases (get_lock s d' e')) [
      | inl free ↦ rw (free, release_key) h
      | inr (o, found) ↦
          rw (found, release_key)
            (elim (==-cases o.socket_id k) [
              | inl own ↦ rw own.0 (other-Holds s d' e' k o v found own.1 other h)
              | inr foreign ↦ rw foreign.0 h
            ])
    ])
  ]

  pub release_keys-Holds :
      (k : String) (js : Keys) (a : List String × LockStore)
      → IsIndexed a.1
      → k ≢ l.socket_id
      → Holds now a.1 d e l
      → Holds now (release_keys k js a).1 d e l
  unfolding release_keys
  release_keys-Holds k [] a v other h = h
  release_keys-Holds k (j ∷ js) a v other h =
      release_keys-Holds k js _ (release_key-IsIndexed now k j a v) other
        (release_key-Holds k j a v other h)

  pub emit_all-Holds :
      (ds : List String) (s : LockStore)
      → IsIndexed s
      → Holds now s d e l
      → Holds now (emit_all now ds s) d e l
  unfolding emit_all
  emit_all-Holds [] s v h = h
  emit_all-Holds (f ∷ fs) s v h =
      emit_all-Holds fs _ (emit_change-IsIndexed now f s v) (emit_change-Holds f s v h)

  -- The timer removes the lock that it finds only if that has expired.
  pub on_timer-Holds :
      (d' e' : String) (s : LockStore)
      → IsIndexed s
      → Holds now s d e l
      → Holds now (on_timer now d' e' s) d e l
  unfolding on_timer
  on_timer-Holds d' e' s v h = elim (Option-cases (get_lock s d' e')) [
    | inl free ↦ rw (free, on_timer) h
    | inr (o, found) ↦
        rw (found, on_timer)
          (elim (Bool-cases (is_expired now o)) [
            | inr running ↦ rw running h
            | inl expired ↦ rw expired (
                emit_change-Holds d' _ (removed-IsIndexed now s d' e' o v found) (
                  ground (
                    arith,
                    get_lock-remove s o d e,
                    eq_iff o.document_id d,
                    eq_iff o.element_id e,
                    v.in_document d' e' o,
                    v.at_element d' e' o,
                  )))
          ])
  ]
