-- ===== src/Collaboration/Locks/Leases.antt =====
-- collaboration-lock.store.ts: acquire, renew and release of one lock.
use uml_class_designer_be.Common.{
  ℕ, ◌+◌, ◌*◌, String, Bool, true, false, not, ◌&&◌, ◌||◌, none, some, ◌==◌, if◌then◌else◌,
}
use uml_class_designer_be.Collaboration.Locks.{
  ElementLock, LockStore, get_lock, remove, expire_document, emit_change, put_lock, put_key,
  renewed, Granted, granted,
}

pub record Request : Type 0 where
  pub document_id : String
  pub element_id : String
  pub user_id : String
  pub socket_id : String

abbrev pub new_lock : ℕ → Request → String → ℕ → ElementLock
new_lock now r lease_id ttl_seconds = record {
  document_id = r.document_id;
  element_id = r.element_id;
  user_id = r.user_id;
  socket_id = r.socket_id;
  lease_id = lease_id;
  expires_at = now + ttl_seconds * 1000;
}

unfoldable pub acquire : ℕ → Request → String → ℕ → LockStore → LockStore × Granted
acquire now r lease_id ttl_seconds s =
    let s₁ = expire_document now r.document_id s in
    elim (get_lock s₁ r.document_id r.element_id) [
      | some existing ↦
          if not (existing.user_id == r.user_id) || not (existing.socket_id == r.socket_id)
          then (s₁, none)
          else granted now r.document_id (renewed now ttl_seconds existing)
              (put_lock (renewed now ttl_seconds existing) s₁)
      | none ↦
          let l = new_lock now r lease_id ttl_seconds in
          granted now r.document_id l
            (put_key r.socket_id r.document_id r.element_id (put_lock l s₁))
    ]

-- The condition of `renew` and `release`, negated.
abbrev pub owns : Request → String → ElementLock → Bool
owns r lease_id l = l.user_id == r.user_id && l.socket_id == r.socket_id && l.lease_id == lease_id

unfoldable pub renew : ℕ → Request → String → ℕ → LockStore → LockStore × Granted
renew now r lease_id ttl_seconds s =
    let s₁ = expire_document now r.document_id s in
    elim (get_lock s₁ r.document_id r.element_id) [
      | none ↦ (s₁, none)
      | some l ↦
          if owns r lease_id l
          then granted now r.document_id (renewed now ttl_seconds l)
              (put_lock (renewed now ttl_seconds l) s₁)
          else (s₁, none)
    ]

unfoldable pub release : ℕ → Request → String → LockStore → LockStore × Bool
release now r lease_id s =
    let s₁ = expire_document now r.document_id s in
    elim (get_lock s₁ r.document_id r.element_id) [
      | none ↦ (s₁, false)
      | some l ↦
          if owns r lease_id l
          then (emit_change now r.document_id (remove l s₁), true)
          else (s₁, false)
    ]
