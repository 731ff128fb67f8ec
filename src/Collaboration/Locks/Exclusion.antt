-- ===== src/Collaboration/Locks/Exclusion.antt =====
-- collaboration-lock.store.ts: a lock that has not expired excludes the other sockets.
use uml_class_designer_be.Common.{ℕ, String, Bool, true, false, not, ◌≡◌, [], arith, ◌==◌, eq_iff}
use uml_class_designer_be.Collaboration.Locks.{ElementLock, LockStore, list}
use uml_class_designer_be.Collaboration.Locks.Calls.{
  Call, acquires, renews, releases, releases_socket, releases_socket_in, asks_other, asks_any,
  reconciles, lists, timer, shuts_down, step,
}
use uml_class_designer_be.Collaboration.Locks.Releases.{
  release_by_socket, release_by_socket_in_document, has_lock_owned_by_another_socket, has_any_lock,
}
use uml_class_designer_be.Collaboration.Locks.Index.{IsIndexed}
use uml_class_designer_be.Collaboration.Locks.Invariant.{release_keys-IsIndexed}
use uml_class_designer_be.Collaboration.Locks.Holding.{
  Holds, acquire-Holds, emit_all-Holds, expire_document-Holds, on_timer-Holds, release-Holds,
  release_keys-Holds, renew-Holds,
}

-- The calls that another socket, a query or a timer makes.
abbrev pub is_foreign : String → Call → Bool
is_foreign k (acquires r lease ttl) = not (r.socket_id == k)
is_foreign k (renews r lease ttl) = not (r.socket_id == k)
is_foreign k (releases r lease) = not (r.socket_id == k)
is_foreign k (releases_socket j) = not (j == k)
is_foreign k (releases_socket_in j d) = not (j == k)
is_foreign k (reconciles d active) = false
is_foreign k shuts_down = false
is_foreign k _ = true

-- While a lock runs, no call of another socket (acquire, renew, release, disconnect, leave), no
-- query and no timer removes it or changes it.
pub step-Holds :
    (now : ℕ) (c : Call) (s : LockStore) (d e : String) (l : ElementLock)
    → IsIndexed s
    → is_foreign l.socket_id c ≡ true
    → Holds now s d e l
    → Holds now (step now c s) d e l
unfolding step release_by_socket release_by_socket_in_document has_lock_owned_by_another_socket
    has_any_lock list
step-Holds now (acquires r lease ttl) s d e l v f h =
    acquire-Holds now d e l r lease ttl s v (ground (arith, eq_iff r.socket_id l.socket_id)) h
step-Holds now (renews r lease ttl) s d e l v f h =
    renew-Holds now d e l r lease ttl s v (ground (arith, eq_iff r.socket_id l.socket_id)) h
step-Holds now (releases r lease) s d e l v f h =
    release-Holds now d e l r lease s v (ground (arith, eq_iff r.socket_id l.socket_id)) h
step-Holds now (releases_socket k) s d e l v f h =
    emit_all-Holds now d e l _ _ (release_keys-IsIndexed now k _ ([], s) v)
      (release_keys-Holds now d e l k _ ([], s) v (ground (arith, eq_iff k l.socket_id)) h)
step-Holds now (releases_socket_in k g) s d e l v f h =
    emit_all-Holds now d e l _ _ (release_keys-IsIndexed now k _ ([], s) v)
      (release_keys-Holds now d e l k _ ([], s) v (ground (arith, eq_iff k l.socket_id)) h)
step-Holds now (asks_other g es k) s d e l v f h = expire_document-Holds now d e l g s v h
step-Holds now (asks_any g es) s d e l v f h = expire_document-Holds now d e l g s v h
step-Holds now (reconciles g active) s d e l v f h = absurd (cc)
step-Holds now (lists g) s d e l v f h = expire_document-Holds now d e l g s v h
step-Holds now (timer g i) s d e l v f h = on_timer-Holds now d e l g i s v h
step-Holds now shuts_down s d e l v f h = absurd (cc)
