-- ===== src/Collaboration/Locks/Calls.antt =====
-- collaboration-lock.store.ts: any call, and calls in turn.
use uml_class_designer_be.Common.{ℕ, String, List, [], ◌∷◌}
use uml_class_designer_be.Collaboration.Locks.{LockStore, list}
use uml_class_designer_be.Collaboration.Locks.Leases.{Request, acquire, renew, release}
use uml_class_designer_be.Collaboration.Locks.Releases.{
  release_by_socket, release_by_socket_in_document, has_lock_owned_by_another_socket, has_any_lock,
  reconcile_document_elements, on_timer, on_application_shutdown,
}

-- The calls on a store.
pub data Call : Type 0 where
  acquires : (r : Request) (lease_id : String) (ttl_seconds : ℕ) → Call
  renews : (r : Request) (lease_id : String) (ttl_seconds : ℕ) → Call
  releases : (r : Request) (lease_id : String) → Call
  releases_socket : (socket_id : String) → Call
  releases_socket_in : (socket_id document_id : String) → Call
  asks_other : (document_id : String) (element_ids : List String) (socket_id : String) → Call
  asks_any : (document_id : String) (element_ids : List String) → Call
  reconciles : (document_id : String) (active : List String) → Call
  lists : (document_id : String) → Call
  timer : (document_id element_id : String) → Call
  shuts_down : Call

unfoldable pub step : ℕ → Call → LockStore → LockStore
step now (acquires r lease_id ttl) s = (acquire now r lease_id ttl s).0
step now (renews r lease_id ttl) s = (renew now r lease_id ttl s).0
step now (releases r lease_id) s = (release now r lease_id s).0
step now (releases_socket k) s = release_by_socket now k s
step now (releases_socket_in k d) s = release_by_socket_in_document now k d s
step now (asks_other d es k) s = (has_lock_owned_by_another_socket now d es k s).0
step now (asks_any d es) s = (has_any_lock now d es s).0
step now (reconciles d active) s = reconcile_document_elements now d active s
step now (lists d) s = (list now d s).0
step now (timer d e) s = on_timer now d e s
step now shuts_down s = on_application_shutdown s

unfoldable pub run : List (ℕ × Call) → LockStore → LockStore
run [] s = s
run ((now, c) ∷ cs) s = run cs (step now c s)
