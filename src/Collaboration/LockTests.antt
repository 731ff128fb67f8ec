-- ===== src/Collaboration/LockTests.antt =====
-- The lock store on a short history: tests, and the theorems at concrete inputs.
use uml_class_designer_be.Common.{
  ℕ, ◌+◌, ◌*◌, String, false, ◌≡◌, ◌≢◌, ◌↔◌, ◌⊎◌, refl, sym, ◌∙◌, none, some, List, [], ◌∷◌, arith,
  true≢false, ==_of_eq, contains, ◌==◌, if◌then◌else◌,
}
use uml_class_designer_be.Collaboration.Locks.{
  LockStore, ElementLock, empty, get_lock, values, document_locks, without_lock, without_key,
  remove, remove_where, emit, expire_document, emit_change, list, put_lock, put_key,
}
use uml_class_designer_be.Collaboration.Locks.Leases.{Request, acquire, renew, release}
use uml_class_designer_be.Collaboration.Locks.Calls.{Call, acquires, releases_socket, step, run}
use uml_class_designer_be.Collaboration.Locks.Releases.{
  release_key, release_keys, emit_all, release_by_socket, release_by_socket_in_document,
  has_lock_owned_by_another_socket, has_any_lock, reconcile_document_elements, on_timer,
  on_application_shutdown,
}
use uml_class_designer_be.Collaboration.Locks.Index.{IsIndexed, held_by}
use uml_class_designer_be.Collaboration.Locks.Expiry.{live}
use uml_class_designer_be.Collaboration.Locks.Invariant.{step-IsIndexed, run-empty-IsIndexed}
use uml_class_designer_be.Collaboration.Locks.Holding.{Holds}
use uml_class_designer_be.Collaboration.Locks.Exclusion.{step-Holds}
use uml_class_designer_be.Collaboration.Locks.Disconnect.{
  release_by_socket_clears, get_lock-reconcile,
}
use uml_class_designer_be.Collaboration.Locks.Grants.{acquire-none_iff, acquire-Holds_granted}

unfoldable pub locking : Unit {0}
unfolding get_lock values document_locks without_lock without_key remove remove_where emit
    expire_document emit_change list put_lock put_key acquire renew release release_key release_keys
    emit_all release_by_socket release_by_socket_in_document has_lock_owned_by_another_socket
    has_any_lock reconcile_document_elements on_timer on_application_shutdown step run
locking = tt

abbrev asks : String → String → Request
asks user socket = record {
  document_id = "doc";
  element_id = "order";
  user_id = user;
  socket_id = socket;
}

abbrev pub history : List (ℕ × Call)
history = (5, acquires (asks "u2" "k2") "lease" 30) ∷ []

abbrev pub order_lock : ElementLock
order_lock = record {
  document_id = "doc";
  element_id = "order";
  user_id = "u2";
  socket_id = "k2";
  lease_id = "lease";
  expires_at = 30005;
}

abbrev store : LockStore
store = run history empty

store-IsIndexed : IsIndexed store
store-IsIndexed = run-empty-IsIndexed history

tests :
    (get_lock store "doc" "order" ≡ some order_lock)
    × ((acquire 9 (asks "u1" "k1") "l2" 30 store).1 ≡ none)
    × ((acquire 30005 (asks "u1" "k1") "l2" 30 store).1 ≢ none)
    × (get_lock (step 9 (releases_socket "k2") store) "doc" "order" ≡ none)
unfolding locking
tests = (refl, refl, λ e. cc, refl)

run-empty-IsIndexed_example : IsIndexed (run history empty)
run-empty-IsIndexed_example = run-empty-IsIndexed history

step-IsIndexed_example : IsIndexed (step 9 (releases_socket "k2") store)
step-IsIndexed_example = step-IsIndexed 9 (releases_socket "k2") store store-IsIndexed

runs_on : Holds 9 store "doc" "order" order_lock
unfolding locking
runs_on = (refl, omega arith)

step-Holds_example :
    Holds 9 (step 9 (acquires (asks "u1" "k1") "l2" 30) store) "doc" "order" order_lock
step-Holds_example =
    step-Holds 9 (acquires (asks "u1" "k1") "l2" 30) store "doc" "order" order_lock store-IsIndexed
      refl runs_on

acquire-none_iff_example : ((acquire 9 (asks "u1" "k1") "l2" 30 store).1 ≡ none) ↔ (
    (l : ElementLock) × (live 9 (get_lock store "doc" "order") ≡ some l)
    × ((l.user_id ≢ "u1") ⊎ (l.socket_id ≢ "k1")))
acquire-none_iff_example = acquire-none_iff 9 (asks "u1" "k1") "l2" 30 store store-IsIndexed

grants : (acquire 5 (asks "u2" "k2") "lease" 30 empty).1 ≡ some (order_lock, order_lock ∷ [])
unfolding locking
grants = refl

acquire-Holds_granted_example :
    Holds 5 (acquire 5 (asks "u2" "k2") "lease" 30 empty).0 "doc" "order" order_lock
    × (order_lock.user_id ≡ "u2")
    × (order_lock.socket_id ≡ "k2")
    × (30005 ≡ 5 + 30 * 1000)
unfolding locking
acquire-Holds_granted_example =
    acquire-Holds_granted 5 (asks "u2" "k2") "lease" 30 empty order_lock (order_lock ∷ [])
      (run-empty-IsIndexed []) (omega arith) grants

named : (s : String) → (s == "") ≡ false → s ≢ ""
named s h e = true≢false (sym (==_of_eq s "" e) ∙ h)

release_by_socket_clears_example :
    held_by "k2" (get_lock (release_by_socket 9 "k2" store) "doc" "order") ≡ false
release_by_socket_clears_example =
    release_by_socket_clears 9 "k2" "doc" "order" store store-IsIndexed (named "doc" refl)
      (named "order" refl)

get_lock-reconcile_example :
    get_lock (reconcile_document_elements 9 "doc" ("line" ∷ []) store) "doc" "order" ≡ (
      if "doc" == "doc"
      then (if contains "order" ("line" ∷ []) then live 9 (get_lock store "doc" "order") else none)
      else get_lock store "doc" "order")
get_lock-reconcile_example =
    get_lock-reconcile 9 store "doc" "doc" "order" ("line" ∷ []) store-IsIndexed
