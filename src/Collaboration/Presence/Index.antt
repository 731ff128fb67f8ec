-- ===== src/Collaboration/Presence/Index.antt =====
-- collaboration-presence.store.ts: the two maps agree, and a socket that leaves is gone.
use uml_class_designer_be.Common.{
  ℕ, ◌+◌, String, Bool, true, not, ◌&&◌, ◌||◌, ◌≡◌, refl, inl, inr, Option, none, some, List, [],
  ◌∷◌, filter, contains, add, contains-add, lookup, insert, erase, is_some, length, leb, ltb, ◌==◌,
  eq_iff, arith, lookup-insert, lookup-erase, Bool-cases, Option-cases,
}
use uml_class_designer_be.Collaboration.Locks.{or_empty}
use uml_class_designer_be.Collaboration.Locks.Laws.{lookup-put_or_drop}
use uml_class_designer_be.Collaboration.Presence.{
  StoredParticipant, PresenceStore, participants_of, emit_list, seen_at, newcomer, put_participant,
  put_document, join, changed, update, touch, without_participant, without_document,
}

-- The socket takes part in the document; the document is among those of the socket.
unfoldable pub is_present : String → String → PresenceStore → Bool
is_present d k s = is_some (lookup k (participants_of d s))

unfoldable pub is_listed : String → String → PresenceStore → Bool
is_listed d k s = contains d (or_empty (lookup k s.document_ids_by_socket))

abbrev pub IsConsistent : PresenceStore → Type 0
IsConsistent s = (d k : String) → is_present d k s ≡ is_listed d k s

present-put :
    (d k e j : String) (p : StoredParticipant) (s : PresenceStore)
    → is_present e j (put_participant d k p s) ≡ ((d == e && k == j) || is_present e j s)
unfolding is_present put_participant
present-put d k e j p s = ground (
  arith,
  eq_iff d e,
  lookup-insert d e (insert k p (participants_of d s)) s.participants_by_document,
  lookup-insert k j p (participants_of d s),
)

listed-put :
    (d k e j : String) (s : PresenceStore)
    → is_listed e j (put_document d k s) ≡ ((d == e && k == j) || is_listed e j s)
unfolding is_listed put_document
listed-put d k e j s = ground (
  arith,
  eq_iff k j,
  lookup-insert k j (add d (or_empty (lookup k s.document_ids_by_socket))) s.document_ids_by_socket,
  contains-add d e (or_empty (lookup k s.document_ids_by_socket)),
)

pub present-without :
    (d k e j : String) (s : PresenceStore)
    → is_present e j (without_participant d k s) ≡ (not (d == e && k == j) && is_present e j s)
unfolding is_present without_participant
present-without d k e j s = ground (
  arith,
  eq_iff d e,
  lookup-put_or_drop d e (erase k (participants_of d s)) s.participants_by_document,
  lookup-erase k j (participants_of d s),
)

contains-filter_ne :
    (d e : String) (ids : List String)
    → contains e (filter (λ x. not (x == d)) ids) ≡ (not (d == e) && contains e ids)
contains-filter_ne d e [] = ground arith
contains-filter_ne d e (x ∷ ids) =
    ground (arith, eq_iff x d, eq_iff x e, eq_iff d e, contains-filter_ne d e ids)

pub listed-without :
    (d k e j : String) (s : PresenceStore)
    → is_listed e j (without_document d k s) ≡ (not (d == e && k == j) && is_listed e j s)
unfolding is_listed without_document
listed-without d k e j s = elim (Option-cases (lookup k s.document_ids_by_socket)) [
  | inl absent ↦ ground (arith, eq_iff k j)
  | inr (ids, there) ↦ ground (
    arith,
    eq_iff k j,
    lookup-put_or_drop k j (filter (λ x. not (x == d)) ids) s.document_ids_by_socket,
    contains-filter_ne d e ids,
  )
]

pub join-IsConsistent :
    (now : ℕ) (d user_id k : String) (most : ℕ) (s : PresenceStore)
    → IsConsistent s
    → IsConsistent (join now d user_id k most s).0
unfolding join emit_list put_document put_participant is_present is_listed
join-IsConsistent now d user_id k most s v e j =
    elim (Bool-cases
      (not (is_some (lookup k (participants_of d s))) && leb most (length (participants_of d s)))) [
        | inl full ↦ ground (arith, full, v e j)
        | inr room ↦
            let p = seen_at now (elim (lookup k (participants_of d s)) [
              | none ↦ newcomer now user_id k
              | some x ↦ x
            ]) in
            ground (
              arith,
              room,
              v e j,
              present-put d k e j p s,
              listed-put d k e j (put_participant d k p s),
            )
      ]

-- What leaves one of the maps alone.
pub kept-emit_list :
    (d e j : String) (s : PresenceStore)
    → (is_present e j (emit_list d s) ≡ is_present e j s)
      × (is_listed e j (emit_list d s) ≡ is_listed e j s)
unfolding emit_list is_present is_listed
kept-emit_list d e j s = (refl, refl)

pub kept-participants :
    (d k e j : String) (p : StoredParticipant) (s : PresenceStore)
    → (is_listed e j (put_participant d k p s) ≡ is_listed e j s)
      × (is_listed e j (without_participant d k s) ≡ is_listed e j s)
unfolding put_participant without_participant is_listed
kept-participants d k e j p s = (refl, refl)

pub kept-without_document :
    (d k e j : String) (s : PresenceStore)
    → is_present e j (without_document d k s) ≡ is_present e j s
unfolding without_document is_present
kept-without_document d k e j s = elim (Option-cases (lookup k s.document_ids_by_socket)) [
  | inl absent ↦ rw (absent, without_document) refl
  | inr (ids, there) ↦ rw (there, without_document) refl
]

put_known-IsConsistent :
    (d k : String) (p : StoredParticipant) (s : PresenceStore)
    → is_present d k s ≡ true
    → IsConsistent s
    → IsConsistent (put_participant d k p s)
put_known-IsConsistent d k p s there v e j = ground (
  arith,
  v e j,
  eq_iff d e,
  eq_iff k j,
  present-put d k e j p s,
  (kept-participants d k e j p s).0,
)

emit-IsConsistent : (d : String) (s : PresenceStore) → IsConsistent s → IsConsistent (emit_list d s)
emit-IsConsistent d s v e j = ground (arith, v e j, kept-emit_list d e j s)

pub update-IsConsistent :
    (now : ℕ) (d k : String) (selection : Option (List String)) (cursor : Option (String × String))
    → (interval : ℕ) (s : PresenceStore) → IsConsistent s
    → IsConsistent (update now d k selection cursor interval s).0
unfolding update is_present
update-IsConsistent now d k selection cursor interval s v =
    elim (Option-cases (lookup k (participants_of d s))) [
      | inl absent ↦ rw (absent, update) v
      | inr (p, there) ↦
          rw (there, update)
            (elim (Bool-cases (ltb now (p.last_presence_update_at + interval))) [
              | inl early ↦ rw early v
              | inr late ↦ rw late (
                  emit-IsConsistent d _ (
                    put_known-IsConsistent d k (changed now selection cursor p) s
                      (ground (arith, there)) v))
            ])
    ]

pub touch-IsConsistent :
    (now : ℕ) (d k : String) (s : PresenceStore) → IsConsistent s → IsConsistent (touch now d k s)
unfolding touch is_present
touch-IsConsistent now d k s v = elim (Option-cases (lookup k (participants_of d s))) [
  | inl absent ↦ rw (absent, touch) v
  | inr (p, there) ↦
      rw (there, touch) (put_known-IsConsistent d k (seen_at now p) s (ground (arith, there)) v)
]
