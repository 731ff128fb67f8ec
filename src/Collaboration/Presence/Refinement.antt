-- ===== src/Collaboration/Presence/Refinement.antt =====
-- collaboration-presence.store.ts: its calls change the table of who takes part as they should.
use uml_class_designer_be.Common.{
  ℕ, ◌+◌, String, true, false, ◌≡◌, ◌∙◌, refl, sym, subst, inl, inr, Option, List, [], ◌∷◌,
  contains, lookup, is_some, length, leb, ltb, ◌==◌, eq_iff, arith, Bool-cases, Option-cases,
}
use uml_class_designer_be.Collaboration.Locks.{or_empty}
use uml_class_designer_be.Collaboration.Presence.{
  StoredParticipant, PresenceStore, nobody, participants_of, emit_list, seen_at, newcomer,
  put_participant, put_document, join, changed, update, touch, without_participant,
  without_document, leave, leave_all, leave_by_socket, on_shutdown, step, after, PresenceCall,
  joins, updates, touches, leaves, leaves_all, shuts_down,
}
use uml_class_designer_be.Collaboration.Presence.Index.{is_present, is_listed, IsConsistent}
use uml_class_designer_be.Collaboration.Presence.Leaving.{
  leave_absent, leave_there, presence-step-IsConsistent,
}
use uml_class_designer_be.Collaboration.Presence.Table.{
  PresenceTable, vacant, seat, vacate, attend, attended,
}
use uml_class_designer_be.Collaboration.Presence.Shows.{
  IsShown, Shows, Shows-seat, Shows-vacate, Shows-emit, Shows-without_document, Shows-same,
}

leave-Shows :
    (d k : String) (s : PresenceStore) (t : PresenceTable)
    → Shows s t
    → Shows (leave d k s).0 (vacate (λ e. d == e) k t)
unfolding is_present
leave-Shows d k s t h = elim (Bool-cases (is_present d k s)) [
  | inl there ↦
      let s₁ = without_participant d k s in
      let s₂ = without_document d k s₁ in
      subst (λ s'. Shows s' (vacate (λ e. d == e) k t)) (sym (leave_there d k s there))
        (Shows-emit d k s₂ _ (Shows-without_document d k s₁ _ (Shows-vacate d k s t h))).0
  | inr absent ↦
      subst (λ s'. Shows s' (vacate (λ e. d == e) k t)) (sym (leave_absent d k s absent))
        (Shows-same s t (vacate (λ e. d == e) k t)
          (λ e. (
            λ j. ground (arith, eq_iff d e, eq_iff k j, absent, (h d).same_entry k),
            ground (arith, eq_iff d e, absent, (h d).same_entry k),
          ))
          h)
]

leave_all-Shows :
    (ds : List String) (k : String) (s : PresenceStore) (t : PresenceTable)
    → Shows s t
    → Shows (leave_all ds k s).0 (vacate (λ e. contains e ds) k t)
unfolding leave_all
leave_all-Shows [] k s t h = h
leave_all-Shows (d ∷ ds) k s t h =
    Shows-same (leave_all ds k (leave d k s).0).0
      (vacate (λ e. contains e ds) k (vacate (λ e. d == e) k t))
      (vacate (λ e. contains e (d ∷ ds)) k t)
      (λ e. (λ j. ground (arith, eq_iff d e), ground (arith, eq_iff d e, eq_iff k k)))
      (leave_all-Shows ds k (leave d k s).0 (vacate (λ e. d == e) k t) (leave-Shows d k s t h))

leave_by_socket-Shows :
    (k : String) (s : PresenceStore) (t : PresenceTable)
    → IsConsistent s
    → Shows s t
    → Shows (leave_by_socket k s).0 (vacate (λ e. is_some (t.entry e k)) k t)
unfolding leave_by_socket is_present is_listed
leave_by_socket-Shows k s t v h =
    let ds = or_empty (lookup k s.document_ids_by_socket) in
    Shows-same (leave_by_socket k s).0 (vacate (λ e. contains e ds) k t)
      (vacate (λ e. is_some (t.entry e k)) k t)
      (λ e. (
        λ j. ground (arith, v e k, (h e).same_entry k, eq_iff k j),
        ground (arith, v e k, (h e).same_entry k),
      ))
      (leave_all-Shows ds k s t h)

join-Shows :
    (now : ℕ) (d user_id k : String) (most : ℕ) (s : PresenceStore) (t : PresenceTable)
    → Shows s t
    → Shows (join now d user_id k most s).0 (attend now (joins d user_id k most) t)
unfolding join attend
join-Shows now d user_id k most s t h =
    let seated : (p : StoredParticipant)
        → Shows (emit_list d (put_document d k (put_participant d k p s))) (seat d k p t) =
      λ p.
        let s₁ = put_participant d k p s in
        (Shows-emit d k (put_document d k s₁) _
          (Shows-emit d k s₁ _ (Shows-seat d k p s t h)).1).0 in
    let same = sym ((h d).same_entry k) in
    elim (Option-cases (lookup k (participants_of d s))) [
      | inl absent ↦
          rw (join, attend, absent, same ∙ absent)
            (elim (Bool-cases (leb most (length (participants_of d s)))) [
              | inl full ↦ rw (full, subst (λ n. leb most n ≡ true) (h d).same_count full) h
              | inr room ↦
                  rw (room, subst (λ n. leb most n ≡ false) (h d).same_count room)
                    (seated (seen_at now (newcomer now user_id k)))
            ])
      | inr (p, there) ↦ rw (join, attend, there, same ∙ there) (seated (seen_at now p))
    ]

update-Shows :
    (now : ℕ) (d k : String) (selection : Option (List String)) (cursor : Option (String × String))
    → (interval : ℕ) (s : PresenceStore) (t : PresenceTable) → Shows s t
    → Shows
        (update now d k selection cursor interval s).0
        (attend now (updates d k selection cursor interval) t)
unfolding update attend
update-Shows now d k selection cursor interval s t h =
    let same = sym ((h d).same_entry k) in
    elim (Option-cases (lookup k (participants_of d s))) [
      | inl absent ↦ rw (update, attend, absent, same ∙ absent) h
      | inr (p, there) ↦
          rw (update, attend, there, same ∙ there)
            (elim (Bool-cases (ltb now (p.last_presence_update_at + interval))) [
              | inl early ↦ rw early h
              | inr late ↦
                  let q = changed now selection cursor p in
                  rw late (Shows-emit d k (put_participant d k q s) _ (Shows-seat d k q s t h)).0
            ])
    ]

touch-Shows :
    (now : ℕ) (d k : String) (s : PresenceStore) (t : PresenceTable)
    → Shows s t
    → Shows (touch now d k s) (attend now (touches d k) t)
unfolding touch attend
touch-Shows now d k s t h =
    let same = sym ((h d).same_entry k) in
    elim (Option-cases (lookup k (participants_of d s))) [
      | inl absent ↦ rw (touch, attend, absent, same ∙ absent) h
      | inr (p, there) ↦
          rw (touch, attend, there, same ∙ there) (Shows-seat d k (seen_at now p) s t h)
    ]

step-Shows :
    (now : ℕ) (c : PresenceCall) (s : PresenceStore) (t : PresenceTable)
    → IsConsistent s
    → Shows s t
    → Shows (step now c s) (attend now c t)
unfolding step attend on_shutdown
step-Shows now (joins d user_id k most) s t v h = join-Shows now d user_id k most s t h
step-Shows now (updates d k selection cursor interval) s t v h =
    update-Shows now d k selection cursor interval s t h
step-Shows now (touches d k) s t v h = touch-Shows now d k s t h
step-Shows now (leaves d k) s t v h = leave-Shows d k s t h
step-Shows now (leaves_all k) s t v h = leave_by_socket-Shows k s t v h
step-Shows now shuts_down s t v h =
    λ e. record { same_entry = λ j. refl; same_count = refl; once = tt }

history-Shows :
    (calls : List (ℕ × PresenceCall)) (s : PresenceStore) (t : PresenceTable)
    → IsConsistent s
    → Shows s t
    → Shows (after calls s) (attended calls t)
unfolding after attended
history-Shows [] s t v h = h
history-Shows ((now, c) ∷ calls) s t v h =
    history-Shows calls (step now c s) (attend now c t) (presence-step-IsConsistent now c s v)
      (step-Shows now c s t v h)

-- After any calls, at any times, from the start, the store shows what the same calls make of a
-- table: in each document each socket once, with the participant that the table has for it, and as
-- many participants as the table counts.
pub presence-IsRefined :
    (calls : List (ℕ × PresenceCall)) (d : String)
    → IsShown
        (participants_of d (after calls nobody))
        ((attended calls vacant).entry d)
        ((attended calls vacant).count d)
unfolding is_present is_listed
presence-IsRefined calls d =
    history-Shows calls nobody vacant (λ e k. refl)
      (λ e. record { same_entry = λ j. refl; same_count = refl; once = tt }) d
