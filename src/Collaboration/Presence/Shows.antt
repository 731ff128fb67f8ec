-- ===== src/Collaboration/Presence/Shows.antt =====
-- collaboration-presence.store.ts: its maps show a table of who takes part.
use uml_class_designer_be.Common.{
  ℕ, suc, ◌-◌, String, Bool, true, false, false, not, ◌&&◌, ◌≡◌, refl, Option, none, some, List, [],
  ◌∷◌, contains, lookup, insert, erase, keys, IsDistinct, is_some, length, ◌==◌, if◌then◌else◌,
  eq_iff, arith, lookup-insert, lookup-erase, lookup-keys, IsDistinct-keys-insert,
  IsDistinct-keys-erase, Option-cases, inl, inr, ◌∙◌,
}
use uml_class_designer_be.Collaboration.Locks.Laws.{lookup-put_or_drop}
use uml_class_designer_be.Collaboration.Presence.{
  StoredParticipant, Participants, PresenceStore, participants_of, emit_list, put_participant,
  put_document, without_participant, without_document,
}
use uml_class_designer_be.Collaboration.Presence.Table.{PresenceTable, seat, vacate}

module _ {ℓ} {V : Type ℓ} where
  length-insert :
      (k : String) (v : V) (m : List (String × V))
      → length (insert k v m) ≡ (if is_some (lookup k m) then length m else suc (length m))
  length-insert k v [] = refl
  length-insert k v ((j, w) ∷ m) = ground (arith, length-insert k v m)

  length-erase_absent :
      (k : String) (m : List (String × V))
      → contains k (keys m) ≡ false
      → length (erase k m) ≡ length m
  length-erase_absent k [] h = refl
  length-erase_absent k ((j, w) ∷ m) h = ground (arith, length-erase_absent k m)

  length_eq_erase :
      (k : String) (m : List (String × V))
      → IsDistinct (keys m)
      → length m ≡ (if is_some (lookup k m) then suc (length (erase k m)) else length (erase k m))
  length_eq_erase k [] h = refl
  length_eq_erase k ((j, w) ∷ m) h =
      ground (arith, eq_iff j k, lookup-keys k m, length-erase_absent k m, length_eq_erase k m h.1)

-- The participants of one document, each socket once.
pub record IsShown (m : Participants) (entry : String → Option StoredParticipant) (count : ℕ)
    : Type 0 where
  pub same_entry : (j : String) → lookup j m ≡ entry j
  pub same_count : length m ≡ count
  pub once : IsDistinct (keys m)

abbrev pub Shows : PresenceStore → PresenceTable → Type 0
Shows s t = (e : String) → IsShown (participants_of e s) (t.entry e) (t.count e)

participants_of-put :
    (d k e : String) (p : StoredParticipant) (s : PresenceStore)
    → participants_of e (put_participant d k p s)
      ≡ (if d == e then insert k p (participants_of e s) else participants_of e s)
unfolding put_participant
participants_of-put d k e p s = ground (
  arith,
  eq_iff d e,
  lookup-insert d e (insert k p (participants_of d s)) s.participants_by_document,
)

participants_of-without :
    (d k e : String) (s : PresenceStore)
    → participants_of e (without_participant d k s)
      ≡ (if d == e then erase k (participants_of e s) else participants_of e s)
unfolding without_participant
participants_of-without d k e s = ground (
  arith,
  eq_iff d e,
  lookup-put_or_drop d e (erase k (participants_of d s)) s.participants_by_document,
)

-- `b` tells whether it is this document that changes.
IsShown-insert :
    (b : Bool) (k : String) (p : StoredParticipant) (m : Participants)
    → (entry : String → Option StoredParticipant) (count : ℕ) → IsShown m entry count
    → IsShown
        (if b then insert k p m else m)
        (λ j. if b && k == j then some p else entry j)
        (if b && not (is_some (entry k)) then suc count else count)
IsShown-insert false k p m entry count h = record {
  same_entry = h.same_entry;
  same_count = h.same_count;
  once = h.once;
}
IsShown-insert true k p m entry count h = record {
  same_entry = λ j. ground (arith, lookup-insert k j p m, h.same_entry j);
  same_count = ground (arith, length-insert k p m, h.same_entry k, h.same_count);
  once = IsDistinct-keys-insert k p m h.once;
}

IsShown-erase :
    (b : Bool) (k : String) (m : Participants)
    → (entry : String → Option StoredParticipant) (count : ℕ) → IsShown m entry count
    → IsShown
        (if b then erase k m else m)
        (λ j. if b && k == j then none else entry j)
        (if b && is_some (entry k) then count - 1 else count)
IsShown-erase false k m entry count h = record {
  same_entry = h.same_entry;
  same_count = h.same_count;
  once = h.once;
}
IsShown-erase true k m entry count h = record {
  same_entry = λ j. ground (arith, lookup-erase k j m, h.same_entry j);
  same_count = ground (arith, length_eq_erase k m h.once, h.same_entry k, h.same_count);
  once = IsDistinct-keys-erase k m h.once;
}

pub Shows-seat :
    (d k : String) (p : StoredParticipant) (s : PresenceStore) (t : PresenceTable)
    → Shows s t
    → Shows (put_participant d k p s) (seat d k p t)
Shows-seat d k p s t h e =
    rw (participants_of-put d k e p s)
      (IsShown-insert (d == e) k p (participants_of e s) (t.entry e) (t.count e) (h e))

pub Shows-vacate :
    (d k : String) (s : PresenceStore) (t : PresenceTable)
    → Shows s t
    → Shows (without_participant d k s) (vacate (λ e. d == e) k t)
Shows-vacate d k s t h e =
    rw (participants_of-without d k e s)
      (IsShown-erase (d == e) k (participants_of e s) (t.entry e) (t.count e) (h e))

-- The index of the sockets and the changes that are emitted show nothing.
pub Shows-emit :
    (d k : String) (s : PresenceStore) (t : PresenceTable)
    → Shows s t
    → Shows (emit_list d s) t × Shows (put_document d k s) t
unfolding emit_list put_document
Shows-emit d k s t h = (h, h)

pub Shows-without_document :
    (d k : String) (s : PresenceStore) (t : PresenceTable)
    → Shows s t
    → Shows (without_document d k s) t
unfolding without_document
Shows-without_document d k s t h = elim (Option-cases (lookup k s.document_ids_by_socket)) [
  | inl absent ↦ rw (absent, without_document) h
  | inr (ids, there) ↦ rw (there, without_document) h
]

-- Tables with the same entries and counts are shown alike.
pub Shows-same :
    (s : PresenceStore) (t t' : PresenceTable)
    → ((e : String) → ((j : String) → t.entry e j ≡ t'.entry e j) × (t.count e ≡ t'.count e))
    → Shows s t
    → Shows s t'
Shows-same s t t' same h e = record {
  same_entry = λ j. (h e).same_entry j ∙ (same e).0 j;
  same_count = (h e).same_count ∙ (same e).1;
  once = (h e).once;
}
