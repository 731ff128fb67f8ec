-- ===== src/Collaboration/Presence.antt =====
-- src/modules/uml-domain/collaboration-presence.store.ts. The clock is the argument `now` in
-- milliseconds, one value for a call; `toISOString` of it is left to the print.
pub mod Index
pub mod Leaving
pub mod Table
pub mod Shows
pub mod Refinement
use uml_class_designer_be.Common.{
  ℕ, ◌+◌, String, Bool, true, false, not, ◌&&◌, ◌||◌, Option, none, some, List, [], ◌∷◌, ◌++◌, map,
  filter, add, lookup, insert, erase, is_some, length, leb, ltb, ◌==◌, if◌then◌else◌,
}
use uml_class_designer_be.Collaboration.Locks.{or_empty, put_or_drop}

pub record CollaborationParticipant : Type 0 where
  pub user_id : String
  pub socket_id : String
  pub joined_at : ℕ
  pub last_seen : ℕ
  pub selection : Option (List String)
  pub cursor : Option (String × String)

pub record StoredParticipant : Type 0 where
  pub participant : CollaborationParticipant
  pub last_presence_update_at : ℕ

pub record PresenceChange : Type 0 where
  pub document_id : String
  pub participants : List CollaborationParticipant

abbrev pub Participants : Type 0
Participants = List (String × StoredParticipant)

-- `emitted` holds what the listeners were told, oldest first.
pub record PresenceStore : Type 0 where
  pub participants_by_document : List (String × Participants)
  pub document_ids_by_socket : List (String × List String)
  pub emitted : List PresenceChange

abbrev pub nobody : PresenceStore
nobody = record { participants_by_document = []; document_ids_by_socket = []; emitted = [] }

abbrev pub participants_of : String → PresenceStore → Participants
participants_of d s = or_empty (lookup d s.participants_by_document)

-- `list`
unfoldable pub list : String → PresenceStore → List CollaborationParticipant
list d s = map (λ e. e.1.participant) (participants_of d s)

-- `emitChange` of the list
unfoldable pub emit_list : String → PresenceStore → PresenceStore
emit_list d s = record s {
  emitted = s.emitted ++ (record { document_id = d; participants = list d s }) ∷ [];
}

-- a participant seen at a time
abbrev pub seen_at : ℕ → StoredParticipant → StoredParticipant
seen_at now p = record p { participant = record p.participant { last_seen = now } }

abbrev pub newcomer : ℕ → String → String → StoredParticipant
newcomer now user_id socket_id = record {
  participant = record {
    user_id = user_id;
    socket_id = socket_id;
    joined_at = now;
    last_seen = now;
    selection = none;
    cursor = none;
  };
  last_presence_update_at = 0;
}

unfoldable pub put_participant : String → String → StoredParticipant → PresenceStore → PresenceStore
put_participant d k p s = record s {
  participants_by_document = insert d (insert k p (participants_of d s)) s.participants_by_document;
}

unfoldable pub put_document : String → String → PresenceStore → PresenceStore
put_document d k s = record s {
  document_ids_by_socket =
      insert k (add d (or_empty (lookup k s.document_ids_by_socket))) s.document_ids_by_socket;
}

unfoldable pub join :
    ℕ
    → String
    → String
    → String
    → ℕ
    → PresenceStore
    → PresenceStore × Option (List CollaborationParticipant)
join now d user_id k max_participants s =
    let existing = lookup k (participants_of d s) in
    if not (is_some existing) && leb max_participants (length (participants_of d s))
    then (s, none)
    else let participant =
        seen_at now (elim existing [ none ↦ newcomer now user_id k | some p ↦ p ]) in
      let s₁ = put_document d k (put_participant d k participant s) in
      (emit_list d s₁, some (list d s₁))

pub data Updated : Type 0 where
  not_joined rate_limited : Updated
  updated : (participants : List CollaborationParticipant) → Updated

-- `if (value !== undefined) field = value`
abbrev pub or_kept {ℓ} : {A : Type ℓ} → Option A → Option A → Option A
or_kept none kept = kept
or_kept (some a) kept = some a

abbrev pub changed :
    ℕ → Option (List String) → Option (String × String) → StoredParticipant → StoredParticipant
changed now selection cursor p = record {
  participant = record p.participant {
    last_seen = now;
    selection = or_kept selection p.participant.selection;
    cursor = or_kept cursor p.participant.cursor;
  };
  last_presence_update_at = now;
}

unfoldable pub update :
    ℕ
    → String
    → String
    → Option (List String)
    → Option (String × String)
    → ℕ
    → PresenceStore
    → PresenceStore × Updated
update now d k selection cursor minimum_interval_ms s = elim (lookup k (participants_of d s)) [
  | none ↦ (s, not_joined)
  | some p ↦
      if ltb now (p.last_presence_update_at + minimum_interval_ms)
      then (s, rate_limited)
      else let s₁ = put_participant d k (changed now selection cursor p) s in
        (emit_list d s₁, updated (list d s₁))
]

unfoldable pub touch : ℕ → String → String → PresenceStore → PresenceStore
touch now d k s = elim (lookup k (participants_of d s)) [
  | none ↦ s
  | some p ↦ put_participant d k (seen_at now p) s
]

unfoldable pub without_participant : String → String → PresenceStore → PresenceStore
without_participant d k s = record s {
  participants_by_document =
      put_or_drop d (erase k (participants_of d s)) s.participants_by_document;
}

unfoldable pub without_document : String → String → PresenceStore → PresenceStore
without_document d k s = elim (lookup k s.document_ids_by_socket) [
  | none ↦ s
  | some ids ↦ record s {
    document_ids_by_socket =
        put_or_drop k (filter (λ x. not (x == d)) ids) s.document_ids_by_socket;
  }
]

unfoldable pub leave :
    String → String → PresenceStore → PresenceStore × Option (List CollaborationParticipant)
leave d k s =
    if not (is_some (lookup k (participants_of d s)))
    then (s, none)
    else let s₁ = without_document d k (without_participant d k s) in
      (emit_list d s₁, some (list d s₁))

-- the loop of `leaveBySocket`
unfoldable pub leave_all :
    List String → String → PresenceStore → PresenceStore × List PresenceChange
leave_all [] k s = (s, [])
leave_all (d ∷ ds) k s =
    let (s₁, left) = leave d k s in
    let (s₂, changes) = leave_all ds k s₁ in
    (
      s₂,
      elim left [
        | none ↦ changes
        | some participants ↦ (record { document_id = d; participants = participants }) ∷ changes
      ],
    )

unfoldable pub leave_by_socket : String → PresenceStore → PresenceStore × List PresenceChange
leave_by_socket k s = leave_all (or_empty (lookup k s.document_ids_by_socket)) k s

-- The listeners are removed as well.
unfoldable pub on_shutdown : PresenceStore → PresenceStore
on_shutdown s = record s { participants_by_document = []; document_ids_by_socket = [] }

pub data PresenceCall : Type 0 where
  joins : (document_id user_id socket_id : String) (max_participants : ℕ) → PresenceCall
  updates :
      (document_id socket_id : String) (selection : Option (List String))
      (cursor : Option (String × String)) (minimum_interval_ms : ℕ)
      → PresenceCall
  touches : (document_id socket_id : String) → PresenceCall
  leaves : (document_id socket_id : String) → PresenceCall
  leaves_all : (socket_id : String) → PresenceCall
  shuts_down : PresenceCall

unfoldable pub step : ℕ → PresenceCall → PresenceStore → PresenceStore
step now (joins d user_id k max_participants) s = (join now d user_id k max_participants s).0
step now (updates d k selection cursor interval) s = (update now d k selection cursor interval s).0
step now (touches d k) s = touch now d k s
step now (leaves d k) s = (leave d k s).0
step now (leaves_all k) s = (leave_by_socket k s).0
step now shuts_down s = on_shutdown s

-- The calls of a list, each at its time, in turn.
unfoldable pub after : List (ℕ × PresenceCall) → PresenceStore → PresenceStore
after [] s = s
after ((now, c) ∷ calls) s = after calls (step now c s)
