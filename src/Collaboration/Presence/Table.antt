-- ===== src/Collaboration/Presence/Table.antt =====
-- What collaboration-presence.store.ts promises, said without its maps: who takes part in which
-- document, and how many take part in each.
use uml_class_designer_be.Common.{
  ℕ, suc, ◌-◌, String, Bool, not, ◌&&◌, Option, none, some, List, [], ◌∷◌, is_some, leb, ltb, ◌+◌,
  ◌==◌, if◌then◌else◌,
}
use uml_class_designer_be.Collaboration.Presence.{
  StoredParticipant, seen_at, newcomer, changed, PresenceCall, joins, updates, touches, leaves,
  leaves_all, shuts_down,
}

pub record PresenceTable : Type 0 where
  pub entry : String → String → Option StoredParticipant
  pub count : String → ℕ

abbrev pub vacant : PresenceTable
vacant = record { entry = λ d k. none; count = λ d. 0 }

-- A participant takes the place of a socket in a document.
abbrev pub seat : String → String → StoredParticipant → PresenceTable → PresenceTable
seat d k p t = record {
  entry = λ e j. if d == e && k == j then some p else t.entry e j;
  count = λ e. if d == e && not (is_some (t.entry e k)) then suc (t.count e) else t.count e;
}

-- A socket gives its place up in the documents that pass a test.
abbrev pub vacate : (String → Bool) → String → PresenceTable → PresenceTable
vacate p k t = record {
  entry = λ e j. if p e && k == j then none else t.entry e j;
  count = λ e. if p e && is_some (t.entry e k) then t.count e - 1 else t.count e;
}

-- A call, as a change of who takes part.
unfoldable pub attend : ℕ → PresenceCall → PresenceTable → PresenceTable
attend now (joins d user_id k most) t = elim (t.entry d k) [
  | none ↦ if leb most (t.count d) then t else seat d k (seen_at now (newcomer now user_id k)) t
  | some p ↦ seat d k (seen_at now p) t
]
attend now (updates d k selection cursor interval) t = elim (t.entry d k) [
  | none ↦ t
  | some p ↦
      if ltb now (p.last_presence_update_at + interval)
      then t
      else seat d k (changed now selection cursor p) t
]
attend now (touches d k) t = elim (t.entry d k) [ none ↦ t | some p ↦ seat d k (seen_at now p) t ]
attend now (leaves d k) t = vacate (λ e. d == e) k t
attend now (leaves_all k) t = vacate (λ e. is_some (t.entry e k)) k t
attend now shuts_down t = vacant

unfoldable pub attended : List (ℕ × PresenceCall) → PresenceTable → PresenceTable
attended [] t = t
attended ((now, c) ∷ calls) t = attended calls (attend now c t)
