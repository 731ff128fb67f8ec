-- ===== src/Collaboration/Presence/Leaving.antt =====
-- collaboration-presence.store.ts: what a leave does to both maps, and that they stay in agreement.
use uml_class_designer_be.Common.{
  ℕ, String, true, false, not, ◌&&◌, ◌≡◌, refl, sym, ap, subst, ◌∙◌, inl, inr, List, [], ◌∷◌,
  contains, lookup, ◌==◌, eq_iff, arith, Bool-cases,
}
use uml_class_designer_be.Collaboration.Locks.{or_empty}
use uml_class_designer_be.Collaboration.Presence.{
  PresenceStore, emit_list, newcomer, without_participant, without_document, leave, leave_all,
  leave_by_socket, on_shutdown, step, PresenceCall, joins, updates, touches, leaves, leaves_all,
  shuts_down,
}
use uml_class_designer_be.Collaboration.Presence.Index.{
  is_present, is_listed, IsConsistent, present-without, listed-without, join-IsConsistent,
  update-IsConsistent, touch-IsConsistent, kept-emit_list, kept-participants, kept-without_document,
}

pub leave_absent :
    (d k : String) (s : PresenceStore) → is_present d k s ≡ false → (leave d k s).0 ≡ s
unfolding leave is_present
leave_absent d k s h = rw h refl

pub leave_there :
    (d k : String) (s : PresenceStore)
    → is_present d k s ≡ true
    → (leave d k s).0 ≡ emit_list d (without_document d k (without_participant d k s))
unfolding leave is_present
leave_there d k s h = rw h refl

-- A socket that leaves a document is in neither map for it; the rest stays.
abbrev Leaves : String → String → PresenceStore → PresenceStore → Type 0
Leaves d k s s' =
    (e j : String)
    → (is_present e j s' ≡ (not (d == e && k == j) && is_present e j s))
      × (is_listed e j s' ≡ (not (d == e && k == j) && is_listed e j s))

leave-Leaves : (d k : String) (s : PresenceStore) → IsConsistent s → Leaves d k s (leave d k s).0
leave-Leaves d k s v = elim (Bool-cases (is_present d k s)) [
  | inr absent ↦ subst (Leaves d k s) (sym (leave_absent d k s absent)) (λ e j. (
    ground (arith, absent, eq_iff d e, eq_iff k j),
    ground (arith, absent, v d k, eq_iff d e, eq_iff k j),
  ))
  | inl there ↦
      let s₁ = without_participant d k s in
      subst (Leaves d k s) (sym (leave_there d k s there)) (λ e j. (
        (kept-emit_list d e j (without_document d k s₁)).0
            ∙ (kept-without_document d k e j s₁ ∙ present-without d k e j s),
        (kept-emit_list d e j (without_document d k s₁)).1
            ∙ (listed-without d k e j s₁
                ∙ ap (λ b. not (d == e && k == j) && b)
                    (kept-participants d k e j (newcomer 0 "" "") s).1),
      ))
]

Leaves-IsConsistent :
    (d k : String) (s s' : PresenceStore) → Leaves d k s s' → IsConsistent s → IsConsistent s'
Leaves-IsConsistent d k s s' l v e j = ground (arith, l e j, v e j)

leave_all-present :
    (ds : List String) (k : String) (s : PresenceStore) (e j : String)
    → IsConsistent s
    → IsConsistent (leave_all ds k s).0
      × (is_present e j (leave_all ds k s).0 ≡ (not (contains e ds && k == j) && is_present e j s))
unfolding leave_all
leave_all-present [] k s e j v = (v, refl)
leave_all-present (d ∷ ds) k s e j v =
    let l = leave-Leaves d k s v in
    let (w, rest) = leave_all-present ds k (leave d k s).0 e j (Leaves-IsConsistent d k s _ l v) in
    (w, rest ∙ ground (arith, (l e j).0, eq_iff d e))

-- Every call, at any time, keeps the maps in agreement: a socket is among the participants of
-- exactly those documents that are listed for it.
pub presence-step-IsConsistent :
    (now : ℕ) (c : PresenceCall) (s : PresenceStore) → IsConsistent s → IsConsistent (step now c s)
unfolding step leave_by_socket on_shutdown is_present is_listed
presence-step-IsConsistent now (joins d user_id k most) s v =
    join-IsConsistent now d user_id k most s v
presence-step-IsConsistent now (updates d k selection cursor interval) s v =
    update-IsConsistent now d k selection cursor interval s v
presence-step-IsConsistent now (touches d k) s v = touch-IsConsistent now d k s v
presence-step-IsConsistent now (leaves d k) s v =
    Leaves-IsConsistent d k s (leave d k s).0 (leave-Leaves d k s v) v
presence-step-IsConsistent now (leaves_all k) s v =
    (leave_all-present (or_empty (lookup k s.document_ids_by_socket)) k s "" "" v).0
presence-step-IsConsistent now shuts_down s v = λ d k. refl
