-- ===== src/Collaboration/StoreTests.antt =====
-- The presence store, the rate limiter and the export quota: tests, and the theorems at concrete
-- inputs.
use uml_class_designer_be.Common.{ℕ, ◌≤◌, true, false, ◌+◌, min, List, ◌≡◌, refl, [], ◌∷◌, arith}
use uml_class_designer_be.Collaboration.RateLimiter.{RateLimiter, allow, allow_command}
use uml_class_designer_be.Collaboration.RateLimiter.Windows.{
  allowed_commands, allowed_commands-eq-min,
}
use uml_class_designer_be.Collaboration.ExportQuota.{
  Limits, acquire, admit, prune, prune_expired_actor_requests, release,
}
use uml_class_designer_be.Collaboration.ExportQuota.Bounds.{IsBounded}
use uml_class_designer_be.Collaboration.ExportQuota.Exports.{
  ExportCall, starts, finishes, no_exports, export_step, exports_after, under_way,
  exports-IsBounded,
}
use uml_class_designer_be.Collaboration.Presence as Presence
use uml_class_designer_be.Collaboration.Presence.{
  PresenceStore, PresenceCall, joins, leaves_all, nobody, participants_of, after,
}
use uml_class_designer_be.Collaboration.Presence.Index.{is_present, is_listed, IsConsistent}
use uml_class_designer_be.Collaboration.Presence.Leaving.{presence-step-IsConsistent}
use uml_class_designer_be.Collaboration.Presence.Table.{vacant, attend, attended}
use uml_class_designer_be.Collaboration.Presence.Shows.{IsShown}
use uml_class_designer_be.Collaboration.Presence.Refinement.{presence-IsRefined}

abbrev no_windows : RateLimiter
no_windows = record { command_windows = []; control_event_windows = [] }

three_calls : allowed_commands "k" 2 100 (10 ∷ 20 ∷ 30 ∷ []) no_windows ≡ 2
unfolding allowed_commands allow_command allow
three_calls = refl

allowed_commands-eq-min_example :
    allowed_commands "k" 2 100 (10 ∷ 20 ∷ 30 ∷ []) no_windows ≡ 1 + min 2 1
allowed_commands-eq-min_example =
    allowed_commands-eq-min "k" 2 100 10 (20 ∷ 30 ∷ []) no_windows refl
      (omega arith, (omega arith, tt))

abbrev limits : Limits
limits = record {
  actor_window_ms = 60000;
  actor_limit = 5;
  max_concurrent_exports = 2;
  max_tracked_actors = 10000;
}

-- The third actor is refused, and the first export is finished twice.
abbrev exports : List (ℕ × ExportCall)
exports =
    (1, starts "a") ∷ (2, starts "b") ∷ (3, starts "c") ∷ (4, finishes 0) ∷ (5, finishes 0) ∷ []

exports-IsBounded_example :
    ((exports_after limits exports no_exports).quota.active_exports
      ≡ under_way (exports_after limits exports no_exports).released)
    × (under_way (exports_after limits exports no_exports).released ≤ 2)
    × IsBounded limits (exports_after limits exports no_exports).quota
exports-IsBounded_example = exports-IsBounded limits exports

one_under_way : (exports_after limits exports no_exports).released ≡ true ∷ false ∷ []
unfolding exports_after export_step acquire admit prune_expired_actor_requests prune release
one_under_way = refl

nobody-IsConsistent : IsConsistent nobody
unfolding is_present is_listed
nobody-IsConsistent = λ d k. refl

abbrev joined : PresenceStore
joined = Presence.step 5 (joins "doc" "u" "k" 3) nobody

presence-step-IsConsistent_example : IsConsistent joined
presence-step-IsConsistent_example =
    presence-step-IsConsistent 5 (joins "doc" "u" "k" 3) nobody nobody-IsConsistent

abbrev visits : List (ℕ × PresenceCall)
visits =
    (5, joins "doc" "u" "k" 2)
    ∷ (6, joins "doc" "v" "l" 2)
    ∷ (7, joins "doc" "w" "m" 2)
    ∷ (8, leaves_all "k")
    ∷ []

presence-IsRefined_example :
    IsShown
      (participants_of "doc" (after visits nobody))
      ((attended visits vacant).entry "doc")
      ((attended visits vacant).count "doc")
presence-IsRefined_example = presence-IsRefined visits "doc"

one_left : (attended visits vacant).count "doc" ≡ 1
unfolding attended attend
one_left = refl
