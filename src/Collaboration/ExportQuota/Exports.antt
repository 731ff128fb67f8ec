-- ===== src/Collaboration/ExportQuota/Exports.antt =====
-- spring-boot-export-quota.service.ts with its callers, until the application shuts down: what an
-- export holds is the flag `released` of the function that `acquire` returned for it.
use uml_class_designer_be.Common.{
  ℕ, zero, suc, ◌≤◌, String, Bool, true, false, not, ◌&&◌, ◌≡◌, refl, inl, inr, Option, none, some,
  List, [], ◌∷◌, ◌++◌, get_elem?, set, lookup, is_some, length, leb, arith, Bool-cases,
}
use uml_class_designer_be.Collaboration.ExportQuota.{
  Limits, ExportQuota, QuotaError, acquires, releases, cleans, requests_of, admit, acquire, release,
  prune_expired_actor_requests, step,
}
use uml_class_designer_be.Collaboration.ExportQuota.Bounds.{IsBounded, quota-step-IsBounded}

-- The quota, and the flags of the exports that were admitted, in their order.
pub record Exports : Type 0 where
  pub quota : ExportQuota
  pub released : List Bool

abbrev pub no_exports : Exports
no_exports = record { quota = record { actor_requests = []; active_exports = 0 }; released = [] }

-- An export may be finished more than once.
pub data ExportCall : Type 0 where
  starts : (actor : String) → ExportCall
  finishes : (export : ℕ) → ExportCall
  tidies : ExportCall

abbrev pub with_flag : List Bool → Option QuotaError → List Bool
with_flag flags none = flags ++ false ∷ []
with_flag flags (some e) = flags

abbrev pub finished : ℕ → Exports → Option Bool → Exports
finished i s none = s
finished i s (some flag) = record {
  quota = (release flag s.quota).0;
  released = set s.released i (release flag s.quota).1;
}

unfoldable pub export_step : Limits → ℕ → ExportCall → Exports → Exports
export_step limits now (starts actor) s = record {
  quota = (acquire limits now actor s.quota).0;
  released = with_flag s.released (acquire limits now actor s.quota).1;
}
export_step limits now (finishes i) s = finished i s (get_elem? s.released i)
export_step limits now tidies s = record s {
  quota = prune_expired_actor_requests limits now s.quota;
}

unfoldable pub exports_after : Limits → List (ℕ × ExportCall) → Exports → Exports
exports_after limits [] s = s
exports_after limits ((now, c) ∷ calls) s = exports_after limits calls (export_step limits now c s)

-- How many of the exports are not finished.
unfoldable pub under_way : List Bool → ℕ
under_way [] = 0
under_way (true ∷ flags) = under_way flags
under_way (false ∷ flags) = suc (under_way flags)

under_way-append : (flags : List Bool) → under_way (flags ++ false ∷ []) ≡ suc (under_way flags)
unfolding under_way
under_way-append [] = refl
under_way-append (true ∷ flags) = under_way-append flags
under_way-append (false ∷ flags) = omega (arith, under_way-append flags)

under_way-set_running :
    (flags : List Bool) (i : ℕ)
    → get_elem? flags i ≡ some false
    → under_way flags ≡ suc (under_way (set flags i true))
unfolding under_way
under_way-set_running [] i h = absurd (cc)
under_way-set_running (true ∷ flags) zero h = absurd (ground arith)
under_way-set_running (false ∷ flags) zero h = refl
under_way-set_running (true ∷ flags) (suc i) h = under_way-set_running flags i h
under_way-set_running (false ∷ flags) (suc i) h = omega (arith, under_way-set_running flags i h)

under_way-set_over :
    (flags : List Bool) (i : ℕ)
    → get_elem? flags i ≡ some true
    → under_way (set flags i true) ≡ under_way flags
unfolding under_way
under_way-set_over [] i h = absurd (cc)
under_way-set_over (true ∷ flags) zero h = refl
under_way-set_over (false ∷ flags) zero h = absurd (ground arith)
under_way-set_over (true ∷ flags) (suc i) h = under_way-set_over flags i h
under_way-set_over (false ∷ flags) (suc i) h = omega (arith, under_way-set_over flags i h)

module _ (limits : Limits) where
  -- An admission counts one export more, a refusal none.
  admit-active :
      (now : ℕ) (actor : String) (s : ExportQuota) (flags : List Bool)
      → s.active_exports ≡ under_way flags
      → (admit limits now actor s).0.active_exports
        ≡ under_way (with_flag flags (admit limits now actor s).1)
  unfolding admit
  admit-active now actor s flags h =
      elim (Bool-cases (leb limits.actor_limit (length (requests_of actor s)))) [
        | inl full ↦ rw full h
        | inr few ↦ elim (Bool-cases (leb limits.max_concurrent_exports s.active_exports)) [
          | inl busy ↦ rw (few, busy) h
          | inr idle ↦
              elim (Bool-cases (
                not (is_some (lookup actor s.actor_requests))
                && leb limits.max_tracked_actors (length s.actor_requests))) [
                  | inl crowded ↦ rw (few, idle, crowded) h
                  | inr room ↦ rw (few, idle, room) (omega (arith, h, under_way-append flags))
                ]
        ]
      ]

  abbrev IsCounted : Exports → Type 0
  IsCounted s = IsBounded limits s.quota × (s.quota.active_exports ≡ under_way s.released)

  finished-IsCounted :
      (now i : ℕ) (s : Exports) (o : Option Bool)
      → get_elem? s.released i ≡ o
      → IsCounted s
      → IsCounted (finished i s o)
  unfolding release step
  finished-IsCounted now i s none e h = h
  finished-IsCounted now i s (some true) e (b, h) =
      (b, omega (arith, h, under_way-set_over s.released i e))
  finished-IsCounted now i s (some false) e (b, h) = (
    quota-step-IsBounded limits now (releases false) s.quota b,
    omega (arith, h, under_way-set_running s.released i e),
  )

  export_step-IsCounted :
      (now : ℕ) (c : ExportCall) (s : Exports)
      → IsCounted s
      → IsCounted (export_step limits now c s)
  unfolding export_step step acquire prune_expired_actor_requests
  export_step-IsCounted now (starts actor) s (b, h) = (
    quota-step-IsBounded limits now (acquires actor) s.quota b,
    admit-active now actor (prune_expired_actor_requests limits now s.quota) s.released h,
  )
  export_step-IsCounted now (finishes i) s h =
      finished-IsCounted now i s (get_elem? s.released i) refl h
  export_step-IsCounted now tidies s (b, h) = (quota-step-IsBounded limits now cleans s.quota b, h)

  exports_after-IsCounted :
      (calls : List (ℕ × ExportCall)) (s : Exports)
      → IsCounted s
      → IsCounted (exports_after limits calls s)
  unfolding exports_after
  exports_after-IsCounted [] s h = h
  exports_after-IsCounted ((now, c) ∷ calls) s h =
      exports_after-IsCounted calls (export_step limits now c s) (export_step-IsCounted now c s h)

  -- Whatever is called from the start on, at any times, and however often an export is finished:
  -- the counter is the number of exports that were admitted and are not finished, which is at most
  -- the limit, and the tracked actors and the requests that are kept of each are within theirs.
  pub exports-IsBounded :
      (calls : List (ℕ × ExportCall))
      → ((exports_after limits calls no_exports).quota.active_exports
          ≡ under_way (exports_after limits calls no_exports).released)
        × (under_way (exports_after limits calls no_exports).released
            ≤ limits.max_concurrent_exports)
        × IsBounded limits (exports_after limits calls no_exports).quota
  unfolding under_way
  exports-IsBounded calls =
      let (b, h) =
        exports_after-IsCounted calls no_exports
          (record { concurrent = omega arith; tracked = omega arith; requests = tt }, refl) in
      (h, omega (arith, h, b.concurrent), b)
