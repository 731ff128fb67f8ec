-- ===== src/Collaboration/ExportQuota.antt =====
-- src/modules/uml-domain/spring-boot-export-quota.service.ts. The function that `acquire` returns
-- is the operation `release` with the flag `released` of its closure, which the caller keeps.
pub mod Bounds
pub mod Exports
use uml_class_designer_be.Common.{
  ℕ, ◌+◌, ◌-◌, String, Bool, true, false, not, ◌&&◌, Option, none, some, List, [], ◌∷◌, ◌++◌,
  lookup, insert, is_some, filter, length, leb, ltb, if◌then◌else◌,
}

-- `SPRING_BOOT_EXPORT_LIMITS` and `MAX_TRACKED_ACTORS`
pub record Limits : Type 0 where
  pub actor_window_ms : ℕ
  pub actor_limit : ℕ
  pub max_concurrent_exports : ℕ
  pub max_tracked_actors : ℕ

pub record ExportQuota : Type 0 where
  pub actor_requests : List (String × List ℕ)
  pub active_exports : ℕ

pub data QuotaError : Type 0 where
  export_rate_limited export_concurrency_limited tracking_capacity_reached : QuotaError

-- `timestamp > now - actorWindowMs`
abbrev pub is_recent : Limits → ℕ → ℕ → Bool
is_recent limits now timestamp = ltb now (timestamp + limits.actor_window_ms)

-- `pruneExpiredActorRequests` on the map
unfoldable pub prune : Limits → ℕ → List (String × List ℕ) → List (String × List ℕ)
prune limits now [] = []
prune limits now ((actor, requests) ∷ rest) = elim (filter (is_recent limits now) requests) [
  | [] ↦ prune limits now rest
  | t ∷ ts ↦ (actor, t ∷ ts) ∷ prune limits now rest
]

unfoldable pub prune_expired_actor_requests : Limits → ℕ → ExportQuota → ExportQuota
prune_expired_actor_requests limits now s = record s {
  actor_requests = prune limits now s.actor_requests;
}

abbrev pub requests_of : String → ExportQuota → List ℕ
requests_of actor s = elim (lookup actor s.actor_requests) [ none ↦ [] | some ts ↦ ts ]

-- the checks and the admission, after the pruning
unfoldable pub admit : Limits → ℕ → String → ExportQuota → ExportQuota × Option QuotaError
admit limits now actor s =
    if leb limits.actor_limit (length (requests_of actor s))
    then (s, some QuotaError.export_rate_limited)
    else if leb limits.max_concurrent_exports s.active_exports
    then (s, some QuotaError.export_concurrency_limited)
    else if not (is_some (lookup actor s.actor_requests))
        && leb limits.max_tracked_actors (length s.actor_requests)
    then (s, some QuotaError.tracking_capacity_reached)
    else (
      record {
        actor_requests = insert actor (requests_of actor s ++ now ∷ []) s.actor_requests;
        active_exports = s.active_exports + 1;
      },
      none,
    )

-- `acquire`
unfoldable pub acquire : Limits → ℕ → String → ExportQuota → ExportQuota × Option QuotaError
acquire limits now actor s = admit limits now actor (prune_expired_actor_requests limits now s)

-- the returned function, with its flag
unfoldable pub release : Bool → ExportQuota → ExportQuota × Bool
release true s = (s, true)
release false s = (record s { active_exports = s.active_exports - 1 }, true)

unfoldable pub on_shutdown : ExportQuota → ExportQuota
on_shutdown s = record { actor_requests = []; active_exports = 0 }

pub data QuotaCall : Type 0 where
  acquires : (actor : String) → QuotaCall
  releases : (released : Bool) → QuotaCall
  cleans : QuotaCall
  shuts_down : QuotaCall

unfoldable pub step : Limits → ℕ → QuotaCall → ExportQuota → ExportQuota
step limits now (acquires actor) s = (acquire limits now actor s).0
step limits now (releases released) s = (release released s).0
step limits now cleans s = prune_expired_actor_requests limits now s
step limits now shuts_down s = on_shutdown s
