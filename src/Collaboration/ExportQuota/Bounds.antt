-- ===== src/Collaboration/ExportQuota/Bounds.antt =====
-- spring-boot-export-quota.service.ts: the limits are kept.
use uml_class_designer_be.Common.{
  ℕ, suc, ◌≤◌, String, true, false, not, ◌&&◌, ◌≡◌, refl, inl, inr, List, [], ◌∷◌, ◌++◌, lookup,
  insert, is_some, filter, length, All, leb, arith, Bool-cases, length-append, length-filter-le,
  ◌==◌, if◌then◌else◌,
}
use uml_class_designer_be.Collaboration.ExportQuota.{
  Limits, ExportQuota, QuotaCall, acquires, releases, cleans, shuts_down, prune,
  prune_expired_actor_requests, requests_of, admit, acquire, release, on_shutdown, step, is_recent,
}

module _ (limits : Limits) where
  -- No limit is exceeded: by the counter of exports, the tracked actors, or the requests of each.
  pub record IsBounded (s : ExportQuota) : Type 0 where
    pub concurrent : s.active_exports ≤ limits.max_concurrent_exports
    pub tracked : length s.actor_requests ≤ limits.max_tracked_actors
    pub requests : All (λ e. length e.1 ≤ limits.actor_limit) s.actor_requests

  prune-length : (now : ℕ) (m : List (String × List ℕ)) → length (prune limits now m) ≤ length m
  unfolding prune
  prune-length now [] = omega arith
  prune-length now ((a, ts) ∷ m) = ground (arith, prune-length now m)

  prune-requests :
      (now : ℕ) (m : List (String × List ℕ))
      → All (λ e. length e.1 ≤ limits.actor_limit) m
      → All (λ e. length e.1 ≤ limits.actor_limit) (prune limits now m)
  unfolding prune
  prune-requests now [] h = tt
  prune-requests now ((a, ts) ∷ m) h =
      kept (filter (is_recent limits now) ts)
        (omega (arith, length-filter-le (is_recent limits now) ts, h.0)) (prune-requests now m h.1)
    where
      kept :
          (us : List ℕ)
          → length us ≤ limits.actor_limit
          → All (λ e. length e.1 ≤ limits.actor_limit) (prune limits now m)
          → All
              (λ e. length e.1 ≤ limits.actor_limit)
              (elim us [ [] ↦ prune limits now m | t ∷ vs ↦ (a, t ∷ vs) ∷ prune limits now m ])
      kept [] k r = r
      kept (t ∷ vs) k r = (k, r)

  prune-IsBounded :
      (now : ℕ) (s : ExportQuota)
      → IsBounded s
      → IsBounded (prune_expired_actor_requests limits now s)
  unfolding prune_expired_actor_requests
  prune-IsBounded now s b = record {
    concurrent = b.concurrent;
    tracked = omega (arith, prune-length now s.actor_requests, b.tracked);
    requests = prune-requests now s.actor_requests b.requests;
  }

  insert-length :
      (actor : String) (ts : List ℕ) (m : List (String × List ℕ))
      → length (insert actor ts m) ≡ (if is_some (lookup actor m) then length m else suc (length m))
  insert-length actor ts [] = refl
  insert-length actor ts ((a, us) ∷ m) = ground (arith, insert-length actor ts m)

  insert-requests :
      (actor : String) (ts : List ℕ) (m : List (String × List ℕ))
      → length ts ≤ limits.actor_limit
      → All (λ e. length e.1 ≤ limits.actor_limit) m
      → All (λ e. length e.1 ≤ limits.actor_limit) (insert actor ts m)
  insert-requests actor ts [] k h = (k, tt)
  insert-requests actor ts ((a, us) ∷ m) k h = elim (Bool-cases (a == actor)) [
    | inl same ↦ rw same (k, h.1)
    | inr other ↦ rw other (h.0, insert-requests actor ts m k h.1)
  ]

  admit-IsBounded :
      (now : ℕ) (actor : String) (s : ExportQuota)
      → IsBounded s
      → IsBounded (admit limits now actor s).0
  unfolding admit
  admit-IsBounded now actor s b =
      elim (Bool-cases (leb limits.actor_limit (length (requests_of actor s)))) [
        | inl full ↦ rw full b
        | inr few ↦ rw few (elim (Bool-cases (leb limits.max_concurrent_exports s.active_exports)) [
          | inl busy ↦ rw busy b
          | inr idle ↦
              rw idle
                (elim (Bool-cases (
                  not (is_some (lookup actor s.actor_requests))
                  && leb limits.max_tracked_actors (length s.actor_requests))) [
                    | inl crowded ↦ rw crowded b
                    | inr room ↦ rw room (record {
                      concurrent = ground (arith, idle);
                      tracked = ground (
                        arith,
                        room,
                        b.tracked,
                        insert-length actor (requests_of actor s ++ now ∷ []) s.actor_requests,
                      );
                      requests =
                          insert-requests actor (requests_of actor s ++ now ∷ []) s.actor_requests
                            (ground (arith, few, length-append (requests_of actor s) (now ∷ [])))
                            b.requests;
                    })
                  ])
        ])
      ]

  -- A call keeps the limits on the counter, the tracked actors and the requests of each.
  pub quota-step-IsBounded :
      (now : ℕ) (c : QuotaCall) (s : ExportQuota) → IsBounded s → IsBounded (step limits now c s)
  unfolding step acquire release on_shutdown
  quota-step-IsBounded now (acquires actor) s b =
      admit-IsBounded now actor _ (prune-IsBounded now s b)
  quota-step-IsBounded now (releases true) s b = b
  quota-step-IsBounded now (releases false) s b = record {
    concurrent = ground (arith, b.concurrent);
    tracked = b.tracked;
    requests = b.requests;
  }
  quota-step-IsBounded now cleans s b = prune-IsBounded now s b
  quota-step-IsBounded now shuts_down s b = record {
    concurrent = omega arith;
    tracked = omega arith;
    requests = tt;
  }
