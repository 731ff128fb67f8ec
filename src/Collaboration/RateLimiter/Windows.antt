-- ===== src/Collaboration/RateLimiter/Windows.antt =====
-- collaboration-rate-limiter.service.ts: how many calls of a window are allowed.
use uml_class_designer_be.Common.{
  ℕ, ◌+◌, ◌-◌, ◌<◌, min, String, Bool, true, false, ◌≡◌, ap, ◌∙◌, inl, inr, ◌⊎◌, some, List, [],
  ◌∷◌, lookup, length, All, arith, leb, eq_refl, Bool-cases, Option-cases, lookup-insert,
}
use uml_class_designer_be.Collaboration.RateLimiter.{
  RateLimiter, fresh_window, is_over, allow, allow_command,
}

abbrev to_nat : Bool → ℕ
to_nat true = 1
to_nat false = 0

-- Commands of a socket, at these times: how many are allowed.
unfoldable pub allowed_commands : String → ℕ → ℕ → List ℕ → RateLimiter → ℕ
allowed_commands socket_id limit window_ms [] s = 0
allowed_commands socket_id limit window_ms (now ∷ times) s =
    to_nat (allow_command now socket_id limit window_ms s).1
    + allowed_commands socket_id limit window_ms times
        (allow_command now socket_id limit window_ms s).0

-- The window of a socket stands at a count.
abbrev Counts : String → ℕ → ℕ → RateLimiter → Type 0
Counts socket_id start count s =
    lookup socket_id s.command_windows ≡ some (record { started_at = start; count = count })

module _ (socket_id : String) (limit window_ms : ℕ) where
  abbrev left : List ℕ → RateLimiter → ℕ
  left times s = allowed_commands socket_id limit window_ms times s

  allow_command-within :
      (now start count : ℕ) (s : RateLimiter)
      → Counts socket_id start count s
      → now < start + window_ms
      → ((leb limit count ≡ true)
          × ((allow_command now socket_id limit window_ms s).1 ≡ false)
          × Counts socket_id start count (allow_command now socket_id limit window_ms s).0)
        ⊎ ((leb limit count ≡ false)
            × ((allow_command now socket_id limit window_ms s).1 ≡ true)
            × Counts socket_id start (count + 1) (allow_command now socket_id limit window_ms s).0)
  unfolding allow_command allow
  allow_command-within now start count s h k = elim (Bool-cases (leb limit count)) [
    | inl full ↦ inl (full, ground arith, ground arith)
    | inr free ↦ inr (
      free,
      ground arith,
      ground (
        arith,
        lookup-insert socket_id socket_id (record { started_at = start; count = count + 1 })
            s.command_windows,
        eq_refl socket_id,
      ),
    )
  ]

  allow_command-over :
      (now : ℕ) (s : RateLimiter)
      → is_over now window_ms (lookup socket_id s.command_windows) ≡ true
      → ((allow_command now socket_id limit window_ms s).1 ≡ true)
        × Counts socket_id now 1 (allow_command now socket_id limit window_ms s).0
  unfolding allow_command allow
  allow_command-over now s h =
      let put = lookup-insert socket_id socket_id (fresh_window now) s.command_windows in
      elim (Option-cases (lookup socket_id s.command_windows)) [
        | inl absent ↦ (ground arith, ground (arith, put, eq_refl socket_id))
        | inr (w, there) ↦ (ground arith, ground (arith, put, eq_refl socket_id))
      ]

  allowed-within :
      (times : List ℕ) (start count : ℕ) (s : RateLimiter)
      → Counts socket_id start count s
      → All (λ now. now < start + window_ms) times
      → allowed_commands socket_id limit window_ms times s ≡ min (length times) (limit - count)
  unfolding allowed_commands
  allowed-within [] start count s h k = ground arith
  allowed-within (now ∷ times) start count s h k =
      elim (allow_command-within now start count s h k.0) [
        | inl (full, denied, same) ↦
            ap (λ b. to_nat b + left times (allow_command now socket_id limit window_ms s).0) denied
            ∙ (ap (λ n. 0 + n) (allowed-within times start count _ same k.1) ∙ ground (arith, full))
        | inr (free, granted, more) ↦
            ap (λ b. to_nat b + left times (allow_command now socket_id limit window_ms s).0)
              granted
            ∙ (ap (λ n. 1 + n) (allowed-within times start (count + 1) _ more k.1)
                ∙ ground (arith, free))
      ]

  -- A socket without a running window that sends commands at a time and then at times before the
  -- window of that one ends: the first is allowed, and of the others as many as the limit leaves.
  pub allowed_commands-eq-min :
      (now : ℕ) (times : List ℕ) (s : RateLimiter)
      → is_over now window_ms (lookup socket_id s.command_windows) ≡ true
      → All (λ t. t < now + window_ms) times
      → allowed_commands socket_id limit window_ms (now ∷ times) s
        ≡ 1 + min (length times) (limit - 1)
  unfolding allowed_commands
  allowed_commands-eq-min now times s h k =
      let (first, started) = allow_command-over now s h in
      ap (λ b. to_nat b + left times (allow_command now socket_id limit window_ms s).0) first
      ∙ ap (λ n. 1 + n) (allowed-within times now 1 _ started k)
