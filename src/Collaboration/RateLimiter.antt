-- ===== src/Collaboration/RateLimiter.antt =====
-- src/modules/uml-domain/collaboration-rate-limiter.service.ts. `Date.now()` is the argument `now`.
pub mod Windows
use uml_class_designer_be.Common.{
  ℕ, ◌+◌, String, Bool, true, false, ◌||◌, Option, none, some, List, [], lookup, insert, erase, leb,
  if◌then◌else◌,
}

pub record RateWindow : Type 0 where
  pub started_at : ℕ
  pub count : ℕ

abbrev pub RateWindows : Type 0
RateWindows = List (String × RateWindow)

pub record RateLimiter : Type 0 where
  pub command_windows : RateWindows
  pub control_event_windows : RateWindows

abbrev pub fresh_window : ℕ → RateWindow
fresh_window now = record { started_at = now; count = 1 }

-- `!current || now - current.startedAt >= windowMs`
abbrev pub is_over : ℕ → ℕ → Option RateWindow → Bool
is_over now window_ms none = true
is_over now window_ms (some w) = leb (w.started_at + window_ms) now

-- within the window
abbrev pub within : String → ℕ → RateWindow → RateWindows → RateWindows × Bool
within socket_id limit w windows =
    if leb limit w.count
    then (windows, false)
    else (insert socket_id (record w { count = w.count + 1 }) windows, true)

-- `allow`
unfoldable pub allow : ℕ → String → ℕ → ℕ → RateWindows → RateWindows × Bool
allow now socket_id limit window_ms windows = elim (lookup socket_id windows) [
  | none ↦ (insert socket_id (fresh_window now) windows, true)
  | some w ↦
      if is_over now window_ms (some w)
      then (insert socket_id (fresh_window now) windows, true)
      else within socket_id limit w windows
]

unfoldable pub allow_command : ℕ → String → ℕ → ℕ → RateLimiter → RateLimiter × Bool
allow_command now socket_id limit window_ms s =
    let (windows, allowed) = allow now socket_id limit window_ms s.command_windows in
    (record s { command_windows = windows }, allowed)

unfoldable pub allow_control_event : ℕ → String → ℕ → ℕ → RateLimiter → RateLimiter × Bool
allow_control_event now socket_id limit window_ms s =
    let (windows, allowed) = allow now socket_id limit window_ms s.control_event_windows in
    (record s { control_event_windows = windows }, allowed)

unfoldable pub release_socket : String → RateLimiter → RateLimiter
release_socket socket_id s = record {
  command_windows = erase socket_id s.command_windows;
  control_event_windows = erase socket_id s.control_event_windows;
}

unfoldable pub on_shutdown : RateLimiter → RateLimiter
on_shutdown s = record { command_windows = []; control_event_windows = [] }
