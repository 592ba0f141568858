-- ===== src/RateLimit/Tests.antt =====
-- Runs of the rate limiter, and its theorems at concrete calls.
use mozilla_ai.Common.{ℕ, ◌*◌, ◌≤◌, ◌≡◌, refl, true, List, [], ◌∷◌, arith, string_eq}
use mozilla_ai.RateLimit.{RateLimiter, too_many_requests, init, ticks_per_sec, check}
use mozilla_ai.RateLimit.Refinement.{replay, check_refines}
use mozilla_ai.RateLimit.Tracking.{sliding_window, Call, serve, is_allowed}
use mozilla_ai.RateLimit.Retry.{within, window_bound, retry_after_admits}

abbrev at : ℕ → Call
at sec = record { now = sec * ticks_per_sec; wall = 5; user = "alice" }

-- two calls a second, and one of another user
abbrev calls : List Call
calls = at 100 ∷ record { now = 100 * ticks_per_sec; wall = 5; user = "bob" } ∷ at 101 ∷ []

-- The third call of a minute with rpm 2 is told to wait until the first is a minute old.
third_refused : check (130 * ticks_per_sec) 7 "alice" (replay calls (init 2)) ≡ (
  too_many_requests 30,
  record {
    rpm = 2;
    requests =
        ("alice", (100 * ticks_per_sec) ∷ (101 * ticks_per_sec) ∷ [])
        ∷ ("bob", (100 * ticks_per_sec) ∷ [])
        ∷ [];
    call_count = 4;
    hits = 1;
  },
)
unfolding check replay init
third_refused = refl

check_refines_example : serve calls (init 2) [] ≡ sliding_window 2 calls []
check_refines_example = check_refines 2 calls (omega arith)

window_bound_example : within (130 * ticks_per_sec) "alice" (serve calls (init 2) []) ≤ 2
window_bound_example = window_bound 2 calls "alice" (130 * ticks_per_sec) (omega arith)

abbrev refused : RateLimiter
refused = (check (130 * ticks_per_sec) 7 "alice" (replay calls (init 2))).1

retry_after_admits_example :
    (1 ≤ 30) × (30 ≤ 60) × (is_allowed (check (160 * ticks_per_sec) 9 "alice" refused).0 ≡ true)
unfolding check replay init
retry_after_admits_example =
    retry_after_admits 2 calls "alice" (130 * ticks_per_sec) 7 30 refused (omega arith)
      (omega arith) refl (160 * ticks_per_sec) 9 (omega arith)
