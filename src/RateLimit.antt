-- ===== src/RateLimit.antt =====
-- The sliding-window rate limiter, otari/src/gateway/rate_limit.py.
-- `time.monotonic()` and `time.time()` are arguments, in ticks of 10^-9 seconds; both are at least 0.
-- The test `t <= now - 60.0` is written `t + window ≤ now`, since numbers here do not go below 0.
pub mod Window
pub mod Tracking
pub mod Refinement
pub mod Retry
mod Tests
use mozilla_ai.Common.{
  ℕ, ◌+◌, ◌-◌, ◌*◌, ◌/◌, String, Bool, true, Option, none, some, List, [], ◌∷◌, ◌++◌, leb, not,
  if◌then◌else◌, length, string_eq, get_last_or, false,
}
use mozilla_ai.Common.Dict.{Dict, lookup, insert, filter_values}

abbrev pub ticks_per_sec : ℕ
ticks_per_sec = 1_000_000_000

-- `_window_sec`, in ticks
abbrev pub window : ℕ
window = 60 * ticks_per_sec

abbrev pub cleanup_interval : ℕ
cleanup_interval = 1000

pub record RateLimitInfo : Type 0 where
  pub limit : ℕ
  pub remaining : ℕ
  pub reset : ℕ

-- `hits` is the counter that `record_rate_limit_hit` increments
pub record RateLimiter : Type 0 where
  pub rpm : ℕ
  pub requests : Dict String (List ℕ)
  pub call_count : ℕ
  pub hits : ℕ

-- How a call of `check` ends: by its result, by the 429 with its Retry-After header, or by the
-- IndexError of `timestamps[0]` on an empty deque, before the hit is counted.
pub data Outcome : Type 0 where
  allowed : RateLimitInfo → Outcome
  too_many_requests : ℕ → Outcome
  index_error : Outcome

pub init : ℕ → RateLimiter
init rpm = record { rpm = rpm; requests = []; call_count = 0; hits = 0 }

-- `t <= cutoff`
abbrev pub expired : ℕ → ℕ → Bool
expired now t = leb (t + window) now

-- `while timestamps and timestamps[0] <= cutoff: timestamps.popleft()`
pub drop_expired : ℕ → List ℕ → List ℕ
drop_expired now [] = []
drop_expired now (t ∷ ts) = if expired now t then drop_expired now ts else t ∷ ts

-- `not ts or ts[-1] <= cutoff`
pub stale : ℕ → List ℕ → Bool
stale now [] = true
stale now (t ∷ ts) = expired now (get_last_or t ts)

-- delete the entries whose timestamps are stale
pub cleanup : ℕ → Dict String (List ℕ) → Dict String (List ℕ)
cleanup now requests = filter_values (λ ts. not (stale now ts)) requests

abbrev pub or_empty : Option (List ℕ) → List ℕ
or_empty none = []
or_empty (some ts) = ts

-- `self._requests[user_id]`, which a `defaultdict` fills in
abbrev pub timestamps_of : String → Dict String (List ℕ) → List ℕ
timestamps_of uid requests = or_empty (lookup uid requests)

-- `math.ceil` of a number of ticks, in seconds
pub ceil_sec : ℕ → ℕ
ceil_sec n = (n + (ticks_per_sec - 1)) / ticks_per_sec

-- the 429, which reads `timestamps[0]` first
pub reject : ℕ → List ℕ → Outcome
unfolding ceil_sec
reject now [] = index_error
reject now (oldest ∷ _) = too_many_requests (ceil_sec (oldest + window - now))

-- `timestamps[0]`, where there is one
abbrev pub first_or : ℕ → List ℕ → ℕ
first_or d [] = d
first_or d (t ∷ _) = t

-- the result for a deque that already holds `now`
pub admit : ℕ → ℕ → ℕ → List ℕ → Outcome
admit rpm now wall ts = allowed (record {
  limit = rpm;
  remaining = rpm - length ts;
  reset = wall + (first_or now ts + window - now);
})

abbrev pub is_hit : Outcome → Bool
is_hit (too_many_requests _) = true
is_hit _ = false

-- the part of `check` after the cleanup, on the deque with its expired entries dropped
pub settle : ℕ → ℕ → String → List ℕ → RateLimiter → Outcome × RateLimiter
unfolding reject admit
settle now wall uid ts r =
    if leb r.rpm (length ts)
    then (let o = reject now ts in
        (
          o,
          record r {
            requests = insert uid ts r.requests;
            hits = if is_hit o then r.hits + 1 else r.hits;
          },
        ))
    else (let ts' = ts ++ now ∷ [] in
        (admit r.rpm now wall ts', record r { requests = insert uid ts' r.requests }))

-- the counted calls: every 1000th sweeps the dictionary
pub sweep : ℕ → RateLimiter → RateLimiter
unfolding cleanup
sweep now r =
    if leb cleanup_interval (r.call_count + 1)
    then record r { requests = cleanup now r.requests; call_count = 0 }
    else record r { call_count = r.call_count + 1 }

pub check : ℕ → ℕ → String → RateLimiter → Outcome × RateLimiter
unfolding settle sweep drop_expired
check now wall uid r =
    let swept = sweep now r in
    settle now wall uid (drop_expired now (timestamps_of uid swept.requests)) swept

-- `check_rate_limit`: no limiter is configured, or its answer
unfoldable pub check_rate_limit :
    ℕ → ℕ → String → Option RateLimiter → Option Outcome × Option RateLimiter
unfolding check
check_rate_limit now wall uid none = (none, none)
check_rate_limit now wall uid (some r) = let (o, r') = check now wall uid r in (some o, some r')
