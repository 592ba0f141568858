-- ===== src/RateLimit/Tracking.antt =====
-- The log of the admitted requests, the sliding window over it, and the relation of the limiter to it.
use mozilla_ai.Common.{
  ℕ, suc, ◌+◌, ◌≤◌, ◌≡◌, refl, Bool, true, false, String, Option, none, some, List, [], ◌∷◌, arith,
  not, ltb, ◌&&◌, leb, if◌then◌else◌, str_eq, string_eq, inl, inr, Bool-cases, length,
}
use mozilla_ai.Common.Dict.{lookup, keep_if, IsUnique, filter_values-IsUnique, lookup-filter_values}
use mozilla_ai.RateLimit.{
  RateLimiter, Outcome, allowed, init, expired, stale, cleanup, timestamps_of, or_empty, sweep,
  check,
}
use mozilla_ai.RateLimit.Window.{live, IsQueue, live-stale, IsQueue-later}

pub record Call : Type 0 where
  pub now : ℕ
  pub wall : ℕ
  pub user : String

-- the admitted requests, the newest first
abbrev pub Log : Type 0
Log = List (String × ℕ)

-- the user's admissions that are not 60 seconds old at `now`
abbrev pub recent : ℕ → String → Log → ℕ
recent now uid [] = 0
recent now uid ((u, t) ∷ log) =
    let rest = recent now uid log in if str_eq u uid && not (expired now t) then suc rest else rest

abbrev pub is_allowed : Outcome → Bool
is_allowed (allowed _) = true
is_allowed _ = false

-- the calls in turn, with a log of what was admitted
unfoldable pub serve : List Call → RateLimiter → Log → Log
serve [] r log = log
serve (c ∷ cs) r log =
    let (o, r') = check c.now c.wall c.user r in
    serve cs r' (if is_allowed o then (c.user, c.now) ∷ log else log)

-- the specification
unfoldable pub sliding_window : ℕ → List Call → Log → Log
sliding_window rpm [] log = log
sliding_window rpm (c ∷ cs) log =
    sliding_window rpm cs (if ltb (recent c.now c.user log) rpm then (c.user, c.now) ∷ log else log)

-- The clock of the calls does not go back.
abbrev pub InOrder : ℕ → List Call → Type 0
InOrder clock [] = Unit
InOrder clock (c ∷ cs) = (clock ≤ c.now) × InOrder c.now cs

pub record Tracks (rpm clock : ℕ) (r : RateLimiter) (log : Log) : Type 0 where
  pub limit : r.rpm ≡ rpm
  pub unique : IsUnique r.requests
  pub queue : (uid : String) → IsQueue clock (timestamps_of uid r.requests)
  pub counts :
      (uid : String) (later : ℕ)
      → clock ≤ later
      → live later (timestamps_of uid r.requests) ≡ recent later uid log
  pub size : (uid : String) → length (timestamps_of uid r.requests) ≤ rpm

pub Tracks-init : (rpm : ℕ) → Tracks rpm 0 (init rpm) []
unfolding init
Tracks-init rpm = record {
  limit = refl;
  unique = tt;
  queue = λ uid. tt;
  counts = λ uid later h. refl;
  size = λ uid. omega arith;
}

keep-IsQueue :
    (clock now : ℕ) (o : Option (List ℕ))
    → clock ≤ now
    → IsQueue clock (or_empty o)
    → IsQueue now (or_empty (keep_if (λ ts. not (stale now ts)) o))
keep-IsQueue clock now none h q = tt
keep-IsQueue clock now (some ts) h q = elim (Bool-cases (stale now ts)) [
  | inl e ↦ rw e tt
  | inr e ↦ rw e (IsQueue-later clock now ts h q)
]

live-keep :
    (clock now later : ℕ) (o : Option (List ℕ))
    → now ≤ later
    → IsQueue clock (or_empty o)
    → live later (or_empty (keep_if (λ ts. not (stale now ts)) o)) ≡ live later (or_empty o)
live-keep clock now later none h q = refl
live-keep clock now later (some ts) h q = elim (Bool-cases (stale now ts)) [
  | inl e ↦ rw e (omega (arith, live-stale clock now later ts q e h))
  | inr e ↦ rw e
]

length-keep :
    (now n : ℕ) (o : Option (List ℕ))
    → length (or_empty o) ≤ n
    → length (or_empty (keep_if (λ ts. not (stale now ts)) o)) ≤ n
length-keep now n none h = h
length-keep now n (some ts) h = elim (Bool-cases (stale now ts)) [
  | inl e ↦ rw e (omega arith)
  | inr e ↦ rw e h
]

cleanup-Tracks :
    (rpm clock now : ℕ) (r : RateLimiter) (log : Log)
    → clock ≤ now
    → Tracks rpm clock r log
    → Tracks rpm now (record r { requests = cleanup now r.requests; call_count = 0 }) log
unfolding cleanup
cleanup-Tracks rpm clock now r log h v = record {
  limit = v.limit;
  unique = filter_values-IsUnique _ r.requests v.unique;
  queue = λ uid.
      rw (lookup-filter_values (λ ts. not (stale now ts)) uid r.requests v.unique)
        (keep-IsQueue clock now (lookup uid r.requests) h (v.queue uid));
  counts = λ uid later p.
      rw (lookup-filter_values (λ ts. not (stale now ts)) uid r.requests v.unique) (
        omega (
          arith,
          live-keep clock now later (lookup uid r.requests) p (v.queue uid),
          v.counts uid later (omega arith),
        ));
  size = λ uid.
      rw (lookup-filter_values (λ ts. not (stale now ts)) uid r.requests v.unique)
        (length-keep now rpm (lookup uid r.requests) (v.size uid));
}

-- The sweep shows in no later answer.
pub sweep-Tracks :
    (rpm clock now : ℕ) (r : RateLimiter) (log : Log)
    → clock ≤ now
    → Tracks rpm clock r log
    → Tracks rpm now (sweep now r) log
unfolding sweep
sweep-Tracks rpm clock now r log h v = elim (Bool-cases (leb 1000 (r.call_count + 1))) [
  | inl e ↦ rw e (cleanup-Tracks rpm clock now r log h v)
  | inr e ↦ rw e (record {
    limit = v.limit;
    unique = v.unique;
    queue = λ uid. IsQueue-later clock now _ h (v.queue uid);
    counts = λ uid later p. v.counts uid later (omega arith);
    size = v.size;
  })
]
