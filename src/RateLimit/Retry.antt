-- ===== src/RateLimit/Retry.antt =====
-- The 429 of `RateLimiter.check` with its Retry-After, and the admissions in a span of time.
use mozilla_ai.Common.{
  string_eq, length-filterb-le, ◌-◌, ℕ, suc, ◌+◌, ◌*◌, ◌≤◌, ◌<◌, ◌≡◌, true, false, String, List, [],
  ◌∷◌, arith, not, ◌&&◌, leb, if◌then◌else◌, str_eq, refl, length, str_eq_iff, subst, ltb, ◌∙◌, ap,
  sym,
}
use mozilla_ai.RateLimit.{
  RateLimiter, too_many_requests, init, expired, ticks_per_sec, window, check, timestamps_of,
  settle, ceil_sec, reject, drop_expired, admit, insert, sweep, Outcome,
}
use mozilla_ai.Common.Dict.{lookup-insert}
use mozilla_ai.RateLimit.Window.{live, IsQueue, drop_expired-IsQueue, live_unexpired}
use mozilla_ai.RateLimit.Refinement.{
  check_refines, last_now, replay, replay-Tracks, log_of, check-Tracks,
}
use mozilla_ai.RateLimit.Tracking.{
  sliding_window, Call, Log, recent, serve, InOrder, Tracks, is_allowed, sweep-Tracks,
}

-- the user's admissions in the 60 seconds up to `t`
abbrev pub within : ℕ → String → Log → ℕ
within t uid [] = 0
within t uid ((u, at) ∷ log) =
    let rest = within t uid log in
    if str_eq u uid && (leb at t && not (expired t at)) then suc rest else rest

within-le-recent :
    (t now : ℕ) (uid : String) (log : Log) → now ≤ t → within t uid log ≤ recent now uid log
within-le-recent t now uid [] h = omega arith
within-le-recent t now uid ((u, at) ∷ log) h = ground (arith, within-le-recent t now uid log h)

within-cons :
    (rpm t now : ℕ) (uid u : String) (log : Log)
    → recent now u log < rpm
    → within t uid log ≤ rpm
    → within t uid ((u, now) ∷ log) ≤ rpm
within-cons rpm t now uid u log h k =
    ground (arith, within-le-recent t now uid log, str_eq_iff u uid)

within-sliding_window :
    (rpm t : ℕ) (uid : String) (cs : List Call) (log : Log)
    → within t uid log ≤ rpm
    → within t uid (sliding_window rpm cs log) ≤ rpm
unfolding sliding_window
within-sliding_window rpm t uid [] log h = h
within-sliding_window rpm t uid (c ∷ cs) log h =
    within-sliding_window rpm t uid cs _ (ground (arith, within-cons rpm t c.now uid c.user log))

-- From a fresh limiter, whatever the calls, as long as their clock does not go back: in every span of
-- 60 seconds, wherever it ends, at most `rpm` requests of one user are admitted.
pub window_bound :
    (rpm : ℕ) (cs : List Call) (uid : String) (t : ℕ)
    → InOrder 0 cs
    → within t uid (serve cs (init rpm) []) ≤ rpm
window_bound rpm cs uid t h =
    rw (check_refines rpm cs h) (within-sliding_window rpm t uid cs [] (omega arith))

length_of_full :
    (rpm : ℕ) (t : ℕ) (ts : List ℕ) → leb rpm (length (t ∷ ts)) ≡ true → rpm ≤ suc (length ts)
length_of_full rpm t ts h = ground arith

-- the arithmetic of `math.ceil` on ticks
ceil_sec_bounds :
    (n s : ℕ)
    → ceil_sec n ≡ s
    → 0 < n
    → n ≤ window
    → (n ≤ s * ticks_per_sec) × (s * ticks_per_sec < n + ticks_per_sec) × (1 ≤ s) × (s ≤ 60)
unfolding ceil_sec
ceil_sec_bounds n s e h k = omega arith

-- A refusal keeps a full deque in time order, and tells how long its oldest entry stays live.
record IsRefusal (rpm now s : ℕ) (uid : String) (ts : List ℕ) (r' : RateLimiter) : Type 0 where
  oldest : ℕ
  rest : List ℕ
  split : ts ≡ oldest ∷ rest
  kept : timestamps_of uid r'.requests ≡ oldest ∷ rest
  full : rpm ≤ length (oldest ∷ rest)
  told : ceil_sec (oldest + window - now) ≡ s

settle-IsRefusal :
    (now wall s : ℕ) (uid : String) (ts : List ℕ) (r r' : RateLimiter)
    → settle now wall uid ts r ≡ (too_many_requests s, r')
    → IsRefusal r.rpm now s uid ts r'
unfolding settle reject admit
settle-IsRefusal now wall s uid [] r r' e = ground arith
settle-IsRefusal now wall s uid (t ∷ ts) r r' e = record {
  oldest = t;
  rest = ts;
  split = refl;
  kept =
      let q : r'.requests ≡ insert uid (t ∷ ts) r.requests = ground arith in
      rw (q, lookup-insert uid uid (t ∷ ts) r.requests, (str_eq_iff uid uid).1 refl);
  full = ground arith;
  told = ground arith;
}

first_live : (now t : ℕ) (ts rest : List ℕ) → drop_expired now ts ≡ t ∷ rest → expired now t ≡ false
unfolding drop_expired
first_live now t [] rest e = cc
first_live now t (u ∷ ts) rest e = ground (arith, first_live now t ts rest)

live_rest : (later t : ℕ) (ts : List ℕ) → expired later t ≡ true → live later (t ∷ ts) ≤ length ts
live_rest later t ts h = ground (arith, length-filterb-le (λ u. not (expired later u)) ts)

module _ (rpm : ℕ) (cs : List Call) (uid : String) (now wall s : ℕ) (r' : RateLimiter)
    (ordered : InOrder 0 cs) (after : last_now 0 cs ≤ now)
    (refused : check now wall uid (replay cs (init rpm)) ≡ (too_many_requests s, r')) where
  abbrev swept : RateLimiter
  swept = sweep now (replay cs (init rpm))

  abbrev the_call : Call
  the_call = record { now = now; wall = wall; user = uid }

  swept-Tracks : Tracks rpm now swept (serve cs (init rpm) [])
  swept-Tracks =
      sweep-Tracks rpm (last_now 0 cs) now (replay cs (init rpm)) _ after
        (replay-Tracks rpm cs ordered)

  refused-Tracks : Tracks rpm now r' (serve cs (init rpm) [])
  refused-Tracks =
      subst
        (λ (p : Outcome × RateLimiter).
          Tracks rpm now p.1 (log_of p.0 the_call (serve cs (init rpm) [])))
        refused
        (check-Tracks rpm (last_now 0 cs) the_call _ _ after (replay-Tracks rpm cs ordered)).0

  the_refusal :
      IsRefusal swept.rpm now s uid (drop_expired now (timestamps_of uid swept.requests)) r'
  unfolding check
  the_refusal = settle-IsRefusal now wall s uid _ swept r' refused

  -- what decides a later call of the same user
  later_decision :
      (later wall' : ℕ)
      → now ≤ later
      → is_allowed (check later wall' uid r').0
        ≡ ltb (live later (the_refusal.oldest ∷ the_refusal.rest)) rpm
  later_decision later wall' h =
      (check-Tracks rpm now (record { now = later; wall = wall'; user = uid }) r' _ h
        refused-Tracks).1
      ∙ ap (λ n. ltb n rpm)
          (sym (refused-Tracks.counts uid later h) ∙ ap (λ ts. live later ts) the_refusal.kept)

  oldest_live : expired now the_refusal.oldest ≡ false
  oldest_live = first_live now _ (timestamps_of uid swept.requests) _ the_refusal.split

  oldest_sorted : IsQueue now (the_refusal.oldest ∷ the_refusal.rest)
  oldest_sorted =
      subst (IsQueue now) the_refusal.split
        (drop_expired-IsQueue now now (timestamps_of uid swept.requests) (swept-Tracks.queue uid))

  room_left : length (the_refusal.oldest ∷ the_refusal.rest) ≤ rpm
  room_left = subst (λ ts. length ts ≤ rpm) the_refusal.kept (refused-Tracks.size uid)

  told_bounds :
      let n = the_refusal.oldest + window - now in
      (n ≤ s * ticks_per_sec) × (s * ticks_per_sec < n + ticks_per_sec) × (1 ≤ s) × (s ≤ 60)
  told_bounds =
      ceil_sec_bounds _ s the_refusal.told (ground (arith, oldest_live))
        (omega (arith, oldest_sorted))

  -- After a 429 from a limiter in use, the Retry-After is from 1 to 60 seconds, and the user's next
  -- request is admitted if it comes no earlier than that, with no call in between.
  pub retry_after_admits :
      (later wall' : ℕ)
      → now + s * ticks_per_sec ≤ later
      → (1 ≤ s) × (s ≤ 60) × (is_allowed (check later wall' uid r').0 ≡ true)
  retry_after_admits later wall' h = (
    told_bounds.2,
    told_bounds.3,
    rw (later_decision later wall' (omega arith)) (
        ground
          (arith, live_rest later the_refusal.oldest the_refusal.rest, room_left, told_bounds)),
  )

  -- After a 429 from a limiter in use, the user's next request is refused again if it comes at least
  -- a full second before the Retry-After has passed.
  pub retry_early_refused :
      (later wall' : ℕ)
      → now ≤ later
      → later + ticks_per_sec ≤ now + s * ticks_per_sec
      → is_allowed (check later wall' uid r').0 ≡ false
  retry_early_refused later wall' h k =
      let all_live : live later (the_refusal.oldest ∷ the_refusal.rest)
          ≡ length (the_refusal.oldest ∷ the_refusal.rest) =
        live_unexpired later the_refusal.oldest (the_refusal.oldest ∷ the_refusal.rest)
          (ground (arith, told_bounds, oldest_live)) (omega arith, oldest_sorted.1) in
      let full : rpm ≤ length (the_refusal.oldest ∷ the_refusal.rest) =
        subst (λ n. n ≤ length (the_refusal.oldest ∷ the_refusal.rest)) swept-Tracks.limit
          the_refusal.full in
      rw (later_decision later wall' h, all_live) (ground arith)
