-- ===== src/RateLimit/Refinement.antt =====
-- `RateLimiter.check` against its specification, the sliding window of Tracking.
use mozilla_ai.Common.{
  ℕ, ◌≤◌, ◌≡◌, refl, false, String, List, [], ◌∷◌, arith, ltb, ◌++◌, ◌∙◌, leb, if◌then◌else◌,
  str_eq, string_eq, inl, inr, Bool-cases, length-append, ap, str_eq_iff, length,
}
use mozilla_ai.Common.Dict.{insert, lookup-insert, insert-IsUnique}
use mozilla_ai.RateLimit.{
  RateLimiter, Outcome, init, timestamps_of, sweep, check, reject, settle, admit, drop_expired,
}
use mozilla_ai.RateLimit.Window.{
  live, IsQueue, drop_expired-IsQueue, live-drop_expired, length-drop_expired, append-IsQueue,
  live-append, length-drop_expired-le,
}
use mozilla_ai.RateLimit.Tracking.{
  sliding_window, Tracks-init, Call, Log, recent, is_allowed, serve, InOrder, Tracks, sweep-Tracks,
}

module _ (rpm now : ℕ) (uid : String) (r : RateLimiter) (log log' : Log) (ts : List ℕ)
    (v : Tracks rpm now r log) (sorted : IsQueue now ts) (sized : length ts ≤ rpm)
    (counted : (later : ℕ) → now ≤ later → live later ts ≡ recent later uid log')
    (others : (other : String) (later : ℕ)
      → str_eq uid other ≡ false
      → recent later other log' ≡ recent later other log) where
  insert-IsQueue : (other : String) → IsQueue now (timestamps_of other (insert uid ts r.requests))
  insert-IsQueue other = elim (Bool-cases (str_eq uid other)) [
    | inl e ↦ rw (lookup-insert uid other ts r.requests, e) sorted
    | inr e ↦ rw (lookup-insert uid other ts r.requests, e) (v.queue other)
  ]

  insert-counts :
      (other : String) (later : ℕ)
      → now ≤ later
      → live later (timestamps_of other (insert uid ts r.requests)) ≡ recent later other log'
  insert-counts other later h = elim (Bool-cases (str_eq uid other)) [
    | inl e ↦
        rw (lookup-insert uid other ts r.requests, e, ← (str_eq_iff uid other).0 e)
          (counted later h)
    | inr e ↦
        rw (lookup-insert uid other ts r.requests, e, others other later e) (v.counts other later h)
  ]

  insert-size : (other : String) → length (timestamps_of other (insert uid ts r.requests)) ≤ rpm
  insert-size other = elim (Bool-cases (str_eq uid other)) [
    | inl e ↦ rw (lookup-insert uid other ts r.requests, e) sized
    | inr e ↦ rw (lookup-insert uid other ts r.requests, e) (v.size other)
  ]

  insert-Tracks :
      (hits : ℕ)
      → Tracks rpm now (record r { requests = insert uid ts r.requests; hits = hits }) log'
  insert-Tracks hits = record {
    limit = v.limit;
    unique = insert-IsUnique uid ts r.requests v.unique;
    queue = insert-IsQueue;
    counts = insert-counts;
    size = insert-size;
  }

-- A new admission adds to its own user's count, and to no other's.
recent-cons_ne :
    (uid other : String) (now later : ℕ) (log : Log)
    → str_eq uid other ≡ false
    → recent later other ((uid, now) ∷ log) ≡ recent later other log
recent-cons_ne uid other now later log e = ground arith

counted-cons :
    (uid : String) (now later : ℕ) (ts : List ℕ) (log : Log)
    → live later ts ≡ recent later uid log
    → live later (ts ++ now ∷ []) ≡ recent later uid ((uid, now) ∷ log)
counted-cons uid now later ts log h =
    rw (live-append later now ts, (str_eq_iff uid uid).1 refl) (ground arith)

abbrev pub log_of : Outcome → Call → Log → Log
log_of o c log = if is_allowed o then (c.user, c.now) ∷ log else log

reject-not_allowed : (now : ℕ) (ts : List ℕ) → is_allowed (reject now ts) ≡ false
unfolding reject
reject-not_allowed now [] = refl
reject-not_allowed now (t ∷ ts) = refl

-- what `check` does once the dictionary is swept
settle-Tracks :
    (rpm : ℕ) (c : Call) (r : RateLimiter) (log : Log)
    → Tracks rpm c.now r log
    → let ts = drop_expired c.now (timestamps_of c.user r.requests) in
      let (o, r') = settle c.now c.wall c.user ts r in
      Tracks rpm c.now r' (log_of o c log) × (is_allowed o ≡ ltb (recent c.now c.user log) rpm)
unfolding settle admit
settle-Tracks rpm c r log v =
    let raw = timestamps_of c.user r.requests in
    let ts = drop_expired c.now raw in
    let sorted : IsQueue c.now ts = drop_expired-IsQueue c.now c.now raw (v.queue c.user) in
    let counted : (later : ℕ) → c.now ≤ later → live later ts ≡ recent later c.user log =
      λ later h. live-drop_expired c.now later raw h ∙ v.counts c.user later h in
    let size : length ts ≡ recent c.now c.user log =
      length-drop_expired c.now c.now raw (v.queue c.user) ∙ v.counts c.user c.now (omega arith) in
    let small : length ts ≤ rpm = omega (arith, length-drop_expired-le c.now raw, v.size c.user) in
    elim (Bool-cases (leb r.rpm (length ts))) [
      | inl full ↦
          rw (full, reject-not_allowed c.now ts)
            (
              insert-Tracks rpm c.now c.user r log log ts v sorted small counted (λ o l e. refl) _,
              ground (arith, size, v.limit),
            )
      | inr room ↦ rw room (
        insert-Tracks rpm c.now c.user r log ((c.user, c.now) ∷ log) (ts ++ c.now ∷ []) v
            (append-IsQueue c.now c.now ts (omega arith) sorted)
            (rw length-append (ground (arith, v.limit)))
            (λ l h. counted-cons c.user c.now l ts log (counted l h))
            (λ o l e. recent-cons_ne c.user o c.now l log e) _,
        ground (arith, size, v.limit),
      )
    ]

-- One call: the limiter still tracks the log, and it admits exactly below `rpm` recent admissions.
pub check-Tracks :
    (rpm clock : ℕ) (c : Call) (r : RateLimiter) (log : Log)
    → clock ≤ c.now
    → Tracks rpm clock r log
    → let (o, r') = check c.now c.wall c.user r in
      Tracks rpm c.now r' (log_of o c log) × (is_allowed o ≡ ltb (recent c.now c.user log) rpm)
unfolding check
check-Tracks rpm clock c r log h v =
    settle-Tracks rpm c (sweep c.now r) log (sweep-Tracks rpm clock c.now r log h v)

serve-eq-sliding_window :
    (rpm clock : ℕ) (cs : List Call) (r : RateLimiter) (log : Log)
    → InOrder clock cs
    → Tracks rpm clock r log
    → serve cs r log ≡ sliding_window rpm cs log
unfolding serve sliding_window
serve-eq-sliding_window rpm clock [] r log h v = refl
serve-eq-sliding_window rpm clock (c ∷ cs) r log h v =
    let (o, r') = check c.now c.wall c.user r in
    let (v', decided) = check-Tracks rpm clock c r log h.0 v in
    serve-eq-sliding_window rpm c.now cs r' (log_of o c log) h.1 v'
    ∙ ap (λ b. sliding_window rpm cs (if b then (c.user, c.now) ∷ log else log)) decided

-- From a fresh limiter, any calls whose clock does not go back are admitted exactly as the sliding
-- window admits them: the deques, the lazy expiry and the sweep of every 1000th call show in no answer.
pub check_refines :
    (rpm : ℕ) (cs : List Call) → InOrder 0 cs → serve cs (init rpm) [] ≡ sliding_window rpm cs []
check_refines rpm cs h = serve-eq-sliding_window rpm 0 cs (init rpm) [] h (Tracks-init rpm)

-- the limiter after the calls, and the time of the last one
unfoldable pub replay : List Call → RateLimiter → RateLimiter
replay [] r = r
replay (c ∷ cs) r = replay cs (check c.now c.wall c.user r).1

abbrev pub last_now : ℕ → List Call → ℕ
last_now clock [] = clock
last_now clock (c ∷ cs) = last_now c.now cs

replay-Tracks_from :
    (rpm clock : ℕ) (cs : List Call) (r : RateLimiter) (log : Log)
    → InOrder clock cs
    → Tracks rpm clock r log
    → Tracks rpm (last_now clock cs) (replay cs r) (serve cs r log)
unfolding replay serve
replay-Tracks_from rpm clock [] r log h v = v
replay-Tracks_from rpm clock (c ∷ cs) r log h v =
    let (o, r') = check c.now c.wall c.user r in
    replay-Tracks_from rpm c.now cs r' (log_of o c log) h.1 (check-Tracks rpm clock c r log h.0 v).0

pub replay-Tracks :
    (rpm : ℕ) (cs : List Call)
    → InOrder 0 cs
    → Tracks rpm (last_now 0 cs) (replay cs (init rpm)) (serve cs (init rpm) [])
replay-Tracks rpm cs h = replay-Tracks_from rpm 0 cs (init rpm) [] h (Tracks-init rpm)
