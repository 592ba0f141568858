-- ===== src/Pipeline/Handed.antt =====
-- The backend of a streamed request is closed, and its failed attempts are reported.
use mozilla_ai.Common.{
  ◌+◌, ◌≡◌, refl, ap, ◌∙◌, ◌⊎◌, inl, inr, true, Option, none, some, List, [], ◌∷◌, ◌++◌, arith,
  if_cases, if_holds,
}
use mozilla_ai.Pipeline.Tools.{ToolContext}
use mozilla_ai.Pipeline.Dispatch.{
  Backend, provider_alone, mcp_pool, sandbox, web_search, backend_of,
}
use mozilla_ai.Streaming.Attempts.{
  Result, stitched, empty_stream, raise, no_attempts, iterate_streaming_attempts,
}
use mozilla_ai.Streaming.Kept.{iterate_streaming_attempts-keeps}
use mozilla_ai.Streaming.Chosen.{WhereBuilt, OfChosen, iterate_streaming_attempts-Chooses}
use mozilla_ai.Pipeline.Delivered.{flush_of}
use mozilla_ai.Pipeline.Hybrid.{
  Queued, Failure, Surrounding, Streamed, streams, stream_raises, unknown_provider, responds,
  upstream_of, open_stack, entered, after_open, after_attempts, exhausted, close_stack, raise_of,
  flush_pending_usage_reports, run_streaming_with_fallback,
}
use mozilla_ai.Pipeline.Metered.{Ledger, opening, kept, blank, metered}

module _ {A S C X P W : Type 0} (env : Surrounding A S C X P W) where
  abbrev L : Type 0
  L = Ledger (Failure A) W

  -- A stream keeps the backend open that was opened for it, and its failed attempts are reported in the
  -- background; an exception leaves no backend open, and all reports are flushed at once, unless the
  -- request was cancelled; the error for an unknown provider is not met once a stream is open.
  abbrev pub Settles : Streamed A S C X P → Queued (Failure A) L → Type 0
  Settles (streams attempt chunk pool) q =
      (q.world.opened ≡ q.world.closed + kept pool) × (q.world.flushes ≡ [])
  Settles (unknown_provider attempt pool) q = ⊥
  Settles (stream_raises exc) q =
      (q.world.opened ≡ q.world.closed)
      × ((q.world.flushes ≡ flush_of q.background_tasks)
          ⊎ ((env.is_cancelled exc ≡ true) × (q.world.flushes ≡ [])))

  -- while the attempts are made
  record Waits (pool : Option P) (q : Queued (Failure A) L) : Type 0 where
    same : q.pending_error_reports ≡ q.background_tasks
    open_one : q.world.opened ≡ kept pool
    none_closed : q.world.closed ≡ 0
    none_flushed : q.world.flushes ≡ []

  iterate-Waits :
      (pool : Option P) (attempts : List A) (q : Queued (Failure A) L)
      → Waits pool q
      → Waits pool (iterate_streaming_attempts (upstream_of (metered env) pool) attempts q).1
  iterate-Waits pool =
      iterate_streaming_attempts-keeps (upstream_of (metered env) pool) (Waits pool) (built pool)
        (λ s q h. passes_on h) (λ s q h. passes_on h)
        (λ a c exc q h. record {
          same = ap (λ ts. ts ++ (a, c) ∷ []) h.same;
          open_one = h.open_one;
          none_closed = h.none_closed;
          none_flushed = h.none_flushed;
        })
    where
      passes_on :
          {p : Option P} {q : Queued (Failure A) L} {w : W}
          → Waits p q
          → Waits p (record q { world = record q.world { world = w } })
      passes_on h = record {
        same = h.same;
        open_one = h.open_one;
        none_closed = h.none_closed;
        none_flushed = h.none_flushed;
      }

      built :
          (p : Option P) (a : A) (q : Queued (Failure A) L)
          → Waits p q
          → Waits p ((upstream_of (metered env) p).build_stream a q).1
      built none a q h =
          if_holds (λ (r : (S ⊎ X) × L). Waits none (record q { world = r.1 })) (env.is_provider a)
            _ _ (passes_on h) (passes_on h)
      built (some x) a q h =
          if_holds (λ (r : (S ⊎ X) × L). Waits (some x) (record q { world = r.1 }))
            (env.is_provider a) _ _ (passes_on h) (passes_on h)

  abbrev IsKnown : A → Type 0
  IsKnown a = env.is_provider a ≡ true

  built-IsKnown :
      (pool : Option P) (a : A) (q : Queued (Failure A) L)
      → WhereBuilt IsKnown a ((upstream_of (metered env) pool).build_stream a q).0
  built-IsKnown pool a q =
      if_cases (λ (r : (S ⊎ X) × L). WhereBuilt IsKnown a r.0) (env.is_provider a) _ _
        (λ e. whatever_is_built e _) (λ e. tt)
    where
      whatever_is_built : IsKnown a → (r : S ⊎ X) → WhereBuilt IsKnown a r
      whatever_is_built e (inl s) = e
      whatever_is_built e (inr exc) = tt

  close-Settles :
      (pool : Option P) (exc : X) (other : Option X) (q : Queued (Failure A) L) (l : L)
      → l.opened ≡ kept pool
      → l.closed ≡ 0
      → (l.flushes ≡ flush_of q.background_tasks)
        ⊎ ((env.is_cancelled (raise_of exc other) ≡ true) × (l.flushes ≡ []))
      → Settles
          (stream_raises (raise_of exc other))
          (record q { world = close_stack (metered env) pool l })
  close-Settles none exc other q l o c f = (omega (arith, o, c), f)
  close-Settles (some pool) exc other q l o c f = (omega (arith, o, c), f)

  flush-once :
      (ts : List (Failure A)) (l : L)
      → l.flushes ≡ []
      → let (other, l') = flush_pending_usage_reports (metered env).gather ts l in
        (l'.opened ≡ l.opened) × (l'.closed ≡ l.closed) × (l'.flushes ≡ flush_of ts)
  unfolding flush_pending_usage_reports
  flush-once [] l h = (refl, refl, h)
  flush-once (t ∷ ts) l h = (refl, refl, ap (λ fs. fs ++ (t ∷ ts) ∷ []) h)

  abbrev Ends : Streamed A S C X P × Queued (Failure A) L → Type 0
  Ends (run, q) = Settles run q

  exhausted-Settles :
      (pool : Option P) (exc : X) (q : Queued (Failure A) L)
      → Waits pool q
      → Ends (exhausted (metered env) pool exc q)
  exhausted-Settles pool exc q h =
      if_cases
        (λ (r : Option X × L). Ends (
          stream_raises (raise_of exc r.0),
          record q { world = close_stack (metered env) pool r.1 },
        ))
        (env.is_cancelled exc) (none, q.world)
        (flush_pending_usage_reports (metered env).gather q.pending_error_reports q.world)
        (λ cancelled.
          close-Settles pool exc none q q.world h.open_one h.none_closed
            (inr (cancelled, h.none_flushed)))
        (λ e.
          let (o, c, f) = flush-once q.pending_error_reports q.world h.none_flushed in
          close-Settles pool exc
            (flush_pending_usage_reports (metered env).gather q.pending_error_reports q.world).0 q _
            (o ∙ h.open_one) (c ∙ h.none_closed) (inl (f ∙ ap flush_of h.same)))

  responds-Settles :
      (pool : Option P) (a : A) (chunk : Option (C × S)) (q : Queued (Failure A) L)
      → Waits pool q
      → IsKnown a
      → Settles (responds (metered env) a chunk pool) q
  responds-Settles pool a chunk q h known =
      rw known (omega (arith, h.open_one, h.none_closed), h.none_flushed)

  after_attempts-Settles :
      (pool : Option P) (r : Result A S C X) (q : Queued (Failure A) L)
      → Waits pool q
      → OfChosen IsKnown r
      → Ends (after_attempts (metered env) pool (r, q))
  after_attempts-Settles pool (stitched a c s) q h known =
      responds-Settles pool a (some (c, s)) q h known
  after_attempts-Settles pool (empty_stream a) q h known = responds-Settles pool a none q h known
  after_attempts-Settles pool (raise exc) q h known = exhausted-Settles pool exc q h
  after_attempts-Settles pool no_attempts q h known = exhausted-Settles pool env.runtime_error q h

  after_open-Settles :
      (attempts : List A) (r : Option P ⊎ X) (l : L)
      → l.closed ≡ 0
      → l.flushes ≡ []
      → l.opened ≡ elim r [ inl pool ↦ kept pool | inr exc ↦ 0 ]
      → Ends (after_open (metered env) attempts (r, l))
  after_open-Settles attempts (inl pool) l c f o =
      after_attempts-Settles pool _ _
        (iterate-Waits pool attempts _
          (record { same = refl; open_one = o; none_closed = c; none_flushed = f }))
        (iterate_streaming_attempts-Chooses (upstream_of (metered env) pool) IsKnown
          (built-IsKnown pool) attempts _)
  after_open-Settles attempts (inr exc) l c f o = (omega (arith, o, c), inl f)

  entered-Settles :
      (attempts : List A) (r : P ⊎ X) (w : W)
      → Ends (
          after_open (metered env) attempts (
            entered
              (metered env)
              (r, record { opened = 0 + opening r; closed = 0; flushes = []; world = w })))
  entered-Settles attempts (inl pool) w =
      after_open-Settles attempts (inl (some pool)) _ refl refl refl
  entered-Settles attempts (inr exc) w =
      after_open-Settles attempts (inr exc) (blank w) refl refl refl

  open-Settles :
      (attempts : List A) (backend : Option Backend) (w : W)
      → Ends (after_open (metered env) attempts (open_stack (metered env) backend (blank w)))
  open-Settles attempts none w =
      after_open-Settles attempts (inr env.assertion_error) (blank w) refl refl refl
  open-Settles attempts (some provider_alone) w =
      after_open-Settles attempts (inl none) _ refl refl refl
  open-Settles attempts (some (mcp_pool configs)) w =
      let opened = env.enter (mcp_pool configs) w in entered-Settles attempts opened.0 opened.1
  open-Settles attempts (some (sandbox url entry token)) w =
      let opened = env.enter (sandbox url entry token) w in
      entered-Settles attempts opened.0 opened.1
  open-Settles attempts (some (web_search url entry token)) w =
      let opened = env.enter (web_search url entry token) w in
      entered-Settles attempts opened.0 opened.1

  -- For every request and surroundings, where a stream is returned the backend that was opened for it,
  -- if any, is still open, every other is closed, and no report is flushed; where an exception is
  -- raised no backend is left open, and the reports that were queued are flushed, all at once and only
  -- once, or it is a cancellation and none is. The conversion of the provider's name after the
  -- attempts never raises.
  pub run_streaming_with_fallback-Settles :
      (tool_ctx : ToolContext) (attempts : List A) (w : W)
      → let (run, q) = run_streaming_with_fallback (metered env) tool_ctx attempts (blank w) in
        Settles run q
  unfolding run_streaming_with_fallback
  run_streaming_with_fallback-Settles tool_ctx attempts w =
      open-Settles attempts (backend_of tool_ctx) w
