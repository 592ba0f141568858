-- ===== src/Pipeline/StreamSettled.antt =====
-- The database that a streamed response leaves: its one callback, and what that settles.
use mozilla_ai.Common.{
  length, List, ◌≡◌, ◌∷◌, ℕ, [], false, true, arith, Option, some, refl, none, if◌then◌else◌,
  str_eq, ◌∙◌, inl, String, Bool, Bool-cases, inr, ◌||◌, ap, not, subst, subst, sym, sym,
}
use mozilla_ai.Streaming.{StreamFormat, CompletionUsage}
use mozilla_ai.Streaming.Generator.{
  Consumer, Ending, Call, completed, no_usage, errored, incomplete, streaming_generator, Callbacks,
  returned, returned,
}
use mozilla_ai.Streaming.Settlement.{settles_once, Settles}
use mozilla_ai.Pipeline.Logs.{charge, Logs, log_usage-Logs, DoesLog, log_usage-DoesLog, cost_logged}
use mozilla_ai.Pipeline.Streams.{
  Setup, Effect, run_call, run_calls, callbacks, stream_response, settle_logged, by_policy,
  if_reserved, Cut, not_cut,
}
use mozilla_ai.Pipeline.{
  LogCall, World, Logged, or_zero, Entry, log_raised, log_usage, logged, or_else, refund_if_any,
  priced, entry_for, reconcile_if_any, refund, reconcile,
}
use mozilla_ai.Budget.{ReservationHandle, Db}
use mozilla_ai.Budget.Reserve.{reconcile_reservation, refund_reservation}
use mozilla_ai.Common.Int.{pos}

-- what each callback is to do with the reservation `h`
abbrev pub settlement : Setup → LogCall → ReservationHandle → Call → Db → Db
settlement setup call h (completed usage) =
    reconcile_reservation h (pos (charge call setup.target (some usage)))
settlement setup call h no_usage =
    if str_eq setup.stream_missing_usage_policy "allow_free"
    then refund_reservation h
    else reconcile_reservation h (pos h.estimate)
settlement setup call h (errored error) = refund_reservation h
settlement setup call h incomplete = refund_reservation h

singleton : {A : Type 0} (xs : List A) → length xs ≡ 1 → (x : A) × (xs ≡ x ∷ [])
singleton [] e = absurd (omega (arith, e))
singleton (x ∷ []) e = (x, refl)
singleton (x ∷ y ∷ xs) e = absurd (omega (arith, e))

if_true : {A : Type 0} (b : Bool) (x y : A) → b ≡ true → (if b then x else y) ≡ x
if_true b x y e = rw e refl

if_neither :
    {A : Type 0} (p d : Bool) (x y : A) → p ≡ false → d ≡ true → (if p || not d then x else y) ≡ y
if_neither p d x y e f = rw (e, f) refl

module _ (setup : Setup) (call : LogCall) (h : ReservationHandle) (w : World) where
  -- what is settled after a log that does not raise
  settle_logged-db :
      (settle : ℕ → World → World) (change : ℕ → Db → Db) (cost : Option ℕ) (l : Logged × World)
      → ((c : ℕ) (v : World) → (settle c v).db ≡ change c v.db)
      → Logs w cost l
      → DoesLog l
      → (settle_logged setup call not_cut settle l).1.db ≡ change (or_zero cost) w.db
  settle_logged-db settle change cost (log_raised exc, v) changes logs does = elim does [ ]
  settle_logged-db settle change cost (logged c, v) changes logs does =
      changes (or_zero c) v ∙ rw (logs.0, logs.1) refl

  module _ (local : setup.platform_active ≡ false) (has_db : setup.ctx.has_db ≡ true)
      (reserved : setup.ctx.reservation ≡ some h) (put : call.put_error ≡ none)
      (query : call.query_error ≡ none) where
    logged_entry :
        (e : Entry) (settle : ℕ → World → World) (change : ℕ → Db → Db)
        → ((c : ℕ) (v : World) → (settle c v).db ≡ change c v.db)
        → (settle_logged setup call not_cut settle (log_usage call e w)).1.db
          ≡ change (or_zero (cost_logged call e (or_else e.usage_override e.response_usage))) w.db
    logged_entry e settle change changes =
        settle_logged-db settle change
          (cost_logged call e (or_else e.usage_override e.response_usage)) (log_usage call e w)
          changes (log_usage-Logs call e w) (log_usage-DoesLog call e w put (inl query))

    by_policy-db : (by_policy setup call not_cut h w).1.db ≡ settlement setup call h no_usage w.db
    by_policy-db = elim (Bool-cases (str_eq setup.stream_missing_usage_policy "allow_free")) [
      | inl e ↦ rw e (logged_entry _ (λ c v. refund h v) (λ c. refund_reservation h) (λ c v. refl))
      | inr e ↦ rw e (
          logged_entry _ (λ c v. reconcile h h.estimate v)
            (λ c. reconcile_reservation h (pos h.estimate)) (λ c v. refl))
    ]

    refund_if_any-db :
        (v : World) → (refund_if_any setup.ctx.reservation v).db ≡ refund_reservation h v.db
    refund_if_any-db v = rw reserved refl

    run_call-db :
        (c : Call) → (run_call setup call not_cut c w).1.db ≡ settlement setup call h c w.db
    unfolding priced
    run_call-db (completed usage) =
        ap (λ (e : Effect). e.1.db)
          (if_neither setup.platform_active setup.ctx.has_db _ _ local has_db)
        ∙ logged_entry (record (entry_for setup.ctx setup.target) { usage_override = some usage })
            (reconcile_if_any setup.ctx.reservation) (λ c. reconcile_reservation h (pos c))
            (λ c v. rw reserved refl)
    run_call-db no_usage =
        ap (λ (e : Effect). e.1.db) (if_true setup.ctx.has_db _ _ has_db)
        ∙ (ap (λ r. (if_reserved setup call r (by_policy setup call not_cut) w).1.db) reserved
            ∙ by_policy-db)
    run_call-db (errored error) =
        ap (λ (e : Effect). e.1.db)
          (if_neither setup.platform_active setup.ctx.has_db _ _ local has_db)
        ∙ logged_entry (record (entry_for setup.ctx setup.target) { error = some error })
            (λ cost v. refund_if_any setup.ctx.reservation v) (λ c. refund_reservation h)
            (λ c v. refund_if_any-db v)
    run_call-db incomplete =
        ap (λ (e : Effect). e.1.db) (if_true setup.ctx.has_db _ _ has_db) ∙ refund_if_any-db w

    quiet-Settles :
        {C : Type 0} (fmt : StreamFormat) (cb : Callbacks C) (v v' : World) (d : Bool)
        → d ≡ true
        → Settles fmt cb
            (some (let e : Effect = if d then (returned, v) else (returned, v') in e.0))
    quiet-Settles fmt cb v v' true e = tt
    quiet-Settles fmt cb v v' false e = tt

    -- A streamed response of a request with a database and a reservation, without a platform, whose
    -- log can be written and whose first callback is not itself cancelled: exactly one callback is called, and the database is left as that callback
    -- is to settle: reconciled with the cost of the usage that was merged; without a usage refunded
    -- or charged the estimate, by the policy; refunded after an error or a disconnect.
    pub stream_response-settles :
        (cuts : ℕ → Cut)
        → cuts 0 ≡ not_cut
        → {C : Type 0} (fmt : StreamFormat) (format_chunk : C → String)
          (extract_usage : C → Option CompletionUsage) (chunks : List (C × Consumer))
          (ending : Ending)
        → (c : Call) × ((stream_response setup call fmt format_chunk extract_usage cuts chunks
              ending w).0.called
            ≡ c ∷ [])
          × ((stream_response setup call fmt format_chunk extract_usage cuts chunks ending w).1.db
              ≡ settlement setup call h c w.db)
    unfolding stream_response
    stream_response-settles cuts uncut fmt format_chunk extract_usage chunks ending =
        let cb = callbacks setup call format_chunk extract_usage (cuts 0) w in
        let run = streaming_generator fmt cb chunks ending in
        let refunds =
          quiet-Settles fmt cb (refund_if_any setup.ctx.reservation w) w setup.ctx.has_db has_db in
        let once =
          settles_once fmt cb
            (subst (λ cut. Settles fmt cb (some (run_call setup call cut incomplete w).0))
              (sym uncut) refunds)
            (λ e. cc) chunks ending in
        let one = singleton run.called once in
        (
          one.0,
          one.1,
          ap (λ calls. (run_calls setup call cuts 0 calls w).db) one.1
              ∙ (ap (λ cut. (run_call setup call cut one.0 w).1.db) uncut ∙ run_call-db one.0),
        )
