-- ===== src/Pipeline/Settled.antt =====
-- The database that `run_standalone_non_stream` leaves.
use mozilla_ai.Pipeline.Logs.{charge, Logs, log_usage-Logs, DoesLog, log_usage-DoesLog}
use mozilla_ai.Common.{
  ℕ, String, ◌≡◌, refl, sym, ap, ◌∙◌, subst, inr, Bool, true, false, Option, none, some,
  if◌then◌else◌, string_eq,
}
use mozilla_ai.Pipeline.Requests.{
  Exception, http_exception, max_tool_iterations_exceeded, sandbox_not_reachable,
  web_search_not_reachable, other_exception, cancelled, Ended, returns, reraised, adapter_error,
  provider_error, handler_raised, cancelled_error, Dispatched, result, raises, Adapter, handle,
  run_standalone_non_stream, reconcile_after, log_success, unless_raised,
}
use mozilla_ai.Pipeline.{
  LogCall, World, Target, or_zero, Logged, log_usage, logged, log_raised, priced, RequestContext,
  log_failure_and_refund, refund_after, release_reservation, entry_for,
}
use mozilla_ai.Streaming.{CompletionUsage}
use mozilla_ai.Budget.{ReservationHandle}
use mozilla_ai.Budget.Reserve.{reconcile_reservation, refund_reservation}
use mozilla_ai.Common.Int.{pos}

-- What a request leaves: a result is charged, every exception but a cancellation refunds.
abbrev pub SettledBy : {R : Type 0} → ReservationHandle → (R → ℕ) → World → Ended R × World → Type 0
SettledBy h cost w (returns r, w') = w'.db ≡ reconcile_reservation h (pos (cost r)) w.db
SettledBy h cost w (reraised _ _, w') = w'.db ≡ refund_reservation h w.db
SettledBy h cost w (adapter_error _ _, w') = w'.db ≡ refund_reservation h w.db
SettledBy h cost w (provider_error _, w') = w'.db ≡ refund_reservation h w.db
SettledBy h cost w (handler_raised _, w') = ⊥
SettledBy h cost w (cancelled_error, w') = w'.db ≡ w.db

-- the reservation is refunded, and nothing is raised
abbrev pub Refunded : ReservationHandle → World → Option String × World → Type 0
Refunded h w (none, w') = w'.db ≡ refund_reservation h w.db
Refunded h w (some exc, w') = ⊥

module _ (ctx : RequestContext) (target : Target) (h : ReservationHandle)
    (has_db : ctx.has_db ≡ true) (reserved : ctx.reservation ≡ some h) where
  pub release-db : (w : World) → (release_reservation ctx w).db ≡ refund_reservation h w.db
  unfolding release_reservation
  release-db w = rw (has_db, reserved) refl

  refund_after-Refunded :
      (w : World) (cost : Option ℕ) (r : Logged × World)
      → Logs w cost r
      → DoesLog r
      → Refunded h w (refund_after ctx r)
  refund_after-Refunded w cost (logged c, w') logs does =
      rw reserved (ap (refund_reservation h) logs.1)
  refund_after-Refunded w cost (log_raised exc, w') logs does = elim does [ ]

  pub log_failure-Refunded :
      (call : LogCall) (error : String) (w : World)
      → call.put_error ≡ none
      → Refunded h w (log_failure_and_refund call ctx target error w)
  unfolding log_failure_and_refund
  log_failure-Refunded call error w put =
      let e = record (entry_for ctx target) { error = some error } in
      rw has_db (
        refund_after-Refunded w none (log_usage call e w) (log_usage-Logs call e w)
          (log_usage-DoesLog call e w put (inr refl)))

module _ {R : Type 0} (ctx : RequestContext) (target : Target) (h : ReservationHandle)
    (has_db : ctx.has_db ≡ true) (reserved : ctx.reservation ≡ some h) (second : LogCall)
    (put : second.put_error ≡ none) (cost : R → ℕ) where
  unless_raised-SettledBy :
      (w : World) (e : Ended R) (r : Option String × World)
      → ((w' : World) → w'.db ≡ refund_reservation h w.db → SettledBy h cost w (e, w'))
      → Refunded h w r
      → SettledBy h cost w (unless_raised e r)
  unless_raised-SettledBy w e (none, w') settles refunded = settles w' refunded
  unless_raised-SettledBy w e (some exc, w') settles refunded = elim refunded [ ]

  handle-SettledBy :
      (exc : Exception) (w : World) → SettledBy h cost w (handle {R = R} ctx target second exc w)
  handle-SettledBy (http_exception status detail) w = release-db ctx target h has_db reserved w
  handle-SettledBy (max_tool_iterations_exceeded e) w =
      unless_raised-SettledBy w (adapter_error 422 e) _ (λ w' p. p)
        (log_failure-Refunded ctx target h has_db reserved second e w put)
  handle-SettledBy (sandbox_not_reachable e) w = release-db ctx target h has_db reserved w
  handle-SettledBy (web_search_not_reachable e) w = release-db ctx target h has_db reserved w
  handle-SettledBy (other_exception e) w =
      unless_raised-SettledBy w (provider_error e) _ (λ w' p. p)
        (log_failure-Refunded ctx target h has_db reserved second e w put)
  handle-SettledBy cancelled w = refl

  -- an exception of the log is refunded from the world that the log left
  SettledBy-db :
      (w w' : World)
      → w'.db ≡ w.db
      → (e : Ended R × World) → SettledBy h cost w' e
      → SettledBy h cost w e
  SettledBy-db w w' same (returns r, v) p = rw same at p
  SettledBy-db w w' same (reraised _ _, v) p = rw same at p
  SettledBy-db w w' same (adapter_error _ _, v) p = rw same at p
  SettledBy-db w w' same (provider_error _, v) p = rw same at p
  SettledBy-db w w' same (handler_raised _, v) p = elim p [ ]
  SettledBy-db w w' same (cancelled_error, v) p = p ∙ same

  reconcile_after-SettledBy :
      (w : World) (r : R) (l : Logged × World) (c : Option ℕ)
      → or_zero c ≡ cost r
      → Logs w c l
      → SettledBy h cost w (reconcile_after ctx target second r l)
  reconcile_after-SettledBy w r (logged c', w') c charged logs =
      rw (reserved, logs.0, charged) (ap (reconcile_reservation h (pos (cost r))) logs.1)
  reconcile_after-SettledBy w r (log_raised exc, w') c charged logs =
      SettledBy-db w w' logs (handle {R = R} ctx target second (other_exception exc) w')
        (handle-SettledBy (other_exception exc) w')

  settle_success-SettledBy :
      (always : Bool) (first : LogCall) (r : R) (u : Option CompletionUsage) (w : World)
      → charge first target u ≡ cost r
      → SettledBy h cost w
          (reconcile_after ctx target second r (log_success ctx target always first u w))
  unfolding priced
  settle_success-SettledBy always first r (some u) w charged =
      reconcile_after-SettledBy w r _ (priced first (entry_for ctx target) u) charged
        (log_usage-Logs first (record (entry_for ctx target) { usage_override = some u }) w)
  settle_success-SettledBy true first r none w charged =
      reconcile_after-SettledBy w r _ none charged (log_usage-Logs first (entry_for ctx target) w)
  settle_success-SettledBy false first r none w charged =
      reconcile_after-SettledBy w r (log_success ctx target false first none w) none charged
        (refl, refl)

-- A request with a database and a reservation, whose failures can be logged, settles it once: a
-- result leaves the database with the reservation reconciled against the cost of its usage, every
-- exception but a cancellation leaves it refunded, also one of the log of a success, and after a
-- cancellation the database is as it was.
pub run_standalone_non_stream-SettledBy :
    {R : Type 0} (ctx : RequestContext) (target : Target) (h : ReservationHandle)
    (adapter : Adapter R) (first second : LogCall) (d : Dispatched R) (w : World)
    → ctx.has_db ≡ true
    → ctx.reservation ≡ some h
    → second.put_error ≡ none
    → SettledBy h
        (λ r. charge first target (adapter.extract_usage r))
        w
        (run_standalone_non_stream ctx target adapter first second d w)
unfolding run_standalone_non_stream
run_standalone_non_stream-SettledBy ctx target h adapter first second (raises exc) w has_db reserved
      put =
    handle-SettledBy ctx target h has_db reserved second put _ exc w
run_standalone_non_stream-SettledBy {R} ctx target h adapter first second (result r) w has_db
      reserved put =
    let cost = λ (r : R). charge first target (adapter.extract_usage r) in
    let logs =
      log_success ctx target adapter.log_success_without_usage first (adapter.extract_usage r) w in
    subst
      (λ b.
        SettledBy h cost w (if b then reconcile_after ctx target second r logs else (returns r, w)))
      (sym has_db)
      (settle_success-SettledBy ctx target h has_db reserved second put cost
        adapter.log_success_without_usage first r (adapter.extract_usage r) w refl)
