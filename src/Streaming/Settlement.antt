-- ===== src/Streaming/Settlement.antt =====
-- How often, and with what, `streaming_generator` calls back.
use mozilla_ai.Common.{
  String, ◌≡◌, refl, ◌≢◌, inl, inr, Option, none, some, List, [], ◌∷◌, Bool-cases, length,
  string_eq,
}
use mozilla_ai.Streaming.{StreamFormat, CompletionUsage}
use mozilla_ai.Streaming.Generator.{
  resumed, closed, cancelled, exhausted, raised, interrupted, returned, failed, cut_off, Callbacks,
  Run, streaming_generator, consume, Consumer, Ending, Outcome, Call, complete, after_yield, End,
  completed, finish, finished, exit, guarded, on_exception, after_error_yield, finally, on_cancel,
  settle_no_usage, incomplete, errored, cancellation, no_usage, take_usage,
}

module _ {C : Type 0} (fmt : StreamFormat) (cb : Callbacks C) where
  -- the callback that is neither missing nor cancelled
  abbrev pub Settles : Option Outcome → Type 0
  Settles none = ⊥
  Settles (some returned) = Unit
  Settles (some failed) = Unit
  Settles (some cut_off) = ⊥

  abbrev One : Run → Type 0
  One run = length run.called ≡ 1

  One-guarded : (call : Call) (o : Outcome) (end : End) → One (guarded call o end)
  One-guarded call returned end = refl
  One-guarded call failed end = refl
  One-guarded call cut_off end = refl

  One-finally : (o : Option Outcome) → Settles o → (end : End) → One (finally o end)
  One-finally none s end = elim s [ ]
  One-finally (some o) s end = One-guarded incomplete o end

  One-on_cancel : (o : Option Outcome) → Settles o → One (on_cancel o)
  One-on_cancel none s = elim s [ ]
  One-on_cancel (some cut_off) s = elim s [ ]
  One-on_cancel (some returned) s = refl
  One-on_cancel (some failed) s = refl

  One-settle_no_usage : (o : Option Outcome) → o ≢ none → One (settle_no_usage o)
  One-settle_no_usage none s = absurd (s refl)
  One-settle_no_usage (some o) s = One-guarded no_usage o finished

  module _ (incomplete_settles : Settles cb.on_incomplete)
      (bills_no_usage : cb.on_no_usage ≢ none) where
    One-after_yield : (c : Consumer) (run : Run) → One run → One (after_yield fmt cb c run)
    One-after_yield resumed run one = one
    One-after_yield closed run one = One-finally cb.on_incomplete incomplete_settles exit
    One-after_yield cancelled run one = One-on_cancel cb.on_incomplete incomplete_settles

    One-after_error_yield :
        (c : Consumer) (run : Run) → One run → One (after_error_yield fmt cb c run)
    One-after_error_yield resumed run one = one
    One-after_error_yield closed run one = One-finally cb.on_incomplete incomplete_settles exit
    One-after_error_yield cancelled run one =
        One-finally cb.on_incomplete incomplete_settles cancellation

    One-complete : (usage : Option CompletionUsage) → One (complete fmt cb usage)
    One-complete none = One-settle_no_usage cb.on_no_usage bills_no_usage
    One-complete (some u) = One-guarded (completed u) (cb.on_complete u) finished

    One-on_exception :
        (exc : String) (first second : Consumer) → One (on_exception fmt cb exc first second)
    One-on_exception exc first second =
        One-after_error_yield first _ (elim (Bool-cases fmt.yield_done_on_error) [
          | inl e ↦ rw e (
              One-after_error_yield second _ (One-guarded (errored exc) (cb.on_error exc) finished))
          | inr e ↦ rw e (One-guarded (errored exc) (cb.on_error exc) finished)
        ])

    One-finish :
        (usage : Option CompletionUsage) (ending : Ending) → One (finish fmt cb usage ending)
    One-finish usage (exhausted c) = One-after_yield c _ (One-complete usage)
    One-finish usage (raised exc first second) = One-on_exception exc first second
    One-finish usage interrupted = One-on_cancel cb.on_incomplete incomplete_settles

    One-consume :
        (chunks : List (C × Consumer)) (usage : Option CompletionUsage) (ending : Ending)
        → One (consume fmt cb usage chunks ending)
    unfolding consume
    One-consume [] usage ending = One-finish usage ending
    One-consume ((chunk, c) ∷ chunks) usage ending =
        One-after_yield c _ (One-consume chunks (take_usage usage (cb.extract_usage chunk)) ending)

    -- Where the two optional callbacks are given and a call of `on_incomplete` is not itself
    -- cancelled, exactly one callback is called once, however the stream and the consumer end.
    pub settles_once :
        (chunks : List (C × Consumer)) (ending : Ending)
        → length (streaming_generator fmt cb chunks ending).called ≡ 1
    unfolding streaming_generator
    settles_once chunks ending = One-consume chunks none ending
