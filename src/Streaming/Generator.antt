-- ===== src/Streaming/Generator.antt =====
-- `streaming_generator` of otari/src/gateway/streaming.py, run against a stream and a consumer that
-- are given as what happens at each suspension. `format_chunk` and `extract_usage` do not raise; a
-- raise of theirs is a stream that raises there.
use mozilla_ai.Common.{String, Option, none, some, List, [], ◌∷◌, if◌then◌else◌, string_eq}
use mozilla_ai.Streaming.{CompletionUsage, StreamFormat, no_usage_yet, merge_usage}

-- what the consumer does with a yield: it asks for more, closes the generator, or is cancelled
pub data Consumer : Type 0 where
  resumed : Consumer
  closed : Consumer
  cancelled : Consumer

-- how the stream ends after its last chunk: exhausted, with an exception, or with a cancellation. A
-- consumer stands for the yield of the done marker, and two for those of the error and its marker.
pub data Ending : Type 0 where
  exhausted : Consumer → Ending
  raised : String → Consumer → Consumer → Ending
  interrupted : Ending

-- how a callback ends: the cancellation is no `Exception`
pub data Outcome : Type 0 where
  returned : Outcome
  failed : Outcome
  cut_off : Outcome

pub data Call : Type 0 where
  completed : CompletionUsage → Call
  no_usage : Call
  errored : String → Call
  incomplete : Call

-- how the generator ends: it returns, or `GeneratorExit` or `CancelledError` passes on
pub data End : Type 0 where
  finished : End
  exit : End
  cancellation : End

pub record Callbacks (C : Type 0) : Type 0 where
  pub format_chunk : C → String
  pub extract_usage : C → Option CompletionUsage
  pub on_complete : CompletionUsage → Outcome
  pub on_error : String → Outcome
  pub on_no_usage : Option Outcome
  pub on_incomplete : Option Outcome

-- what was yielded, which callbacks were called, and the end
pub record Run : Type 0 where
  pub sent : List String
  pub called : List Call
  pub ended : End

abbrev pub send : String → Run → Run
send s run = record run { sent = s ∷ run.sent }

-- a callback that is guarded by `except Exception`
abbrev pub guarded : Call → Outcome → End → Run
guarded call cut_off end = record { sent = []; called = call ∷ []; ended = cancellation }
guarded call returned end = record { sent = []; called = call ∷ []; ended = end }
guarded call failed end = record { sent = []; called = call ∷ []; ended = end }

abbrev pub nothing : End → Run
nothing end = record { sent = []; called = []; ended = end }

-- the `finally`, of a generator that has not settled
abbrev pub finally : Option Outcome → End → Run
finally none end = nothing end
finally (some o) end = guarded incomplete o end

-- the handler of `CancelledError`; a second cancellation leaves it before `settled` is set
abbrev pub on_cancel : Option Outcome → Run
on_cancel none = nothing cancellation
on_cancel (some returned) = guarded incomplete returned cancellation
on_cancel (some failed) = guarded incomplete failed cancellation
on_cancel (some cut_off) = record {
  sent = [];
  called = incomplete ∷ incomplete ∷ [];
  ended = cancellation;
}

abbrev pub settle_no_usage : Option Outcome → Run
settle_no_usage none = nothing finished
settle_no_usage (some o) = guarded no_usage o finished

-- `usage` and `has_usage` in one: none until a chunk has carried a usage
abbrev pub usage_or_none_yet : Option CompletionUsage → CompletionUsage
usage_or_none_yet none = no_usage_yet
usage_or_none_yet (some u) = u

abbrev pub take_usage : Option CompletionUsage → Option CompletionUsage → Option CompletionUsage
take_usage usage none = usage
take_usage usage (some update) = some (merge_usage (usage_or_none_yet usage) update)

module _ {C : Type 0} (fmt : StreamFormat) (cb : Callbacks C) where
  -- settled on a normal completion
  abbrev pub complete : Option CompletionUsage → Run
  complete none = settle_no_usage cb.on_no_usage
  complete (some usage) = guarded (completed usage) (cb.on_complete usage) finished

  -- a yield in the body of the `try`
  abbrev pub after_yield : Consumer → Run → Run
  after_yield resumed run = run
  after_yield closed run = finally cb.on_incomplete exit
  after_yield cancelled run = on_cancel cb.on_incomplete

  -- a yield in the handler of `Exception`, where only the `finally` is left
  abbrev pub after_error_yield : Consumer → Run → Run
  after_error_yield resumed run = run
  after_error_yield closed run = finally cb.on_incomplete exit
  after_error_yield cancelled run = finally cb.on_incomplete cancellation

  abbrev pub on_exception : String → Consumer → Consumer → Run
  on_exception exc first second =
      let settle = guarded (errored exc) (cb.on_error exc) finished in
      send fmt.error_payload (
        after_error_yield first (
          if fmt.yield_done_on_error
          then send fmt.done_marker (after_error_yield second settle)
          else settle))

  abbrev pub finish : Option CompletionUsage → Ending → Run
  finish usage (exhausted c) = send fmt.done_marker (after_yield c (complete usage))
  finish usage (raised exc first second) = on_exception exc first second
  finish usage interrupted = on_cancel cb.on_incomplete

  unfoldable pub consume : Option CompletionUsage → List (C × Consumer) → Ending → Run
  consume usage [] ending = finish usage ending
  consume usage ((chunk, c) ∷ chunks) ending =
      let rest = consume (take_usage usage (cb.extract_usage chunk)) chunks ending in
      send (cb.format_chunk chunk) (after_yield c rest)

  unfoldable pub streaming_generator : List (C × Consumer) → Ending → Run
  streaming_generator chunks ending = consume none chunks ending
