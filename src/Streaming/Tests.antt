-- ===== src/Streaming/Tests.antt =====
-- Runs of the generator on chunks of text, and of the attempts on numbered upstreams.
use mozilla_ai.Common.{
  ℕ, zero, suc, String, ◌≡◌, refl, inl, inr, true, Option, none, some, List, [], ◌∷◌, length, ◌==◌,
  if◌then◌else◌, arith,
}
use mozilla_ai.Streaming.{StreamFormat, CompletionUsage}
use mozilla_ai.Streaming.Generator.{
  Callbacks, Consumer, resumed, closed, exhausted, raised, interrupted, returned,
  streaming_generator, incomplete, completed, cut_off, consume,
}
use mozilla_ai.Streaming.Settlement.{settles_once}
use mozilla_ai.Streaming.Billed.{billed_in_full, IsLastOf, usages, formatted}
use mozilla_ai.Streaming.Attempts.{Upstream, got, timed_out, iterate_streaming_attempts}
use mozilla_ai.Streaming.Fallback.{iterate_streaming_attempts-Ends, Ends, logged, fresh_log}

abbrev fmt : StreamFormat
fmt = record { done_marker = "[DONE]"; error_payload = "error"; yield_done_on_error = true }

abbrev usage_of : ℕ → Option CompletionUsage
usage_of zero = none
usage_of (suc n) = some (record {
  prompt_tokens = 7;
  completion_tokens = n;
  total_tokens = 0;
  cached = some 2;
  gateway = none;
})

abbrev cb : Callbacks ℕ
cb = record {
  format_chunk = λ n. "chunk";
  extract_usage = usage_of;
  on_complete = λ u. returned;
  on_error = λ exc. returned;
  on_no_usage = some returned;
  on_incomplete = some returned;
}

abbrev chunks : List (ℕ × Consumer)
chunks = (0, resumed) ∷ (4, resumed) ∷ (1, resumed) ∷ []

disconnect :
    (streaming_generator fmt cb ((0, closed) ∷ []) (exhausted resumed)).called ≡ incomplete ∷ []
unfolding streaming_generator consume
disconnect = refl

-- A second cancellation, while `on_incomplete` runs, makes the `finally` call it again.
twice :
    (streaming_generator fmt (record cb { on_incomplete = some cut_off }) [] interrupted).called
    ≡ incomplete ∷ incomplete ∷ []
unfolding streaming_generator consume
twice = refl

settles_once_example :
    length (streaming_generator fmt cb chunks (raised "boom" resumed closed)).called ≡ 1
settles_once_example =
    settles_once fmt cb tt (λ e. ground (arith, e)) chunks (raised "boom" resumed closed)

billed_in_full_example :
    (u : CompletionUsage) × IsLastOf (usages fmt cb chunks) u
    × ((streaming_generator fmt cb chunks (exhausted resumed)).called ≡ completed u ∷ [])
    × ((streaming_generator fmt cb chunks (exhausted resumed)).sent ≡ formatted fmt cb chunks)
billed_in_full_example = billed_in_full fmt cb chunks tt (λ e. ground (arith, e))

-- the attempt 0 cannot be built, the attempt 1 times out, the others answer
abbrev upstream : Upstream ℕ ℕ String String Unit
upstream = record {
  build_stream = λ a w. if a == 0 then (inr "refused", w) else (inl a, w);
  first_chunk = λ s w. if s == 1 then (timed_out "late", w) else (got "hi", w);
  close_stream_quietly = λ s w. w;
  classify_error = λ exc. (true, "connection");
  on_attempt_failed = λ a c exc w. w;
}

iterate_streaming_attempts-Ends_example :
    Ends upstream
      (0 ∷ 1 ∷ 2 ∷ 3 ∷ [])
      (iterate_streaming_attempts (logged upstream) (0 ∷ 1 ∷ 2 ∷ 3 ∷ []) (fresh_log tt)).0
      (iterate_streaming_attempts (logged upstream) (0 ∷ 1 ∷ 2 ∷ 3 ∷ []) (fresh_log tt)).1
iterate_streaming_attempts-Ends_example =
    iterate_streaming_attempts-Ends upstream (0 ∷ 1 ∷ 2 ∷ 3 ∷ []) tt
