-- ===== src/ToolLoop/Tests.antt =====
-- Runs of the loop on a world that counts the provider calls and lists the tools that were called.
use mozilla_ai.Common.{
  ℕ, zero, suc, String, ◌≡◌, refl, inl, true, none, some, List, [], ◌∷◌, All, str_eq,
}
use mozilla_ai.ToolLoop.{
  ToolBackend, FunctionCall, Message, given, err, execute_split, execute_mcp_calls,
  max_tool_iterations_exceeded,
}
use mozilla_ai.ToolLoop.Rounds.{
  Provider, Completion, SdkCall, function, custom, mcp_tool_loop, rounds, next, add_usage,
}
use mozilla_ai.ToolLoop.Totals.{mcp_tool_loop-totals}
use mozilla_ai.ToolLoop.Meters.{Ends, metered_pool, metered_provider, fresh_meter}
use mozilla_ai.ToolLoop.Stream.{
  Chunk, StreamProvider, mcp_tool_loop_stream, stream_rounds, read_chunks,
  accumulate_tool_call_deltas, finalize_tool_calls,
}
use mozilla_ai.ToolLoop.Terminal.{mcp_tool_loop_stream-WellEnded, WellEnded}
use mozilla_ai.ToolLoop.Forwarded.{mcp_tool_loop_stream-forwards, plain, beside, hearing}
use mozilla_ai.ToolLoop.Returned.{mcp_tool_loop-LeavesForeign, LeavesForeign}

abbrev World : Type 0
World = ℕ × List String

abbrev search : FunctionCall
search = record { id = some "1"; name = "search"; arguments = "" }

abbrev weather : FunctionCall
weather = record { id = none; name = "weather"; arguments = "{}" }

abbrev response : List SdkCall → Completion
response calls = record {
  usage = some (record {
    prompt_tokens = 10;
    completion_tokens = 5;
    total_tokens = 15;
    cached_tokens = none;
  });
  choices = record { finish_reason = some "tool_calls"; tool_calls = some calls } ∷ [];
}

-- first an owned call, then a mixed batch
abbrev answer : ℕ → Completion
answer zero = response (function search ∷ [])
answer (suc n) = response (function search ∷ function weather ∷ custom "x" ∷ [])

abbrev provider : Provider World String String
provider = record {
  acompletion = λ r w. (inl (answer w.0), (suc w.0, w.1));
  on_first_response = λ w. w;
  mutable = true;
}

abbrev pool : ToolBackend World String String
pool = record {
  openai_tools = "search" ∷ [];
  owns_tool = λ name. str_eq name "search";
  call_tool = λ name args w. (inl "found", (w.0, name ∷ w.1));
  loads = λ text. some text;
  no_arguments = "";
}

abbrev start : World
start = (0, [])

abbrev conversation : List (Message String)
conversation = given "hello" ∷ []

calls_search_twice :
    (mcp_tool_loop pool provider [] 10 conversation start).1 ≡ (2, "search" ∷ "search" ∷ [])
unfolding mcp_tool_loop rounds next execute_split execute_mcp_calls add_usage
calls_search_twice = refl

one_round_is_too_few :
    (mcp_tool_loop pool provider [] 1 conversation start).0 ≡ err (max_tool_iterations_exceeded 1)
unfolding mcp_tool_loop rounds next execute_split execute_mcp_calls add_usage
one_round_is_too_few = refl

abbrev OnlySearch : World → Type 0
OnlySearch w = All (λ name. str_eq name "search" ≡ true) w.1

mcp_tool_loop-totals_example : Ends 10 (
    mcp_tool_loop
      (metered_pool pool)
      (metered_provider provider)
      []
      10
      conversation
      (fresh_meter start))
mcp_tool_loop-totals_example = mcp_tool_loop-totals pool provider [] 10 conversation start

mcp_tool_loop-LeavesForeign_example :
    LeavesForeign pool (mcp_tool_loop pool provider [] 10 conversation start).0
mcp_tool_loop-LeavesForeign_example =
    mcp_tool_loop-LeavesForeign pool provider [] 10 refl conversation start

abbrev text_chunk : String → Chunk String
text_chunk s = record { payload = s; choice = some (record { deltas = []; finish_reason = none }) }

abbrev call_chunk : Chunk String
call_chunk = record {
  payload = "call";
  choice = some (record {
    deltas =
        record {
          index = 0;
          id = some "1";
          function = some (record { name = some "search"; arguments = some "{}" });
        }
        ∷ [];
    finish_reason = none;
  });
}

abbrev last_chunk : String → Chunk String
last_chunk reason = record {
  payload = reason;
  choice = some (record { deltas = []; finish_reason = some reason });
}

-- first a call of an owned tool, with a trailing stop, then a text
abbrev stream_answer : ℕ → List (Chunk String)
stream_answer zero = text_chunk "a" ∷ call_chunk ∷ last_chunk "tool_calls" ∷ last_chunk "stop" ∷ []
stream_answer (suc n) = text_chunk "b" ∷ last_chunk "stop" ∷ []

abbrev stream_provider : StreamProvider World String String String
stream_provider = record { acompletion = λ r w. (inl (stream_answer w.0, none), (suc w.0, w.1)) }

streams_on :
    (mcp_tool_loop_stream pool stream_provider [] 10 conversation start).sent
    ≡ text_chunk "a" ∷ call_chunk ∷ text_chunk "b" ∷ last_chunk "stop" ∷ []
unfolding mcp_tool_loop_stream stream_rounds read_chunks accumulate_tool_call_deltas
    finalize_tool_calls execute_split execute_mcp_calls
streams_on = refl

mcp_tool_loop_stream-WellEnded_example :
    WellEnded
      (mcp_tool_loop_stream pool stream_provider [] 10 conversation start).ended
      (mcp_tool_loop_stream pool stream_provider [] 10 conversation start).sent
mcp_tool_loop_stream-WellEnded_example =
    mcp_tool_loop_stream-WellEnded pool stream_provider [] 10 conversation start

mcp_tool_loop_stream-forwards_example :
    plain
      (mcp_tool_loop_stream
        (beside String pool)
        (hearing stream_provider)
        []
        10
        conversation
        ([], start)).world.0
    ≡ plain
        (mcp_tool_loop_stream
          (beside String pool)
          (hearing stream_provider)
          []
          10
          conversation
          ([], start)).sent
mcp_tool_loop_stream-forwards_example =
    mcp_tool_loop_stream-forwards pool stream_provider [] 10 conversation start
