-- ===== src/ToolLoop/Ownership.antt =====
-- What `mcp_tool_loop` does to the world: which tools it calls.
use mozilla_ai.Common.{
  ℕ, zero, suc, String, ◌≡◌, refl, ◌⊎◌, inl, inr, Bool, true, false, List, [], ◌∷◌, Bool-cases, All,
  string_eq,
}
use mozilla_ai.ToolLoop.{ToolBackend, FunctionCall, owned, Message, Result}
use mozilla_ai.ToolLoop.Rounds.{
  done, follow, signal, react, request, mcp_tool_loop, no_totals, add_usage, Provider, next,
  Completion, again, mixed, Choice, Request, next_of, Next, next_from, rounds, is_tool_calls,
  Totals, function_calls, sdk_calls,
}
use mozilla_ai.ToolLoop.Split.{execute_mcp_calls-keep, All-split}

-- the owned calls that a response has run
abbrev pub run_calls : Next → List FunctionCall
run_calls done = []
run_calls (mixed calls) = calls
run_calls (again calls) = calls

module _ {W J T : Type 0} (pool : ToolBackend W J T) where
  All-next_of :
      (split : List FunctionCall × Bool)
      → All (λ f. owned pool f ≡ true) split.0
      → All (λ f. owned pool f ≡ true) (run_calls (next_of pool split))
  All-next_of (calls, true) a = a
  All-next_of ([], false) a = tt
  All-next_of (call ∷ calls, false) a = a

  All-next_from :
      (choices : List Choice) → All (λ f. owned pool f ≡ true) (run_calls (next_from pool choices))
  All-next_from [] = tt
  All-next_from (choice ∷ _) = elim (Bool-cases (is_tool_calls choice.finish_reason)) [
    | inl e ↦ rw e (All-next_of _ (All-split pool (function_calls (sdk_calls choice))))
    | inr e ↦ rw e tt
  ]

  -- Every call that a response has run is owned.
  pub All-next :
      (c : Completion) (n : Next) → next pool c ≡ n → All (λ f. owned pool f ≡ true) (run_calls n)
  unfolding next
  All-next c n e = rw (← e) (All-next_from c.choices)

module _ {W J M T : Type 0} (pool : ToolBackend W J T) (provider : Provider W M T) (tools : List T)
    (max_iterations : ℕ) where
  module _ (Inv : W → Type 0)
      (ask : (r : Request M T) (w : W) → Inv w → Inv (provider.acompletion r w).1)
      (first : (w : W) → Inv w → Inv (provider.on_first_response w))
      (call_owned : (call : FunctionCall) (args : J) (w : W)
        → owned pool call ≡ true
        → Inv w
        → Inv (pool.call_tool call.name args w).1) where
    follow-keep :
        (continue : List (Message M) → Totals → W → Result Completion × W)
        (keep : (ms : List (Message M)) (t : Totals) (w : W) → Inv w → Inv (continue ms t w).1)
        (messages : List (Message M)) (t : Totals) (c : Completion) (n : Next) (w : W)
        → All (λ f. owned pool f ≡ true) (run_calls n)
        → Inv w
        → Inv (follow pool provider tools max_iterations continue messages t c n w).1
    follow-keep continue keep messages t c done w a h = h
    follow-keep continue keep messages t c (mixed calls) w a h =
        execute_mcp_calls-keep pool Inv call_owned M calls w a h
    follow-keep continue keep messages t c (again calls) w a h =
        keep _ t _ (execute_mcp_calls-keep pool Inv call_owned M calls w a h)

    signal-keep : (t : Totals) (w : W) → Inv w → Inv (signal pool provider tools max_iterations t w)
    signal-keep t w h = elim (Bool-cases t.signaled) [ inl e ↦ rw e h | inr e ↦ rw e (first w h) ]

    react-keep :
        (continue : List (Message M) → Totals → W → Result Completion × W)
        (keep : (ms : List (Message M)) (t : Totals) (w : W) → Inv w → Inv (continue ms t w).1)
        (messages : List (Message M)) (t : Totals) (a : (Completion ⊎ String) × W)
        → Inv a.1
        → Inv (react pool provider tools max_iterations continue messages t a).1
    react-keep continue keep messages t (inr exc, w) h = h
    react-keep continue keep messages t (inl c, w) h =
        follow-keep continue keep messages (add_usage c.usage t) c (next pool c) _
          (All-next pool c (next pool c) refl) (signal-keep t w h)

    rounds-keep :
        (n : ℕ) (messages : List (Message M)) (t : Totals) (w : W)
        → Inv w
        → Inv (rounds pool provider tools max_iterations n messages t w).1
    unfolding rounds
    rounds-keep zero messages t w h = h
    rounds-keep (suc n) messages t w h =
        react-keep (rounds pool provider tools max_iterations n) (rounds-keep n) messages t
          (provider.acompletion (request pool provider tools max_iterations messages) w) (ask _ w h)

    -- What every provider call, the signal and every call of an owned tool keep, the loop keeps:
    -- it does nothing else to the world, and so calls no tool that the pool does not own.
    pub mcp_tool_loop-keep :
        (messages : List (Message M)) (w : W)
        → Inv w
        → Inv (mcp_tool_loop pool provider tools max_iterations messages w).1
    unfolding mcp_tool_loop
    mcp_tool_loop-keep messages w h = rounds-keep max_iterations messages no_totals w h
