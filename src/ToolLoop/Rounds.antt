-- ===== src/ToolLoop/Rounds.antt =====
-- `mcp_tool_loop` and `_fold_usage` of otari/src/gateway/services/mcp_loop.py.
use mozilla_ai.Common.{
  ℕ, zero, suc, ◌+◌, String, ◌⊎◌, inl, inr, Bool, true, false, not, Option, none, some, List, [],
  ◌∷◌, ◌++◌, ◌==◌, if◌then◌else◌, filterb, str_eq, string_eq,
}
use mozilla_ai.ToolLoop.{
  ToolBackend, FunctionCall, Message, Result, execute_split, err, owned,
  max_tool_iterations_exceeded, upstream, ok, execute_mcp_calls, assistant,
}

pub record Usage : Type 0 where
  pub prompt_tokens : ℕ
  pub completion_tokens : ℕ
  pub total_tokens : ℕ
  -- `prompt_tokens_details.cached_tokens`, where there are details; `None` counts as 0
  pub cached_tokens : Option ℕ

-- a tool call of the SDK; some have no `function` attribute
pub data SdkCall : Type 0 where
  function : FunctionCall → SdkCall
  custom : String → SdkCall

pub record Choice : Type 0 where
  pub finish_reason : Option String
  pub tool_calls : Option (List SdkCall)

pub record Completion : Type 0 where
  pub usage : Option Usage
  pub choices : List Choice

pub record Request (M T : Type 0) : Type 0 where
  pub messages : List (Message M)
  pub tools : List T

pub record Totals : Type 0 where
  pub prompt : ℕ
  pub completion : ℕ
  pub cache_read : ℕ
  pub signaled : Bool

abbrev pub no_totals : Totals
no_totals = record { prompt = 0; completion = 0; cache_read = 0; signaled = false }

abbrev pub or_zero : Option ℕ → ℕ
or_zero none = 0
or_zero (some n) = n

-- the three counters after a response, and the flag of `on_first_response`
unfoldable pub add_usage : Option Usage → Totals → Totals
add_usage none t = record t { signaled = true }
add_usage (some u) t = record {
  prompt = t.prompt + u.prompt_tokens;
  completion = t.completion + u.completion_tokens;
  cache_read = t.cache_read + or_zero u.cached_tokens;
  signaled = true;
}

abbrev fold_cached : Option ℕ → ℕ → Option ℕ
fold_cached (some _) total = some total
fold_cached none total = if total == 0 then none else some total

abbrev pub fold_totals : Option Usage → Totals → Option Usage
fold_totals none t = none
fold_totals (some u) t = some (record {
  prompt_tokens = t.prompt;
  completion_tokens = t.completion;
  total_tokens = t.prompt + t.completion;
  cached_tokens = fold_cached u.cached_tokens t.cache_read;
})

-- `_fold_usage`
unfoldable pub fold_usage : Completion → Totals → Completion
fold_usage c t = record c { usage = fold_totals c.usage t }

abbrev pub sdk_calls : Choice → List SdkCall
sdk_calls choice = elim choice.tool_calls [ none ↦ [] | some calls ↦ calls ]

-- the calls that have a `function`
abbrev pub function_calls : List SdkCall → List FunctionCall
function_calls [] = []
function_calls (function call ∷ calls) = call ∷ function_calls calls
function_calls (custom _ ∷ calls) = function_calls calls

abbrev pub is_tool_calls : Option String → Bool
is_tool_calls none = false
is_tool_calls (some reason) = str_eq reason "tool_calls"

-- what a response asks for: nothing more, a mixed batch with its owned calls, or another round
pub data Next : Type 0 where
  done : Next
  mixed : List FunctionCall → Next
  again : List FunctionCall → Next

-- `x or None`
abbrev pub or_none : List SdkCall → Option (List SdkCall)
or_none [] = none
or_none (x ∷ xs) = some (x ∷ xs)

module _ {W J T : Type 0} (pool : ToolBackend W J T) where
  -- `hasattr(tc, "function") and not pool.owns_tool(tc.function.name)`
  abbrev pub is_foreign : SdkCall → Bool
  is_foreign (function call) = not (owned pool call)
  is_foreign (custom _) = false

  abbrev pub next_of : List FunctionCall × Bool → Next
  next_of (mcp_calls, true) = mixed mcp_calls
  next_of ([], false) = done
  next_of (call ∷ calls, false) = again (call ∷ calls)

  abbrev pub next_from : List Choice → Next
  next_from [] = done
  next_from (choice ∷ _) =
      if is_tool_calls choice.finish_reason
      then next_of (execute_split pool (function_calls (sdk_calls choice)))
      else done

  unfoldable pub next : Completion → Next
  next c = next_from c.choices

  abbrev pub keep_foreign : Choice → Choice
  keep_foreign choice = record choice {
    tool_calls = or_none (filterb is_foreign (sdk_calls choice));
  }

  -- The first choice keeps the calls that the caller can dispatch, where the batch had owned calls;
  -- `mutable` says whether the SDK's model lets its `tool_calls` be assigned.
  abbrev pub first_keeps_foreign : List Choice → List Choice
  first_keeps_foreign [] = []
  first_keeps_foreign (choice ∷ rest) = keep_foreign choice ∷ rest

  unfoldable pub without_owned : Bool → List FunctionCall → Completion → Completion
  without_owned mutable [] c = c
  without_owned false (_ ∷ _) c = c
  without_owned true (_ ∷ _) c = record c { choices = first_keeps_foreign c.choices }

-- `acompletion` with `stream=False`, the callback `on_first_response`, and the SDK's mutability
pub record Provider (W M T : Type 0) : Type 0 where
  pub acompletion : Request M T → W → (Completion ⊎ String) × W
  pub on_first_response : W → W
  pub mutable : Bool

module _ {W J M T : Type 0} (pool : ToolBackend W J T) (provider : Provider W M T) (tools : List T)
    (max_iterations : ℕ) where
  -- what a round does with a response, by what it asks for; `continue` is the rest of the loop
  abbrev pub follow :
      (List (Message M) → Totals → W → Result Completion × W)
      → List (Message M)
      → Totals
      → Completion
      → Next
      → W
      → Result Completion × W
  follow continue messages t c done w = (ok (fold_usage c t), w)
  follow continue messages t c (mixed calls) w = (
    ok (fold_usage (without_owned pool provider.mutable calls c) t),
    (execute_mcp_calls pool {M = M} calls w).1,
  )
  follow continue messages t c (again calls) w =
      let (replies, w1) = execute_mcp_calls pool calls w in
      continue (messages ++ assistant calls ∷ replies) t w1

  -- the first response is signalled, and no other
  abbrev pub signal : Totals → W → W
  signal t w = if t.signaled then w else provider.on_first_response w

  abbrev pub react :
      (List (Message M) → Totals → W → Result Completion × W)
      → List (Message M)
      → Totals
      → (Completion ⊎ String) × W
      → Result Completion × W
  react continue messages t (inr exc, w) = (err (upstream exc), w)
  react continue messages t (inl c, w) =
      follow continue messages (add_usage c.usage t) c (next pool c) (signal t w)

  abbrev pub request : List (Message M) → Request M T
  request messages = record { messages = messages; tools = tools ++ pool.openai_tools }

  -- the rounds that are left, the conversation and the counters
  unfoldable pub rounds : ℕ → List (Message M) → Totals → W → Result Completion × W
  rounds zero messages t w = (err (max_tool_iterations_exceeded max_iterations), w)
  rounds (suc n) messages t w =
      react (rounds n) messages t (provider.acompletion (request messages) w)

  unfoldable pub mcp_tool_loop : List (Message M) → W → Result Completion × W
  mcp_tool_loop messages w = rounds max_iterations messages no_totals w
