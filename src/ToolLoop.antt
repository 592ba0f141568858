-- ===== src/ToolLoop.antt =====
-- The tool-use loop of otari/src/gateway/services/mcp_loop.py: its data, and the helpers that both
-- variants share. The conversation that the caller sent, the tools and the parsed arguments are types
-- of the caller's; the provider call `acompletion` and the tools are arguments that act on a world.
pub mod Rounds
pub mod Split
pub mod Ownership
pub mod Meters
pub mod Totals
pub mod Returned
pub mod Stream
pub mod Terminal
pub mod Forwarded
pub mod Deltas
pub mod Hints
mod HintTests
mod Tests
use mozilla_ai.Common.{
  ℕ, zero, suc, ◌+◌, ◌-◌, ◌*◌, ◌/◌, ◌%◌, ◌≤◌, ◌<◌, min, max, String, ◌≡◌, refl, sym, ap, ◌∙◌, subst,
  ◌≢◌, ◌↔◌, ◌⊎◌, inl, inr, Bool, true, false, not, ◌&&◌, ◌||◌, Option, none, some, List, [], ◌∷◌,
  ◌++◌, map, arith, ltb, leb, ◌==◌, if◌then◌else◌, Bool-cases, Option-cases, length, filterb, All,
  IsIn, str_eq, str_eq_iff, string_eq,
}
use Prim.Native.String.{◌++◌ as append}

-- a tool call of the provider, which the loop turns into a dict of the same fields
pub record FunctionCall : Type 0 where
  pub id : Option String
  pub name : String
  pub arguments : String

-- the messages of a conversation: those of the caller, and the two kinds that the loop appends
pub data Message (M : Type 0) : Type 0 where
  given : M → Message M
  assistant : List FunctionCall → Message M
  tool : String → String → Message M

pub data Raised : Type 0 where
  upstream : String → Raised
  max_tool_iterations_exceeded : ℕ → Raised

pub data Result (A : Type 0) : Type 0 where
  ok : A → Result A
  err : Raised → Result A

-- `ToolBackend`. A call of a tool returns its text or fails with an exception's text; `loads` is
-- `json.loads`, which may raise a JSONDecodeError, and `no_arguments` is `{}`.
pub record ToolBackend (W J T : Type 0) : Type 0 where
  pub openai_tools : List T
  pub owns_tool : String → Bool
  pub call_tool : String → J → W → (String ⊎ String) × W
  pub loads : String → Option J
  pub no_arguments : J

-- a failure becomes a message that the model can read
abbrev pub content : String ⊎ String → String
content (inl text) = text
content (inr exc) = append "[tool error] " exc

-- `tc["id"] or ""`
abbrev pub id_or_empty : Option String → String
id_or_empty none = ""
id_or_empty (some id) = id

module _ {W J T : Type 0} (pool : ToolBackend W J T) where
  abbrev pub owned : FunctionCall → Bool
  owned call = pool.owns_tool call.name

  -- `_execute_split`: the owned calls, and whether there is any other
  unfoldable pub execute_split : List FunctionCall → List FunctionCall × Bool
  execute_split [] = ([], false)
  execute_split (call ∷ calls) =
      let (mcp_calls, has_foreign) = execute_split calls in
      if owned call then (call ∷ mcp_calls, has_foreign) else (mcp_calls, true)

  abbrev or_no_arguments : Option J → J
  or_no_arguments none = pool.no_arguments
  or_no_arguments (some j) = j

  abbrev pub arguments_of : FunctionCall → J
  arguments_of call =
      or_no_arguments (pool.loads (if str_eq call.arguments "" then "{}" else call.arguments))

  -- `_execute_mcp_calls`
  unfoldable pub execute_mcp_calls : {M : Type 0} → List FunctionCall → W → List (Message M) × W
  execute_mcp_calls [] w = ([], w)
  execute_mcp_calls (call ∷ calls) w =
      let (reply, w1) = pool.call_tool call.name (arguments_of call) w in
      let (out, w2) = execute_mcp_calls calls w1 in
      (tool (id_or_empty call.id) (content reply) ∷ out, w2)
