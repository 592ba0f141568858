-- ===== src/ToolLoop/Split.antt =====
-- `_execute_split` and `_execute_mcp_calls`: which calls are run, and what comes back for each.
use mozilla_ai.Common.{
  String, ◌≡◌, refl, ap, Bool, true, false, not, ◌||◌, List, [], ◌∷◌, map, arith, filterb, All,
  string_eq,
}
use mozilla_ai.ToolLoop.{
  ToolBackend, FunctionCall, Message, execute_split, execute_mcp_calls, owned, given, id_or_empty,
  arguments_of, assistant, tool,
}

module _ {W J T : Type 0} (pool : ToolBackend W J T) where
  abbrev pub any_foreign : List FunctionCall → Bool
  any_foreign [] = false
  any_foreign (call ∷ calls) = not (owned pool call) || any_foreign calls

  pub split-owned :
      (calls : List FunctionCall) → (execute_split pool calls).0 ≡ filterb (owned pool) calls
  unfolding execute_split
  split-owned [] = refl
  split-owned (call ∷ calls) = ground (arith, split-owned calls)

  pub split-foreign : (calls : List FunctionCall) → (execute_split pool calls).1 ≡ any_foreign calls
  unfolding execute_split
  split-foreign [] = refl
  split-foreign (call ∷ calls) = ground (arith, split-foreign calls)

  pub All-owned :
      (calls : List FunctionCall) → All (λ c. owned pool c ≡ true) (filterb (owned pool) calls)
  All-owned [] = tt
  All-owned (call ∷ calls) = ground (arith, All-owned calls)

  pub All-split :
      (calls : List FunctionCall) → All (λ c. owned pool c ≡ true) (execute_split pool calls).0
  All-split calls = rw (split-owned calls) (All-owned calls)

  -- the `tool_call_id` of each message that the loop appends
  abbrev pub reply_ids : {M : Type 0} → List (Message M) → List String
  reply_ids [] = []
  reply_ids (given _ ∷ ms) = reply_ids ms
  reply_ids (assistant _ ∷ ms) = reply_ids ms
  reply_ids (tool id _ ∷ ms) = id ∷ reply_ids ms

  -- Each call that is run, failing or not, is answered by one message under its id, in order.
  pub reply_ids-execute_mcp_calls :
      (M : Type 0) (calls : List FunctionCall) (w : W)
      → reply_ids (execute_mcp_calls pool {M = M} calls w).0 ≡ map (λ c. id_or_empty c.id) calls
  unfolding execute_mcp_calls
  reply_ids-execute_mcp_calls M [] w = refl
  reply_ids-execute_mcp_calls M (call ∷ calls) w =
      ap (λ ids. id_or_empty call.id ∷ ids) (reply_ids-execute_mcp_calls M calls _)

  module _ (Inv : W → Type 0)
      (keep : (call : FunctionCall) (args : J) (w : W)
        → owned pool call ≡ true
        → Inv w
        → Inv (pool.call_tool call.name args w).1) where
    -- Running owned calls keeps what each call of an owned tool keeps.
    pub execute_mcp_calls-keep :
        (M : Type 0) (calls : List FunctionCall) (w : W)
        → All (λ c. owned pool c ≡ true) calls
        → Inv w
        → Inv (execute_mcp_calls pool {M = M} calls w).1
    unfolding execute_mcp_calls
    execute_mcp_calls-keep M [] w a h = h
    execute_mcp_calls-keep M (call ∷ calls) w a h =
        execute_mcp_calls-keep M calls _ a.1 (keep call (arguments_of pool call) w a.0 h)
