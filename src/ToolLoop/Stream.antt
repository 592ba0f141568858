-- ===== src/ToolLoop/Stream.antt =====
-- `mcp_tool_loop_stream` of otari/src/gateway/services/mcp_loop.py, with the slots of its tool calls.
-- A slot's `type`, which the loop only passes on, is left out.
use mozilla_ai.Common.{
  ℕ, zero, suc, String, Bool, true, false, not, ◌&&◌, Option, none, some, List, [], ◌∷◌, ◌++◌, ◌⊎◌,
  inl, inr, if◌then◌else◌, ltb, str_eq, nat_eq,
}
use mozilla_ai.Common.Dict.{Dict, lookup, insert}
use mozilla_ai.ToolLoop.{
  ToolBackend, FunctionCall, Message, assistant, Result, ok, err, max_tool_iterations_exceeded,
  upstream, execute_split, execute_mcp_calls,
}
use mozilla_ai.ToolLoop.Rounds.{Request, Next, done, mixed, again, next_of, is_tool_calls}
use Prim.Native.String.{◌++◌ as append}

pub record FunctionDelta : Type 0 where
  pub name : Option String
  pub arguments : Option String

pub record Delta : Type 0 where
  pub index : ℕ
  pub id : Option String
  pub function : Option FunctionDelta

-- the first choice of a chunk, where it has one
pub record StreamChoice : Type 0 where
  pub deltas : List Delta
  pub finish_reason : Option String

pub record Chunk (P : Type 0) : Type 0 where
  pub payload : P
  pub choice : Option StreamChoice

-- the truth of a text or None, as the text where it is true
abbrev pub truthy : Option String → Option String
truthy none = none
truthy (some s) = if str_eq s "" then none else some s

abbrev pub or_keep : Option String → Option String → Option String
or_keep none kept = kept
or_keep (some s) kept = some s

abbrev pub joined : String → Option String → String
joined text none = text
joined text (some s) = append text s

abbrev pub empty_slot : FunctionCall
empty_slot = record { id = none; name = ""; arguments = "" }

abbrev pub slot_or_empty : Option FunctionCall → FunctionCall
slot_or_empty none = empty_slot
slot_or_empty (some slot) = slot

abbrev pub add_function : Option FunctionDelta → FunctionCall → FunctionCall
add_function none slot = slot
add_function (some fn) slot = record slot {
  name = joined slot.name (truthy fn.name);
  arguments = joined slot.arguments (truthy fn.arguments);
}

-- `_accumulate_tool_call_deltas`
unfoldable pub accumulate_tool_call_deltas : List Delta → Dict ℕ FunctionCall → Dict ℕ FunctionCall
accumulate_tool_call_deltas [] slots = slots
accumulate_tool_call_deltas (delta ∷ deltas) slots =
    let slot = slot_or_empty (lookup delta.index slots) in
    accumulate_tool_call_deltas deltas (
      insert delta.index
        (add_function delta.function (record slot { id = or_keep (truthy delta.id) slot.id }))
        slots)

abbrev pub insert_sorted : ℕ × FunctionCall → List (ℕ × FunctionCall) → List (ℕ × FunctionCall)
insert_sorted x [] = x ∷ []
insert_sorted (i, slot) ((j, other) ∷ rest) =
    let inserted = insert_sorted (i, slot) rest in
    if ltb j i then (j, other) ∷ inserted else (i, slot) ∷ (j, other) ∷ rest

abbrev pub sorted : List (ℕ × FunctionCall) → List (ℕ × FunctionCall)
sorted [] = []
sorted (x ∷ xs) = insert_sorted x (sorted xs)

abbrev slots_only : List (ℕ × FunctionCall) → List FunctionCall
slots_only [] = []
slots_only ((_, slot) ∷ rest) = slot ∷ slots_only rest

-- `_finalize_tool_calls`
unfoldable pub finalize_tool_calls : Dict ℕ FunctionCall → List FunctionCall
finalize_tool_calls slots = slots_only (sorted slots)

-- what one iteration keeps of its chunks
pub record Iteration (P : Type 0) : Type 0 where
  pub slots : Dict ℕ FunctionCall
  pub finish_reason : Option String
  pub pending_terminal : Option (Chunk P)

-- a reason that is seen keeps `tool_calls` from being overridden by another
abbrev pub next_reason : Option String → String → Option String
next_reason seen reason =
    if is_tool_calls seen && not (str_eq reason "tool_calls") then seen else some reason

abbrev pub reason_of : {P : Type 0} → Chunk P → Option String
reason_of chunk = elim chunk.choice [ none ↦ none | some choice ↦ truthy choice.finish_reason ]

abbrev pub deltas_of : {P : Type 0} → Chunk P → List Delta
deltas_of chunk = elim chunk.choice [ none ↦ [] | some choice ↦ choice.deltas ]

abbrev has_reason : Option String → Bool
has_reason none = false
has_reason (some _) = true

-- the chunk carries a `finish_reason`
abbrev pub is_terminal : {P : Type 0} → Chunk P → Bool
is_terminal chunk = has_reason (reason_of chunk)

abbrev pub note_reason : {P : Type 0} → Option String → Chunk P → Iteration P → Iteration P
note_reason none chunk it = it
note_reason (some reason) chunk it = record it {
  finish_reason = next_reason it.finish_reason reason;
  pending_terminal = some chunk;
}

abbrev pub take_deltas : {P : Type 0} → Chunk P → Iteration P → Iteration P
take_deltas chunk it = record it { slots = accumulate_tool_call_deltas (deltas_of chunk) it.slots }

-- The chunks of one stream: a terminal one is held back, the others are yielded.
unfoldable pub read_chunks :
    {P : Type 0} → List (Chunk P) → Iteration P → List (Chunk P) × Iteration P
read_chunks [] it = ([], it)
read_chunks (chunk ∷ chunks) it =
    let (sent, last) =
      read_chunks chunks (note_reason (reason_of chunk) chunk (take_deltas chunk it)) in
    (if is_terminal chunk then sent else chunk ∷ sent, last)

abbrev pub no_chunks : {P : Type 0} → Iteration P
no_chunks = record { slots = []; finish_reason = none; pending_terminal = none }

abbrev pub pending : {P : Type 0} → Option (Chunk P) → List (Chunk P)
pending none = []
pending (some chunk) = chunk ∷ []

-- what is yielded, the end of the generator, and the world
pub record Streamed (P W : Type 0) : Type 0 where
  pub sent : List (Chunk P)
  pub ended : Result Unit
  pub world : W

-- `acompletion` with `stream=True`: the chunks and the exception that breaks them off, if any, or an
-- exception at once
pub record StreamProvider (W M T P : Type 0) : Type 0 where
  pub acompletion : Request M T → W → ((List (Chunk P) × Option String) ⊎ String) × W

module _ {W J M T P : Type 0} (pool : ToolBackend W J T) (provider : StreamProvider W M T P)
    (tools : List T) (max_iterations : ℕ) where
  abbrev pub closing : Iteration P → W → Streamed P W
  closing it w = record { sent = pending it.pending_terminal; ended = ok tt; world = w }

  -- after a stream, by what its calls ask for
  abbrev pub after_calls :
      (List (Message M) → W → Streamed P W)
      → List (Message M)
      → Iteration P
      → Next
      → W
      → Streamed P W
  after_calls continue messages it done w = closing it w
  after_calls continue messages it (mixed calls) w = closing it w
  after_calls continue messages it (again calls) w =
      let (replies, w1) = execute_mcp_calls pool calls w in
      continue (messages ++ assistant calls ∷ replies) w1

  abbrev pub after_chunks :
      (List (Message M) → W → Streamed P W)
      → List (Message M)
      → Iteration P
      → Option String
      → W
      → Streamed P W
  after_chunks continue messages it (some exc) w = record {
    sent = [];
    ended = err (upstream exc);
    world = w;
  }
  after_chunks continue messages it none w =
      let go_on =
        after_calls continue messages it
          (next_of pool (execute_split pool (finalize_tool_calls it.slots))) w in
      if is_tool_calls it.finish_reason then go_on else closing it w

  abbrev pub after_stream :
      (List (Message M) → W → Streamed P W)
      → List (Message M)
      → ((List (Chunk P) × Option String) ⊎ String) × W
      → Streamed P W
  after_stream continue messages (inr exc, w) = record {
    sent = [];
    ended = err (upstream exc);
    world = w;
  }
  after_stream continue messages (inl (chunks, broken), w) =
      let (sent, it) = read_chunks chunks no_chunks in
      let rest = after_chunks continue messages it broken w in
      record rest { sent = sent ++ rest.sent }

  unfoldable pub stream_rounds : ℕ → List (Message M) → W → Streamed P W
  stream_rounds zero messages w = record {
    sent = [];
    ended = err (max_tool_iterations_exceeded max_iterations);
    world = w;
  }
  stream_rounds (suc n) messages w =
      after_stream (stream_rounds n) messages (
        provider.acompletion (record { messages = messages; tools = tools ++ pool.openai_tools }) w)

  unfoldable pub mcp_tool_loop_stream : List (Message M) → W → Streamed P W
  mcp_tool_loop_stream messages w = stream_rounds max_iterations messages w
