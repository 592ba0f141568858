-- ===== src/ToolLoop/Terminal.antt =====
-- Which terminal chunks `mcp_tool_loop_stream` forwards.
use mozilla_ai.Common.{
  ℕ, zero, suc, String, ◌≡◌, refl, ◌⊎◌, inl, inr, false, Option, none, some, List, [], ◌∷◌, ◌++◌,
  All, Bool-cases,
}
use mozilla_ai.ToolLoop.{ToolBackend, Message, Result, ok, err}
use mozilla_ai.ToolLoop.Rounds.{Next, done, mixed, again, is_tool_calls}
use mozilla_ai.ToolLoop.Stream.{
  Chunk, Iteration, Streamed, StreamProvider, is_terminal, read_chunks, no_chunks, pending,
  after_calls, after_chunks, after_stream, stream_rounds, mcp_tool_loop_stream, note_reason,
  reason_of, take_deltas,
}

module _ {P : Type 0} where
  abbrev pub NoTerminal : List (Chunk P) → Type 0
  NoTerminal chunks = All (λ chunk. is_terminal chunk ≡ false) chunks

  -- a terminal chunk is the last
  abbrev pub EndsTerminal : List (Chunk P) → Type 0
  EndsTerminal [] = Unit
  EndsTerminal (chunk ∷ chunks) =
      (chunks ≡ []) ⊎ ((is_terminal chunk ≡ false) × EndsTerminal chunks)

  -- what was sent when the generator ends
  abbrev pub WellEnded : Result Unit → List (Chunk P) → Type 0
  WellEnded (ok _) sent = EndsTerminal sent
  WellEnded (err _) sent = NoTerminal sent

  NoTerminal-read_chunks :
      (chunks : List (Chunk P)) (it : Iteration P) → NoTerminal (read_chunks chunks it).0
  unfolding read_chunks
  NoTerminal-read_chunks [] it = tt
  NoTerminal-read_chunks (chunk ∷ chunks) it =
      let next_it = note_reason (reason_of chunk) chunk (take_deltas chunk it) in
      elim (Bool-cases (is_terminal chunk)) [
        | inl e ↦ rw e (NoTerminal-read_chunks chunks next_it)
        | inr e ↦ rw e (e, NoTerminal-read_chunks chunks next_it)
      ]

  NoTerminal-append :
      (xs ys : List (Chunk P)) → NoTerminal xs → NoTerminal ys → NoTerminal (xs ++ ys)
  NoTerminal-append [] ys a b = b
  NoTerminal-append (x ∷ xs) ys a b = (a.0, NoTerminal-append xs ys a.1 b)

  EndsTerminal-append :
      (xs ys : List (Chunk P)) → NoTerminal xs → EndsTerminal ys → EndsTerminal (xs ++ ys)
  EndsTerminal-append [] ys a b = b
  EndsTerminal-append (x ∷ xs) ys a b = inr (a.0, EndsTerminal-append xs ys a.1 b)

  WellEnded-append :
      (r : Result Unit) (xs ys : List (Chunk P))
      → NoTerminal xs
      → WellEnded r ys
      → WellEnded r (xs ++ ys)
  WellEnded-append (ok _) xs ys a b = EndsTerminal-append xs ys a b
  WellEnded-append (err _) xs ys a b = NoTerminal-append xs ys a b

  EndsTerminal-pending : (held : Option (Chunk P)) → EndsTerminal (pending held)
  EndsTerminal-pending none = tt
  EndsTerminal-pending (some chunk) = inl refl

module _ {W J M T P : Type 0} (pool : ToolBackend W J T) (provider : StreamProvider W M T P)
    (tools : List T) (max_iterations : ℕ) where
  abbrev Ended : Streamed P W → Type 0
  Ended s = WellEnded s.ended s.sent

  abbrev Goes : (List (Message M) → W → Streamed P W) → Type 0
  Goes continue = (messages : List (Message M)) (w : W) → Ended (continue messages w)

  after_calls-Ended :
      (continue : List (Message M) → W → Streamed P W)
      → Goes continue
      → (messages : List (Message M)) (it : Iteration P) (n : Next) (w : W)
      → Ended (after_calls pool provider tools max_iterations continue messages it n w)
  after_calls-Ended continue go messages it done w = EndsTerminal-pending it.pending_terminal
  after_calls-Ended continue go messages it (mixed calls) w =
      EndsTerminal-pending it.pending_terminal
  after_calls-Ended continue go messages it (again calls) w = go _ _

  after_chunks-Ended :
      (continue : List (Message M) → W → Streamed P W)
      → Goes continue
      → (messages : List (Message M)) (it : Iteration P) (broken : Option String) (w : W)
      → Ended (after_chunks pool provider tools max_iterations continue messages it broken w)
  after_chunks-Ended continue go messages it (some exc) w = tt
  after_chunks-Ended continue go messages it none w =
      elim (Bool-cases (is_tool_calls it.finish_reason)) [
        | inl e ↦ rw e (after_calls-Ended continue go messages it _ w)
        | inr e ↦ rw e (EndsTerminal-pending it.pending_terminal)
      ]

  after_stream-Ended :
      (continue : List (Message M) → W → Streamed P W)
      → Goes continue
      → (messages : List (Message M)) (a : ((List (Chunk P) × Option String) ⊎ String) × W)
      → Ended (after_stream pool provider tools max_iterations continue messages a)
  after_stream-Ended continue go messages (inr exc, w) = tt
  after_stream-Ended continue go messages (inl (chunks, broken), w) =
      let it = (read_chunks chunks no_chunks).1 in
      let rest = after_chunks pool provider tools max_iterations continue messages it broken w in
      WellEnded-append rest.ended (read_chunks chunks no_chunks).0 rest.sent
        (NoTerminal-read_chunks chunks no_chunks)
        (after_chunks-Ended continue go messages it broken w)

  stream_rounds-Ended : (n : ℕ) → Goes (stream_rounds pool provider tools max_iterations n)
  unfolding stream_rounds
  stream_rounds-Ended zero messages w = tt
  stream_rounds-Ended (suc n) messages w =
      after_stream-Ended (stream_rounds pool provider tools max_iterations n)
        (stream_rounds-Ended n) messages
        (provider.acompletion (record { messages = messages; tools = tools ++ pool.openai_tools })
          w)

  -- For every provider, pool and number of rounds, a terminal chunk is sent to the client only as the
  -- last of all chunks of all rounds, and none where the loop ends with an exception.
  pub mcp_tool_loop_stream-WellEnded :
      (messages : List (Message M)) (w : W)
      → WellEnded
          (mcp_tool_loop_stream pool provider tools max_iterations messages w).ended
          (mcp_tool_loop_stream pool provider tools max_iterations messages w).sent
  unfolding mcp_tool_loop_stream
  mcp_tool_loop_stream-WellEnded messages w = stream_rounds-Ended max_iterations messages w
