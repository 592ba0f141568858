-- ===== src/ToolLoop/Forwarded.antt =====
-- Which chunks of the provider's streams reach the client, against a record of all that were received.
use mozilla_ai.Common.{
  ℕ, zero, suc, String, ◌≡◌, refl, sym, ap, ◌∙◌, ◌⊎◌, inl, inr, true, not, Option, none, some, List,
  [], ◌∷◌, ◌++◌, Bool-cases, filterb, filterb-append,
}
use mozilla_ai.ToolLoop.{assistant, ToolBackend, FunctionCall, Message, execute_mcp_calls}
use mozilla_ai.ToolLoop.Rounds.{Next, done, mixed, again, is_tool_calls}
use mozilla_ai.ToolLoop.Stream.{
  Chunk, Iteration, Streamed, StreamProvider, is_terminal, read_chunks, no_chunks, pending,
  after_calls, after_chunks, after_stream, stream_rounds, mcp_tool_loop_stream, note_reason,
  reason_of, take_deltas,
}
use mathlib.Core.List.{append_assoc, append-nil}

abbrev pub chunks_of : {P : Type 0} → (List (Chunk P) × Option String) ⊎ String → List (Chunk P)
chunks_of (inl (chunks, broken)) = chunks
chunks_of (inr exc) = []

-- a world with all chunks that were received
abbrev pub Heard : Type 0 → Type 0 → Type 0
Heard P W = List (Chunk P) × W

abbrev pub hearing : {W M T P : Type 0} → StreamProvider W M T P → StreamProvider (Heard P W) M T P
hearing provider = record {
  acompletion = λ r w.
      let (answer, w1) = provider.acompletion r w.1 in (answer, (w.0 ++ chunks_of answer, w1));
}

abbrev pub beside : {W J T : Type 0} (P : Type 0) → ToolBackend W J T → ToolBackend (Heard P W) J T
beside P pool = record {
  openai_tools = pool.openai_tools;
  owns_tool = pool.owns_tool;
  call_tool = λ name args w. let (reply, w1) = pool.call_tool name args w.1 in (reply, (w.0, w1));
  loads = pool.loads;
  no_arguments = pool.no_arguments;
}

module _ {P : Type 0} where
  -- the chunks that are not terminal
  abbrev pub plain : List (Chunk P) → List (Chunk P)
  plain = filterb (λ chunk. not (is_terminal chunk))

  abbrev HeldTerminal : Option (Chunk P) → Type 0
  HeldTerminal none = Unit
  HeldTerminal (some chunk) = is_terminal chunk ≡ true

  HeldTerminal-note_reason :
      (r : Option String) (chunk : Chunk P) (it : Iteration P)
      → reason_of chunk ≡ r
      → HeldTerminal it.pending_terminal
      → HeldTerminal (note_reason r chunk it).pending_terminal
  HeldTerminal-note_reason none chunk it e h = h
  HeldTerminal-note_reason (some reason) chunk it e h = rw e refl

  HeldTerminal-read_chunks :
      (chunks : List (Chunk P)) (it : Iteration P)
      → HeldTerminal it.pending_terminal
      → HeldTerminal (read_chunks chunks it).1.pending_terminal
  unfolding read_chunks
  HeldTerminal-read_chunks [] it h = h
  HeldTerminal-read_chunks (chunk ∷ chunks) it h =
      HeldTerminal-read_chunks chunks _
        (HeldTerminal-note_reason (reason_of chunk) chunk (take_deltas chunk it) refl h)

  plain-pending : (held : Option (Chunk P)) → HeldTerminal held → plain (pending held) ≡ []
  plain-pending none h = refl
  plain-pending (some chunk) h = rw h refl

  plain-read_chunks :
      (chunks : List (Chunk P)) (it : Iteration P) → plain (read_chunks chunks it).0 ≡ plain chunks
  unfolding read_chunks
  plain-read_chunks [] it = refl
  plain-read_chunks (chunk ∷ chunks) it =
      let next_it = note_reason (reason_of chunk) chunk (take_deltas chunk it) in
      elim (Bool-cases (is_terminal chunk)) [
        | inl e ↦ rw e (plain-read_chunks chunks next_it)
        | inr e ↦ rw (e, e) (ap (λ r. chunk ∷ r) (plain-read_chunks chunks next_it))
      ]

module _ {W J M T P : Type 0} (pool : ToolBackend W J T) (provider : StreamProvider W M T P)
    (tools : List T) (max_iterations : ℕ) where
  heard-execute_mcp_calls :
      (calls : List FunctionCall) (w : Heard P W)
      → (execute_mcp_calls (beside P pool) {M = M} calls w).1.0 ≡ w.0
  unfolding execute_mcp_calls
  heard-execute_mcp_calls [] w = refl
  heard-execute_mcp_calls (call ∷ calls) w = heard-execute_mcp_calls calls _

  -- what was received after `heard` is what was sent, but for terminal chunks
  abbrev Forwards : List (Chunk P) → Streamed P (Heard P W) → Type 0
  Forwards heard s = plain s.world.0 ≡ plain heard ++ plain s.sent

  abbrev Goes : (List (Message M) → Heard P W → Streamed P (Heard P W)) → Type 0
  Goes continue = (messages : List (Message M)) (w : Heard P W) → Forwards w.0 (continue messages w)

  Forwards-closing :
      (it : Iteration P) (w : Heard P W)
      → HeldTerminal it.pending_terminal
      → plain w.0 ≡ plain w.0 ++ plain (pending it.pending_terminal)
  Forwards-closing it w h = rw (plain-pending it.pending_terminal h) (sym (append-nil (plain w.0)))

  after_calls-Forwards :
      (continue : List (Message M) → Heard P W → Streamed P (Heard P W))
      → Goes continue
      → (messages : List (Message M)) (it : Iteration P) (n : Next) (w : Heard P W)
      → HeldTerminal it.pending_terminal
      → Forwards w.0 (
          after_calls
            (beside P pool)
            (hearing provider)
            tools
            max_iterations
            continue
            messages
            it
            n
            w)
  after_calls-Forwards continue go messages it done w h = Forwards-closing it w h
  after_calls-Forwards continue go messages it (mixed calls) w h = Forwards-closing it w h
  after_calls-Forwards continue go messages it (again calls) w h =
      let ran = execute_mcp_calls (beside P pool) {M = M} calls w in
      let next_messages = messages ++ assistant calls ∷ ran.0 in
      go next_messages ran.1
      ∙ ap (λ heard. plain heard ++ plain (continue next_messages ran.1).sent)
          (heard-execute_mcp_calls calls w)

  after_chunks-Forwards :
      (continue : List (Message M) → Heard P W → Streamed P (Heard P W))
      → Goes continue
      → (messages : List (Message M)) (it : Iteration P) (broken : Option String) (w : Heard P W)
      → HeldTerminal it.pending_terminal
      → Forwards w.0 (
          after_chunks
            (beside P pool)
            (hearing provider)
            tools
            max_iterations
            continue
            messages
            it
            broken
            w)
  after_chunks-Forwards continue go messages it (some exc) w h = sym (append-nil (plain w.0))
  after_chunks-Forwards continue go messages it none w h =
      elim (Bool-cases (is_tool_calls it.finish_reason)) [
        | inl e ↦ rw e (after_calls-Forwards continue go messages it _ w h)
        | inr e ↦ rw e (Forwards-closing it w h)
      ]

  after_stream-Forwards :
      (continue : List (Message M) → Heard P W → Streamed P (Heard P W))
      → Goes continue
      → (messages : List (Message M)) (a : (List (Chunk P) × Option String) ⊎ String)
        (heard : List (Chunk P)) (w : W)
      → Forwards heard (
          after_stream
            (beside P pool)
            (hearing provider)
            tools
            max_iterations
            continue
            messages
            (a, (heard ++ chunks_of a, w)))
  after_stream-Forwards continue go messages (inr exc) heard w =
      rw (append-nil heard) (sym (append-nil (plain heard)))
  after_stream-Forwards continue go messages (inl (chunks, broken)) heard w =
      let it = (read_chunks chunks no_chunks).1 in
      let sent = (read_chunks chunks no_chunks).0 in
      let rest =
        after_chunks (beside P pool) (hearing provider) tools max_iterations continue messages it
          broken (heard ++ chunks, w) in
      after_chunks-Forwards continue go messages it broken (heard ++ chunks, w)
        (HeldTerminal-read_chunks chunks no_chunks tt)
      ∙ (ap (λ xs. xs ++ plain rest.sent) (filterb-append _ heard chunks)
          ∙ (append_assoc (plain heard) (plain chunks) (plain rest.sent)
              ∙ ap (λ xs. plain heard ++ xs)
                  (ap (λ xs. xs ++ plain rest.sent) (sym (plain-read_chunks chunks no_chunks))
                    ∙ sym (filterb-append _ sent rest.sent))))

  stream_rounds-Forwards :
      (n : ℕ) → Goes (stream_rounds (beside P pool) (hearing provider) tools max_iterations n)
  unfolding stream_rounds
  stream_rounds-Forwards zero messages w = sym (append-nil (plain w.0))
  stream_rounds-Forwards (suc n) messages w =
      after_stream-Forwards
        (stream_rounds (beside P pool) (hearing provider) tools max_iterations n)
        (stream_rounds-Forwards n) messages
        (provider.acompletion (record { messages = messages; tools = tools ++ pool.openai_tools })
          w.1).0
        w.0 _

  -- For every provider, pool and number of rounds, of the chunks received in all rounds those that
  -- are not terminal are sent to the client, each once and in order, and no others but terminal ones.
  pub mcp_tool_loop_stream-forwards :
      (messages : List (Message M)) (w : W)
      → plain
          (mcp_tool_loop_stream
            (beside P pool)
            (hearing provider)
            tools
            max_iterations
            messages
            ([], w)).world.0
        ≡ plain
            (mcp_tool_loop_stream
              (beside P pool)
              (hearing provider)
              tools
              max_iterations
              messages
              ([], w)).sent
  unfolding mcp_tool_loop_stream
  mcp_tool_loop_stream-forwards messages w = stream_rounds-Forwards max_iterations messages ([], w)
