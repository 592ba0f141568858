-- ===== src/ToolLoop/Totals.antt =====
-- What the tool-use loop adds up, against the meters.
use mozilla_ai.Common.{
  ℕ, zero, suc, ◌+◌, ◌≤◌, String, ◌≡◌, refl, ap, ◌∙◌, ◌⊎◌, inl, inr, Bool, true, false, List, [],
  ◌∷◌, arith, Bool-cases, string_eq,
}
use mozilla_ai.ToolLoop.{ToolBackend, FunctionCall, Result, execute_mcp_calls, Message}
use mozilla_ai.ToolLoop.Rounds.{
  done, mixed, again, follow, signal, react, request, mcp_tool_loop, no_totals, add_usage, Totals,
  without_owned, Provider, Completion, rounds, Next,
}
use mozilla_ai.ToolLoop.Meters.{
  Meter, answered, metered_provider, metered_pool, fresh_meter, bit, Agrees, Ends, bit-le,
  prompt-add_usage, completion-add_usage, signaled-add_usage, Agrees-Ends,
}

module _ {W J M T : Type 0} (pool : ToolBackend W J T) (provider : Provider W M T) (tools : List T)
    (max_iterations : ℕ) where
  execute_mcp_calls-Agrees :
      (k : ℕ) (t : Totals) (calls : List FunctionCall) (m : Meter W)
      → Agrees k t m
      → Agrees k t (execute_mcp_calls (metered_pool pool) {M = M} calls m).1
  unfolding execute_mcp_calls
  execute_mcp_calls-Agrees k t [] m a = a
  execute_mcp_calls-Agrees k t (call ∷ calls) m a = execute_mcp_calls-Agrees k t calls _ (record {
    asked = a.asked;
    prompt_same = a.prompt_same;
    completion_same = a.completion_same;
    signals_same = a.signals_same;
  })

  signal-Agrees :
      (k : ℕ) (t t' : Totals) (m : Meter W)
      → m.calls ≡ k
      → m.prompts ≡ t'.prompt
      → m.completions ≡ t'.completion
      → m.signals ≡ bit t.signaled
      → t'.signaled ≡ true
      → Agrees k t'
          (signal (metered_pool pool) (metered_provider provider) tools max_iterations t m)
  signal-Agrees k t t' m asked p c s set = elim (Bool-cases t.signaled) [
    | inl e ↦ rw e (record {
      asked = asked;
      prompt_same = p;
      completion_same = c;
      signals_same = rw set (s ∙ ap bit e);
    })
    | inr e ↦ rw e (record {
      asked = asked;
      prompt_same = p;
      completion_same = c;
      signals_same = rw (set, s, e) refl;
    })
  ]

  -- the rest of the loop, from a state that agrees
  abbrev Continues :
      ℕ → ℕ → (List (Message M) → Totals → Meter W → Result Completion × Meter W) → Type 0
  Continues b k continue =
      (ms : List (Message M)) (t : Totals) (m : Meter W) → Agrees k t m → Ends b (continue ms t m)

  without_owned-usage :
      (mutable : Bool) (calls : List FunctionCall) (c : Completion)
      → (without_owned (metered_pool pool) mutable calls c).usage ≡ c.usage
  unfolding without_owned
  without_owned-usage mutable [] c = refl
  without_owned-usage false (_ ∷ _) c = refl
  without_owned-usage true (_ ∷ _) c = refl

  follow-Ends :
      (b k : ℕ) (continue : List (Message M) → Totals → Meter W → Result Completion × Meter W)
      → Continues b k continue
      → k ≤ b
      → (messages : List (Message M)) (t : Totals) (c : Completion) (x : Next) (m : Meter W)
      → Agrees k t m
      → Ends b (
          follow
            (metered_pool pool)
            (metered_provider provider)
            tools
            max_iterations
            continue
            messages
            t
            c
            x
            m)
  follow-Ends b k continue rest le messages t c done m a = Agrees-Ends k b t c m a le
  follow-Ends b k continue rest le messages t c (mixed calls) m a =
      Agrees-Ends k b t _ _ (execute_mcp_calls-Agrees k t calls m a) le
  follow-Ends b k continue rest le messages t c (again calls) m a =
      rest _ t _ (execute_mcp_calls-Agrees k t calls m a)

  react-Ends :
      (b k : ℕ) (continue : List (Message M) → Totals → Meter W → Result Completion × Meter W)
      → Continues b (suc k) continue
      → suc k ≤ b
      → (messages : List (Message M)) (t : Totals) (a : (Completion ⊎ String) × W) (m : Meter W)
      → Agrees k t m
      → Ends b (
          react
            (metered_pool pool)
            (metered_provider provider)
            tools
            max_iterations
            continue
            messages
            t
            (answered a m))
  react-Ends b k continue rest le messages t (inr exc, w) m a =
      (omega (arith, le, a.asked), rw a.signals_same (bit-le t.signaled), tt)
  react-Ends b k continue rest le messages t (inl c, w) m a =
      follow-Ends b (suc k) continue rest le messages (add_usage c.usage t) c _ _ (
        signal-Agrees (suc k) t _ _ (omega (arith, a.asked))
          (omega (arith, prompt-add_usage c.usage t, a.prompt_same))
          (omega (arith, completion-add_usage c.usage t, a.completion_same)) a.signals_same
          (signaled-add_usage c.usage t))

  rounds-Ends :
      (b k n : ℕ)
      → k + n ≡ b
      → Continues b k
          (rounds (metered_pool pool) (metered_provider provider) tools max_iterations n)
  unfolding rounds
  rounds-Ends b k zero e ms t m a =
      (omega (arith, e, a.asked), rw a.signals_same (bit-le t.signaled), tt)
  rounds-Ends b k (suc n) e ms t m a =
      react-Ends b k (rounds (metered_pool pool) (metered_provider provider) tools max_iterations n)
        (rounds-Ends b (suc k) n (omega (arith, e))) (omega (arith, e)) ms t
        (provider.acompletion (request pool provider tools max_iterations ms) m.world) m a

  -- For every provider and every tools the loop calls the provider at most `max_iterations` times
  -- and `on_first_response` at most once, and a returned usage holds the sums over all responses.
  pub mcp_tool_loop-totals :
      (messages : List (Message M)) (w : W)
      → Ends max_iterations (
          mcp_tool_loop
            (metered_pool pool)
            (metered_provider provider)
            tools
            max_iterations
            messages
            (fresh_meter w))
  unfolding mcp_tool_loop
  mcp_tool_loop-totals messages w =
      rounds-Ends max_iterations 0 max_iterations (omega arith) messages no_totals (fresh_meter w)
        (record { asked = refl; prompt_same = refl; completion_same = refl; signals_same = refl })
