-- ===== src/ToolLoop/Returned.antt =====
-- What the caller is left to dispatch when the loop returns a response that asks for tools.
use mozilla_ai.Common.{
  ◌≡◌, refl, Bool, true, false, none, List, [], ◌∷◌, All, filterb, Bool-cases, inl, inr, ℕ, zero,
  suc, ◌⊎◌, if◌then◌else◌, sym, arith, String, ◌∙◌,
}
use mozilla_ai.ToolLoop.{ToolBackend, FunctionCall, Message, Result, ok, err, owned}
use mozilla_ai.ToolLoop.Rounds.{
  done, mixed, again, follow, react, mcp_tool_loop, rounds, no_totals, next, next_of, next_from,
  Totals, fold_usage, without_owned, Provider, Choice, Completion, sdk_calls, function_calls,
  is_tool_calls, SdkCall, function, custom, first_keeps_foreign, is_foreign, or_none, request, Next,
}
use mozilla_ai.ToolLoop.Split.{split-owned}

-- the function calls of a response that ended for tools
abbrev pub to_dispatch : List Choice → List FunctionCall
to_dispatch [] = []
to_dispatch (choice ∷ _) =
    if is_tool_calls choice.finish_reason then function_calls (sdk_calls choice) else []

module _ {W J T : Type 0} (pool : ToolBackend W J T) where
  abbrev pub AllForeign : List FunctionCall → Type 0
  AllForeign calls = All (λ f. owned pool f ≡ false) calls

  -- with no owned call, all are foreign
  AllForeign-none_owned :
      (calls : List FunctionCall) → filterb (owned pool) calls ≡ [] → AllForeign calls
  AllForeign-none_owned [] e = tt
  AllForeign-none_owned (call ∷ calls) e = ground (arith, AllForeign-none_owned calls)

  AllForeign-filterb :
      (calls : List SdkCall) → AllForeign (function_calls (filterb (is_foreign pool) calls))
  AllForeign-filterb [] = tt
  AllForeign-filterb (function call ∷ calls) = elim (Bool-cases (owned pool call)) [
    | inl e ↦ rw e (AllForeign-filterb calls)
    | inr e ↦ rw e (e, AllForeign-filterb calls)
  ]
  AllForeign-filterb (custom _ ∷ calls) = AllForeign-filterb calls

  AllForeign-or_none :
      (calls : List SdkCall)
      → AllForeign (function_calls calls)
      → AllForeign
          (function_calls (sdk_calls (record { finish_reason = none; tool_calls = or_none calls })))
  AllForeign-or_none [] a = tt
  AllForeign-or_none (_ ∷ _) a = a

  -- what is left to dispatch where the response is returned as it came
  abbrev Dispatchable : List Choice → Next → Type 0
  Dispatchable choices done = AllForeign (to_dispatch choices)
  Dispatchable choices (mixed []) = AllForeign (to_dispatch choices)
  Dispatchable choices (mixed (_ ∷ _)) = Unit
  Dispatchable choices (again _) = Unit

  Dispatchable-next_of :
      (choices : List Choice) (split : List FunctionCall × Bool)
      → (split.0 ≡ [] → AllForeign (to_dispatch choices))
      → Dispatchable choices (next_of pool split)
  Dispatchable-next_of choices ([], true) h = h refl
  Dispatchable-next_of choices (_ ∷ _, true) h = tt
  Dispatchable-next_of choices ([], false) h = h refl
  Dispatchable-next_of choices (_ ∷ _, false) h = tt

  Dispatchable-next_from : (choices : List Choice) → Dispatchable choices (next_from pool choices)
  Dispatchable-next_from [] = tt
  Dispatchable-next_from (choice ∷ rest) = elim (Bool-cases (is_tool_calls choice.finish_reason)) [
    | inl e ↦ rw e (
        Dispatchable-next_of (choice ∷ rest) _ (λ none_owned. rw e (
          AllForeign-none_owned _
            (sym (split-owned pool (function_calls (sdk_calls choice))) ∙ none_owned))))
    | inr e ↦ rw (e, e) tt
  ]

  AllForeign-keep_foreign :
      (choices : List Choice) → AllForeign (to_dispatch (first_keeps_foreign pool choices))
  AllForeign-keep_foreign [] = tt
  AllForeign-keep_foreign (choice ∷ rest) = elim (Bool-cases (is_tool_calls choice.finish_reason)) [
    | inl e ↦ rw e (
        AllForeign-or_none (filterb (is_foreign pool) (sdk_calls choice))
          (AllForeign-filterb (sdk_calls choice)))
    | inr e ↦ rw e tt
  ]

  abbrev pub LeavesForeign : Result Completion → Type 0
  LeavesForeign (err _) = Unit
  LeavesForeign (ok c) = AllForeign (to_dispatch c.choices)

  without_owned-LeavesForeign :
      (calls : List FunctionCall) (c : Completion)
      → Dispatchable c.choices (mixed calls)
      → AllForeign (to_dispatch (without_owned pool true calls c).choices)
  unfolding without_owned
  without_owned-LeavesForeign [] c d = d
  without_owned-LeavesForeign (_ ∷ _) c d = AllForeign-keep_foreign c.choices

module _ {W J M T : Type 0} (pool : ToolBackend W J T) (provider : Provider W M T) (tools : List T)
    (max_iterations : ℕ) (mutable : provider.mutable ≡ true) where
  follow-LeavesForeign :
      (continue : List (Message M) → Totals → W → Result Completion × W)
      → ((ms : List (Message M)) (t : Totals) (w : W) → LeavesForeign pool (continue ms t w).0)
      → (messages : List (Message M)) (t : Totals) (c : Completion) (n : Next) (w : W)
      → Dispatchable pool c.choices n
      → LeavesForeign pool (follow pool provider tools max_iterations continue messages t c n w).0
  unfolding fold_usage
  follow-LeavesForeign continue rest messages t c done w d = d
  follow-LeavesForeign continue rest messages t c (mixed calls) w d =
      rw mutable (without_owned-LeavesForeign pool calls c d)
  follow-LeavesForeign continue rest messages t c (again calls) w d = rest _ t _

  react-LeavesForeign :
      (continue : List (Message M) → Totals → W → Result Completion × W)
      → ((ms : List (Message M)) (t : Totals) (w : W) → LeavesForeign pool (continue ms t w).0)
      → (messages : List (Message M)) (t : Totals) (a : (Completion ⊎ String) × W)
      → LeavesForeign pool (react pool provider tools max_iterations continue messages t a).0
  unfolding next
  react-LeavesForeign continue rest messages t (inr exc, w) = tt
  react-LeavesForeign continue rest messages t (inl c, w) =
      follow-LeavesForeign continue rest messages _ c _ _ (Dispatchable-next_from pool c.choices)

  rounds-LeavesForeign :
      (n : ℕ) (messages : List (Message M)) (t : Totals) (w : W)
      → LeavesForeign pool (rounds pool provider tools max_iterations n messages t w).0
  unfolding rounds
  rounds-LeavesForeign zero messages t w = tt
  rounds-LeavesForeign (suc n) messages t w =
      react-LeavesForeign (rounds pool provider tools max_iterations n) (rounds-LeavesForeign n)
        messages t (provider.acompletion (request pool provider tools max_iterations messages) w)

  -- Where the SDK lets the calls be assigned, a response that is returned with the finish reason
  -- tool_calls has, in its first choice, no call of a function that the pool owns.
  pub mcp_tool_loop-LeavesForeign :
      (messages : List (Message M)) (w : W)
      → LeavesForeign pool (mcp_tool_loop pool provider tools max_iterations messages w).0
  unfolding mcp_tool_loop
  mcp_tool_loop-LeavesForeign messages w = rounds-LeavesForeign max_iterations messages no_totals w
