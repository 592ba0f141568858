-- ===== src/ToolLoop/Meters.antt =====
-- Meters that stand beside the world of the tool-use loop: the provider calls, the calls of
-- `on_first_response`, and the tokens that the responses report.
use mozilla_ai.Common.{
  ℕ, suc, ◌+◌, ◌≤◌, String, ◌≡◌, refl, sym, ◌⊎◌, inl, inr, Bool, true, false, Option, none, some,
  arith, string_eq,
}
use mozilla_ai.ToolLoop.{ToolBackend, Result, err, ok}
use mozilla_ai.ToolLoop.Rounds.{
  add_usage, Totals, Usage, fold_usage, Provider, Completion, fold_totals,
}

pub record Meter (W : Type 0) : Type 0 where
  pub calls : ℕ
  pub signals : ℕ
  pub prompts : ℕ
  pub completions : ℕ
  pub world : W

abbrev pub prompt_of : Option Usage → ℕ
prompt_of none = 0
prompt_of (some u) = u.prompt_tokens

abbrev pub completion_of : Option Usage → ℕ
completion_of none = 0
completion_of (some u) = u.completion_tokens

abbrev pub answered :
    {W : Type 0} → (Completion ⊎ String) × W → Meter W → (Completion ⊎ String) × Meter W
answered (inr exc, w) m = (inr exc, record m { calls = suc m.calls; world = w })
answered (inl c, w) m = (
  inl c,
  record m {
    calls = suc m.calls;
    prompts = m.prompts + prompt_of c.usage;
    completions = m.completions + completion_of c.usage;
    world = w;
  },
)

-- the provider and the tools, on a world with its meters
abbrev pub metered_provider : {W M T : Type 0} → Provider W M T → Provider (Meter W) M T
metered_provider p = record {
  acompletion = λ r m. answered (p.acompletion r m.world) m;
  on_first_response =
      λ m. record m { signals = suc m.signals; world = p.on_first_response m.world };
  mutable = p.mutable;
}

abbrev pub metered_pool : {W J T : Type 0} → ToolBackend W J T → ToolBackend (Meter W) J T
metered_pool pool = record {
  openai_tools = pool.openai_tools;
  owns_tool = pool.owns_tool;
  call_tool = λ name args m.
      let (reply, w) = pool.call_tool name args m.world in (reply, record m { world = w });
  loads = pool.loads;
  no_arguments = pool.no_arguments;
}

abbrev pub fresh_meter : {W : Type 0} → W → Meter W
fresh_meter w = record { calls = 0; signals = 0; prompts = 0; completions = 0; world = w }

abbrev pub bit : Bool → ℕ
bit false = 0
bit true = 1

-- the counters of the loop are those of the meters, after `k` provider calls
pub record Agrees {W : Type 0} (k : ℕ) (t : Totals) (m : Meter W) : Type 0 where
  pub asked : m.calls ≡ k
  pub prompt_same : m.prompts ≡ t.prompt
  pub completion_same : m.completions ≡ t.completion
  pub signals_same : m.signals ≡ bit t.signaled

-- The usage that is returned, where there is any, is what the meters counted.
abbrev pub UsageIs : {W : Type 0} → Option Usage → Meter W → Type 0
UsageIs none m = Unit
UsageIs (some u) m =
    (u.prompt_tokens ≡ m.prompts)
    × (u.completion_tokens ≡ m.completions)
    × (u.total_tokens ≡ m.prompts + m.completions)

abbrev pub ReturnsTotals : {W : Type 0} → Result Completion → Meter W → Type 0
ReturnsTotals (err _) m = Unit
ReturnsTotals (ok c) m = UsageIs c.usage m

abbrev pub Ends : {W : Type 0} → ℕ → Result Completion × Meter W → Type 0
Ends k (r, m) = (m.calls ≤ k) × (m.signals ≤ 1) × ReturnsTotals r m

pub bit-le : (b : Bool) → bit b ≤ 1
bit-le false = omega arith
bit-le true = omega arith

fold_totals-UsageIs :
    {W : Type 0} (k : ℕ) (t : Totals) (u : Option Usage) (m : Meter W)
    → Agrees k t m
    → UsageIs (fold_totals u t) m
fold_totals-UsageIs k t none m a = tt
fold_totals-UsageIs k t (some u) m a =
    (sym a.prompt_same, sym a.completion_same, omega (arith, a.prompt_same, a.completion_same))

pub prompt-add_usage :
    (u : Option Usage) (t : Totals) → (add_usage u t).prompt ≡ t.prompt + prompt_of u
unfolding add_usage
prompt-add_usage none t = omega arith
prompt-add_usage (some u) t = refl

pub completion-add_usage :
    (u : Option Usage) (t : Totals) → (add_usage u t).completion ≡ t.completion + completion_of u
unfolding add_usage
completion-add_usage none t = omega arith
completion-add_usage (some u) t = refl

pub signaled-add_usage : (u : Option Usage) (t : Totals) → (add_usage u t).signaled ≡ true
unfolding add_usage
signaled-add_usage none t = refl
signaled-add_usage (some u) t = refl

pub Agrees-Ends :
    {W : Type 0} (k n : ℕ) (t : Totals) (c : Completion) (m : Meter W)
    → Agrees k t m
    → k ≤ n
    → Ends n (ok (fold_usage c t), m)
unfolding fold_usage
Agrees-Ends k n t c m a le = (
  omega (arith, a.asked, le),
  rw a.signals_same (bit-le t.signaled),
  fold_totals-UsageIs k t c.usage m a,
)
