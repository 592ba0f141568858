-- ===== src/Budget/Cost.antt =====
-- `estimate_cost`, and the cost that `log_usage` of otari/src/gateway/api/routes/_pipeline.py
-- computes. Both are in the unit of Budget: 1 / (4 * 10^6) of a price's unit.
use native.Mathlib.Nat.{mul-le-mul_right}
use mozilla_ai.Common.{ℕ, ◌+◌, ◌*◌, ◌≤◌, ◌≡◌, Option, none, some, arith}
use mozilla_ai.Common.Int.{ℤ, pos_part}
use mozilla_ai.Pricing.{ModelPricing}

-- the declared bound, 0 included, or the default
abbrev pub output_bound : Option ℤ → ℤ → ℤ
output_bound none default = default
output_bound (some n) default = n

-- a character is a quarter of a token: `prompt_chars / 4 / 10^6 * input + output / 10^6 * output`
unfoldable pub estimate_cost : Option ModelPricing → ℤ → Option ℤ → ℤ → ℕ
estimate_cost none prompt_chars max_output default = 0
estimate_cost (some p) prompt_chars max_output default =
    pos_part prompt_chars * p.input_price_per_million
    + 4 * (pos_part (output_bound max_output default) * p.output_price_per_million)

unfoldable pub usage_cost : Option ModelPricing → ℕ → ℕ → Option ℕ
usage_cost none prompt_tokens completion_tokens = none
usage_cost (some p) prompt_tokens completion_tokens = some (
    4 * (prompt_tokens * p.input_price_per_million)
    + 4 * (completion_tokens * p.output_price_per_million))

-- A request whose prompt has at most a token for each four characters, and whose completion keeps
-- within the bound, costs at most its estimate.
pub cost-le-estimate :
    (p : ModelPricing) (chars default : ℤ) (max_output : Option ℤ) (prompt completion cost : ℕ)
    → 4 * prompt ≤ pos_part chars
    → completion ≤ pos_part (output_bound max_output default)
    → usage_cost (some p) prompt completion ≡ some cost
    → cost ≤ estimate_cost (some p) chars max_output default
unfolding estimate_cost usage_cost
cost-le-estimate p chars default max_output prompt completion cost h k e = ground (
  arith,
  mul-le-mul_right p.input_price_per_million h,
  mul-le-mul_right p.output_price_per_million k,
)
