-- ===== src/PriceInit.antt =====
-- The prices that a start writes, otari/src/gateway/services/pricing_init_service.py. A query sees the
-- rows that were added before it, and one start has one present; log lines are left out.
pub mod Restart
mod Tests
use mozilla_ai.Common.{
  ℕ, zero, suc, ◌+◌, ◌-◌, ◌*◌, ◌/◌, ◌%◌, ◌≤◌, ◌<◌, min, max, String, ◌≡◌, refl, sym, ap, ◌∙◌, subst,
  ◌≢◌, ◌↔◌, ◌⊎◌, inl, inr, Bool, true, false, not, ◌&&◌, ◌||◌, Option, none, some, List, [], ◌∷◌,
  ◌++◌, map, arith, ltb, leb, ◌==◌, if◌then◌else◌, Bool-cases, Option-cases, length, filterb, All,
  IsIn, str_eq, str_eq_iff, string_eq,
}
use mozilla_ai.Pricing.{ModelPricing}
use mozilla_ai.Selector.{Config, colon, split_once, normalize_pricing_key}
use mozilla_ai.Common.Dict.{Dict, lookup}

pub record PricingConfig : Type 0 where
  pub input_price_per_million : ℕ
  pub output_price_per_million : ℕ
  pub effective_at : Option ℕ

-- how the start ends: the rows of the table, an exception of any-llm for a key, or that of the commit;
-- both leave the table as it was
pub data Initialized : Type 0 where
  initialized : List ModelPricing → Initialized
  key_raised : Initialized
  commit_raised : Initialized

abbrev pub before_colon : String → Option (String × String) → String
before_colon key none = key
before_colon key (some (instance_name, rest)) = instance_name

-- `model_key.split(":", 1)[0] if ":" in model_key else model_key`
abbrev pub instance_of : String → String
instance_of key = before_colon key (split_once colon key)

-- `normalize_effective_at`
abbrev pub or_now : ℕ → Option ℕ → ℕ
or_now now none = now
or_now now (some t) = t

-- whether there is a row of the primary key
abbrev pub has_row : String → ℕ → List ModelPricing → Bool
has_row key at [] = false
has_row key at (row ∷ rows) =
    (str_eq row.model_key key && row.effective_at == at) || has_row key at rows

abbrev pub new_row : String → ℕ → PricingConfig → ModelPricing
new_row key at pricing = record {
  model_key = key;
  effective_at = at;
  input_price_per_million = pricing.input_price_per_million;
  output_price_per_million = pricing.output_price_per_million;
}

abbrev pub is_listed : {V : Type 0} → Option V → Bool
is_listed none = false
is_listed (some _) = true

module _ {X : Type 0} (config : Config X) (now : ℕ) where
  -- a row is added where the instance is listed and its key and date have none
  abbrev pub add_price : String → PricingConfig → List ModelPricing → List ModelPricing
  add_price key pricing rows =
      let at = or_now now pricing.effective_at in
      if is_listed (lookup (instance_of key) config.providers)
      then if has_row key at rows then rows else rows ++ new_row key at pricing ∷ []
      else rows

  abbrev pub add_normalized :
      Option String
      → PricingConfig
      → (List ModelPricing → Option (List ModelPricing))
      → List ModelPricing
      → Option (List ModelPricing)
  add_normalized none pricing go_on rows = none
  add_normalized (some key) pricing go_on rows = go_on (add_price key pricing rows)

  -- the loop, none where the normalisation of a key raises
  abbrev pub add_prices :
      List (String × PricingConfig) → List ModelPricing → Option (List ModelPricing)
  add_prices [] rows = some rows
  add_prices ((raw_key, pricing) ∷ entries) rows =
      add_normalized (normalize_pricing_key config raw_key) pricing (add_prices entries) rows

abbrev pub committed : Bool → Option (List ModelPricing) → Initialized
committed commits none = key_raised
committed true (some rows) = initialized rows
committed false (some rows) = commit_raised

unfoldable pub initialize_pricing_from_config :
    {X : Type 0}
    → Config X
    → ℕ
    → Bool
    → List (String × PricingConfig)
    → List ModelPricing
    → Initialized
initialize_pricing_from_config config now commits [] rows = initialized rows
initialize_pricing_from_config config now commits (entry ∷ entries) rows =
    committed commits (add_prices config now (entry ∷ entries) rows)

-- `warn_if_require_pricing_without_pricing`: which of its two warnings is logged, if any
pub data Warning : Type 0 where
  silent : Warning
  all_rejected : Warning
  defaults_only : Warning

abbrev pub warning_of : Bool → List ModelPricing → Warning
warning_of default_pricing [] = if default_pricing then defaults_only else all_rejected
warning_of default_pricing (_ ∷ _) = silent

unfoldable pub warn_if_require_pricing_without_pricing : Bool → Bool → List ModelPricing → Warning
warn_if_require_pricing_without_pricing require_pricing default_pricing rows =
    if require_pricing then warning_of default_pricing rows else silent
