-- ===== src/PriceInit/Tests.antt =====
-- Starts with one configured instance.
use mozilla_ai.Common.{
  ℕ, String, ◌≡◌, refl, true, false, Option, none, some, List, [], ◌∷◌, arith, string_eq,
}
use mozilla_ai.Pricing.{ModelPricing}
use mozilla_ai.Selector.{Config, value_error, normalize_pricing_key, split_selector}
use mozilla_ai.PriceInit.{
  PricingConfig, initialized, initialize_pricing_from_config,
  warn_if_require_pricing_without_pricing, all_rejected,
}
use mozilla_ai.PriceInit.Restart.{Restarts, initialize_pricing-Restarts}

abbrev config : Config ℕ
config = record {
  providers = ("work", []) ∷ [];
  is_provider = λ name. true;
  split_model_provider = λ s. value_error;
  setup_vertex_environment = λ credentials project location. [];
}

abbrev priced_at : Option ℕ → PricingConfig
priced_at t = record { input_price_per_million = 3; output_price_per_million = 5; effective_at = t }

abbrev entries : List (String × PricingConfig)
entries = ("work/gpt", priced_at (some 10)) ∷ ("absent:gpt", priced_at (some 10)) ∷ []

abbrev row_at : ℕ → ModelPricing
row_at t = record {
  model_key = "work:gpt";
  effective_at = t;
  input_price_per_million = 3;
  output_price_per_million = 5;
}

-- a price that was set later, by the pricing endpoint
abbrev set_later : ModelPricing
set_later = record (row_at 150) { input_price_per_million = 8 }

skips_absent :
    initialize_pricing_from_config config 100 true entries [] ≡ initialized (row_at 10 ∷ [])
unfolding initialize_pricing_from_config normalize_pricing_key split_selector
skips_absent = refl

-- Without a date every start adds a row of its own date, which is newer than what was set meanwhile.
adds_again :
    initialize_pricing_from_config config 200 true
      (("work:gpt", priced_at none) ∷ [])
      (row_at 100 ∷ set_later ∷ [])
    ≡ initialized (row_at 100 ∷ set_later ∷ row_at 200 ∷ [])
unfolding initialize_pricing_from_config normalize_pricing_key split_selector
adds_again = refl

warns : warn_if_require_pricing_without_pricing true false [] ≡ all_rejected
unfolding warn_if_require_pricing_without_pricing
warns = refl

initialize_pricing-Restarts_example :
    Restarts config entries
      (set_later ∷ [])
      (initialize_pricing_from_config config 100 true entries (set_later ∷ []))
initialize_pricing-Restarts_example =
    initialize_pricing-Restarts config 100 true entries (set_later ∷ [])
      ((λ e. ground (arith, e)), ((λ e. ground (arith, e)), tt))
