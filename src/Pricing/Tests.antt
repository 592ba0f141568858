-- ===== src/Pricing/Tests.antt =====
-- Runs of the pricing lookup, and its theorems at a concrete table.
use mozilla_ai.Common.{◌≤◌, ◌≡◌, refl, true, false, none, some, [], ◌∷◌, arith, inl, IsIn}
use mozilla_ai.Pricing.{
  ModelPricing, Calculator, find_model_pricing, PriceSource, key_of, priced, tiered, lookup_error,
}
use mozilla_ai.Pricing.Lookup.{explicit_price_wins}

abbrev old : ModelPricing
old = record {
  model_key = "openai:gpt";
  effective_at = 10;
  input_price_per_million = 3;
  output_price_per_million = 5;
}

abbrev new : ModelPricing
new = record old { effective_at = 20; input_price_per_million = 2 }

abbrev legacy_row : ModelPricing
legacy_row = record old { model_key = "mistral/small" }

-- prices only what is asked of no provider
abbrev calc : Calculator
calc none model at = priced (record { input_mtok = some (tiered 7 []); output_mtok = none })
calc (some p) model at = lookup_error

abbrev source : PriceSource
source = record {
  rows = old ∷ new ∷ legacy_row ∷ [];
  default_pricing_enabled = true;
  calc_price = calc;
}

newest_in_effect : find_model_pricing source (some "openai") "gpt" 15 ≡ some old
unfolding find_model_pricing
newest_in_effect = refl

legacy_key : find_model_pricing source (some "mistral") "small" 15 ≡ some legacy_row
unfolding find_model_pricing
legacy_key = refl

by_default :
    find_model_pricing source (some "huggingface") "m:fast" 15
    ≡ some (record {
      model_key = "huggingface:m:fast";
      effective_at = 15;
      input_price_per_million = 7;
      output_price_per_million = 0;
    })
unfolding find_model_pricing
by_default = refl

explicit_price_wins_example :
    (row : ModelPricing) × (find_model_pricing source (some "openai") "gpt" 30 ≡ some row)
    × IsIn row source.rows
    × (row.model_key ≡ "openai:gpt")
    × (10 ≤ row.effective_at)
    × (row.effective_at ≤ 30)
unfolding key_of
explicit_price_wins_example =
    explicit_price_wins source (some "openai") "gpt" 30 old (inl refl) refl (omega arith)

abbrev explicit : PriceSource
explicit = record source { default_pricing_enabled = false }
