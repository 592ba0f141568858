-- ===== src/Pricing.antt =====
-- Pricing lookup, otari/src/gateway/services/pricing_service.py.
-- Prices are exact numbers in one unit of money per million tokens, which the pricing endpoint
-- requires to be at least 0; instants are UTC times as
-- numbers, so `normalize_effective_at` is only its default to the present.
pub mod Lookup
mod Tests
use Prim.Native.String.{◌++◌}
use Prim.Native.Char.{code}
use mozilla_ai.Common.{
  ℕ, ◌≡◌, String, Bool, true, false, Option, none, some, List, [], ◌∷◌, leb, ltb, ◌==◌, ◌&&◌,
  str_eq, if◌then◌else◌,
}
use mozilla_ai.Common.Int.{ℤ, pos}

-- a row of `model_pricing`, whose primary key is the pair of `model_key` and `effective_at`
pub record ModelPricing : Type 0 where
  pub model_key : String
  pub effective_at : ℕ
  pub input_price_per_million : ℕ
  pub output_price_per_million : ℕ

-- `Decimal | TieredPrices`: a tiered price by its base rate and the rates of its tiers
pub data Rate : Type 0 where
  flat : ℕ → Rate
  tiered : ℕ → List (ℕ × ℕ) → Rate

pub record Price : Type 0 where
  pub input_mtok : Option Rate
  pub output_mtok : Option Rate

-- how `genai_prices.calc_price` ends: a price, a LookupError, or any other exception
pub data Calc : Type 0 where
  priced : Price → Calc
  lookup_error : Calc
  failure : Calc

-- `calc_price` of the package genai-prices: a provider id, a model reference and an instant
abbrev pub Calculator : Type 0
Calculator = Option String → String → ℕ → Calc

pub flat_rate : Rate → ℕ
flat_rate (flat v) = v
flat_rate (tiered base _) = base

-- `model.rsplit(":", 1)`, where there is a colon
pub rsplit_colon : String → Option (String × String)
rsplit_colon String.[] = none
rsplit_colon (String.◌∷◌ c s) = elim (rsplit_colon s) [
  | some (base, backend) ↦ some (String.◌∷◌ c base, backend)
  | none ↦ if code c == 58 then some ("", s) else none
]

-- the lookups that `default_model_pricing` tries, most specific first
pub attempts : Option String → String → List (Option String × String)
unfolding rsplit_colon
attempts none model = (none, model) ∷ []
attempts (some provider) model =
    let rest = (some provider, model) ∷ (none, model) ∷ [] in
    if str_eq provider "huggingface"
    then elim (rsplit_colon model) [
      | some (base, backend) ↦ (some ("huggingface_" ++ backend), base) ∷ rest
      | none ↦ rest
    ]
    else rest

-- `f"{provider}:{model}" if provider else model`; an empty provider counts as none
unfoldable pub key_of : String → Option String → String → String
key_of separator none model = model
key_of separator (some provider) model =
    if str_eq provider "" then model else (provider ++ separator) ++ model

rate_or_zero : Option Rate → ℕ
unfolding flat_rate
rate_or_zero none = 0
rate_or_zero (some r) = flat_rate r

-- the transient row for a price; without an input rate there is none
pub from_price : String → ℕ → Price → Option ModelPricing
unfolding rate_or_zero
from_price key as_of price = elim price.input_mtok [
  | none ↦ none
  | some input ↦ some (record {
    model_key = key;
    effective_at = as_of;
    input_price_per_million = flat_rate input;
    output_price_per_million = rate_or_zero price.output_mtok;
  })
]

-- the loop over the attempts: only a LookupError goes on to the next
pub try_attempts : Calculator → String → ℕ → List (Option String × String) → Option ModelPricing
unfolding from_price
try_attempts calc key as_of [] = none
try_attempts calc key as_of ((provider_id, model_ref) ∷ rest) =
    elim (calc provider_id model_ref as_of) [
      | priced price ↦ from_price key as_of price
      | lookup_error ↦ try_attempts calc key as_of rest
      | failure ↦ none
    ]

pub default_model_pricing : Calculator → Option String → String → ℕ → Option ModelPricing
unfolding attempts key_of try_attempts
default_model_pricing calc provider model as_of =
    try_attempts calc (key_of ":" provider model) as_of (attempts provider model)

-- `ORDER BY effective_at DESC LIMIT 1` among the rows that match
newer : ModelPricing → Option ModelPricing → ModelPricing
newer row none = row
newer row (some best) = if ltb row.effective_at best.effective_at then best else row

matches : String → ℕ → ModelPricing → Bool
matches key as_of row = str_eq row.model_key key && leb row.effective_at as_of

-- `_find_by_model_key`
pub find_by_model_key : List ModelPricing → String → ℕ → Option ModelPricing
unfolding newer matches
find_by_model_key [] key as_of = none
find_by_model_key (row ∷ rows) key as_of =
    let rest = find_by_model_key rows key as_of in
    if matches key as_of row then some (newer row rest) else rest

abbrev pub or_else : Option ModelPricing → Option ModelPricing → Option ModelPricing
or_else (some row) _ = some row
or_else none other = other

-- the table, the process-wide switch `_default_pricing_enabled`, and the package
pub record PriceSource : Type 0 where
  pub rows : List ModelPricing
  pub default_pricing_enabled : Bool
  pub calc_price : Calculator

-- `configure_default_pricing`
pub configure_default_pricing : Bool → PriceSource → PriceSource
configure_default_pricing enabled source = record source { default_pricing_enabled = enabled }

-- the legacy key `provider/model`, which is tried only with a provider
legacy : PriceSource → Option String → String → ℕ → Option ModelPricing
unfolding find_by_model_key
legacy source none model at = none
legacy source (some provider) model at =
    if str_eq provider ""
    then none
    else find_by_model_key source.rows ((provider ++ "/") ++ model) at

fallback : PriceSource → Option String → String → ℕ → Option ModelPricing
unfolding default_model_pricing
fallback source provider model at =
    if source.default_pricing_enabled
    then default_model_pricing source.calc_price provider model at
    else none

-- `find_model_pricing`, with the time that `normalize_effective_at` gives
unfoldable pub find_model_pricing : PriceSource → Option String → String → ℕ → Option ModelPricing
unfolding find_by_model_key key_of legacy fallback
find_model_pricing source provider model at =
    or_else (find_by_model_key source.rows (key_of ":" provider model) at)
      (or_else (legacy source provider model at) (fallback source provider model at))

unfoldable pub pricing_required_but_missing : Option ModelPricing → Bool → Bool
pricing_required_but_missing none require_pricing = require_pricing
pricing_required_but_missing (some _) require_pricing = false
