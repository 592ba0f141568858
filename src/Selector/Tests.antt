-- ===== src/Selector/Tests.antt =====
-- Selectors under a configuration with one instance, of a type that any-llm knows.
use mozilla_ai.Common.{
  ℕ, String, ◌≡◌, refl, ◌≢◌, Bool, true, false, ◌||◌, none, some, [], ◌∷◌, arith, str_eq,
  str_eq_iff, string_eq,
}
use mozilla_ai.Selector.{
  Config, text, other, Known, known, value_error, split_selector, resolve_provider_selector,
  normalize_pricing_key, get_provider_kwargs, provider_instance_type,
}
use mozilla_ai.Selector.Keys.{normalize_pricing_key-resolve, NamesProviders}
use mozilla_ai.Pricing.{key_of}

-- any-llm knows `mistral` alone, and one model of it
abbrev split_known : Bool → Known
split_known true = known "mistral" "small"
split_known false = value_error

abbrev config : Config ℕ
config = record {
  providers =
      (
        "work",
        ("provider_type", text "openai-compatible")
            ∷ ("api_base", text "http://localhost")
            ∷ ("client_args", other 5)
            ∷ ("models", other 3)
            ∷ [],
      )
      ∷ [];
  is_provider = λ name. str_eq name "mistral" || str_eq name "openai";
  split_model_provider = λ s. split_known (str_eq s "mistral:small");
  setup_vertex_environment = λ credentials project location. [];
}

slash_first : split_selector "mistral/a:b" ≡ some ("mistral", "a:b")
unfolding split_selector
slash_first = refl

no_model : split_selector "mistral:" ≡ none
unfolding split_selector
no_model = refl

of_work :
    get_provider_kwargs config "openai" (some "work")
    ≡ ("api_base", text "http://localhost") ∷ ("client_args", other 5) ∷ []
unfolding get_provider_kwargs
of_work = refl

type_of_work : provider_instance_type config "work" ≡ "openai"
unfolding provider_instance_type
type_of_work = refl

split_known-named :
    (b : Bool) (provider model : String) → split_known b ≡ known provider model → provider ≢ ""
split_known-named true provider model e = ground (arith, str_eq_iff "mistral" "")
split_known-named false provider model e = cc

config-NamesProviders : NamesProviders config
config-NamesProviders selector = split_known-named (str_eq selector "mistral:small")

normalize_pricing_key-resolve_example :
    normalize_pricing_key config "work/gpt:4" ≡ some "work:gpt:4"
unfolding resolve_provider_selector split_selector get_provider_kwargs provider_instance_type key_of
normalize_pricing_key-resolve_example =
    normalize_pricing_key-resolve config "work/gpt:4" _ config-NamesProviders refl
