-- ===== src/Selector.antt =====
-- Model selectors, otari/src/gateway/services/provider_kwargs.py. The table of provider instances is
-- that of the configuration; a credential is a type of the caller's. What the package any-llm knows
-- and `setup_vertex_environment` are arguments.
pub mod Split
pub mod Keys
mod Tests
use mozilla_ai.Common.{
  ℕ, String, Bool, true, false, not, ◌&&◌, ◌||◌, Option, none, some, List, [], ◌∷◌, if◌then◌else◌,
  ltb, ◌==◌, str_eq, string_eq, filterb, ◌+◌,
}
use mozilla_ai.Common.Dict.{Dict, lookup, insert}
use Prim.Native.String.{◌++◌ as append}
use Prim.Native.Char.{code}

abbrev pub colon : ℕ
colon = 58

abbrev pub slash : ℕ
slash = 47

abbrev pub add_one : Option ℕ → Option ℕ
add_one none = none
add_one (some n) = some (n + 1)

-- `s.find(c)`, none for -1
abbrev pub find : ℕ → String → Option ℕ
find k String.[] = none
find k (String.◌∷◌ c s) = let rest = find k s in if code c == k then some 0 else add_one rest

abbrev pub cons_first :
    {A : Type 0} (f : String → String) → Option (String × A) → Option (String × A)
cons_first f none = none
cons_first f (some (prefix, rest)) = some (f prefix, rest)

-- `s.split(c, 1)`, none where `c` does not occur
abbrev pub split_once : ℕ → String → Option (String × String)
split_once k String.[] = none
split_once k (String.◌∷◌ c s) =
    let rest = split_once k s in
    if code c == k then some ("", s) else cons_first (String.◌∷◌ c) rest

-- `colon != -1 and (slash == -1 or colon < slash)`
abbrev pub before : Option ℕ → Option ℕ → Bool
before none other = false
before (some i) none = true
before (some i) (some j) = ltb i j

-- the delimiter that comes first, where there is one
abbrev pub delimiter : String → Option ℕ
delimiter s =
    if before (find colon s) (find slash s)
    then some colon
    else elim (find slash s) [ none ↦ none | some _ ↦ some slash ]

abbrev pub both_given : Option (String × String) → Option (String × String)
both_given none = none
both_given (some (prefix, rest)) =
    if str_eq prefix "" || str_eq rest "" then none else some (prefix, rest)

abbrev pub split_by : String → Option ℕ → Option (String × String)
split_by s none = none
split_by s (some k) = both_given (split_once k s)

unfoldable pub split_selector : String → Option (String × String)
split_selector s = split_by s (delimiter s)

-- a value of a provider's configuration
pub data Value (X : Type 0) : Type 0 where
  text : String → Value X
  other : X → Value X

abbrev pub Entries : Type 0 → Type 0
Entries X = Dict String (Value X)

-- how `AnyLLM.split_model_provider` ends: the provider and the model, a ValueError, or an AnyLLMError
pub data Known : Type 0 where
  known : String → String → Known
  value_error : Known
  any_llm_error : Known

-- `config.providers`, and what any-llm and the environment of Vertex AI answer: whether a name is
-- one of `LLMProvider`, and `AnyLLM.split_model_provider`
pub record Config (X : Type 0) : Type 0 where
  pub providers : Dict String (Entries X)
  pub is_provider : String → Bool
  pub split_model_provider : String → Known
  pub setup_vertex_environment : Option (Value X) → Option (Value X) → Option (Value X) → Entries X

pub record ResolvedProvider (X : Type 0) : Type 0 where
  pub instance_name : String
  pub provider : String
  pub model : String
  pub kwargs : Entries X

-- `provider_type_aliases.get(declared, declared)`
abbrev pub alias : String → String
alias declared =
    if str_eq declared "openai-compatible" || str_eq declared "openai_compatible"
    then "openai"
    else declared

abbrev pub is_meta : String → Bool
is_meta key = str_eq key "provider_type" || str_eq key "models"

-- the key of a price: a ValueError leaves the raw key, an AnyLLMError goes through
abbrev pub known_key : String → Known → Option String
known_key raw_key (known provider model) = some (append (append provider ":") model)
known_key raw_key value_error = some raw_key
known_key raw_key any_llm_error = none

module _ {X : Type 0} where
  -- the declared type where it is a text that is not empty, or the name itself
  abbrev pub declared_or : String → Option (Value X) → String
  declared_or name none = name
  declared_or name (some (other x)) = name
  declared_or name (some (text declared)) = if str_eq declared "" then name else alias declared

  -- `client_args` last, where it is given
  abbrev pub with_client_args : Entries X → Entries X → Entries X
  with_client_args entries kwargs = elim (lookup "client_args" entries) [
    | none ↦ kwargs
    | some args ↦ insert "client_args" args kwargs
  ]

  abbrev pub without_key : (String → Bool) → Entries X → Entries X
  without_key test = filterb (λ e. not (test e.0))

  -- the kwargs of one instance
  abbrev pub kwargs_of : Config X → String → Entries X → Entries X
  kwargs_of config provider entries =
      if str_eq provider "vertexai"
      then with_client_args entries (
          config.setup_vertex_environment (lookup "credentials" entries) (lookup "project" entries)
            (lookup "location" entries))
      else with_client_args entries (without_key (λ key. str_eq key "client_args") entries)

  unfoldable pub get_provider_kwargs : Config X → String → Option String → Entries X
  get_provider_kwargs config provider instance_name =
      elim (lookup (elim instance_name [ none ↦ provider | some name ↦ name ]) config.providers) [
        | none ↦ []
        | some raw ↦ kwargs_of config provider (without_key is_meta raw)
      ]

  -- `config.provider_instance_type`
  unfoldable pub provider_instance_type : Config X → String → String
  provider_instance_type config name = elim (lookup name config.providers) [
    | none ↦ name
    | some entries ↦ declared_or name (lookup "provider_type" entries)
  ]

  abbrev pub is_configured : Config X → Option (String × String) → Bool
  is_configured config none = false
  is_configured config (some (prefix, rest)) = elim (lookup prefix config.providers) [
    | none ↦ false
    | some _ ↦ true
  ]

  -- `LLMProvider(value)` raises a ValueError for an unknown name
  abbrev pub resolved_as : Config X → String → String → String → Option (ResolvedProvider X)
  resolved_as config name provider model =
      if config.is_provider provider
      then some (record {
        instance_name = name;
        provider = provider;
        model = model;
        kwargs = get_provider_kwargs config provider (some name);
      })
      else none

  abbrev pub resolve_known : Config X → Known → Option (ResolvedProvider X)
  resolve_known config (known provider model) = some (record {
    instance_name = provider;
    provider = provider;
    model = model;
    kwargs = get_provider_kwargs config provider (some provider);
  })
  resolve_known config value_error = none
  resolve_known config any_llm_error = none

  abbrev pub resolve_split :
      Config X → String → Option (String × String) → Option (ResolvedProvider X)
  resolve_split config selector none = resolve_known config (config.split_model_provider selector)
  resolve_split config selector (some (prefix, rest)) =
      if is_configured config (some (prefix, rest))
      then resolved_as config prefix (provider_instance_type config prefix) rest
      else resolve_known config (config.split_model_provider selector)

  -- `resolve_provider_selector`, none where it raises
  unfoldable pub resolve_provider_selector : Config X → String → Option (ResolvedProvider X)
  resolve_provider_selector config selector =
      resolve_split config selector (split_selector selector)

  abbrev pub split_key : Config X → String → Option (String × String) → Option String
  split_key config raw_key none = known_key raw_key (config.split_model_provider raw_key)
  split_key config raw_key (some (prefix, rest)) =
      if is_configured config (some (prefix, rest))
      then some (append (append prefix ":") rest)
      else known_key raw_key (config.split_model_provider raw_key)

  unfoldable pub normalize_pricing_key : Config X → String → Option String
  normalize_pricing_key config raw_key = split_key config raw_key (split_selector raw_key)
