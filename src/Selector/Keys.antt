-- ===== src/Selector/Keys.antt =====
-- The key under which a price is stored against the one under which a request looks for it.
use mozilla_ai.Common.{
  ℕ, String, ◌≡◌, refl, sym, ap, subst, ◌≢◌, inl, inr, Option, none, some, arith, Bool-cases,
  str_eq_iff, string_eq,
}
use mozilla_ai.Selector.{
  Config, Known, known, value_error, any_llm_error, ResolvedProvider, split_selector,
  resolve_provider_selector, resolve_split, resolve_known, resolved_as, is_configured,
  normalize_pricing_key, split_key, known_key, both_given, delimiter, split_once,
  provider_instance_type, append, split_by,
}
use mozilla_ai.Pricing.{key_of}

module _ {X : Type 0} (config : Config X) where
  -- The names of the providers that any-llm answers with are not empty.
  abbrev pub NamesProviders : Type 0
  NamesProviders =
      (selector provider model : String)
      → config.split_model_provider selector ≡ known provider model
      → provider ≢ ""

  both_given-prefix :
      (s : Option (String × String)) (p r : String) → both_given s ≡ some (p, r) → p ≢ ""
  both_given-prefix none p r h = cc
  both_given-prefix (some (p', r')) p r h = ground (arith, str_eq_iff p' "")

  split_by-prefix : (s : String) (k : Option ℕ) (p r : String) → split_by s k ≡ some (p, r) → p ≢ ""
  split_by-prefix s none p r h = cc
  split_by-prefix s (some k) p r h = both_given-prefix (split_once k s) p r h

  key_of-named : (p r : String) → p ≢ "" → key_of ":" (some p) r ≡ append (append p ":") r
  unfolding key_of
  key_of-named p r h = ground (arith, str_eq_iff p "")

  -- the key that is normalised, where the selector resolves
  abbrev SameKey : Option (ResolvedProvider X) → Option String → Type 0
  SameKey none key = Unit
  SameKey (some r) key = key ≡ some (key_of ":" (some r.instance_name) r.model)

  SameKey-known :
      (selector : String) (k : Known)
      → config.split_model_provider selector ≡ k
      → NamesProviders
      → SameKey (resolve_known config k) (known_key selector k)
  SameKey-known selector (known p m) e named =
      ap some (sym (key_of-named p m (named selector p m e)))
  SameKey-known selector value_error e named = tt
  SameKey-known selector any_llm_error e named = tt

  SameKey-resolved_as :
      (p provider r : String)
      → p ≢ ""
      → SameKey (resolved_as config p provider r) (some (append (append p ":") r))
  SameKey-resolved_as p provider r h = elim (Bool-cases (config.is_provider provider)) [
    | inl e ↦ rw e (ap some (sym (key_of-named p r h)))
    | inr e ↦ rw e tt
  ]

  SameKey-split :
      (selector : String) (s : Option (String × String))
      → split_selector selector ≡ s
      → NamesProviders
      → SameKey (resolve_split config selector s) (split_key config selector s)
  unfolding split_selector
  SameKey-split selector none e named =
      SameKey-known selector (config.split_model_provider selector) refl named
  SameKey-split selector (some (p, r)) e named =
      elim (Bool-cases (is_configured config (some (p, r)))) [
        | inl c ↦ rw c (
            SameKey-resolved_as p (provider_instance_type config p) r
              (split_by-prefix selector (delimiter selector) p r e))
        | inr c ↦ rw c (SameKey-known selector (config.split_model_provider selector) refl named)
      ]

  -- Where any-llm names no provider by the empty text, a price whose key is normalised from a
  -- selector has the key under which a request with that selector looks for it.
  pub normalize_pricing_key-resolve :
      (selector : String) (r : ResolvedProvider X)
      → NamesProviders
      → resolve_provider_selector config selector ≡ some r
      → normalize_pricing_key config selector ≡ some (key_of ":" (some r.instance_name) r.model)
  unfolding resolve_provider_selector normalize_pricing_key
  normalize_pricing_key-resolve selector r named e =
      subst (λ o. SameKey o (normalize_pricing_key config selector)) e
        (SameKey-split selector (split_selector selector) refl named)
