-- ===== src/PriceInit/Restart.antt =====
-- A start after a start.
use mozilla_ai.Common.{
  ℕ, String, ◌≡◌, refl, sym, ap, ◌∙◌, subst, ◌≢◌, ◌⊎◌, inl, inr, Bool, true, false, ◌&&◌, Option,
  none, some, List, [], ◌∷◌, ◌++◌, arith, ◌==◌, Bool-cases, Option-cases, str_eq, str_eq_iff,
  string_eq, or_right, if_holds,
}
use mozilla_ai.PriceInit.{
  PricingConfig, Initialized, initialized, key_raised, commit_raised, or_now, has_row, new_row,
  is_listed, instance_of, add_price, add_normalized, add_prices, committed,
  initialize_pricing_from_config,
}
use mathlib.Core.List.{append_assoc, append-nil}
use mozilla_ai.Common.Dict.{lookup}
use mozilla_ai.Selector.{Config, normalize_pricing_key}
use mozilla_ai.Pricing.{ModelPricing}

-- every entry has its own date
abbrev pub IsDated : List (String × PricingConfig) → Type 0
IsDated [] = Unit
IsDated ((key, pricing) ∷ entries) = (pricing.effective_at ≢ none) × IsDated entries

-- A row that is found is still found among more rows.
has_row-append :
    (key : String) (at : ℕ) (rows more : List ModelPricing)
    → has_row key at rows ≡ true
    → has_row key at (rows ++ more) ≡ true
has_row-append key at [] more h = cc
has_row-append key at (row ∷ rows) more h =
    elim (Bool-cases (str_eq row.model_key key && row.effective_at == at)) [
      | inl e ↦ rw e refl
      | inr e ↦ rw e (has_row-append key at rows more (or_right _ _ h e))
    ]

has_row-new :
    (key : String) (at : ℕ) (pricing : PricingConfig) (rows : List ModelPricing)
    → has_row key at (rows ++ new_row key at pricing ∷ []) ≡ true
has_row-new key at pricing [] = ground (arith, str_eq_iff key key)
has_row-new key at pricing (row ∷ rows) =
    let rest = has_row-new key at pricing rows in ground (arith, rest)

module _ {X : Type 0} (config : Config X) (now : ℕ) where
  -- `add_price` finds nothing to add
  abbrev IsThere : String → PricingConfig → List ModelPricing → Type 0
  IsThere key pricing rows =
      (is_listed (lookup (instance_of key) config.providers) ≡ false)
      ⊎ (has_row key (or_now now pricing.effective_at) rows ≡ true)

  add_price-IsThere :
      (key : String) (pricing : PricingConfig) (rows : List ModelPricing)
      → (more : List ModelPricing) × (add_price config now key pricing rows ≡ rows ++ more)
        × IsThere key pricing (add_price config now key pricing rows)
  add_price-IsThere key pricing rows =
      elim (Bool-cases (is_listed (lookup (instance_of key) config.providers))) [
        | inr unlisted ↦ rw unlisted ([], sym (append-nil rows), inl refl)
        | inl listed ↦
            rw listed (elim (Bool-cases (has_row key (or_now now pricing.effective_at) rows)) [
              | inl found ↦ rw found ([], sym (append-nil rows), inr found)
              | inr missing ↦ rw missing (
                new_row key (or_now now pricing.effective_at) pricing ∷ [],
                refl,
                inr (has_row-new key (or_now now pricing.effective_at) pricing rows),
              )
            ])
      ]

  IsThere-append :
      (key : String) (pricing : PricingConfig) (rows more : List ModelPricing)
      → IsThere key pricing rows
      → IsThere key pricing (rows ++ more)
  IsThere-append key pricing rows more (inl unlisted) = inl unlisted
  IsThere-append key pricing rows more (inr found) = inr (has_row-append key _ rows more found)

  add_price-nothing :
      (key : String) (pricing : PricingConfig) (rows : List ModelPricing)
      → IsThere key pricing rows
      → add_price config now key pricing rows ≡ rows
  add_price-nothing key pricing rows (inl unlisted) = rw unlisted refl
  add_price-nothing key pricing rows (inr found) = rw found (
      if_holds (λ r. r ≡ rows) (is_listed (lookup (instance_of key) config.providers)) rows rows
        refl refl)

  -- the key of every entry is normalised, and there is nothing to add for it
  abbrev AllThere : List (String × PricingConfig) → List ModelPricing → Type 0
  AllThere [] rows = Unit
  AllThere ((raw_key, pricing) ∷ entries) rows =
      ((key : String) × (normalize_pricing_key config raw_key ≡ some key)
        × IsThere key pricing rows)
      × AllThere entries rows

  add_prices-nothing :
      (entries : List (String × PricingConfig)) (rows : List ModelPricing)
      → AllThere entries rows
      → add_prices config now entries rows ≡ some rows
  add_prices-nothing [] rows h = refl
  add_prices-nothing ((raw_key, pricing) ∷ entries) rows ((key, e, there), h) =
      rw (e, add_price-nothing key pricing rows there) (add_prices-nothing entries rows h)

  -- The rows are kept, others come after them, and there is nothing left to add.
  abbrev Grows :
      List (String × PricingConfig) → List ModelPricing → Option (List ModelPricing) → Type 0
  Grows entries rows none = Unit
  Grows entries rows (some rows') =
      ((more : List ModelPricing) × (rows' ≡ rows ++ more)) × AllThere entries rows'

  Grows-cons :
      (raw_key key : String) (pricing : PricingConfig) (entries : List (String × PricingConfig))
      (rows : List ModelPricing) (r : Option (List ModelPricing))
      → normalize_pricing_key config raw_key ≡ some key
      → Grows entries (add_price config now key pricing rows) r
      → Grows ((raw_key, pricing) ∷ entries) rows r
  Grows-cons raw_key key pricing entries rows none e h = tt
  Grows-cons raw_key key pricing entries rows (some rows') e ((more, grown), all) =
      let (added, first, there) = add_price-IsThere key pricing rows in
      (
        (added ++ more, grown ∙ (ap (λ rs. rs ++ more) first ∙ append_assoc rows added more)),
        (
          (
            key,
            e,
            subst (IsThere key pricing) (sym grown)
                (IsThere-append key pricing (add_price config now key pricing rows) more there),
          ),
          all,
        ),
      )

  add_prices-Grows :
      (entries : List (String × PricingConfig)) (rows : List ModelPricing)
      → Grows entries rows (add_prices config now entries rows)
  add_prices-Grows [] rows = (([], sym (append-nil rows)), tt)
  add_prices-Grows ((raw_key, pricing) ∷ entries) rows =
      elim (Option-cases (normalize_pricing_key config raw_key)) [
        | inl e ↦ rw e tt
        | inr (key, e) ↦
            subst
              (λ k.
                Grows ((raw_key, pricing) ∷ entries) rows
                  (add_normalized config now k pricing (add_prices config now entries) rows))
              (sym e)
              (Grows-cons raw_key key pricing entries rows _ e
                (add_prices-Grows entries (add_price config now key pricing rows)))
      ]

module _ {X : Type 0} (config : Config X) where
  or_now-dated : (now now' : ℕ) (t : Option ℕ) → t ≢ none → or_now now t ≡ or_now now' t
  or_now-dated now now' none h = absurd (h refl)
  or_now-dated now now' (some t) h = refl

  AllThere-later :
      (now now' : ℕ) (entries : List (String × PricingConfig)) (rows : List ModelPricing)
      → IsDated entries
      → AllThere config now entries rows
      → AllThere config now' entries rows
  AllThere-later now now' [] rows dated h = tt
  AllThere-later now now' ((raw_key, pricing) ∷ entries) rows (date, dated) ((key, e, there), h) =
      ((key, e, later there), AllThere-later now now' entries rows dated h)
    where
      later : IsThere config now key pricing rows → IsThere config now' key pricing rows
      later (inl unlisted) = inl unlisted
      later (inr found) = inr (
          subst (λ t. has_row key t rows ≡ true) (or_now-dated now now' pricing.effective_at date)
            found)

  -- the rows that a start leaves, which go on from those before it, and a later start leaves as they are
  abbrev pub Restarts : List (String × PricingConfig) → List ModelPricing → Initialized → Type 0
  Restarts entries rows key_raised = Unit
  Restarts entries rows commit_raised = Unit
  Restarts entries rows (initialized rows') =
      ((more : List ModelPricing) × (rows' ≡ rows ++ more))
      × ((now' : ℕ)
          → initialize_pricing_from_config config now' true entries rows' ≡ initialized rows')

  committed-Restarts :
      (now : ℕ) (commits : Bool) (entry : String × PricingConfig)
      (entries : List (String × PricingConfig)) (rows : List ModelPricing)
      (r : Option (List ModelPricing))
      → IsDated (entry ∷ entries)
      → Grows config now (entry ∷ entries) rows r
      → Restarts (entry ∷ entries) rows (committed commits r)
  unfolding initialize_pricing_from_config
  committed-Restarts now commits entry entries rows none dated h = tt
  committed-Restarts now false entry entries rows (some rows') dated h = tt
  committed-Restarts now true entry entries rows (some rows') dated (grown, all) = (
    grown,
    λ now'. ap (committed true) (
        add_prices-nothing config now' (entry ∷ entries) rows'
          (AllThere-later now now' (entry ∷ entries) rows' dated all)),
  )

  -- Where every price of the configuration has a date, a start keeps the rows that are there, in their
  -- order and with their prices, and only adds rows after them; and a start after it, whenever that
  -- is, whose commit goes through, changes nothing.
  pub initialize_pricing-Restarts :
      (now : ℕ) (commits : Bool) (entries : List (String × PricingConfig))
      (rows : List ModelPricing)
      → IsDated entries
      → Restarts entries rows (initialize_pricing_from_config config now commits entries rows)
  unfolding initialize_pricing_from_config
  initialize_pricing-Restarts now commits [] rows dated =
      (([], sym (append-nil rows)), λ now'. refl)
  initialize_pricing-Restarts now commits (entry ∷ entries) rows dated =
      committed-Restarts now commits entry entries rows _ dated
        (add_prices-Grows config now (entry ∷ entries) rows)
