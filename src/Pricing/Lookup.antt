-- ===== src/Pricing/Lookup.antt =====
-- The row that `find_model_pricing` answers with.
use mozilla_ai.Common.{
  ℕ, ◌≤◌, ◌≡◌, String, true, false, Option, none, some, List, [], ◌∷◌, arith, inl, inr, str_eq_iff,
  IsIn, Bool-cases, ◌⊎◌,
}
use mozilla_ai.Pricing.{
  ModelPricing, PriceSource, matches, newer, find_by_model_key, find_model_pricing, key_of,
}

-- The row found is in the table, under the key, and in effect.
pub find_by_model_key_sound :
    (rows : List ModelPricing) (key : String) (at : ℕ) (row : ModelPricing)
    → find_by_model_key rows key at ≡ some row
    → IsIn row rows × (row.model_key ≡ key) × (row.effective_at ≤ at)
unfolding find_by_model_key
find_by_model_key_sound [] key at row e = cc
find_by_model_key_sound (first ∷ rows) key at row e =
    ground (arith, find_by_model_key_sound rows key at row, str_eq_iff first.model_key key)

-- Of the rows in effect under a key the one found is the newest.
pub find_by_model_key_newest :
    (rows : List ModelPricing) (key : String) (at : ℕ) (other : ModelPricing)
    → IsIn other rows
    → other.model_key ≡ key
    → other.effective_at ≤ at
    → (row : ModelPricing) × (find_by_model_key rows key at ≡ some row)
      × (other.effective_at ≤ row.effective_at)
unfolding find_by_model_key
find_by_model_key_newest [] key at other m k h = elim m [ ]
find_by_model_key_newest (first ∷ rows) key at other (inl e) k h =
    let best = find_by_model_key rows key at in
    let fits : matches key at first ≡ true =
      rw (← e) (ground (arith, str_eq_iff other.model_key key)) in
    (newer first best, rw fits, rw (← e) (ground arith))
find_by_model_key_newest (first ∷ rows) key at other (inr m) k h =
    let (row, found, le) = find_by_model_key_newest rows key at other m k h in
    elim (Bool-cases (matches key at first)) [
      | inl fits ↦ (newer first (some row), rw (fits, found), ground arith)
      | inr misses ↦ (row, rw (misses, found), le)
    ]

-- An explicit price in effect under the canonical key decides, whatever the legacy key, the switch
-- and the package say: the answer is a row of that key that is at least as new.
pub explicit_price_wins :
    (source : PriceSource) (provider : Option String) (model : String) (at : ℕ)
    (other : ModelPricing)
    → IsIn other source.rows
    → other.model_key ≡ key_of ":" provider model
    → other.effective_at ≤ at
    → (row : ModelPricing) × (find_model_pricing source provider model at ≡ some row)
      × IsIn row source.rows
      × (row.model_key ≡ key_of ":" provider model)
      × (other.effective_at ≤ row.effective_at)
      × (row.effective_at ≤ at)
unfolding find_model_pricing
explicit_price_wins source provider model at other m k h =
    let key = key_of ":" provider model in
    let (row, found, le) = find_by_model_key_newest source.rows key at other m k h in
    let (member, keyed, early) = find_by_model_key_sound source.rows key at row found in
    (row, rw found, member, keyed, le, early)

-- With the default prices switched off every price comes from a row of the table in effect, under
-- the canonical key or the legacy one.
pub only_explicit_prices :
    (source : PriceSource) (provider : Option String) (model : String) (at : ℕ) (row : ModelPricing)
    → source.default_pricing_enabled ≡ false
    → find_model_pricing source provider model at ≡ some row
    → IsIn row source.rows
      × ((row.model_key ≡ key_of ":" provider model) ⊎ (row.model_key ≡ key_of "/" provider model))
      × (row.effective_at ≤ at)
unfolding find_model_pricing
only_explicit_prices source none model at row off e =
    ground (arith, find_by_model_key_sound source.rows model at row)
only_explicit_prices source (some provider) model at row off e = ground (
  arith,
  find_by_model_key_sound source.rows (key_of ":" (some provider) model) at row,
  find_by_model_key_sound source.rows (key_of "/" (some provider) model) at row,
)
