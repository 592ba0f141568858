-- ===== src/Common/Dict.antt =====
-- Python's `dict`, in insertion order.
use mozilla_ai.Common.Tests.{if◌then◌else◌}
use mozilla_ai.Common.Lists.{filterb}
use mozilla_ai.Common.Keys.{Eq}
use mathlib.Core.Path.{◌≡◌, refl}
use mathlib.Core.Bool.{Bool}
use mathlib.Core.Option.{Option, none, some}
use mathlib.Core.List.{List, [], ◌∷◌}
use native.Mathlib.Omega.{arith}

abbrev pub Dict {ℓ κ} : Type ℓ → Type κ → Type (ℓ ⊔ κ)
Dict K V = List (K × V)

abbrev pub keep_if {ℓ} : {A : Type ℓ} → (A → Bool) → Option A → Option A
keep_if p none = none
keep_if p (some a) = if p a then some a else none

module _ {ℓ κ} {K : Type ℓ} {V : Type κ} ⦃e : Eq K⦄ where
  -- `d.get(k)`
  abbrev pub lookup : K → Dict K V → Option V
  lookup k [] = none
  lookup k ((j, v) ∷ d) = if e.beq j k then some v else lookup k d

  -- `d[k] = v`
  abbrev pub insert : K → V → Dict K V → Dict K V
  insert k v [] = (k, v) ∷ []
  insert k v ((j, w) ∷ d) = if e.beq j k then (j, v) ∷ d else (j, w) ∷ insert k v d

  -- `for k in [k for k, v in d.items() if not p v]: del d[k]`
  abbrev pub filter_values : (V → Bool) → Dict K V → Dict K V
  filter_values p = filterb (λ e. p e.1)

  -- No key is listed twice.
  abbrev pub IsUnique : Dict K V → Type κ
  IsUnique [] = Unit
  IsUnique ((k, v) ∷ d) = (lookup k d ≡ none) × IsUnique d

  pub lookup-insert :
      (k j : K) (v : V) (d : Dict K V)
      → lookup j (insert k v d) ≡ (if e.beq k j then some v else lookup j d)
  lookup-insert k j v [] = refl
  lookup-insert k j v ((i, w) ∷ d) =
      ground (arith, e.beq_iff k j, e.beq_iff i k, e.beq_iff i j, lookup-insert k j v d)

  pub insert-IsUnique : (k : K) (v : V) (d : Dict K V) → IsUnique d → IsUnique (insert k v d)
  insert-IsUnique k v [] h = (refl, tt)
  insert-IsUnique k v ((i, w) ∷ d) h =
      ground (arith, insert-IsUnique k v d h.1, lookup-insert k i v d, e.beq_iff k i, e.beq_iff i k)

  lookup-filter_values-none :
      (p : V → Bool) (k : K) (d : Dict K V)
      → lookup k d ≡ none
      → lookup k (filter_values p d) ≡ none
  lookup-filter_values-none p k [] h = refl
  lookup-filter_values-none p k ((i, w) ∷ d) h = ground (arith, lookup-filter_values-none p k d)

  pub filter_values-IsUnique :
      (p : V → Bool) (d : Dict K V) → IsUnique d → IsUnique (filter_values p d)
  filter_values-IsUnique p [] h = tt
  filter_values-IsUnique p ((i, w) ∷ d) h =
      ground (arith, filter_values-IsUnique p d h.1, lookup-filter_values-none p i d h.0)

  pub lookup-filter_values :
      (p : V → Bool) (k : K) (d : Dict K V)
      → IsUnique d
      → lookup k (filter_values p d) ≡ keep_if p (lookup k d)
  lookup-filter_values p k [] h = refl
  lookup-filter_values p k ((i, w) ∷ d) h =
      ground
        (arith, lookup-filter_values p k d h.1, lookup-filter_values-none p i d h.0, e.beq_iff i k)
