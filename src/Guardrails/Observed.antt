-- ===== src/Guardrails/Observed.antt =====
-- A guardrail that monitors never stops a request, unless an exception of another class is raised.
use mozilla_ai.Common.{
  ℕ, String, ◌≡◌, ◌≢◌, refl, sym, ap, ◌∙◌, false, Option, some, List, [], ◌∷◌, ◌++◌, All, filterb,
  map, if_holds, str_eq, string_eq, arith, subst, if◌then◌else◌,
}
use mathlib.Core.List.{append-nil}
use mozilla_ai.Pipeline.Tools.{passes}
use Prim.Native.String.{◌++◌ as append}
use mozilla_ai.Guardrails.{
  ValidatePayload, payload_of, GuardrailConfig, GuardrailResult, Validated, validated,
  not_reachable, raised, Service, monitor, run_from, after_one, evaluate, posts, is_blocking,
  unavailable, is_blocked, on_input, apply_input_guardrails, run_input_guardrails, validate_one,
  base_url_of,
}
use mozilla_ai.Guardrails.Verdicts.{IsExpected, then_check-ne-raised, IsOf, validate_one-IsOf}

abbrev pub IsMonitor : GuardrailConfig → Type 0
IsMonitor g = g.mode ≡ monitor

abbrev MonitorResult : GuardrailResult → Type 0
MonitorResult r = r.mode ≡ monitor

All-last :
    (r : GuardrailResult) (results : List GuardrailResult)
    → MonitorResult r
    → All MonitorResult results
    → All MonitorResult (results ++ r ∷ [])
All-last r [] p ps = (p, tt)
All-last r (x ∷ xs) p (q, ps) = (q, All-last r xs p ps)

profiles_last :
    (r : GuardrailResult) (results : List GuardrailResult) (left : List String)
    → map (λ (x : GuardrailResult). x.profile) (results ++ r ∷ []) ++ left
      ≡ map (λ (x : GuardrailResult). x.profile) results ++ r.profile ∷ left
profiles_last r [] left = refl
profiles_last r (x ∷ xs) left = ap (λ ps. x.profile ∷ ps) (profiles_last r xs left)

module _ (post : Service) (default_url : Option String) (input_text : String)
    (expected : (n : ℕ) (url : String) (payload : ValidatePayload)
      → IsExpected (post n url payload)) where
  no_raise :
      (n : ℕ) (url : String) (g : GuardrailConfig) → validate_one post n url g input_text ≢ raised
  unfolding validate_one
  no_raise n url g =
      then_check-ne-raised g (post n (append url "/validate") (payload_of g input_text))
        (expected n (append url "/validate") (payload_of g input_text))

  evaluate-ne-raised :
      (n : ℕ) (g : GuardrailConfig) → evaluate post default_url input_text n g ≢ raised
  evaluate-ne-raised n g =
      if_holds (λ v. v ≢ raised) (str_eq (base_url_of default_url g) "") not_reachable
        (validate_one post n (base_url_of default_url g) g input_text) (λ e. cc)
        (no_raise n (base_url_of default_url g) g)

  evaluate-IsOf :
      (n : ℕ) (g : GuardrailConfig) (r : GuardrailResult)
      → evaluate post default_url input_text n g ≡ validated r
      → IsOf g r
  evaluate-IsOf n g r =
      if_holds (λ v. v ≡ validated r → IsOf g r) (str_eq (base_url_of default_url g) "")
        not_reachable (validate_one post n (base_url_of default_url g) g input_text) (λ h. cc)
        (validate_one-IsOf post n (base_url_of default_url g) g input_text r)

  abbrev profiles : List GuardrailResult → List String
  profiles = map (λ r. r.profile)

  abbrev names : List GuardrailConfig → List String
  names = map (λ g. g.profile)

  -- the results of a loop over guardrails that monitor
  abbrev Observes : List String → Validated (List GuardrailResult) → Type 0
  Observes expected v =
      (rs : List GuardrailResult) × (v ≡ validated rs)
      × All MonitorResult rs
      × (profiles rs ≡ expected)

  abbrev Goes : List String → (List GuardrailResult → Validated (List GuardrailResult)) → Type 0
  Goes left rest =
      (results : List GuardrailResult)
      → All MonitorResult results
      → Observes (profiles results ++ left) (rest results)

  add :
      (cfg : GuardrailConfig) (r : GuardrailResult) (results : List GuardrailResult)
      (left : List String) (rest : List GuardrailResult → Validated (List GuardrailResult))
      → IsMonitor cfg
      → IsOf cfg r
      → All MonitorResult results
      → Goes left rest
      → Observes (profiles results ++ cfg.profile ∷ left) (rest (results ++ r ∷ []))
  add cfg r results left rest monitors (mode, profile) all go =
      let (rs, is, all_last, named) =
        go (results ++ r ∷ []) (All-last r results (mode ∙ monitors) all) in
      (
        rs,
        is,
        all_last,
        named ∙ profiles_last r results left ∙ ap (λ p. profiles results ++ p ∷ left) profile,
      )

  after_one-Observes :
      (cfg : GuardrailConfig) (v : Validated GuardrailResult) (results : List GuardrailResult)
      (left : List String) (rest : List GuardrailResult → Validated (List GuardrailResult))
      → IsMonitor cfg
      → v ≢ raised
      → ((r : GuardrailResult) → v ≡ validated r → IsOf cfg r)
      → All MonitorResult results
      → Goes left rest
      → Observes (profiles results ++ cfg.profile ∷ left) (after_one cfg v results rest)
  after_one-Observes cfg (validated r) results left rest monitors fine is_of all go =
      add cfg r results left rest monitors (is_of r refl) all go
  after_one-Observes cfg not_reachable results left rest monitors fine is_of all go =
      subst
        (λ b.
          Observes (profiles results ++ cfg.profile ∷ left)
            (if b then not_reachable else rest (results ++ unavailable cfg ∷ [])))
        (sym (ap is_blocking monitors))
        (add cfg (unavailable cfg) results left rest monitors (refl, refl) all go)
  after_one-Observes cfg raised results left rest monitors fine is_of all go = absurd (fine refl)

  run_from-Observes :
      (made : ℕ) (cfgs : List GuardrailConfig)
      → All IsMonitor cfgs
      → Goes (names cfgs) (run_from post default_url input_text made cfgs)
  unfolding run_from
  run_from-Observes made [] monitors results all = (results, refl, all, sym (append-nil _))
  run_from-Observes made (cfg ∷ cfgs) (monitors, rest) results all =
      after_one-Observes cfg (evaluate post default_url input_text made cfg) results (names cfgs)
        (run_from post default_url input_text (posts post default_url input_text made cfg) cfgs)
        monitors (evaluate-ne-raised made cfg) (evaluate-IsOf made cfg) all
        (run_from-Observes (posts post default_url input_text made cfg) cfgs rest)

  unblocked : (rs : List GuardrailResult) → All MonitorResult rs → is_blocked rs ≡ false
  unblocked [] all = refl
  unblocked (r ∷ rs) (mode, all) = rw mode (ground (arith, unblocked rs all))

  All-filterb :
      (gs : List GuardrailConfig)
      → All IsMonitor gs
      → All IsMonitor (filterb (λ (g : GuardrailConfig). on_input g.on) gs)
  All-filterb [] all = tt
  All-filterb (g ∷ gs) (p, all) =
      if_holds (All IsMonitor) (on_input g.on) _ _ (p, All-filterb gs all) (All-filterb gs all)

  -- Where the service answers with an object, or with an error that the gateway catches, guardrails that
  -- all monitor let the request pass, whatever the object is, and the response names those of the
  -- input, in order.
  pub apply_input_guardrails-passes :
      (guardrails : List GuardrailConfig)
      → All IsMonitor guardrails
      → let (guarded, summary) =
          apply_input_guardrails post default_url input_text (some guardrails) in
        (guarded ≡ passes)
        × (map (λ (r : GuardrailResult). r.profile) summary
            ≡ map
                (λ (g : GuardrailConfig). g.profile)
                (filterb (λ (g : GuardrailConfig). on_input g.on) guardrails))
  unfolding apply_input_guardrails run_input_guardrails
  apply_input_guardrails-passes [] all = (refl, refl)
  apply_input_guardrails-passes (c ∷ cs) all =
      let (rs, is, modes, named) =
        run_from-Observes 0 (filterb (λ (g : GuardrailConfig). on_input g.on) (c ∷ cs))
          (All-filterb (c ∷ cs) all) [] tt in
      rw is (rw (unblocked rs modes) (refl, named))
