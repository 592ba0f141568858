-- ===== src/Guardrails/Enforced.antt =====
-- A guardrail that blocks is never skipped.
use mathlib.Core.Bool.{false≢true}
use mozilla_ai.Common.{
  ℕ, String, ◌≡◌, ◌≢◌, refl, sym, ap, ◌∙◌, subst, ◌⊎◌, inl, inr, Bool, true, false, ◌&&◌, ◌||◌,
  Option, some, List, [], ◌∷◌, ◌++◌, IsIn, filterb, if_cases, if_holds, str_eq, str_eq_iff,
  string_eq,
}
use mozilla_ai.Pipeline.Tools.{Guarded, passes}
use mozilla_ai.Guardrails.{
  GuardrailConfig, GuardrailResult, Validated, validated, not_reachable, raised, Service, block,
  run_from, after_one, evaluate, posts, is_blocking, is_flagged, base_url_of, validate_one,
  unavailable, is_blocked, on_input, apply_input_guardrails, run_input_guardrails, concluded,
}
use mozilla_ai.Guardrails.Verdicts.{validated-injective, validate_one-IsOf}

and_false : (a b : Bool) → (a && b) ≡ false → b ≡ true → a ≡ false
and_false true true h e = cc
and_false true false h e = cc
and_false false b h e = refl

or_false : (a b : Bool) → (a || b) ≡ false → (a ≡ false) × (b ≡ false)
or_false true b h = cc
or_false false b h = (refl, h)

module _ (post : Service) (default_url : Option String) (input_text : String) where
  -- the service was asked about the guardrail and its verdict is not `false`
  abbrev pub IsCleared : GuardrailConfig → Type 0
  IsCleared cfg =
      (made : ℕ) × (result : GuardrailResult) × (base_url_of default_url cfg ≢ "")
      × (validate_one post made (base_url_of default_url cfg) cfg input_text ≡ validated result)
      × (result.valid ≢ some false)

  IsIn-append : {A : Type 0} (a : A) (xs ys : List A) → IsIn a xs → IsIn a (xs ++ ys)
  IsIn-append a [] ys h = absurd h
  IsIn-append a (x ∷ xs) ys (inl e) = inl e
  IsIn-append a (x ∷ xs) ys (inr h) = inr (IsIn-append a xs ys h)

  IsIn-last : {A : Type 0} (a : A) (xs : List A) → IsIn a (xs ++ a ∷ [])
  IsIn-last a [] = inl refl
  IsIn-last a (x ∷ xs) = inr (IsIn-last a xs)

  -- a guardrail after which the loop goes on has a result, of its verdict unless it monitors
  after_one-validated :
      (cfg : GuardrailConfig) (v : Validated GuardrailResult) (results : List GuardrailResult)
      (rest : List GuardrailResult → Validated (List GuardrailResult))
      (final : List GuardrailResult)
      → after_one cfg v results rest ≡ validated final
      → (r : GuardrailResult) × (rest (results ++ r ∷ []) ≡ validated final)
        × ((v ≡ validated r) ⊎ (is_blocking cfg.mode ≡ false))
  after_one-validated cfg (validated r) results rest final = λ h. (r, h, inl refl)
  after_one-validated cfg not_reachable results rest final =
      if_cases
        (λ a.
          a ≡ validated final
          → (r : GuardrailResult) × (rest (results ++ r ∷ []) ≡ validated final)
            × ((not_reachable ≡ validated r) ⊎ (is_blocking cfg.mode ≡ false)))
        (is_blocking cfg.mode) not_reachable (rest (results ++ unavailable cfg ∷ [])) (λ e h. cc)
        (λ e h. (unavailable cfg, h, inr e))
  after_one-validated cfg raised results rest final = λ h. cc

  -- a result of the loop is among those that it ends with
  kept :
      (made : ℕ) (cfgs : List GuardrailConfig) (results final : List GuardrailResult)
      (r : GuardrailResult)
      → run_from post default_url input_text made cfgs results ≡ validated final
      → IsIn r results
      → IsIn r final
  unfolding run_from
  kept made [] results final r h i = subst (IsIn r) (validated-injective results final h) i
  kept made (cfg ∷ cfgs) results final r h i =
      let (r1, h1, _) =
        after_one-validated cfg (evaluate post default_url input_text made cfg) results
          (run_from post default_url input_text (posts post default_url input_text made cfg) cfgs)
          final h in
      kept (posts post default_url input_text made cfg) cfgs (results ++ r1 ∷ []) final r h1
        (IsIn-append r results (r1 ∷ []) i)

  -- every guardrail that blocks was evaluated, and its result is among the last
  evaluated :
      (made : ℕ) (cfgs : List GuardrailConfig) (results final : List GuardrailResult)
      (g : GuardrailConfig)
      → run_from post default_url input_text made cfgs results ≡ validated final
      → IsIn g cfgs
      → is_blocking g.mode ≡ true
      → (n : ℕ) × (r : GuardrailResult) × (evaluate post default_url input_text n g ≡ validated r)
        × IsIn r final
  unfolding run_from
  evaluated made [] results final g h i blocks = absurd i
  evaluated made (cfg ∷ cfgs) results final g h i blocks =
      let (r, h1, answer) =
        after_one-validated cfg (evaluate post default_url input_text made cfg) results
          (run_from post default_url input_text (posts post default_url input_text made cfg) cfgs)
          final h in
      elim i [
        | inl e ↦ elim answer [
          | inl v ↦ (
            made,
            r,
            ap (evaluate post default_url input_text made) e ∙ v,
            kept (posts post default_url input_text made cfg) cfgs (results ++ r ∷ []) final r h1
                (IsIn-last r results),
          )
          | inr off ↦ absurd (
              false≢true
                (sym off ∙ ap (λ (c : GuardrailConfig). is_blocking c.mode) (sym e) ∙ blocks))
        ]
        | inr there ↦
            evaluated (posts post default_url input_text made cfg) cfgs (results ++ r ∷ []) final g
              h1 there blocks
      ]

  unblocked :
      (rs : List GuardrailResult) (r : GuardrailResult)
      → is_blocked rs ≡ false
      → IsIn r rs
      → is_blocking r.mode ≡ true
      → is_flagged r.valid ≡ false
  unblocked [] r h i blocks = absurd i
  unblocked (x ∷ rs) r h (inl e) blocks =
      subst (λ (y : GuardrailResult). is_flagged y.valid ≡ false) (sym e)
        (and_false (is_flagged x.valid) (is_blocking x.mode) (or_false _ _ h).0
          (ap (λ (y : GuardrailResult). is_blocking y.mode) (sym e) ∙ blocks))
  unblocked (x ∷ rs) r h (inr i) blocks =
      unblocked rs r (or_false (is_flagged x.valid && is_blocking x.mode) _ h).1 i blocks

  IsIn-filterb :
      (g : GuardrailConfig) (gs : List GuardrailConfig)
      → IsIn g gs
      → on_input g.on ≡ true
      → IsIn g (filterb (λ (c : GuardrailConfig). on_input c.on) gs)
  IsIn-filterb g [] i on = absurd i
  IsIn-filterb g (x ∷ gs) (inl e) on =
      if_cases (IsIn g) (on_input x.on) _ _ (λ _. inl e)
        (λ off.
          absurd (false≢true (sym off ∙ ap (λ (c : GuardrailConfig). on_input c.on) (sym e) ∙ on)))
  IsIn-filterb g (x ∷ gs) (inr i) on =
      let rest = IsIn-filterb g gs i on in if_holds (IsIn g) (on_input x.on) _ _ (inr rest) rest

  concluded-passes :
      (v : Validated (List GuardrailResult))
      → (concluded v).0 ≡ passes
      → (rs : List GuardrailResult) × (v ≡ validated rs) × (is_blocked rs ≡ false)
  concluded-passes (validated rs) =
      if_cases
        (λ (a : Guarded × List GuardrailResult).
          a.0 ≡ passes
          → (xs : List GuardrailResult) × (◌≡◌ {A = Validated (List GuardrailResult)} (validated rs)
              (validated xs))
            × (is_blocked xs ≡ false))
        (is_blocked rs) _ _ (λ e h. cc) (λ e h. (rs, refl, e))
  concluded-passes not_reachable = λ h. cc
  concluded-passes raised = λ h. cc

  evaluate-validated :
      (made : ℕ) (cfg : GuardrailConfig) (r : GuardrailResult)
      → evaluate post default_url input_text made cfg ≡ validated r
      → (base_url_of default_url cfg ≢ "")
        × (validate_one post made (base_url_of default_url cfg) cfg input_text ≡ validated r)
  evaluate-validated made cfg r =
      let url = base_url_of default_url cfg in
      if_cases
        (λ v.
          v ≡ validated r → (url ≢ "") × (validate_one post made url cfg input_text ≡ validated r))
        (str_eq url "") not_reachable (validate_one post made url cfg input_text) (λ e h. cc)
        (λ e h. (λ empty. false≢true (sym e ∙ (str_eq_iff url "").1 empty), h))

  -- A request that passes was cleared by every guardrail of the input that blocks: the service
  -- answered for it, at a URL that is not empty, and not with `false`.
  pub apply_input_guardrails-IsCleared :
      (guardrails : List GuardrailConfig) (g : GuardrailConfig)
      → (apply_input_guardrails post default_url input_text (some guardrails)).0 ≡ passes
      → IsIn g guardrails
      → on_input g.on ≡ true
      → g.mode ≡ block
      → IsCleared g
  unfolding apply_input_guardrails run_input_guardrails
  apply_input_guardrails-IsCleared [] g h i on blocks = absurd i
  apply_input_guardrails-IsCleared (c ∷ cs) g h i on blocks =
      let (rs, ran, unflagged) = concluded-passes _ h in
      let blocking : is_blocking g.mode ≡ true = rw blocks refl in
      let (made, r, answer, r_in) =
        evaluated 0 _ [] rs g ran (IsIn-filterb g (c ∷ cs) i on) blocking in
      let (url, checked) = evaluate-validated made g r answer in
      let (same_mode, _) = validate_one-IsOf post made _ g input_text r checked in
      let clear = unblocked rs r unflagged r_in (ap is_blocking same_mode ∙ blocking) in
      (made, r, url, checked, λ bad. false≢true (sym clear ∙ ap is_flagged bad))
