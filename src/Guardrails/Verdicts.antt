-- ===== src/Guardrails/Verdicts.antt =====
-- The results that the service's answers give.
use Prim.Native.String.{◌++◌ as append}
use mozilla_ai.Common.{ℕ, String, ◌≡◌, refl, subst, Option, none, some, string_eq, ◌≢◌}
use mozilla_ai.Platform.Payload.{
  Json, Fields, null, boolean, integer, decimal, text, array, object, get,
}
use mozilla_ai.Guardrails.{
  GuardrailConfig, GuardrailResult, Validated, validated, not_reachable, raised, Service,
  validate_one, verdict_of, check_shape, then_check, unwrapped, result_of, payload_of, Answer, body,
  http_error, other_error,
}

pub validated-injective :
    {A : Type 0} (a b : A) → ◌≡◌ {A = Validated A} (validated a) (validated b) → a ≡ b
validated-injective a b h = cc

-- a result of the guardrail
abbrev pub IsOf : GuardrailConfig → GuardrailResult → Type 0
IsOf cfg r = (r.mode ≡ cfg.mode) × (r.profile ≡ cfg.profile)

validated-IsOf :
    (cfg : GuardrailConfig) (a r : GuardrailResult)
    → ◌≡◌ {A = Validated GuardrailResult} (validated a) (validated r)
    → IsOf cfg a
    → IsOf cfg r
validated-IsOf cfg a r h is = subst (IsOf cfg) (validated-injective a r h) is

verdict_of-IsOf :
    (cfg : GuardrailConfig) (result : Fields) (v : Option Json) (r : GuardrailResult)
    → verdict_of cfg result v ≡ validated r
    → IsOf cfg r
verdict_of-IsOf cfg result none r h = cc
verdict_of-IsOf cfg result (some null) r h = validated-IsOf cfg _ r h (refl, refl)
verdict_of-IsOf cfg result (some (boolean b)) r h = validated-IsOf cfg _ r h (refl, refl)
verdict_of-IsOf cfg result (some (integer n)) r h = cc
verdict_of-IsOf cfg result (some (decimal b s)) r h = cc
verdict_of-IsOf cfg result (some (text s)) r h = cc
verdict_of-IsOf cfg result (some (array vs)) r h = cc
verdict_of-IsOf cfg result (some (object entries)) r h = cc

check_shape-IsOf :
    (cfg : GuardrailConfig) (v : Json) (r : GuardrailResult)
    → check_shape cfg v ≡ validated r
    → IsOf cfg r
check_shape-IsOf cfg null r h = cc
check_shape-IsOf cfg (boolean b) r h = cc
check_shape-IsOf cfg (integer n) r h = cc
check_shape-IsOf cfg (decimal b s) r h = cc
check_shape-IsOf cfg (text s) r h = cc
check_shape-IsOf cfg (array vs) r h = cc
check_shape-IsOf cfg (object entries) r h = verdict_of-IsOf cfg entries (get "valid" entries) r h

then_check-IsOf :
    (cfg : GuardrailConfig) (v : Validated Json) (r : GuardrailResult)
    → then_check cfg v ≡ validated r
    → IsOf cfg r
then_check-IsOf cfg (validated v) r h = check_shape-IsOf cfg (unwrapped v) r h
then_check-IsOf cfg not_reachable r h = cc
then_check-IsOf cfg raised r h = cc

pub validate_one-IsOf :
    (post : Service) (made : ℕ) (url : String) (cfg : GuardrailConfig) (input_text : String)
    (r : GuardrailResult)
    → validate_one post made url cfg input_text ≡ validated r
    → IsOf cfg r
unfolding validate_one
validate_one-IsOf post made url cfg input_text r h =
    then_check-IsOf cfg (result_of (post made (append url "/validate") (payload_of cfg input_text)))
      r h

-- an error that the gateway catches, or a body that is an object
abbrev pub IsExpected : Answer → Type 0
IsExpected (body (object entries)) = Unit
IsExpected (body _) = ⊥
IsExpected http_error = Unit
IsExpected other_error = ⊥

verdict_of-ne-raised :
    (cfg : GuardrailConfig) (result : Fields) (v : Option Json) → verdict_of cfg result v ≢ raised
verdict_of-ne-raised cfg result none = λ e. cc
verdict_of-ne-raised cfg result (some null) = λ e. cc
verdict_of-ne-raised cfg result (some (boolean b)) = λ e. cc
verdict_of-ne-raised cfg result (some (integer n)) = λ e. cc
verdict_of-ne-raised cfg result (some (decimal b s)) = λ e. cc
verdict_of-ne-raised cfg result (some (text s)) = λ e. cc
verdict_of-ne-raised cfg result (some (array vs)) = λ e. cc
verdict_of-ne-raised cfg result (some (object entries)) = λ e. cc

check_shape-ne-raised : (cfg : GuardrailConfig) (v : Json) → check_shape cfg v ≢ raised
check_shape-ne-raised cfg (object entries) = verdict_of-ne-raised cfg entries (get "valid" entries)
check_shape-ne-raised cfg null = λ e. cc
check_shape-ne-raised cfg (boolean b) = λ e. cc
check_shape-ne-raised cfg (integer n) = λ e. cc
check_shape-ne-raised cfg (decimal b s) = λ e. cc
check_shape-ne-raised cfg (text s) = λ e. cc
check_shape-ne-raised cfg (array vs) = λ e. cc

pub then_check-ne-raised :
    (cfg : GuardrailConfig) (answer : Answer)
    → IsExpected answer
    → then_check cfg (result_of answer) ≢ raised
then_check-ne-raised cfg (body (object entries)) h = of_result (get "result" entries)
  where
    of_result :
        (v : Option Json)
        → then_check cfg (elim v [ none ↦ not_reachable | some x ↦ validated x ]) ≢ raised
    of_result none = λ e. cc
    of_result (some v) = check_shape-ne-raised cfg (unwrapped v)
then_check-ne-raised cfg (body null) h = absurd h
then_check-ne-raised cfg (body (boolean b)) h = absurd h
then_check-ne-raised cfg (body (integer n)) h = absurd h
then_check-ne-raised cfg (body (decimal b s)) h = absurd h
then_check-ne-raised cfg (body (text s)) h = absurd h
then_check-ne-raised cfg (body (array vs)) h = absurd h
then_check-ne-raised cfg http_error h = λ e. cc
then_check-ne-raised cfg other_error h = absurd h
