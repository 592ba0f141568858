-- ===== src/Guardrails/Tests.antt =====
-- Guardrails that are answered, flag or are out of reach.
use mozilla_ai.Common.{
  ℕ, String, ◌≡◌, refl, inl, inr, Bool, true, false, none, some, List, [], ◌∷◌, string_eq, str_eq,
  if◌then◌else◌, map, if_holds,
}
use mozilla_ai.Platform.Payload.{boolean, text, array, object, item, no_items, no_fields, field}
use mozilla_ai.Pipeline.Tools.{passes, blocked, guard_raised}
use mozilla_ai.Guardrails.{
  GuardrailConfig, GuardrailResult, Mode, block, monitor, input, Service, Answer, body, http_error,
  apply_input_guardrails, run_input_guardrails, validate_one, latest_user_text, text_from_content,
  ValidatePayload,
}
use mozilla_ai.Guardrails.Enforced.{IsCleared, apply_input_guardrails-IsCleared}
use mozilla_ai.Guardrails.Observed.{apply_input_guardrails-passes}
use mozilla_ai.Guardrails.Verdicts.{IsExpected}

abbrev guardrail : String → Mode → GuardrailConfig
guardrail profile mode = record {
  profile = profile;
  url = none;
  on = input ∷ [];
  mode = mode;
  validate_kwargs = no_fields;
}

abbrev verdict : Bool → Answer
verdict valid =
    body (object (field "result" (object (field "valid" (boolean valid) no_fields)) no_fields))

-- "toxic" is out of reach, "injection" flags an attack, and "broken" answers with an array
abbrev service : Service
service made url payload =
    if str_eq payload.profile "toxic"
    then http_error
    else if str_eq payload.profile "broken"
    then body (array no_items)
    else verdict (if str_eq payload.input_text "attack" then false else true)

abbrev url : String
url = "http://guard/"

-- An attack is blocked.
attack_blocked :
    apply_input_guardrails service (some url) "attack" (some (guardrail "injection" block ∷ []))
    ≡ (blocked 403, [])
unfolding apply_input_guardrails run_input_guardrails validate_one
attack_blocked = refl

-- A guardrail that blocks fails closed where the service is out of reach.
unreachable_blocked :
    apply_input_guardrails service (some url) "hello" (some (guardrail "toxic" block ∷ []))
    ≡ (blocked 502, [])
unfolding apply_input_guardrails run_input_guardrails validate_one
unreachable_blocked = refl

-- A body that is an array raises a TypeError, under a guardrail that monitors as well.
array_raises :
    apply_input_guardrails service (some url) "hello" (some (guardrail "broken" monitor ∷ []))
    ≡ (guard_raised, [])
unfolding apply_input_guardrails run_input_guardrails validate_one
array_raises = refl

latest :
    latest_user_text (
      object (
        field "role" (text "user") (
          field "content"
            (array (item (text "a") (item (object (field "text" (text "b") no_fields)) no_items)))
            no_fields))
      ∷ object (field "role" (text "assistant") (field "content" (text "c") no_fields))
      ∷ [])
    ≡ "a\nb"
unfolding latest_user_text text_from_content
latest = refl

abbrev both : List GuardrailConfig
both = guardrail "toxic" monitor ∷ guardrail "injection" block ∷ []

apply_input_guardrails-IsCleared_example :
    IsCleared service (some url) "hello" (guardrail "injection" block)
unfolding apply_input_guardrails run_input_guardrails validate_one
apply_input_guardrails-IsCleared_example =
    apply_input_guardrails-IsCleared service (some url) "hello" both (guardrail "injection" block)
      refl (inr (inl refl)) refl refl

abbrev quiet : Service
quiet made _ payload = if str_eq payload.profile "toxic" then http_error else verdict false

abbrev watched : List GuardrailConfig
watched = guardrail "toxic" monitor ∷ guardrail "injection" monitor ∷ []

quiet-IsExpected : (n : ℕ) (u : String) (p : ValidatePayload) → IsExpected (quiet n u p)
quiet-IsExpected n u p =
    if_holds IsExpected (str_eq p.profile "toxic") http_error (verdict false) tt tt

apply_input_guardrails-passes_example :
    ((apply_input_guardrails quiet (some url) "attack" (some watched)).0 ≡ passes)
    × (map
          (λ (r : GuardrailResult). r.profile)
          (apply_input_guardrails quiet (some url) "attack" (some watched)).1
        ≡ "toxic" ∷ "injection" ∷ [])
apply_input_guardrails-passes_example =
    apply_input_guardrails-passes quiet (some url) "attack" quiet-IsExpected watched
      (refl, (refl, tt))
