-- ===== src/Platform/Shapes.antt =====
-- The two shapes of a resolve payload, against the route that is read from them.
use mozilla_ai.Common.{String, ◌≡◌, refl, false, Option, none, some, List, [], ◌∷◌, string_eq}
use mozilla_ai.Platform.{ResolvedAttempt, ResolvedRoute}
use mozilla_ai.Platform.Payload.{
  Json, Fields, field, Items, item, text, null, boolean, integer, array, object, no_items,
  no_fields, parse_resolve_payload, Conversions, get, optional_text, new_attempt, new_attempts,
  attempt_of, ◌>>=◌, str,
}
use mozilla_ai.Common.Int.{pos}

-- a route as the platform writes it
abbrev optional : Option String → Json
optional none = null
optional (some s) = text s

abbrev pub attempt_json : ResolvedAttempt → Json
attempt_json a = object (
    field "attempt_id" (text a.attempt_id) (
      field "position" (integer a.position) (
        field "provider" (text a.provider) (
          field "model" (text a.model) (
            field "api_key" (text a.api_key) (
              field "api_base" (optional a.api_base)
                (field "managed" (boolean a.managed) no_fields)))))))

abbrev pub items_json : List ResolvedAttempt → Items
items_json [] = no_items
items_json (a ∷ xs) = item (attempt_json a) (items_json xs)

abbrev pub route_json : ResolvedRoute → Json
route_json r = object (
    field "request_id" (text r.request_id) (
      field "fallback_enabled" (boolean r.fallback_enabled)
        (field "attempts" (array (items_json r.attempts)) no_fields)))

optional_text-optional : (o : Option String) → optional_text (some (optional o)) ≡ some o
optional_text-optional none = refl
optional_text-optional (some s) = refl

-- the route of the attempts, without a fallback
abbrev route_of : String → List ResolvedAttempt → ResolvedRoute
route_of request_id attempts = record {
  request_id = request_id;
  fallback_enabled = false;
  attempts = attempts;
}

one_attempt :
    (o : Option ResolvedAttempt) (request_id : String)
    → (o >>= λ attempt. some (route_of request_id (attempt ∷ [])))
      ≡ ((o >>= λ attempt. some (attempt ∷ [])) >>= λ attempts. some (route_of request_id attempts))
one_attempt none request_id = refl
one_attempt (some attempt) request_id = refl

module _ (python : Conversions) where
  new_attempt-json : (a : ResolvedAttempt) → new_attempt python (attempt_json a) ≡ some a
  new_attempt-json a = rw (optional_text-optional a.api_base) refl

  new_attempts-json : (xs : List ResolvedAttempt) → new_attempts python (items_json xs) ≡ some xs
  new_attempts-json [] = refl
  new_attempts-json (a ∷ xs) = rw (new_attempt-json a, new_attempts-json xs) refl

  -- A route that is written as a payload with a list of attempts is read back as it was.
  pub parse_resolve_payload-route_json :
      (r : ResolvedRoute) → parse_resolve_payload python (route_json r) ≡ some r
  unfolding parse_resolve_payload
  parse_resolve_payload-route_json r = rw (new_attempts-json r.attempts) refl

  -- A payload of the legacy shape, which has no list of attempts, is read as the payload with a list
  -- of one attempt that has its fields, the position 0 and, as its identifier and that of the request,
  -- its correlation identifier, and with no flag for the fallback; it raises where that raises.
  pub parse_resolve_payload-legacy :
      (payload : Fields) (correlation_id : Json)
      → get "attempts" payload ≡ none
      → get "correlation_id" payload ≡ some correlation_id
      → parse_resolve_payload python (object payload)
        ≡ parse_resolve_payload python (
            object (
              field "request_id" correlation_id (
                field "attempts"
                  (array (
                    item
                      (object (
                        field "attempt_id" correlation_id
                          (field "position" (integer (pos 0)) payload)))
                      no_items))
                  no_fields)))
  unfolding parse_resolve_payload
  parse_resolve_payload-legacy payload correlation_id legacy correlated =
      rw (legacy, correlated)
        (one_attempt (attempt_of python (str python correlation_id) (pos 0) payload)
          (str python correlation_id))
