-- ===== src/Guardrails.antt =====
-- `run_input_guardrails` of otari/src/gateway/services/guardrails.py and `apply_input_guardrails` of
-- otari/src/gateway/api/routes/_helpers.py, with the text that is checked. The guardrails service is an
-- argument; a post is known by how many went before it.
pub mod Verdicts
pub mod Enforced
pub mod Observed
mod Tests
use Prim.Native.String.{◌++◌ as append}
use mozilla_ai.Common.{
  ℕ, suc, String, Bool, true, false, not, ◌&&◌, ◌||◌, Option, none, some, List, [], ◌∷◌, ◌++◌,
  filterb, if◌then◌else◌, str_eq, string_eq,
}
use mozilla_ai.Platform.Payload.{
  Json, Items, Fields, null, boolean, text, array, object, no_items, no_fields, field, get, item,
}
use mozilla_ai.Platform.Origin.{rstrip_slash}
use mozilla_ai.Pipeline.Tools.{Guarded, passes, blocked, guard_raised}

pub data GuardrailDirection : Type 0 where
  input output : GuardrailDirection

pub data Mode : Type 0 where
  block monitor : Mode

pub record GuardrailConfig : Type 0 where
  pub profile : String
  pub url : Option String
  pub on : List GuardrailDirection
  pub mode : Mode
  pub validate_kwargs : Fields

pub record GuardrailResult : Type 0 where
  pub profile : String
  pub mode : Mode
  pub valid : Option Bool
  pub explanation : Option Json
  pub score : Option Json

-- what is posted; the keyword arguments only where there are some
pub record ValidatePayload : Type 0 where
  pub profile : String
  pub input_text : String
  pub validate_kwargs : Option Fields

-- a body, an error of `httpx` or of the decoding, or another exception
pub data Answer : Type 0 where
  body : Json → Answer
  http_error : Answer
  other_error : Answer

-- a value, a GuardrailsNotReachableError, or another exception
pub data Validated (A : Type 0) : Type 0 where
  validated : A → Validated A
  not_reachable : Validated A
  raised : Validated A

-- `verdict.flagged` of one result
abbrev pub is_flagged : Option Bool → Bool
is_flagged (some false) = true
is_flagged _ = false

abbrev pub is_blocking : Mode → Bool
is_blocking block = true
is_blocking monitor = false

-- `response.json()["result"]`; a value that is no object raises a TypeError
abbrev pub result_of : Answer → Validated Json
result_of (body (object fields)) = elim (get "result" fields) [
  | none ↦ not_reachable
  | some v ↦ validated v
]
result_of (body _) = raised
result_of http_error = not_reachable
result_of other_error = raised

-- the first of a list, or an empty object
abbrev pub unwrapped : Json → Json
unwrapped (array no_items) = object no_fields
unwrapped (array (item v _)) = v
unwrapped v = v

abbrev pub with_valid : GuardrailConfig → Fields → Option Bool → Validated GuardrailResult
with_valid cfg result valid = validated (record {
  profile = cfg.profile;
  mode = cfg.mode;
  valid = valid;
  explanation = get "explanation" result;
  score = get "score" result;
})

abbrev pub verdict_of : GuardrailConfig → Fields → Option Json → Validated GuardrailResult
verdict_of cfg result (some null) = with_valid cfg result none
verdict_of cfg result (some (boolean b)) = with_valid cfg result (some b)
verdict_of cfg result _ = not_reachable

abbrev pub check_shape : GuardrailConfig → Json → Validated GuardrailResult
check_shape cfg (object result) = verdict_of cfg result (get "valid" result)
check_shape cfg _ = not_reachable

abbrev pub then_check : GuardrailConfig → Validated Json → Validated GuardrailResult
then_check cfg (validated v) = check_shape cfg (unwrapped v)
then_check cfg not_reachable = not_reachable
then_check cfg raised = raised

abbrev pub payload_of : GuardrailConfig → String → ValidatePayload
payload_of cfg input_text = record {
  profile = cfg.profile;
  input_text = input_text;
  validate_kwargs = elim cfg.validate_kwargs [
    | no_fields ↦ none
    | field k v rest ↦ some (field k v rest)
  ];
}

abbrev pub Service : Type 0
Service = ℕ → String → ValidatePayload → Answer

unfoldable pub validate_one :
    Service → ℕ → String → GuardrailConfig → String → Validated GuardrailResult
validate_one post made base_url cfg input_text =
    then_check cfg (result_of (post made (append base_url "/validate") (payload_of cfg input_text)))

-- `"input" in cfg.on`
abbrev pub on_input : List GuardrailDirection → Bool
on_input [] = false
on_input (input ∷ on) = true
on_input (output ∷ on) = on_input on

-- `(cfg.url or default_url or "").rstrip("/")`
abbrev pub text_or : Option String → String → String
text_or none s = s
text_or (some t) s = if str_eq t "" then s else t

abbrev pub base_url_of : Option String → GuardrailConfig → String
base_url_of default_url cfg = rstrip_slash (text_or cfg.url (text_or default_url ""))

abbrev pub unavailable : GuardrailConfig → GuardrailResult
unavailable cfg = record {
  profile = cfg.profile;
  mode = cfg.mode;
  valid = none;
  explanation = some (text "guardrail service unavailable");
  score = none;
}

-- after one guardrail: `rest` is the loop over those that are left, given the results so far
abbrev pub after_one :
    GuardrailConfig
    → Validated GuardrailResult
    → List GuardrailResult
    → (List GuardrailResult → Validated (List GuardrailResult))
    → Validated (List GuardrailResult)
after_one cfg (validated result) results rest = rest (results ++ result ∷ [])
after_one cfg not_reachable results rest =
    if is_blocking cfg.mode then not_reachable else rest (results ++ unavailable cfg ∷ [])
after_one cfg raised results rest = raised

-- `verdict.blocked`
abbrev pub is_blocked : List GuardrailResult → Bool
is_blocked [] = false
is_blocked (r ∷ rs) = (is_flagged r.valid && is_blocking r.mode) || is_blocked rs

-- how the request goes on, and the results that the header of the response sums up, where there are any
abbrev pub concluded : Validated (List GuardrailResult) → Guarded × List GuardrailResult
concluded (validated results) = if is_blocked results then (blocked 403, []) else (passes, results)
concluded not_reachable = (blocked 502, [])
concluded raised = (guard_raised, [])

module _ (post : Service) (default_url : Option String) (input_text : String) where
  -- without a URL nothing is posted
  abbrev pub evaluate : ℕ → GuardrailConfig → Validated GuardrailResult
  evaluate made cfg =
      let base_url = base_url_of default_url cfg in
      if str_eq base_url "" then not_reachable else validate_one post made base_url cfg input_text

  abbrev pub posts : ℕ → GuardrailConfig → ℕ
  posts made cfg = if str_eq (base_url_of default_url cfg) "" then made else suc made

  pub run_from : ℕ → List GuardrailConfig → List GuardrailResult → Validated (List GuardrailResult)
  run_from made [] results = validated results
  run_from made (cfg ∷ cfgs) results =
      after_one cfg (evaluate made cfg) results (run_from (posts made cfg) cfgs)

  unfoldable pub run_input_guardrails : List GuardrailConfig → Validated (List GuardrailResult)
  unfolding run_from
  run_input_guardrails guardrails = run_from 0 (filterb (λ g. on_input g.on) guardrails) []

  unfoldable pub apply_input_guardrails :
      Option (List GuardrailConfig) → Guarded × List GuardrailResult
  unfolding run_input_guardrails
  apply_input_guardrails none = (passes, [])
  apply_input_guardrails (some []) = (passes, [])
  apply_input_guardrails (some (g ∷ guardrails)) = concluded (run_input_guardrails (g ∷ guardrails))

abbrev pub with_text : Json → List String → List String
with_text (text s) texts = s ∷ texts
with_text _ texts = texts

abbrev pub is_text : String → Option Json → Bool
is_text s (some (text t)) = str_eq t s
is_text s _ = false

-- the texts of the parts of a message
abbrev pub part_texts : Items → List String
part_texts no_items = []
part_texts (item (text s) parts) = s ∷ part_texts parts
part_texts (item (object part) parts) = elim (get "text" part) [
  | none ↦ part_texts parts
  | some v ↦ with_text v (part_texts parts)
]
part_texts (item _ parts) = part_texts parts

-- `"\n".join(parts)`
abbrev pub join_lines : List String → String
join_lines [] = ""
join_lines (s ∷ []) = s
join_lines (s ∷ t ∷ rest) = append (append s "\n") (join_lines (t ∷ rest))

unfoldable pub text_from_content : Option Json → String
text_from_content (some (text s)) = s
text_from_content (some (array parts)) = join_lines (part_texts parts)
text_from_content _ = ""

abbrev pub is_user : Json → Bool
is_user (object message) = is_text "user" (get "role" message)
is_user _ = false

abbrev pub content_text : Json → String
content_text (object message) = text_from_content (get "content" message)
content_text _ = ""

-- the last of the messages that the user sent, and the last of all
abbrev pub latest_user : Option Json → List Json → Option Json
latest_user found [] = found
latest_user found (m ∷ messages) = latest_user (if is_user m then some m else found) messages

abbrev pub last_text : String → List Json → String
last_text s [] = s
last_text s (m ∷ messages) = last_text (content_text m) messages

unfoldable pub latest_user_text : List Json → String
unfolding text_from_content
latest_user_text messages = elim (latest_user none messages) [
  | some m ↦ content_text m
  | none ↦ last_text "" messages
]
