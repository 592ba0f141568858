-- ===== src/ToolFormat/Converted.antt =====
-- What a client reads back from a converted tool, and that a converted tool is left alone.
use mozilla_ai.Common.{String, ◌≡◌, refl, ap, Option, none, some, List, [], ◌∷◌, map, string_eq}
use mozilla_ai.Platform.Payload.{Json, Fields, text, object, no_fields, field, get}
use mozilla_ai.ToolFormat.{
  copied, name_of, or_empty_schema, anthropic_tool, responses_tool, converted, function_of,
  openai_to_anthropic_tools, openai_to_responses_tools,
}

-- a function as a backend defines it
pub record Definition : Type 0 where
  pub name : String
  pub description : Option Json
  pub parameters : Option Json

-- the tool of the chat format
abbrev pub openai_tool : Definition → Fields
openai_tool d = field "type" (text "function") (
    field "function"
      (object (
        field "name" (text d.name)
          (copied "description" d.description (copied "parameters" d.parameters no_fields))))
      no_fields)

-- the fields that the responses and the messages API read
abbrev Read : Type 0
Read = Option Json × Option Json × Option Json

abbrev pub read_as : String → Fields → Read
read_as schema tool = (get "name" tool, get "description" tool, get schema tool)

read_responses :
    (n : String) (desc params : Option Json)
    → read_as "parameters" (
        responses_tool (
          field "name" (text n) (copied "description" desc (copied "parameters" params no_fields))))
      ≡ (some (text n), desc, params)
read_responses n none none = refl
read_responses n none (some p) = refl
read_responses n (some d) none = refl
read_responses n (some d) (some p) = refl

read_anthropic :
    (n : String) (desc params : Option Json)
    → read_as "input_schema" (
        anthropic_tool (
          field "name" (text n) (copied "description" desc (copied "parameters" params no_fields))))
      ≡ (some (text n), desc, some (or_empty_schema params))
read_anthropic n none none = refl
read_anthropic n none (some p) = refl
read_anthropic n (some d) none = refl
read_anthropic n (some d) (some p) = refl

-- The tools of a pool, converted, are read with the name and the description of their definitions, and
-- with its parameters, or for the messages API an empty schema where it has none.
pub openai_to_tools-read_as :
    (ds : List Definition)
    → (map (read_as "parameters") (openai_to_responses_tools (map openai_tool ds))
        ≡ map (λ d. (some (text d.name), d.description, d.parameters)) ds)
      × (map (read_as "input_schema") (openai_to_anthropic_tools (map openai_tool ds))
          ≡ map (λ d. (some (text d.name), d.description, some (or_empty_schema d.parameters))) ds)
unfolding openai_to_responses_tools openai_to_anthropic_tools
openai_to_tools-read_as [] = (refl, refl)
openai_to_tools-read_as (d ∷ ds) =
    let (responses, anthropic) = openai_to_tools-read_as ds in
    (
      λ i. read_responses d.name d.description d.parameters i ∷ responses i,
      λ i. read_anthropic d.name d.description d.parameters i ∷ anthropic i,
    )

-- a converted tool is no function of the chat format
function_of-responses :
    (name : Json) (desc params : Option Json)
    → function_of (
        field "type"
          (text "function")
          (field "name" name (copied "description" desc (copied "parameters" params no_fields))))
      ≡ none
function_of-responses name none none = refl
function_of-responses name none (some p) = refl
function_of-responses name (some d) none = refl
function_of-responses name (some d) (some p) = refl

function_of-anthropic :
    (name schema : Json) (desc : Option Json)
    → function_of
        (field "name" name (copied "description" desc (field "input_schema" schema no_fields)))
      ≡ none
function_of-anthropic name schema none = refl
function_of-anthropic name schema (some d) = refl

converted-converted :
    (convert : Fields → Fields) (tool : Fields) (o : Option Fields)
    → function_of tool ≡ o
    → ((fn : Fields) → function_of (convert fn) ≡ none)
    → converted convert (converted convert tool o) (function_of (converted convert tool o))
      ≡ converted convert tool o
converted-converted convert tool none e done = ap (converted convert tool) e
converted-converted convert tool (some fn) e done = ap (converted convert (convert fn)) (done fn)

-- Converting a second time changes nothing, for the responses and for the messages API, whatever the
-- tools are.
pub openai_to_tools-idempotent :
    (tools : List Fields)
    → (openai_to_responses_tools (openai_to_responses_tools tools)
        ≡ openai_to_responses_tools tools)
      × (openai_to_anthropic_tools (openai_to_anthropic_tools tools)
          ≡ openai_to_anthropic_tools tools)
unfolding openai_to_responses_tools openai_to_anthropic_tools
openai_to_tools-idempotent [] = (refl, refl)
openai_to_tools-idempotent (tool ∷ tools) =
    let (responses, anthropic) = openai_to_tools-idempotent tools in
    (
      λ i.
          converted-converted responses_tool tool (function_of tool) refl
            (λ fn.
              function_of-responses (name_of (get "name" fn)) (get "description" fn)
                (get "parameters" fn))
            i
          ∷ responses i,
      λ i.
          converted-converted anthropic_tool tool (function_of tool) refl
            (λ fn.
              function_of-anthropic (name_of (get "name" fn))
                (or_empty_schema (get "parameters" fn)) (get "description" fn))
            i
          ∷ anthropic i,
    )
