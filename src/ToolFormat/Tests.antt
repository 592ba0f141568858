-- ===== src/ToolFormat/Tests.antt =====
-- Tools of a pool and a call with a system prompt.
use mathlib.Core.Bool.{false≢true}
use mozilla_ai.Common.{str_eq_iff, ◌≡◌, refl, none, some, [], ◌∷◌, map, string_eq}
use mozilla_ai.Platform.Payload.{Fields, text, no_fields, field, get}
use mozilla_ai.ToolFormat.{
  openai_to_anthropic_tools, openai_to_responses_tools, inject_purpose_hints_anthropic,
  inject_purpose_hints_responses, empty_schema, build_hint_block,
}
use mozilla_ai.ToolFormat.Converted.{Definition, openai_tool, read_as, openai_to_tools-read_as}
use mozilla_ai.ToolFormat.Hinted.{IsAbove, IsTextAbove, inject_purpose_hints-IsAbove}

abbrev search_tool : Definition
search_tool = record { name = "search"; description = some (text "Finds pages"); parameters = none }

abbrev native_tool : Fields
native_tool = field "type" (text "web_search") no_fields

-- A tool of another type passes.
mixed :
    openai_to_responses_tools (openai_tool search_tool ∷ native_tool ∷ [])
    ≡ field "type"
        (text "function")
        (field "name" (text "search") (field "description" (text "Finds pages") no_fields))
      ∷ native_tool
      ∷ []
unfolding openai_to_responses_tools
mixed = refl

openai_to_tools-read_as_example :
    (map (read_as "parameters") (openai_to_responses_tools (openai_tool search_tool ∷ []))
      ≡ (some (text "search"), some (text "Finds pages"), none) ∷ [])
    × (map (read_as "input_schema") (openai_to_anthropic_tools (openai_tool search_tool ∷ []))
        ≡ (some (text "search"), some (text "Finds pages"), some empty_schema) ∷ [])
openai_to_tools-read_as_example = openai_to_tools-read_as (search_tool ∷ [])

abbrev call : Fields
call = field "model" (text "m") (field "system" (text "Be brief.") no_fields)

abbrev hinted : Fields
hinted = inject_purpose_hints_anthropic none call (("search", "find pages") ∷ []) none

system_hinted :
    get "system" hinted
    ≡ some (text "You have access to the following tools:\n- search: find pages\n\nBe brief.")
unfolding inject_purpose_hints_anthropic
system_hinted = refl

inject_purpose_hints-IsAbove_example :
    let block = build_hint_block none (("search", "find pages") ∷ []) none in
    let responses = inject_purpose_hints_responses none call (("search", "find pages") ∷ []) none in
    IsAbove block (some (text "Be brief.")) (get "system" hinted)
    × IsTextAbove block none (get "instructions" responses)
    × (get "model" hinted ≡ some (text "m"))
    × (get "model" responses ≡ some (text "m"))
inject_purpose_hints-IsAbove_example =
    inject_purpose_hints-IsAbove none call ("search", "find pages") [] none "model"
      (λ e. false≢true ((str_eq_iff "model" "system").1 e))
      (λ e. false≢true ((str_eq_iff "model" "instructions").1 e))

-- A second conversion changes nothing.
converted_twice :
    openai_to_responses_tools
      (openai_to_responses_tools (openai_tool search_tool ∷ native_tool ∷ []))
    ≡ openai_to_responses_tools (openai_tool search_tool ∷ native_tool ∷ [])
unfolding openai_to_responses_tools
converted_twice = refl
