-- ===== src/ToolFormat.antt =====
-- otari/src/gateway/services/tool_format.py: the tools and the purpose hints in the shapes of the
-- messages and the responses API. A tool and the keywords of a call are the fields of a dictionary.
pub mod Converted
pub mod Hinted
mod Tests
use Prim.Native.String.{◌++◌ as append}
use mozilla_ai.Common.{
  String, Bool, true, false, Option, none, some, List, [], ◌∷◌, map, if◌then◌else◌, str_eq,
  string_eq,
}
use mozilla_ai.ToolLoop.Stream.{truthy}
use mozilla_ai.ToolLoop.Hints.{first_of, hint_lines, purpose_hint_header}
use mozilla_ai.Platform.Payload.{
  Json, Fields, null, text, array, object, item, no_fields, field, get, is_truthy,
}
use mozilla_ai.Pipeline.Tools.{put}
use mozilla_ai.Guardrails.{is_text}

-- the function of a tool of the chat format, where it is one
abbrev pub object_of : Option Json → Option Fields
object_of (some (object fn)) = some fn
object_of _ = none

abbrev pub function_of : Fields → Option Fields
function_of tool =
    if is_text "function" (get "type" tool) then object_of (get "function" tool) else none

-- `fn.get("name", "")`
abbrev pub name_of : Option Json → Json
name_of none = text ""
name_of (some name) = name

-- `if k in fn: converted[as] = fn[k]`, before the keys that follow
abbrev pub copied : String → Option Json → Fields → Fields
copied key none rest = rest
copied key (some v) rest = field key v rest

abbrev pub empty_schema : Json
empty_schema =
    object (field "type" (text "object") (field "properties" (object no_fields) no_fields))

abbrev pub or_empty_schema : Option Json → Json
or_empty_schema none = empty_schema
or_empty_schema (some schema) = schema

abbrev pub anthropic_tool : Fields → Fields
anthropic_tool fn = field "name" (name_of (get "name" fn)) (
    copied "description" (get "description" fn)
      (field "input_schema" (or_empty_schema (get "parameters" fn)) no_fields))

abbrev pub responses_tool : Fields → Fields
responses_tool fn = field "type" (text "function") (
    field "name" (name_of (get "name" fn)) (
      copied "description" (get "description" fn)
        (copied "parameters" (get "parameters" fn) no_fields)))

-- a tool that is no function of the chat format passes
abbrev pub converted : (Fields → Fields) → Fields → Option Fields → Fields
converted convert tool none = tool
converted convert tool (some fn) = convert fn

unfoldable pub openai_to_anthropic_tools : List Fields → List Fields
openai_to_anthropic_tools = map λ tool. converted anthropic_tool tool (function_of tool)

unfoldable pub openai_to_responses_tools : List Fields → List Fields
openai_to_responses_tools = map λ tool. converted responses_tool tool (function_of tool)

abbrev pub above : String → String → String
above block old = append block (append "\n\n" old)

abbrev pub text_block : String → Json
text_block block = object (field "type" (text "text") (field "text" (text block) no_fields))

-- what the system prompt of the messages API becomes
abbrev pub system_with : String → Option Json → Json
system_with block (some (text old)) = text (if str_eq old "" then block else above block old)
system_with block (some (array blocks)) = array (item (text_block block) blocks)
system_with block _ = text block

-- what the instructions of the responses API become
abbrev pub instructions_with : String → Option Json → Json
instructions_with block (some (text old)) = text (if str_eq old "" then block else above block old)
instructions_with block _ = text block

-- `tools_header` is OTARI_TOOLS_HEADER of the environment
module _ (tools_header : Option String) where
  abbrev pub resolve_header : Option String → String
  resolve_header header =
      first_of (truthy header) (first_of (truthy tools_header) purpose_hint_header)

  abbrev pub build_hint_block : List (String × String) → Option String → String
  build_hint_block hints header = append (resolve_header header) (hint_lines hints)

  unfoldable pub inject_purpose_hints_anthropic :
      Fields → List (String × String) → Option String → Fields
  inject_purpose_hints_anthropic call_kwargs [] header = call_kwargs
  inject_purpose_hints_anthropic call_kwargs (h ∷ hints) header =
      put "system" (system_with (build_hint_block (h ∷ hints) header) (get "system" call_kwargs))
        call_kwargs

  unfoldable pub inject_purpose_hints_responses :
      Fields → List (String × String) → Option String → Fields
  inject_purpose_hints_responses call_kwargs [] header = call_kwargs
  inject_purpose_hints_responses call_kwargs (h ∷ hints) header =
      put "instructions"
        (instructions_with (build_hint_block (h ∷ hints) header) (get "instructions" call_kwargs))
        call_kwargs
