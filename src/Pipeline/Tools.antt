-- ===== src/Pipeline/Tools.antt =====
-- `prepare_gateway_tools` of otari/src/gateway/api/routes/_pipeline.py, with the extraction of tools of
-- otari/src/gateway/api/routes/_tools.py. How the guardrails end, `urlparse` and the two questions to
-- the platform are arguments; a tool is the fields of its JSON object.
use mozilla_ai.Common.{
  ℕ, String, Bool, false, Option, none, some, List, [], ◌∷◌, ◌==◌, if◌then◌else◌, str_eq, string_eq,
}
use mozilla_ai.Platform.Payload.{Json, Fields, no_fields, field, text, null, object, get, is_truthy}
use mozilla_ai.Platform.Resolve.{Resolved}
use mozilla_ai.Platform.McpServers.{McpServerConfig}
use mozilla_ai.Platform.Origin.{ParseResult}

pub data Guarded : Type 0 where
  passes : Guarded
  blocked : ℕ → Guarded
  guard_raised : Guarded

pub record ToolRequest : Type 0 where
  pub tools : Option (List Fields)
  pub mcp_servers : Option (List McpServerConfig)
  pub mcp_server_ids : List String
  pub max_tool_iterations : Option ℕ
  pub tools_header : Option String

-- the mode and the token of the request, the URLs of the backends that are not empty, those of the
-- platform, and what is asked of it
pub record Surroundings : Type 0 where
  pub hybrid_mode : Bool
  pub user_token : Option String
  pub sandbox_url : Option String
  pub web_search_url : Option String
  pub base_url : Option String
  pub platform_token : Option String
  pub urlparse : String → Option ParseResult
  pub resolve_mcp_servers : String → List String → Resolved (List McpServerConfig)
  pub resolve_web_search : String → Resolved Fields

pub record ToolContext : Type 0 where
  pub mcp_server_configs : Option (List McpServerConfig)
  pub use_sandbox : Bool
  pub sandbox_tool_entry : Option Fields
  pub sandbox_url : Option String
  pub sandbox_auth_token : Option String
  pub use_web_search : Bool
  pub web_search_tool_entry : Option Fields
  pub web_search_url : Option String
  pub web_search_auth_token : Option String
  pub remaining_user_tools : Option (List Fields)
  pub max_tool_iterations : ℕ
  pub tools_header : Option String

-- a context, an HTTPException of a status, or another exception
pub data Tooled : Type 0 where
  ready : ToolContext → Tooled
  refused : ℕ → Tooled
  raised : Tooled

abbrev pub default_max_tool_iterations : ℕ
default_max_tool_iterations = 10

abbrev pub max_tool_iterations_cap : ℕ
max_tool_iterations_cap = 25

-- `max_tool_iterations or DEFAULT_MAX_TOOL_ITERATIONS`
abbrev pub iterations_or_default : Option ℕ → ℕ
iterations_or_default none = default_max_tool_iterations
iterations_or_default (some n) = if n == 0 then default_max_tool_iterations else n

abbrev pub is_type : String → Option Json → Bool
is_type name (some (text s)) = str_eq s name
is_type name _ = false

abbrev pub cons_rest : Fields → Option Fields × List Fields → Option Fields × List Fields
cons_rest tool (entry, rest) = (entry, tool ∷ rest)

-- the first tool of the type, and the others
abbrev pub first_of : String → List Fields → Option Fields × List Fields
first_of name [] = (none, [])
first_of name (tool ∷ tools) =
    let rest = first_of name tools in
    if is_type name (get "type" tool) then (some tool, tools) else cons_rest tool rest

abbrev pub or_none : Option Fields × List Fields → Option Fields × Option (List Fields)
or_none (entry, []) = (entry, none)
or_none (entry, tool ∷ tools) = (entry, some (tool ∷ tools))

abbrev pub extract_first_matching_tool :
    String → Option (List Fields) → Option Fields × Option (List Fields)
extract_first_matching_tool name none = (none, none)
extract_first_matching_tool name (some []) = (none, some [])
extract_first_matching_tool name (some (tool ∷ tools)) = or_none (first_of name (tool ∷ tools))

-- `d[k] = v`
abbrev pub put : String → Json → Fields → Fields
put k v no_fields = field k v no_fields
put k v (field j w fields) = if str_eq j k then field j v fields else field j w (put k v fields)

-- `{**d, **e}`
abbrev pub merged : Fields → Fields → Fields
merged d no_fields = d
merged d (field k v e) = merged (put k v d) e

abbrev pub truthy : Option Json → Bool
truthy none = false
truthy (some v) = is_truthy v

abbrev pub default_with : String → Bool → Option Json → Fields → Fields
default_with key given none entry = entry
default_with key given (some null) entry = entry
default_with key given (some v) entry = if given then entry else put key v entry

abbrev pub with_default : Fields → Fields → String → Fields
with_default policy entry key = default_with key (truthy (get key entry)) (get key policy) entry

abbrev pub options_with : Option Json → Fields → Fields
options_with (some (object request_options)) workspace_options =
    merged workspace_options request_options
options_with _ workspace_options = workspace_options

abbrev pub with_options : Option Json → Fields → Fields
with_options (some (object workspace_options)) entry =
    put "provider_options" (object (options_with (get "provider_options" entry) workspace_options))
      entry
with_options _ entry = entry

-- the entry under the policy of the workspace
abbrev pub with_policy : Fields → Fields → Fields
with_policy policy entry = with_options (get "provider_options" policy) (
    with_default policy
      (with_default policy
        (with_default policy (with_default policy entry "max_results") "allowed_domains")
        "blocked_domains")
      "purpose_hint")
