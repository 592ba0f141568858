-- ===== src/Pipeline/Dispatch.antt =====
-- `prepare_gateway_tools` of otari/src/gateway/api/routes/_pipeline.py, and the choice of a backend that
-- `dispatch_non_stream` and `open_stream` make.
use mozilla_ai.Common.{
  min, String, Bool, true, false, ◌||◌, Option, none, some, List, [], ◌∷◌, ◌++◌, if◌then◌else◌,
  string_eq,
}
use mozilla_ai.Pipeline.{World, RequestContext, release_reservation}
use mozilla_ai.Pipeline.Tools.{
  Guarded, passes, blocked, guard_raised, ToolRequest, Surroundings, ToolContext, Tooled, ready,
  refused, raised, max_tool_iterations_cap, iterations_or_default, extract_first_matching_tool,
  truthy, with_policy,
}
use mozilla_ai.Platform.Payload.{Fields, get}
use mozilla_ai.Platform.Resolve.{Resolved, resolved, rejected, fails}
use mozilla_ai.Platform.McpServers.{McpServerConfig}
use mozilla_ai.Platform.Origin.{web_search_url_targets_platform}

-- `bool(configs)`
abbrev pub any_server : Option (List McpServerConfig) → Bool
any_server none = false
any_server (some []) = false
any_server (some (_ ∷ _)) = true

abbrev pub any_id : List String → Bool
any_id [] = false
any_id (_ ∷ _) = true

-- `(mcp_servers or []) + resolved_mcp_servers`
abbrev pub with_servers :
    Option (List McpServerConfig) → List McpServerConfig → Option (List McpServerConfig)
with_servers none more = some more
with_servers (some servers) more = some (servers ++ more)

module _ (env : Surroundings) (request : ToolRequest) where
  -- the tools once the sandbox's was taken out
  abbrev pub after_sandbox : Option Fields × Option (List Fields)
  after_sandbox = extract_first_matching_tool "otari_code_execution" request.tools

  abbrev pub after_search : Option Fields × Option (List Fields)
  after_search = extract_first_matching_tool "otari_web_search" after_sandbox.1

  abbrev pub context_of :
      Option (List McpServerConfig)
      → Bool
      → Option String
      → Bool
      → Option Fields
      → Option String
      → ToolContext
  context_of servers use_sandbox sandbox_auth_token use_web_search web_entry web_search_auth_token =
      record {
        mcp_server_configs = servers;
        use_sandbox = use_sandbox;
        sandbox_tool_entry = after_sandbox.0;
        sandbox_url = env.sandbox_url;
        sandbox_auth_token = sandbox_auth_token;
        use_web_search = use_web_search;
        web_search_tool_entry = web_entry;
        web_search_url = env.web_search_url;
        web_search_auth_token = web_search_auth_token;
        remaining_user_tools = after_search.1;
        max_tool_iterations =
            min (iterations_or_default request.max_tool_iterations) max_tool_iterations_cap;
        tools_header = request.tools_header;
      }

  -- a token for a URL that is the platform's, or none; the test may raise
  abbrev pub with_token : Option Bool → Option String → (Option String → Tooled) → Tooled
  with_token none token go_on = raised
  with_token (some true) token go_on = go_on token
  with_token (some false) token go_on = go_on none

  abbrev pub with_user_token : Option String → (String → Tooled) → Tooled
  with_user_token none go_on = raised
  with_user_token (some token) go_on = go_on token

  abbrev pub after_policy :
      Option (List McpServerConfig)
      → Bool
      → Option String
      → Fields
      → Option String
      → Resolved Fields
      → Tooled
  after_policy servers use_sandbox sandbox_token entry token (resolved policy) =
      if truthy (get "enabled" policy)
      then ready (
          context_of servers use_sandbox sandbox_token true (some (with_policy policy entry)) token)
      else refused 403
  after_policy servers use_sandbox sandbox_token entry token (rejected e) = refused e.status_code
  after_policy servers use_sandbox sandbox_token entry token fails = raised

  abbrev pub search_with :
      Option (List McpServerConfig) → Bool → Option String → Fields → String → Tooled
  search_with servers use_sandbox sandbox_token entry url =
      if use_sandbox || any_server servers
      then refused 400
      else if env.hybrid_mode
      then with_user_token env.user_token (λ user_token.
        with_token (web_search_url_targets_platform env.urlparse url env.base_url)
          env.platform_token
          (λ token.
            after_policy servers use_sandbox sandbox_token entry token
              (env.resolve_web_search user_token)))
      else ready (context_of servers use_sandbox sandbox_token true (some entry) none)

  abbrev pub search_step :
      Option (List McpServerConfig) → Bool → Option String → Option Fields → Option String → Tooled
  search_step servers use_sandbox sandbox_token none url =
      ready (context_of servers use_sandbox sandbox_token false none none)
  search_step servers use_sandbox sandbox_token (some entry) none = refused 400
  search_step servers use_sandbox sandbox_token (some entry) (some url) =
      search_with servers use_sandbox sandbox_token entry url

  abbrev pub sandbox_step : Option (List McpServerConfig) → Option Fields → Option String → Tooled
  sandbox_step servers none url = search_step servers false none after_search.0 env.web_search_url
  sandbox_step servers (some entry) none = refused 400
  sandbox_step servers (some entry) (some url) =
      if any_server servers
      then refused 400
      else if env.hybrid_mode
      then with_user_token env.user_token (λ user_token.
        with_token (web_search_url_targets_platform env.urlparse url env.base_url) (some user_token)
          (λ token. search_step servers true token after_search.0 env.web_search_url))
      else search_step servers true none after_search.0 env.web_search_url

  abbrev pub after_servers : Resolved (List McpServerConfig) → Tooled
  after_servers (resolved more) =
      sandbox_step (with_servers request.mcp_servers more) after_sandbox.0 env.sandbox_url
  after_servers (rejected e) = refused e.status_code
  after_servers fails = raised

  abbrev pub servers_step : Tooled
  servers_step =
      if any_id request.mcp_server_ids
      then (if env.hybrid_mode
          then with_user_token env.user_token (λ user_token.
            after_servers (env.resolve_mcp_servers user_token request.mcp_server_ids))
          else refused 400)
      else sandbox_step request.mcp_servers after_sandbox.0 env.sandbox_url

  abbrev pub after_guard : Guarded → Tooled
  after_guard passes = servers_step
  after_guard (blocked status) = refused status
  after_guard guard_raised = raised

  -- an HTTPException releases the reservation
  abbrev pub released : RequestContext → Tooled → World → Tooled × World
  released ctx (ready context) w = (ready context, w)
  released ctx (refused status) w = (refused status, release_reservation ctx w)
  released ctx raised w = (raised, w)

  unfoldable pub prepare_gateway_tools : RequestContext → Guarded → World → Tooled × World
  prepare_gateway_tools ctx guarded w = released ctx (after_guard guarded) w

-- what a request is dispatched to: the provider itself, or a tool loop with one backend
pub data Backend : Type 0 where
  provider_alone : Backend
  mcp_pool : List McpServerConfig → Backend
  sandbox : String → Option Fields → Option String → Backend
  web_search : String → Fields → Option String → Backend

abbrev pub sandbox_at : Option String → Option Fields → Option String → Option Backend
sandbox_at none entry token = none
sandbox_at (some url) entry token = some (sandbox url entry token)

abbrev pub web_search_at : Option String → Option Fields → Option String → Option Backend
web_search_at none entry token = none
web_search_at (some url) none token = none
web_search_at (some url) (some entry) token = some (web_search url entry token)

abbrev pub without_servers : ToolContext → Option Backend
without_servers context =
    if context.use_sandbox
    then sandbox_at context.sandbox_url context.sandbox_tool_entry context.sandbox_auth_token
    else if context.use_web_search
    then web_search_at context.web_search_url context.web_search_tool_entry
        context.web_search_auth_token
    else some provider_alone

-- the ladder, none where an assertion fails
abbrev pub ladder : Option (List McpServerConfig) → ToolContext → Option Backend
ladder none context = without_servers context
ladder (some []) context = without_servers context
ladder (some (c ∷ configs)) context = some (mcp_pool (c ∷ configs))

unfoldable pub backend_of : ToolContext → Option Backend
backend_of context = ladder context.mcp_server_configs context
