-- ===== src/Pipeline/ToolTests.antt =====
-- A search in hybrid mode, at the platform and elsewhere.
use mozilla_ai.Common.{
  String, ◌≡◌, refl, true, false, Option, none, some, [], ◌∷◌, if◌then◌else◌, str_eq, string_eq,
}
use mozilla_ai.Pipeline.Tools.{
  raised, passes, ToolRequest, Surroundings, Tooled, ready, refused, extract_first_matching_tool,
  with_policy,
}
use mozilla_ai.Pipeline.{release_reservation, World, RequestContext}
use mozilla_ai.Platform.Origin.{
  web_search_url_targets_platform, normalized_origin, ParseResult, no_port,
}
use mozilla_ai.Pipeline.Dispatch.{prepare_gateway_tools}
use mozilla_ai.Pipeline.Allowed.{IsDispatchable}
use mozilla_ai.Pipeline.Exclusive.{prepare_gateway_tools-IsDispatchable}
use mozilla_ai.Platform.Payload.{Fields, field, no_fields, text, boolean, integer}
use mozilla_ai.Platform.Resolve.{resolved, fails}
use mozilla_ai.Common.Int.{pos}

abbrev parse : String → Option ParseResult
parse url = some (record {
  scheme = "https";
  hostname = if str_eq url "search" then some "searx.local" else some "api.otari.ai";
  port = no_port;
  path = "/v1";
})

abbrev policy : Fields
policy =
    field "enabled" (boolean true)
      (field "max_results" (integer (pos 3)) (field "allowed_domains" (text "a.org") no_fields))

abbrev at : String → Surroundings
at url = record {
  hybrid_mode = true;
  user_token = some "user";
  sandbox_url = none;
  web_search_url = some url;
  base_url = some "platform";
  platform_token = some "secret";
  urlparse = parse;
  resolve_mcp_servers = λ token ids. fails;
  resolve_web_search = λ token. resolved policy;
}

abbrev search_tool : Fields
search_tool =
    field "type" (text "otari_web_search") (field "max_results" (integer (pos 9)) no_fields)

abbrev function_tool : Fields
function_tool = field "type" (text "function") no_fields

abbrev request : ToolRequest
request = record {
  tools = some (function_tool ∷ search_tool ∷ []);
  mcp_servers = none;
  mcp_server_ids = [];
  max_tool_iterations = some 90;
  tools_header = none;
}

abbrev ctx : RequestContext
ctx = record { has_db = false; api_key_id = none; user_id = none; reservation = none }

abbrev world : World
world = record {
  db = record { users = []; budgets = []; reset_logs = []; exceeded = 0 };
  usage_logs = [];
}

-- what the request set stays, and the policy fills in the rest
filled :
    with_policy policy search_tool
    ≡ field "type"
        (text "otari_web_search")
        (field "max_results" (integer (pos 9)) (field "allowed_domains" (text "a.org") no_fields))
filled = refl

extracted :
    extract_first_matching_tool "otari_web_search" request.tools
    ≡ (some search_tool, some (function_tool ∷ []))
extracted = refl

abbrev token_of : Tooled → Option String
token_of (ready context) = context.web_search_auth_token
token_of (refused status) = none
token_of raised = none

kept_secret : token_of (prepare_gateway_tools (at "search") request ctx passes world).0 ≡ none
unfolding prepare_gateway_tools web_search_url_targets_platform normalized_origin
kept_secret = refl

passed_on :
    token_of (prepare_gateway_tools (at "platform") request ctx passes world).0 ≡ some "secret"
unfolding prepare_gateway_tools web_search_url_targets_platform normalized_origin
passed_on = refl

prepare_gateway_tools-IsDispatchable_example :
    let (tooled, w') = prepare_gateway_tools (at "platform") request ctx passes world in
    IsDispatchable (at "platform") tooled
    × (w' ≡ elim tooled [ refused status ↦ release_reservation ctx world | _ ↦ world ])
prepare_gateway_tools-IsDispatchable_example =
    prepare_gateway_tools-IsDispatchable (at "platform") request ctx passes world
