-- ===== src/Platform/McpServers.antt =====
-- `_resolve_platform_mcp_servers` of otari/src/gateway/api/routes/_platform.py, with the model of an MCP
-- server, otari/src/gateway/models/mcp.py.
use mozilla_ai.Platform.Resolve.{
  Request, Posted, Resolved, platform_url, on_response, if_configured,
}
use mozilla_ai.Common.{
  ℕ, String, Option, none, some, [], ◌∷◌, if◌then◌else◌, str_eq, string_eq, ◌+◌, Bool, List, true,
  leb, false, not, ◌&&◌,
}
use mozilla_ai.Platform.Payload.{
  Json, null, Fields, no_fields, field, text, object, get, ◌>>=◌, Items, item, no_items, array,
  iterate, optional_text,
}

-- the model of an MCP server, otari/src/gateway/models/mcp.py
pub record McpServerConfig : Type 0 where
  pub name : String
  pub url : String
  pub authorization_token : Option String
  pub purpose_hint : Option String
  pub allowed_tools : Option (List String)

abbrev pub size : String → ℕ
size String.[] = 0
size (String.◌∷◌ c s) = size s + 1

abbrev pub texts : Items → Option (List String)
texts no_items = some []
texts (item (text s) rest) = texts rest >>= λ ss. some (s ∷ ss)
texts (item _ rest) = none

-- a field of the type `list[str] | None`, with the default None
abbrev pub optional_texts : Option Json → Option (Option (List String))
optional_texts none = some none
optional_texts (some null) = some none
optional_texts (some (array xs)) = texts xs >>= λ ss. some (some ss)
optional_texts (some _) = none

abbrev pub text_field : String → Fields → Option String
text_field k fields = elim (get k fields) [
  | none ↦ none
  | some v ↦ elim v [ text s ↦ some s | _ ↦ none ]
]

abbrev pub within : ℕ → Option String → Bool
within n none = true
within n (some s) = leb (size s) n

-- whether a token is given that is not empty
abbrev pub has_token : Option String → Bool
has_token none = false
has_token (some s) = not (str_eq s "")

-- `is_safe` is whether `validate_mcp_url` accepts a URL, with or without a token
module _ (is_safe : String → Bool → Bool) where
  abbrev pub check_config : McpServerConfig → Option McpServerConfig
  check_config config =
      if leb 1 (size config.name)
        && leb (size config.name) 128
        && leb 1 (size config.url)
        && within 2000 config.purpose_hint
        && is_safe config.url (has_token config.authorization_token)
      then some config
      else none

  abbrev pub mcp_server : Json → Option McpServerConfig
  mcp_server (object s) = do
    name ← text_field "name" s
    url ← text_field "url" s
    authorization_token ← optional_text (get "authorization_token" s)
    purpose_hint ← optional_text (get "purpose_hint" s)
    allowed_tools ← optional_texts (get "allowed_tools" s)
    check_config (record {
      name = name;
      url = url;
      authorization_token = authorization_token;
      purpose_hint = purpose_hint;
      allowed_tools = allowed_tools;
    })
  mcp_server _ = none

  abbrev pub mcp_servers : Items → Option (List McpServerConfig)
  mcp_servers no_items = some []
  mcp_servers (item s rest) = do
    config ← mcp_server s
    configs ← mcp_servers rest
    some (config ∷ configs)

  -- `payload.get("servers", [])`
  abbrev pub servers_or_none : Option Json → Option (List McpServerConfig)
  servers_or_none none = some []
  servers_or_none (some v) = iterate v >>= mcp_servers

  abbrev pub servers_of : Json → Option (List McpServerConfig)
  servers_of (object payload) = servers_or_none (get "servers" payload)
  servers_of _ = none

abbrev pub ids_of : List String → Items
ids_of [] = no_items
ids_of (uid ∷ uids) = item (text uid) (ids_of uids)

abbrev pub mcp_servers_request : String → String → List String → Request
mcp_servers_request url user_token mcp_server_ids = record {
  url = platform_url url "/gateway/mcp-servers/resolve";
  user_token = user_token;
  body = field "mcp_server_ids" (array (ids_of mcp_server_ids)) no_fields;
}

unfoldable pub resolve_platform_mcp_servers :
    (String → Bool → Bool)
    → (Request → Posted)
    → Option String
    → String
    → List String
    → Resolved (List McpServerConfig)
resolve_platform_mcp_servers is_safe post base_url user_token mcp_server_ids =
    if_configured base_url (λ url.
      on_response "MCP server resolution failed" (servers_of is_safe)
        (post (mcp_servers_request url user_token mcp_server_ids)))
