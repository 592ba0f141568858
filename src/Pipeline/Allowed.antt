-- ===== src/Pipeline/Allowed.antt =====
-- The contexts that `prepare_gateway_tools` of otari/src/gateway/api/routes/_pipeline.py may give, and
-- the tokens that it puts into them.
use mozilla_ai.Pipeline.Tools.{
  ToolRequest, Surroundings, ToolContext, Tooled, ready, refused, raised, max_tool_iterations_cap,
}
use mozilla_ai.Common.{
  ℕ, ◌+◌, ◌≤◌, min, String, ◌≡◌, refl, ◌≢◌, ◌⊎◌, Bool, true, false, Option, none, some, List, [],
  ◌∷◌, arith, string_eq, inl, inr,
}
use mozilla_ai.Platform.Payload.{Fields}
use mozilla_ai.Pipeline.Dispatch.{
  any_server, after_sandbox, context_of, Backend, provider_alone, mcp_pool, sandbox, web_search,
  backend_of, with_user_token, with_token,
}
use mozilla_ai.Platform.McpServers.{McpServerConfig}
use mozilla_ai.Platform.Inside.{IsTrusted, web_search_url-IsTrusted}
use mozilla_ai.Platform.Origin.{web_search_url_targets_platform}

abbrev one_if : Bool → ℕ
one_if true = 1
one_if false = 0

-- how many backends are asked for
abbrev pub backends : ToolContext → ℕ
backends context =
    one_if (any_server context.mcp_server_configs)
    + one_if context.use_sandbox
    + one_if context.use_web_search

module _ (env : Surroundings) where
  -- there is no token, or the request is in hybrid mode and the URL is the platform's
  abbrev pub TokenIsSafe : String → Option String → Type 0
  TokenIsSafe url token =
      (token ≡ none)
      ⊎ ((env.hybrid_mode ≡ true)
          × (base : String) × (env.base_url ≡ some base)
          × (base ≢ "")
          × IsTrusted (env.urlparse base) (env.urlparse url))

  abbrev pub IsAllowed : Backend → Type 0
  IsAllowed provider_alone = Unit
  IsAllowed (mcp_pool configs) = Unit
  IsAllowed (sandbox url entry token) = (entry ≢ none) × TokenIsSafe url token
  IsAllowed (web_search url entry token) = TokenIsSafe url token

  abbrev pub IsDispatchable : Tooled → Type 0
  IsDispatchable (ready context) =
      (backends context ≤ 1)
      × (context.max_tool_iterations ≤ max_tool_iterations_cap)
      × ((backend : Backend) × (backend_of context ≡ some backend) × IsAllowed backend)
  IsDispatchable (refused status) = Unit
  IsDispatchable raised = Unit

  module _ (request : ToolRequest) where
    min-cap : (n : ℕ) → min n max_tool_iterations_cap ≤ max_tool_iterations_cap
    min-cap n = omega arith

    pub plain-IsDispatchable :
        (servers : Option (List McpServerConfig))
        → IsDispatchable (ready (context_of env request servers false none false none none))
    unfolding backend_of
    plain-IsDispatchable none = (omega arith, min-cap _, (provider_alone, refl, tt))
    plain-IsDispatchable (some []) = (omega arith, min-cap _, (provider_alone, refl, tt))
    plain-IsDispatchable (some (c ∷ configs)) =
        (omega arith, min-cap _, (mcp_pool (c ∷ configs), refl, tt))

    pub sandbox-IsDispatchable :
        (servers : Option (List McpServerConfig)) (url : String) (entry : Fields)
        (token : Option String)
        → any_server servers ≡ false
        → env.sandbox_url ≡ some url
        → (after_sandbox env request).0 ≡ some entry
        → TokenIsSafe url token
        → IsDispatchable (ready (context_of env request servers true token false none none))
    unfolding backend_of
    sandbox-IsDispatchable none url entry token no_server at given safe = (
      omega arith,
      min-cap _,
      (sandbox url (some entry) token, rw (at, given) refl, ((λ e. cc), safe)),
    )
    sandbox-IsDispatchable (some []) url entry token no_server at given safe = (
      omega arith,
      min-cap _,
      (sandbox url (some entry) token, rw (at, given) refl, ((λ e. cc), safe)),
    )
    sandbox-IsDispatchable (some (c ∷ configs)) url entry token no_server at given safe = cc

    pub search-IsDispatchable :
        (servers : Option (List McpServerConfig)) (url : String) (entry : Fields)
        (token : Option String)
        → any_server servers ≡ false
        → env.web_search_url ≡ some url
        → TokenIsSafe url token
        → IsDispatchable (ready (context_of env request servers false none true (some entry) token))
    unfolding backend_of
    search-IsDispatchable none url entry token no_server at safe =
        (omega arith, min-cap _, (web_search url entry token, rw at refl, safe))
    search-IsDispatchable (some []) url entry token no_server at safe =
        (omega arith, min-cap _, (web_search url entry token, rw at refl, safe))
    search-IsDispatchable (some (c ∷ configs)) url entry token no_server at safe = cc

    pub with_token-IsDispatchable :
        (url : String) (token : Option String) (o : Option Bool) (go_on : Option String → Tooled)
        → web_search_url_targets_platform env.urlparse url env.base_url ≡ o
        → env.hybrid_mode ≡ true
        → ((t : Option String) → TokenIsSafe url t → IsDispatchable (go_on t))
        → IsDispatchable (with_token env request o token go_on)
    with_token-IsDispatchable url token none go_on e hybrid next = tt
    with_token-IsDispatchable url token (some true) go_on e hybrid next =
        let (base, given, not_empty, trusted) =
          web_search_url-IsTrusted env.urlparse url env.base_url e in
        next token (inr (hybrid, base, given, not_empty, trusted))
    with_token-IsDispatchable url token (some false) go_on e hybrid next = next none (inl refl)

    pub with_user_token-IsDispatchable :
        (token : Option String) (go_on : String → Tooled)
        → ((t : String) → IsDispatchable (go_on t))
        → IsDispatchable (with_user_token env request token go_on)
    with_user_token-IsDispatchable none go_on next = tt
    with_user_token-IsDispatchable (some t) go_on next = next t
