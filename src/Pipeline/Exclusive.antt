-- ===== src/Pipeline/Exclusive.antt =====
-- The backend of a request whose gateway tools were prepared.
use mozilla_ai.Pipeline.Allowed.{
  IsDispatchable, TokenIsSafe, plain-IsDispatchable, sandbox-IsDispatchable, search-IsDispatchable,
  with_token-IsDispatchable, with_user_token-IsDispatchable,
}
use mozilla_ai.Pipeline.Tools.{
  passes, blocked, guard_raised, truthy, with_policy, Guarded, ToolRequest, Surroundings, Tooled,
  ready, refused, raised,
}
use mozilla_ai.Platform.Resolve.{rejected, resolved, fails, Resolved}
use mozilla_ai.Common.{
  if_cases, if_holds, String, ◌≡◌, refl, true, false, Option, none, some, List, string_eq, inl,
}
use mozilla_ai.Platform.Payload.{get, Fields}
use mozilla_ai.Pipeline.Dispatch.{
  any_server, after_sandbox, with_user_token, search_with, with_token, after_policy, sandbox_step,
  search_step, prepare_gateway_tools, after_servers, servers_step, any_id, after_guard,
  after_search, released,
}
use mozilla_ai.Platform.McpServers.{McpServerConfig}
use mozilla_ai.Platform.Origin.{web_search_url_targets_platform}
use mozilla_ai.Pipeline.{RequestContext, World, release_reservation}

module _ (env : Surroundings) (request : ToolRequest) where
  after_policy-IsDispatchable :
      (servers : Option (List McpServerConfig)) (url : String) (entry : Fields)
      (token : Option String) (answer : Resolved Fields)
      → any_server servers ≡ false
      → env.web_search_url ≡ some url
      → TokenIsSafe env url token
      → IsDispatchable env (after_policy env request servers false none entry token answer)
  after_policy-IsDispatchable servers url entry token (resolved policy) no_server at safe =
      if_holds (IsDispatchable env) (truthy (get "enabled" policy)) _ _
        (search-IsDispatchable env request servers url (with_policy policy entry) token no_server at
          safe)
        tt
  after_policy-IsDispatchable servers url entry token (rejected e) no_server at safe = tt
  after_policy-IsDispatchable servers url entry token fails no_server at safe = tt

  search_hybrid-IsDispatchable :
      (servers : Option (List McpServerConfig)) (entry : Fields) (url : String)
      → any_server servers ≡ false
      → env.web_search_url ≡ some url
      → env.hybrid_mode ≡ true
      → IsDispatchable env (
          with_user_token env request env.user_token (λ user_token.
            with_token env request
              (web_search_url_targets_platform env.urlparse url env.base_url)
              env.platform_token
              (λ token.
                after_policy env request servers false none entry token
                  (env.resolve_web_search user_token))))
  search_hybrid-IsDispatchable servers entry url no_server at hybrid =
      with_user_token-IsDispatchable env request env.user_token _ (λ user_token.
        with_token-IsDispatchable env request url env.platform_token _ _ refl hybrid (λ token safe.
          after_policy-IsDispatchable servers url entry token (env.resolve_web_search user_token)
            no_server at safe))

  search_with-IsDispatchable :
      (servers : Option (List McpServerConfig)) (entry : Fields) (url : String)
      → env.web_search_url ≡ some url
      → IsDispatchable env (search_with env request servers false none entry url)
  search_with-IsDispatchable servers entry url at =
      if_cases (IsDispatchable env) (any_server servers) (refused 400) _ (λ e. tt)
        (λ no_server.
          if_cases (IsDispatchable env) env.hybrid_mode _ _
            (λ hybrid. search_hybrid-IsDispatchable servers entry url no_server at hybrid)
            (λ e. search-IsDispatchable env request servers url entry none no_server at (inl refl)))

  search_step-IsDispatchable :
      (servers : Option (List McpServerConfig)) (entry : Option Fields) (url : Option String)
      → env.web_search_url ≡ url
      → IsDispatchable env (search_step env request servers false none entry url)
  search_step-IsDispatchable servers none url at = plain-IsDispatchable env request servers
  search_step-IsDispatchable servers (some entry) none at = tt
  search_step-IsDispatchable servers (some entry) (some url) at =
      search_with-IsDispatchable servers entry url at

  -- A search next to the sandbox is refused.
  search_beside-IsDispatchable :
      (servers : Option (List McpServerConfig)) (url : String) (entry : Fields)
      (token : Option String) (search_entry : Option Fields) (search_url : Option String)
      → any_server servers ≡ false
      → env.sandbox_url ≡ some url
      → (after_sandbox env request).0 ≡ some entry
      → TokenIsSafe env url token
      → IsDispatchable env (search_step env request servers true token search_entry search_url)
  search_beside-IsDispatchable servers url entry token none search_url no_server at given safe =
      sandbox-IsDispatchable env request servers url entry token no_server at given safe
  search_beside-IsDispatchable servers url entry token (some e) none no_server at given safe = tt
  search_beside-IsDispatchable servers url entry token (some e) (some u) no_server at given safe =
      tt

  sandbox_step-IsDispatchable :
      (servers : Option (List McpServerConfig)) (entry : Option Fields) (url : Option String)
      → (after_sandbox env request).0 ≡ entry
      → env.sandbox_url ≡ url
      → IsDispatchable env (sandbox_step env request servers entry url)
  sandbox_step-IsDispatchable servers none url given at =
      search_step-IsDispatchable servers (after_search env request).0 env.web_search_url refl
  sandbox_step-IsDispatchable servers (some entry) none given at = tt
  sandbox_step-IsDispatchable servers (some entry) (some url) given at =
      let beside =
        λ (token : Option String) (no_server : any_server servers ≡ false)
            (safe : TokenIsSafe env url token).
          search_beside-IsDispatchable servers url entry token (after_search env request).0
            env.web_search_url no_server at given safe in
      if_cases (IsDispatchable env) (any_server servers) (refused 400) _ (λ e. tt)
        (λ no_server.
          if_cases (IsDispatchable env) env.hybrid_mode _ _
            (λ hybrid.
              with_user_token-IsDispatchable env request env.user_token
                (λ user_token.
                  with_token env request
                    (web_search_url_targets_platform env.urlparse url env.base_url)
                    (some user_token)
                    (λ token.
                      search_step env request servers true token (after_search env request).0
                        env.web_search_url))
                (λ user_token.
                  with_token-IsDispatchable env request url (some user_token) _ _ refl hybrid
                    (λ token safe. beside token no_server safe)))
            (λ e. beside none no_server (inl refl)))

  after_servers-IsDispatchable :
      (answer : Resolved (List McpServerConfig))
      → IsDispatchable env (after_servers env request answer)
  after_servers-IsDispatchable (resolved more) =
      sandbox_step-IsDispatchable _ (after_sandbox env request).0 env.sandbox_url refl refl
  after_servers-IsDispatchable (rejected e) = tt
  after_servers-IsDispatchable fails = tt

  servers_step-IsDispatchable : IsDispatchable env (servers_step env request)
  servers_step-IsDispatchable =
      if_holds (IsDispatchable env) (any_id request.mcp_server_ids) _ _
        (if_holds (IsDispatchable env) env.hybrid_mode _ (refused 400)
          (with_user_token-IsDispatchable env request env.user_token
            (λ user_token.
              after_servers env request (env.resolve_mcp_servers user_token request.mcp_server_ids))
            (λ user_token.
              after_servers-IsDispatchable
                (env.resolve_mcp_servers user_token request.mcp_server_ids)))
          tt)
        (sandbox_step-IsDispatchable request.mcp_servers (after_sandbox env request).0
          env.sandbox_url refl refl)

  after_guard-IsDispatchable :
      (guarded : Guarded) → IsDispatchable env (after_guard env request guarded)
  after_guard-IsDispatchable passes = servers_step-IsDispatchable
  after_guard-IsDispatchable (blocked status) = tt
  after_guard-IsDispatchable guard_raised = tt

  -- A context that is prepared asks for at most one backend and at most 25 iterations, no assertion
  -- of the dispatch fails on it, and the token that its backend is given, if any, is given in hybrid
  -- mode and goes to a URL of the platform; a request that is refused releases its reservation, and
  -- otherwise the world stays as it was.
  pub prepare_gateway_tools-IsDispatchable :
      (ctx : RequestContext) (guarded : Guarded) (w : World)
      → let (tooled, w') = prepare_gateway_tools env request ctx guarded w in
        IsDispatchable env tooled
        × (w' ≡ elim tooled [ refused status ↦ release_reservation ctx w | _ ↦ w ])
  unfolding prepare_gateway_tools
  prepare_gateway_tools-IsDispatchable ctx guarded w =
      go (after_guard env request guarded) (after_guard-IsDispatchable guarded)
    where
      go :
          (t : Tooled)
          → IsDispatchable env t
          → let (tooled, w') = released env request ctx t w in
            IsDispatchable env tooled
            × (w' ≡ elim tooled [ refused status ↦ release_reservation ctx w | _ ↦ w ])
      go (ready context) h = (h, refl)
      go (refused status) h = (tt, refl)
      go raised h = (tt, refl)
