-- ===== src/UrlSafety/Tests.antt =====
-- The checks on a host whose resolver knows one public and one private name.
use mozilla_ai.Common.{◌≡◌, refl, true, false, none, some, [], ◌∷◌, str_eq, if◌then◌else◌}
use mozilla_ai.UrlSafety.{
  Host, Address, accepted, rejected, blocked, private_range, validate_mcp_url,
  validate_outbound_fetch_url, allow_private_hosts, allow_web_search_private_hosts, otari_env,
  allow_loopback, addresses, resolve_all, blocked_reason,
}
use mozilla_ai.Common.Text.{lower}
use mozilla_ai.UrlSafety.Accepted.{validate_mcp_url-IsSafe, IsSafe}

abbrev public : Address
public = record {
  is_unspecified = false;
  is_loopback = false;
  is_link_local = false;
  is_multicast = false;
  is_private = false;
  is_reserved = false;
}

-- a URL is its hostname here, under https
abbrev host : Host
host = record {
  environ = λ name. none;
  urlparse = λ url. some (record { scheme = "HTTPS"; hostname = some url });
  ip_address = λ text.
      if str_eq text "1.1.1.1"
      then some public
      else if str_eq text "10.0.0.1"
      then some (record public { is_private = true })
      else none;
  getaddrinfo = λ name.
      if str_eq name "inside" then some ("1.1.1.1" ∷ "10.0.0.1" ∷ []) else some ("1.1.1.1" ∷ []);
}

public_name : validate_mcp_url host "outside" true ≡ accepted
unfolding validate_mcp_url allow_private_hosts allow_loopback otari_env addresses resolve_all
    blocked_reason lower
public_name = refl

public_result : validate_outbound_fetch_url host "outside" ≡ accepted
unfolding validate_outbound_fetch_url allow_web_search_private_hosts otari_env addresses resolve_all
    blocked_reason lower
public_result = refl

search_is_strict : allow_web_search_private_hosts host ≡ false
unfolding allow_web_search_private_hosts otari_env lower
search_is_strict = refl

one_private_address : validate_mcp_url host "inside" true ≡ rejected (blocked private_range)
unfolding validate_mcp_url allow_private_hosts allow_loopback otari_env addresses resolve_all
    blocked_reason lower
one_private_address = refl

validate_mcp_url-IsSafe_example : IsSafe host "outside" true
validate_mcp_url-IsSafe_example = validate_mcp_url-IsSafe host "outside" true public_name
