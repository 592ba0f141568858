-- ===== src/UrlSafety/Agreement.antt =====
-- How the check of search results stands to that of MCP servers.
use mozilla_ai.Common.{
  String, ◌≡◌, refl, ◌⊎◌, inl, inr, Bool, false, Option, none, some, List, [], ◌∷◌, arith,
  Bool-cases, string_eq,
}
use mozilla_ai.UrlSafety.{
  Reason, Host, Address, Parsed, Verdict, accepted, rejected, blocked_reason, check_each,
  check_addresses, check_hostname, allow_private_hosts, allow_web_search_private_hosts,
  loopback_exempt, addresses, validate_mcp_url, validate_outbound_fetch_url, fetch_parsed,
  reject_for, no_exemption, mcp_parsed, https_required,
}

module _ (host : Host) where
  reject_for-weaker :
      (r : Option Reason) (rest : Verdict) → reject_for host r rest ≡ accepted → rest ≡ accepted
  reject_for-weaker none rest h = h
  reject_for-weaker (some r) rest h = ground (arith, h)

  check_each-weaker :
      (exempt : Address → Bool) (addrs : List Address)
      → check_each host (no_exemption host) addrs ≡ accepted
      → check_each host exempt addrs ≡ accepted
  check_each-weaker exempt [] h = refl
  check_each-weaker exempt (addr ∷ addrs) h =
      let rest = check_each-weaker exempt addrs (reject_for-weaker (blocked_reason addr) _ h) in
      elim (Bool-cases (exempt addr)) [
        | inl e ↦ rw e rest
        | inr e ↦ rw (e, rest) (rw (reject_for-weaker (blocked_reason addr) _ h) at h)
      ]

  check_addresses-weaker :
      (exempt : Address → Bool) (addrs : List Address)
      → check_addresses host (no_exemption host) addrs ≡ accepted
      → check_addresses host exempt addrs ≡ accepted
  check_addresses-weaker exempt [] h = h
  check_addresses-weaker exempt (addr ∷ addrs) h = check_each-weaker exempt (addr ∷ addrs) h

  check_hostname-weaker :
      (allow : Bool) (exempt : Address → Bool) (hostname : Option String)
      → check_hostname host false (no_exemption host) hostname ≡ accepted
      → check_hostname host allow exempt hostname ≡ accepted
  check_hostname-weaker allow exempt none h = h
  check_hostname-weaker allow exempt (some name) h =
      ground (arith, h, check_addresses-weaker exempt (addresses host name))

  fetch_parsed-weaker :
      (p : Option Parsed) (token : Bool)
      → allow_web_search_private_hosts host ≡ false
      → fetch_parsed host p ≡ accepted
      → (mcp_parsed host p token ≡ accepted) ⊎ (mcp_parsed host p token ≡ rejected https_required)
  fetch_parsed-weaker none token off h = ground (arith, h)
  fetch_parsed-weaker (some p) token off h =
      let hostname =
        check_hostname-weaker (allow_private_hosts host) (loopback_exempt host) p.hostname in
      ground (arith, h, off, hostname)

  -- Where private hosts are not allowed for search results, a URL that is accepted as a search result
  -- is accepted as that of an MCP server too, under every setting of the MCP switches, unless it is
  -- refused for a token over http.
  pub outbound_is_stricter :
      (url : String) (has_authorization_token : Bool)
      → allow_web_search_private_hosts host ≡ false
      → validate_outbound_fetch_url host url ≡ accepted
      → (validate_mcp_url host url has_authorization_token ≡ accepted)
        ⊎ (validate_mcp_url host url has_authorization_token ≡ rejected https_required)
  unfolding validate_outbound_fetch_url validate_mcp_url
  outbound_is_stricter url token off h = fetch_parsed-weaker (host.urlparse url) token off h
