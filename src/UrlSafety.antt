-- ===== src/UrlSafety.antt =====
-- The checks of otari/src/gateway/services/url_safety.py before the gateway fetches a URL, with
-- `otari_env` of otari/src/gateway/core/env.py. The parser of URLs, that of addresses, the resolver
-- and the environment are arguments; an address is what `ipaddress` says of it.
pub mod Accepted
pub mod Agreement
mod Tests
use mozilla_ai.Common.{
  String, Bool, true, false, not, ◌&&◌, ◌||◌, Option, none, some, List, [], ◌∷◌, if◌then◌else◌,
  str_eq,
}
use mozilla_ai.Common.Text.{codes, same, lower}
use Prim.Native.String.{◌++◌ as append}

pub record Parsed : Type 0 where
  pub scheme : String
  pub hostname : Option String

-- an address of `ipaddress`, by the flags that are read
pub record Address : Type 0 where
  pub is_unspecified : Bool
  pub is_loopback : Bool
  pub is_link_local : Bool
  pub is_multicast : Bool
  pub is_private : Bool
  pub is_reserved : Bool

pub data Reason : Type 0 where
  unspecified : Reason
  loopback : Reason
  link_local : Reason
  multicast : Reason
  private_range : Reason
  reserved_range : Reason

-- `UnsafeURLError` by its message, with the ValueError of `urlparse` in front
pub data UnsafeUrlError : Type 0 where
  unparsable : UnsafeUrlError
  bad_scheme : UnsafeUrlError
  https_required : UnsafeUrlError
  no_hostname : UnsafeUrlError
  unresolved : UnsafeUrlError
  blocked : Reason → UnsafeUrlError

pub data Verdict : Type 0 where
  accepted : Verdict
  rejected : UnsafeUrlError → Verdict

pub record Host : Type 0 where
  pub environ : String → Option String
  pub urlparse : String → Option Parsed
  pub ip_address : String → Option Address
  -- the texts of the addresses, none for a `gaierror`
  pub getaddrinfo : String → Option (List String)

-- `_blocked_reason`
unfoldable pub blocked_reason : Address → Option Reason
blocked_reason addr =
    if addr.is_unspecified
    then some unspecified
    else if addr.is_loopback
    then some loopback
    else if addr.is_link_local
    then some link_local
    else if addr.is_multicast
    then some multicast
    else if addr.is_private
    then some private_range
    else if addr.is_reserved
    then some reserved_range
    else none

abbrev is_one_of : String → List String → Bool
is_one_of s [] = false
is_one_of s (t ∷ ts) = same (lower (codes s)) (codes t) || is_one_of s ts

module _ (host : Host) where
  abbrev first_set : Option String → String → String
  first_set none default = default
  first_set (some value) default = value

  -- `otari_env` with a default
  unfoldable pub otari_env : String → String → String
  otari_env suffix default =
      first_set (host.environ (append "OTARI_" suffix))
        (first_set (host.environ (append "GATEWAY_" suffix)) default)

  unfoldable pub allow_loopback : Bool
  allow_loopback =
      not (is_one_of (otari_env "MCP_ALLOW_LOOPBACK" "true") ("0" ∷ "false" ∷ "no" ∷ []))

  unfoldable pub allow_private_hosts : Bool
  allow_private_hosts =
      is_one_of (otari_env "MCP_ALLOW_PRIVATE_HOSTS" "false") ("1" ∷ "true" ∷ "yes" ∷ [])

  unfoldable pub allow_web_search_private_hosts : Bool
  allow_web_search_private_hosts =
      is_one_of (otari_env "WEB_SEARCH_ALLOW_PRIVATE_HOSTS" "false") ("1" ∷ "true" ∷ "yes" ∷ [])

  -- the texts that are addresses
  abbrev addresses_of : List String → List Address
  addresses_of [] = []
  addresses_of (text ∷ texts) = elim (host.ip_address text) [
    | none ↦ addresses_of texts
    | some addr ↦ addr ∷ addresses_of texts
  ]

  -- `_resolve_all`, and `_resolve_all_async` but for the event loop
  unfoldable pub resolve_all : String → List Address
  resolve_all name = elim (host.getaddrinfo name) [ none ↦ [] | some infos ↦ addresses_of infos ]

  -- a literal address, or what the name resolves to
  unfoldable pub addresses : String → List Address
  addresses name = elim (host.ip_address name) [
    | none ↦ resolve_all name
    | some literal ↦ literal ∷ []
  ]

  abbrev pub is_http : Parsed → Bool
  is_http parsed = same (lower (codes parsed.scheme)) (codes "http")

  abbrev pub is_https : Parsed → Bool
  is_https parsed = same (lower (codes parsed.scheme)) (codes "https")

  abbrev pub reject_for : Option Reason → Verdict → Verdict
  reject_for none rest = rest
  reject_for (some reason) rest = rejected (blocked reason)

  -- the loop over the addresses; `exempt` tells those that are passed over
  abbrev pub check_each : (Address → Bool) → List Address → Verdict
  check_each exempt [] = accepted
  check_each exempt (addr ∷ addrs) =
      let rest = check_each exempt addrs in
      if exempt addr then rest else reject_for (blocked_reason addr) rest

  abbrev pub check_addresses : (Address → Bool) → List Address → Verdict
  check_addresses exempt [] = rejected unresolved
  check_addresses exempt (addr ∷ addrs) = check_each exempt (addr ∷ addrs)

  -- from the hostname on, which both checks share but for their switch and exemption
  abbrev pub check_hostname : Bool → (Address → Bool) → Option String → Verdict
  check_hostname allow exempt none = rejected no_hostname
  check_hostname allow exempt (some name) =
      if str_eq name ""
      then rejected no_hostname
      else if allow
      then accepted
      else check_addresses exempt (addresses name)

  abbrev pub loopback_exempt : Address → Bool
  loopback_exempt addr = addr.is_loopback && allow_loopback

  abbrev pub mcp_parsed : Option Parsed → Bool → Verdict
  mcp_parsed none has_authorization_token = rejected unparsable
  mcp_parsed (some parsed) has_authorization_token =
      if not (is_http parsed || is_https parsed)
      then rejected bad_scheme
      else if is_http parsed && has_authorization_token
      then rejected https_required
      else check_hostname allow_private_hosts loopback_exempt parsed.hostname

  unfoldable pub validate_mcp_url : String → Bool → Verdict
  validate_mcp_url url has_authorization_token =
      mcp_parsed (host.urlparse url) has_authorization_token

  abbrev pub no_exemption : Address → Bool
  no_exemption addr = false

  abbrev pub fetch_parsed : Option Parsed → Verdict
  fetch_parsed none = rejected unparsable
  fetch_parsed (some parsed) =
      if not (is_http parsed || is_https parsed)
      then rejected bad_scheme
      else check_hostname allow_web_search_private_hosts no_exemption parsed.hostname

  unfoldable pub validate_outbound_fetch_url : String → Verdict
  validate_outbound_fetch_url url = fetch_parsed (host.urlparse url)
