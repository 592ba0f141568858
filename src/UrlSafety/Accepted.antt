-- ===== src/UrlSafety/Accepted.antt =====
-- What an accepted URL is known to be.
use mozilla_ai.Common.{
  ◌≡◌, refl, Bool, true, false, ◌||◌, Option, none, some, List, [], ◌∷◌, All, Bool-cases, inl, inr,
  String, ◌⊎◌, str_eq, arith, ◌≢◌, str_eq_iff,
}
use mozilla_ai.UrlSafety.{
  Reason, Host, Address, Parsed, Verdict, accepted, blocked_reason, check_each, check_addresses,
  check_hostname, is_http, is_https, allow_private_hosts, loopback_exempt, addresses,
  validate_mcp_url, reject_for, mcp_parsed,
}

-- no flag of the address is set
pub record IsPublic (addr : Address) : Type 0 where
  specified : addr.is_unspecified ≡ false
  not_loopback : addr.is_loopback ≡ false
  not_link_local : addr.is_link_local ≡ false
  not_multicast : addr.is_multicast ≡ false
  not_private : addr.is_private ≡ false
  not_reserved : addr.is_reserved ≡ false

IsPublic-intro : (addr : Address) → blocked_reason addr ≡ none → IsPublic addr
unfolding blocked_reason
IsPublic-intro addr e = record {
  specified = ground (arith, e);
  not_loopback = ground (arith, e);
  not_link_local = ground (arith, e);
  not_multicast = ground (arith, e);
  not_private = ground (arith, e);
  not_reserved = ground (arith, e);
}

module _ (host : Host) where
  abbrev pub Permitted : (Address → Bool) → Address → Type 0
  Permitted exempt addr = (exempt addr ≡ true) ⊎ IsPublic addr

  reject_for-accepted :
      (addr : Address) (r : Option Reason) (rest : Verdict)
      → blocked_reason addr ≡ r
      → reject_for host r rest ≡ accepted
      → IsPublic addr × (rest ≡ accepted)
  reject_for-accepted addr none rest e h = (IsPublic-intro addr e, h)
  reject_for-accepted addr (some r) rest e h = ground (arith, h)

  check_each-accepted :
      (exempt : Address → Bool) (addrs : List Address)
      → check_each host exempt addrs ≡ accepted
      → All (Permitted exempt) addrs
  check_each-accepted exempt [] h = tt
  check_each-accepted exempt (addr ∷ addrs) h = elim (Bool-cases (exempt addr)) [
    | inl e ↦ (inl e, check_each-accepted exempt addrs (rw e at h))
    | inr e ↦
        let split =
          reject_for-accepted addr (blocked_reason addr) (check_each host exempt addrs) refl
            (rw e at h) in
        (inr split.0, check_each-accepted exempt addrs split.1)
  ]

  -- The addresses of an accepted name: some, each exempt or public.
  check_addresses-accepted :
      (exempt : Address → Bool) (addrs : List Address)
      → check_addresses host exempt addrs ≡ accepted
      → (addrs ≢ []) × All (Permitted exempt) addrs
  check_addresses-accepted exempt [] h = ground (arith, h)
  check_addresses-accepted exempt (addr ∷ addrs) h =
      (ground arith, check_each-accepted exempt (addr ∷ addrs) h)

  pub record NamesPublic (allow : Bool) (exempt : Address → Bool) (hostname : Option String)
      : Type 0 where
    name : String
    named : hostname ≡ some name
    not_empty : name ≢ ""
    checked :
        (allow ≡ true) ⊎ ((addresses host name ≢ []) × All (Permitted exempt) (addresses host name))

  check_hostname-accepted :
      (allow : Bool) (exempt : Address → Bool) (hostname : Option String)
      → check_hostname host allow exempt hostname ≡ accepted
      → NamesPublic allow exempt hostname
  check_hostname-accepted allow exempt none h = ground (arith, h)
  check_hostname-accepted false exempt (some s) h = record {
    name = s;
    named = refl;
    not_empty = λ e.
        let same_name : str_eq s "" ≡ true = (str_eq_iff s "").1 e in ground (arith, h, same_name);
    checked = inr (check_addresses-accepted exempt (addresses host s) (ground (arith, h)));
  }
  check_hostname-accepted true exempt (some s) h = record {
    name = s;
    named = refl;
    not_empty = λ e.
        let same_name : str_eq s "" ≡ true = (str_eq_iff s "").1 e in ground (arith, h, same_name);
    checked = inl refl;
  }

  -- An accepted MCP URL was parsed, its scheme is http or https, and https where a token is sent.
  pub record IsSafe (url : String) (has_authorization_token : Bool) : Type 0 where
    parsed : Parsed
    parses : host.urlparse url ≡ some parsed
    scheme : is_http host parsed || is_https host parsed ≡ true
    token_needs_https : has_authorization_token ≡ true → is_https host parsed ≡ true
    hostname : NamesPublic (allow_private_hosts host) (loopback_exempt host) parsed.hostname

  mcp_parsed-accepted :
      (url : String) (token : Bool) (p : Option Parsed)
      → host.urlparse url ≡ p
      → mcp_parsed host p token ≡ accepted
      → IsSafe url token
  mcp_parsed-accepted url token none e h = ground (arith, h)
  mcp_parsed-accepted url token (some p) e h = record {
    parsed = p;
    parses = e;
    scheme = ground (arith, h);
    token_needs_https = ground (arith, h);
    hostname = check_hostname-accepted _ _ p.hostname (ground (arith, h));
  }

  -- A URL that `validate_mcp_url` accepts was parsed to the scheme http or https, https where a token
  -- is sent, and a hostname that is not empty; and, where private hosts are not allowed, the name
  -- has an address, and each of its addresses is public or, where that is allowed, loopback.
  pub validate_mcp_url-IsSafe :
      (url : String) (has_authorization_token : Bool)
      → validate_mcp_url host url has_authorization_token ≡ accepted
      → IsSafe url has_authorization_token
  unfolding validate_mcp_url
  validate_mcp_url-IsSafe url token h = mcp_parsed-accepted url token (host.urlparse url) refl h
