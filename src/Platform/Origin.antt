-- ===== src/Platform/Origin.antt =====
-- `_normalized_origin` and `web_search_url_targets_platform` of
-- otari/src/gateway/api/routes/_pipeline.py; none where `urlparse` or the port of a URL raises.
use mozilla_ai.Common.{
  ℕ, String, Bool, true, false, ◌&&◌, ◌||◌, Option, none, some, ◌==◌, if◌then◌else◌, str_eq,
  string_eq,
}
use mozilla_ai.Selector.{slash}
use Prim.Native.String.{◌++◌ as append}
use Prim.Native.Char.{code}

-- the port of a parsed URL; a bad one raises when it is read
pub data Port : Type 0 where
  no_port : Port
  port : ℕ → Port
  bad_port : Port

pub record ParseResult : Type 0 where
  pub scheme : String
  pub hostname : Option String
  pub port : Port
  pub path : String

pub record Origin : Type 0 where
  pub scheme : String
  pub hostname : Option String
  pub port : Option ℕ

abbrev pub default_port : String → Option ℕ
default_port scheme =
    if str_eq scheme "http" then some 80 else if str_eq scheme "https" then some 443 else none

abbrev pub port_of : String → Port → Option (Option ℕ)
port_of scheme no_port = some (default_port scheme)
port_of scheme (port n) = some (some n)
port_of scheme bad_port = none

abbrev pub origin_with : ParseResult → Option (Option ℕ) → Option Origin
origin_with parsed none = none
origin_with parsed (some p) =
    some (record { scheme = parsed.scheme; hostname = parsed.hostname; port = p })

unfoldable pub normalized_origin : ParseResult → Option Origin
normalized_origin parsed = origin_with parsed (port_of parsed.scheme parsed.port)

abbrev pub same_hostname : Option String → Option String → Bool
same_hostname none none = true
same_hostname (some a) (some b) = str_eq a b
same_hostname _ _ = false

abbrev pub same_port : Option ℕ → Option ℕ → Bool
same_port none none = true
same_port (some a) (some b) = a == b
same_port _ _ = false

abbrev pub same_origin : Origin → Origin → Bool
same_origin a b =
    str_eq a.scheme b.scheme && same_hostname a.hostname b.hostname && same_port a.port b.port

-- `s.rstrip("/")`
abbrev pub rstrip_slash : String → String
rstrip_slash String.[] = ""
rstrip_slash (String.◌∷◌ c s) =
    let rest = rstrip_slash s in if str_eq rest "" && code c == slash then "" else String.◌∷◌ c rest

abbrev pub starts_with : String → String → Bool
starts_with s String.[] = true
starts_with String.[] (String.◌∷◌ d t) = false
starts_with (String.◌∷◌ c s) (String.◌∷◌ d t) = code c == code d && starts_with s t

abbrev pub is_under : String → String → Bool
is_under path base_path = str_eq path base_path || starts_with path (append base_path "/")

abbrev pub targets : ParseResult → ParseResult → Option Origin → Option Origin → Option Bool
targets base target none of_base = none
targets base target (some a) none = none
targets base target (some a) (some b) =
    if same_origin a b then some (is_under target.path (rstrip_slash base.path)) else some false

abbrev pub targets_parsed : Option ParseResult → Option ParseResult → Option Bool
targets_parsed none target = none
targets_parsed (some base) none = none
targets_parsed (some base) (some target) =
    targets base target (normalized_origin target) (normalized_origin base)

-- `urlparse` is an argument, none where it raises
unfoldable pub web_search_url_targets_platform :
    (String → Option ParseResult) → String → Option String → Option Bool
web_search_url_targets_platform urlparse web_search_url none = some false
web_search_url_targets_platform urlparse web_search_url (some platform_base_url) =
    if str_eq platform_base_url ""
    then some false
    else targets_parsed (urlparse platform_base_url) (urlparse web_search_url)
