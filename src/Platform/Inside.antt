-- ===== src/Platform/Inside.antt =====
-- What a search URL that gets the platform's token looks like.
use text.Mathlib.TextEquality.{Char-path}
use mozilla_ai.Common.{
  ℕ, String, ◌≡◌, refl, sym, ap, ◌∙◌, ◌≢◌, ◌⊎◌, inl, inr, Bool, true, false, ◌&&◌, Option, none,
  some, arith, if◌then◌else◌, Bool-cases, str_eq, str_eq_iff, string_eq, or_right,
}
use mozilla_ai.Platform.Origin.{
  ParseResult, port_of, origin_with, normalized_origin, same_hostname, same_port, rstrip_slash,
  starts_with, is_under, targets, targets_parsed, web_search_url_targets_platform,
}
use text.Mathlib.TextLemmas.{nil-append, cons-append}
use Prim.Native.String.{◌++◌ as append}
use Prim.Native.Char.{code}

-- the path of the base without its last slashes, alone or followed by a slash and a rest
abbrev pub IsInside : String → String → Type 0
IsInside path base =
    (path ≡ rstrip_slash base)
    ⊎ ((rest : String) × (path ≡ append (append (rstrip_slash base) "/") rest))

-- the same scheme, hostname and port, where a missing port is the default one
abbrev pub HasOriginOf : ParseResult → ParseResult → Type 0
HasOriginOf target base =
    (target.scheme ≡ base.scheme)
    × (target.hostname ≡ base.hostname)
    × (port_of target.scheme target.port ≡ port_of base.scheme base.port)

starts_with-append : (s t : String) → starts_with s t ≡ true → (rest : String) × (s ≡ append t rest)
starts_with-append s String.[] h = (s, sym (nil-append s))
starts_with-append String.[] (String.◌∷◌ d t) h = cc
starts_with-append (String.◌∷◌ c s) (String.◌∷◌ d t) h =
    let same : code c ≡ code d = ground (arith, h) in
    let (rest, e) = starts_with-append s t (ground (arith, h)) in
    (
      rest,
      ap (λ x. String.◌∷◌ x s) (Char-path c d same)
          ∙ (ap (String.◌∷◌ d) e ∙ sym (cons-append d t rest)),
    )

is_under-IsInside :
    (path base : String) → is_under path (rstrip_slash base) ≡ true → IsInside path base
is_under-IsInside path base h = elim (Bool-cases (str_eq path (rstrip_slash base))) [
  | inl e ↦ inl ((str_eq_iff path (rstrip_slash base)).0 e)
  | inr e ↦ inr (starts_with-append path (append (rstrip_slash base) "/") (or_right _ _ h e))
]

same_hostname-path : (a b : Option String) → same_hostname a b ≡ true → a ≡ b
same_hostname-path none none h = refl
same_hostname-path none (some b) h = cc
same_hostname-path (some a) none h = cc
same_hostname-path (some a) (some b) h = ap some ((str_eq_iff a b).0 h)

same_port-path : (a b : Option ℕ) → same_port a b ≡ true → a ≡ b
same_port-path none none h = refl
same_port-path none (some b) h = cc
same_port-path (some a) none h = cc
same_port-path (some a) (some b) h = ap some (ground (arith, h))

both : (a b : Bool) → a && b ≡ true → (a ≡ true) × (b ≡ true)
both true true h = (refl, refl)
both true false h = cc
both false b h = cc

-- Two URLs whose ports are `p` and `q` once the defaults are filled in.
HasOriginOf-ports :
    (target base : ParseResult) (p q : Option ℕ)
    → port_of target.scheme target.port ≡ some p
    → port_of base.scheme base.port ≡ some q
    → str_eq target.scheme base.scheme
        && same_hostname target.hostname base.hostname
        && same_port p q
      ≡ true
    → HasOriginOf target base
HasOriginOf-ports target base p q ep eq h =
    let (names, ports) = both _ _ h in
    let (scheme, hostname) = both _ _ names in
    (
      (str_eq_iff target.scheme base.scheme).0 scheme,
      same_hostname-path target.hostname base.hostname hostname,
      ep ∙ (ap some (same_port-path p q ports) ∙ sym eq),
    )

if_some : (a b : Bool) → (if a then some b else some false) ≡ some true → (a ≡ true) × (b ≡ true)
if_some true true h = (refl, refl)
if_some true false h = cc
if_some false b h = cc

if_false-some :
    (b : Bool) (x : Option Bool)
    → (if b then some false else x) ≡ some true
    → (b ≡ false) × (x ≡ some true)
if_false-some true x h = cc
if_false-some false x h = (refl, h)

targets-HasOriginOf :
    (target base : ParseResult) (p q : Option (Option ℕ))
    → port_of target.scheme target.port ≡ p
    → port_of base.scheme base.port ≡ q
    → targets base target (origin_with target p) (origin_with base q) ≡ some true
    → HasOriginOf target base × IsInside target.path base.path
targets-HasOriginOf target base none q ep eq h = cc
targets-HasOriginOf target base (some p) none ep eq h = cc
targets-HasOriginOf target base (some p) (some q) ep eq h =
    let (origin, under) = if_some _ _ h in
    (HasOriginOf-ports target base p q ep eq origin, is_under-IsInside target.path base.path under)

-- what is asked of a base URL and a target that are parsed, if they are
abbrev pub IsTrusted : Option ParseResult → Option ParseResult → Type 0
IsTrusted none target = ⊥
IsTrusted (some base) none = ⊥
IsTrusted (some base) (some target) = HasOriginOf target base × IsInside target.path base.path

targets_parsed-IsTrusted :
    (base target : Option ParseResult)
    → targets_parsed base target ≡ some true
    → IsTrusted base target
unfolding normalized_origin
targets_parsed-IsTrusted none target h = cc
targets_parsed-IsTrusted (some base) none h = cc
targets_parsed-IsTrusted (some base) (some target) h =
    targets-HasOriginOf target base _ _ refl refl h

-- A search URL that is taken for the platform's, so that its token is sent there, was parsed, as the
-- base URL was, to the same scheme, the same hostname and, with the default ports filled in, the same
-- port, and its path is that of the base without its last slashes, alone or followed by a slash and
-- a rest; and the base URL is given and not empty.
pub web_search_url-IsTrusted :
    (urlparse : String → Option ParseResult) (web_search_url : String) (base_url : Option String)
    → web_search_url_targets_platform urlparse web_search_url base_url ≡ some true
    → (base : String) × (base_url ≡ some base)
      × (base ≢ "")
      × IsTrusted (urlparse base) (urlparse web_search_url)
unfolding web_search_url_targets_platform
web_search_url-IsTrusted urlparse web_search_url none h = cc
web_search_url-IsTrusted urlparse web_search_url (some base) h =
    let (not_empty, trusted) = if_false-some (str_eq base "") _ h in
    (
      base,
      refl,
      ground (arith, str_eq_iff base "", not_empty),
      targets_parsed-IsTrusted (urlparse base) (urlparse web_search_url) trusted,
    )
