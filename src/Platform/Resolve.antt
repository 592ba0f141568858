-- ===== src/Platform/Resolve.antt =====
-- The questions to the platform, otari/src/gateway/api/routes/_platform.py:
-- `_extract_platform_user_token`, `_split_model_selector`, `_platform_url` and two of the
-- `_resolve_platform_...`. Timeouts and the gateway's own token are left out of a request.
use mozilla_ai.Common.{
  ℕ, zero, suc, String, Option, none, some, [], ◌∷◌, ◌==◌, if◌then◌else◌, str_eq, string_eq,
}
use mozilla_ai.Platform.{ResolvedRoute, HttpException}
use mozilla_ai.Platform.Errors.{one_of, http_exception}
use mozilla_ai.Platform.Origin.{rstrip_slash, starts_with}
use mozilla_ai.Platform.Payload.{
  Json, Fields, no_fields, field, text, object, get, Conversions, parse_resolve_payload, ◌>>=◌,
}
use mozilla_ai.Selector.{colon, slash, split_once}
use Prim.Native.String.{◌++◌ as append}
use Prim.Native.Char.{code}

-- a response: its status, its body where that is JSON, and its header `Retry-After`
pub record Response : Type 0 where
  pub status_code : ℕ
  pub json : Option Json
  pub retry_after : Option String

-- a POST to the platform
pub record Request : Type 0 where
  pub url : String
  pub user_token : String
  pub body : Fields

-- how it ends: a timeout or a network error, another exception, or a response
pub data Posted : Type 0 where
  unavailable : Posted
  post_raised : Posted
  response : Response → Posted

-- an HTTPException, or an exception of another class
pub data Resolved (A : Type 0) : Type 0 where
  resolved : A → Resolved A
  rejected : HttpException → Resolved A
  fails : Resolved A

abbrev pub missing_token : Resolved String
missing_token = rejected (http_exception 401 "Missing authentication token")

-- `auth_header[7:].strip()` where the header starts with "Bearer "; `strip` is an argument
abbrev pub drop : ℕ → String → String
drop zero s = s
drop (suc n) String.[] = ""
drop (suc n) (String.◌∷◌ c s) = drop n s

abbrev pub token_or_missing : String → Resolved String
token_or_missing token = if str_eq token "" then missing_token else resolved token

unfoldable pub extract_platform_user_token : (String → String) → Option String → Resolved String
extract_platform_user_token strip none = missing_token
extract_platform_user_token strip (some auth_header) =
    if starts_with auth_header "Bearer "
    then token_or_missing (strip (drop 7 auth_header))
    else missing_token

abbrev pub or_none : String → Option String
or_none s = if str_eq s "" then none else some s

abbrev pub split_slash : String → Option (String × String) → Option String × String
split_slash selector none = (none, selector)
split_slash selector (some (provider, model_name)) = (or_none provider, model_name)

abbrev pub split_colon : String → Option (String × String) → Option String × String
split_colon selector none = split_slash selector (split_once slash selector)
split_colon selector (some (provider, model_name)) = (or_none provider, model_name)

unfoldable pub split_model_selector : String → Option String × String
split_model_selector selector = split_colon selector (split_once colon selector)

-- `s.lstrip("/")`
abbrev pub lstrip_slash : String → String
lstrip_slash String.[] = ""
lstrip_slash (String.◌∷◌ c s) =
    let rest = lstrip_slash s in if code c == slash then rest else String.◌∷◌ c s

unfoldable pub platform_url : String → String → String
platform_url base_url path = append (append (rstrip_slash base_url) "/") (lstrip_slash path)

abbrev pub text_or : String → Option Json → String
text_or fallback none = fallback
text_or fallback (some (text s)) = s
text_or fallback (some _) = fallback

abbrev pub detail_of : String → Option Json → String
detail_of fallback none = fallback
detail_of fallback (some (object fields)) = text_or fallback (get "detail" fields)
detail_of fallback (some _) = fallback

unfoldable pub safe_detail_from_platform : Response → String → String
safe_detail_from_platform r fallback = detail_of fallback r.json

-- an empty header is not passed on
abbrev pub if_given : Option String → Option String
if_given none = none
if_given (some s) = or_none s

abbrev pub unavailable_answer : HttpException
unavailable_answer = http_exception 502 "Authorization service unavailable"

-- the answers to the other statuses than 200
abbrev pub not_ok : String → Response → HttpException
not_ok fallback r =
    if one_of (401 ∷ 402 ∷ 403 ∷ 404 ∷ 429 ∷ []) r.status_code
    then record {
      status_code = r.status_code;
      detail = safe_detail_from_platform r fallback;
      retry_after = if r.status_code == 429 then if_given r.retry_after else none;
    }
    else unavailable_answer

module _ {A : Type 0} where
  abbrev pub or_fails : Option A → Resolved A
  or_fails none = fails
  or_fails (some a) = resolved a

  -- `response.json()` raises where the body is no JSON
  abbrev pub on_response : String → (Json → Option A) → Posted → Resolved A
  on_response fallback parse unavailable = rejected unavailable_answer
  on_response fallback parse post_raised = fails
  on_response fallback parse (response r) =
      if r.status_code == 200 then or_fails (r.json >>= parse) else rejected (not_ok fallback r)

  abbrev pub if_configured : Option String → (String → Resolved A) → Resolved A
  if_configured none go_on = rejected (http_exception 500 "Hybrid mode is misconfigured")
  if_configured (some base_url) go_on =
      if str_eq base_url ""
      then rejected (http_exception 500 "Hybrid mode is misconfigured")
      else go_on base_url

abbrev pub resolve_body : Option String × String → Fields
resolve_body (none, model_name) = field "model" (text model_name) no_fields
resolve_body (some provider, model_name) =
    field "model" (text model_name) (field "provider" (text provider) no_fields)

abbrev pub credentials_request : String → String → String → Request
credentials_request url user_token selector = record {
  url = platform_url url "/gateway/provider-keys/resolve";
  user_token = user_token;
  body = resolve_body (split_model_selector selector);
}

unfoldable pub resolve_platform_credentials :
    Conversions → (Request → Posted) → Option String → String → String → Resolved ResolvedRoute
resolve_platform_credentials python post base_url user_token selector =
    if_configured base_url (λ url.
      on_response "Authorization request rejected" (parse_resolve_payload python)
        (post (credentials_request url user_token selector)))

-- `payload if isinstance(payload, dict) else {}`
abbrev pub as_object : Json → Option Fields
as_object (object fields) = some fields
as_object _ = some no_fields

abbrev pub web_search_request : String → String → Request
web_search_request url user_token = record {
  url = platform_url url "/gateway/web-search/resolve";
  user_token = user_token;
  body = no_fields;
}

unfoldable pub resolve_platform_web_search :
    (Request → Posted) → Option String → String → Resolved Fields
resolve_platform_web_search post base_url user_token = if_configured base_url (λ url.
    on_response "Web search resolution failed" as_object (post (web_search_request url user_token)))
