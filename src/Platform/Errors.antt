-- ===== src/Platform/Errors.antt =====
-- How an exception of a provider is classified: `_upstream_status_code` and `classify_provider_error`
-- of otari/src/gateway/api/routes/_pipeline.py, `_classify_upstream_error` and
-- `_provider_failure_http_exc` of otari/src/gateway/api/routes/_platform.py.
use mozilla_ai.Common.{
  ℕ, String, Bool, true, false, ◌&&◌, ◌||◌, Option, none, some, List, [], ◌∷◌, leb, ◌==◌,
  if◌then◌else◌, string_eq,
}
use mozilla_ai.Platform.{HttpException}

-- a value of `status_code`: None or absent, an integer, or something else
pub data Attribute : Type 0 where
  absent : Attribute
  status_int : ℕ → Attribute
  no_integer : Attribute

-- a timeout of asyncio, of Python or of httpx, a network error of httpx, or another class, also that
-- of a cancellation
pub data Class : Type 0 where
  timeout : Class
  network : Class
  plain : Class

-- `response_status` is the `status_code` of its `response`, absent where it has none
pub record Upstream : Type 0 where
  pub class : Class
  pub status_code : Attribute
  pub response_status : Attribute

-- `f"http_{status_code}"` is `http status_code`
pub data ErrorClass : Type 0 where
  timed_out : ErrorClass
  conn_err : ErrorClass
  http : ℕ → ErrorClass
  unknown : ErrorClass

abbrev pub one_of : List ℕ → ℕ → Bool
one_of [] n = false
one_of (m ∷ ms) n = n == m || one_of ms n

abbrev pub status_value : Attribute → Attribute → Attribute
status_value absent response = response
status_value (status_int n) response = status_int n
status_value no_integer response = no_integer

abbrev pub as_integer : Attribute → Option ℕ
as_integer absent = none
as_integer (status_int n) = some n
as_integer no_integer = none

abbrev pub upstream_status_code : Upstream → Option ℕ
upstream_status_code exc = as_integer (status_value exc.status_code exc.response_status)

abbrev pub provider_error_detail : String
provider_error_detail = "LLM provider error"

abbrev pub provider_timeout_detail : String
provider_timeout_detail = "LLM provider timeout"

abbrev pub provider_bad_request_detail : String
provider_bad_request_detail =
    "The provider rejected the request as invalid (check the model name and parameters)"

abbrev pub provider_model_not_found_detail : String
provider_model_not_found_detail = "The requested model was not found on the provider"

abbrev pub provider_credentials_detail : String
provider_credentials_detail = "The provider rejected the gateway's credentials"

abbrev pub provider_rate_limited_detail : String
provider_rate_limited_detail = "The provider rate-limited this request"

abbrev pub all_providers_failed_detail : String
all_providers_failed_detail = "All upstream providers failed"

abbrev pub all_providers_timed_out_detail : String
all_providers_timed_out_detail = "All upstream providers timed out"

abbrev pub http_exception : ℕ → String → HttpException
http_exception code detail = record { status_code = code; detail = detail; retry_after = none }

abbrev pub mapping_of : ℕ → Option (ℕ × String)
mapping_of code =
    if one_of (400 ∷ 422 ∷ []) code
    then some (400, provider_bad_request_detail)
    else if code == 404
    then some (404, provider_model_not_found_detail)
    else if one_of (401 ∷ 403 ∷ []) code
    then some (502, provider_credentials_detail)
    else if code == 429
    then some (429, provider_rate_limited_detail)
    else none

abbrev pub mapping_if_any : Option ℕ → Option (ℕ × String)
mapping_if_any none = none
mapping_if_any (some code) = mapping_of code

-- by the class first
abbrev pub classify_by : Class → Option ℕ → Option (ℕ × String)
classify_by timeout code = some (504, provider_timeout_detail)
classify_by network code = mapping_if_any code
classify_by plain code = mapping_if_any code

unfoldable pub classify_provider_error : Upstream → Option (ℕ × String)
classify_provider_error exc = classify_by exc.class (upstream_status_code exc)

abbrev pub fallback_non_retryable_status_codes : List ℕ
fallback_non_retryable_status_codes = 400 ∷ 422 ∷ []

abbrev pub fallback_retryable_status_codes : List ℕ
fallback_retryable_status_codes =
    401 ∷ 403 ∷ 404 ∷ 405 ∷ 408 ∷ 409 ∷ 410 ∷ 429 ∷ 500 ∷ 502 ∷ 503 ∷ 504 ∷ []

abbrev pub classify_status : Option ℕ → Bool × ErrorClass
classify_status none = (false, unknown)
classify_status (some code) =
    if one_of fallback_non_retryable_status_codes code
    then (false, http code)
    else if one_of fallback_retryable_status_codes code || (leb 500 code && leb code 599)
    then (true, http code)
    else (false, http code)

abbrev pub classify_upstream : Class → Option ℕ → Bool × ErrorClass
classify_upstream timeout code = (true, timed_out)
classify_upstream network code = (true, conn_err)
classify_upstream plain code = classify_status code

-- whether the next attempt may be tried, and the class that is reported
unfoldable pub classify_upstream_error : Upstream → Bool × ErrorClass
classify_upstream_error exc = classify_upstream exc.class (upstream_status_code exc)

abbrev pub or_bad_gateway : String → Option (ℕ × String) → HttpException
or_bad_gateway fallback_detail none = http_exception 502 fallback_detail
or_bad_gateway fallback_detail (some (code, detail)) = http_exception code detail

unfoldable pub provider_failure_http_exc : Upstream → String → HttpException
provider_failure_http_exc exc fallback_detail =
    or_bad_gateway fallback_detail (classify_provider_error exc)
