-- ===== src/Platform/Report.antt =====
-- `_report_platform_usage` of otari/src/gateway/api/routes/_platform.py. A post is known by how many
-- went before it. A delay counts quarters of a second; `usage_max_retries` below 0 counts as 0.
use mozilla_ai.Common.{
  ℕ, zero, suc, ◌+◌, ◌*◌, String, Bool, true, false, ◌||◌, Option, none, some, List, [], ◌∷◌, leb,
  ◌==◌, if◌then◌else◌, str_eq, string_eq,
}
use mozilla_ai.Platform.Errors.{ErrorClass, one_of}
use mozilla_ai.Streaming.{CompletionUsage}
use mozilla_ai.Pipeline.{Tokens, tokens_of}

-- how a post ends: a response of a status, a timeout or a network error, or an exception of another class
pub data Posted : Type 0 where
  responded : ℕ → Posted
  unreachable : Posted
  post_raised : Posted

pub record UsagePayload : Type 0 where
  pub correlation_id : String
  pub status : String
  pub usage : Option Tokens
  pub error_class : Option ErrorClass

-- the posts that were made, the sleeps between them, and whether an exception goes through
pub record Reported : Type 0 where
  pub posts : ℕ
  pub delays : List ℕ
  pub raised : Bool

abbrev pub usage_non_retryable_status_codes : List ℕ
usage_non_retryable_status_codes = 401 ∷ 402 ∷ 404 ∷ 409 ∷ 422 ∷ []

abbrev no_usage : Tokens
no_usage = record {
  prompt_tokens = 0;
  completion_tokens = 0;
  total_tokens = 0;
  cache_read_tokens = 0;
  cache_write_tokens = 0;
}

abbrev pub token_usage : Option CompletionUsage → Tokens
token_usage none = no_usage
token_usage (some usage) = tokens_of usage

unfoldable pub usage_payload :
    String → String → Option CompletionUsage → Option ErrorClass → UsagePayload
usage_payload correlation_id outcome usage error_class =
    if str_eq outcome "success"
    then record {
      correlation_id = correlation_id;
      status = outcome;
      usage = some (token_usage usage);
      error_class = none;
    }
    else record {
      correlation_id = correlation_id;
      status = outcome;
      usage = none;
      error_class = error_class;
    }

abbrev pub stopped : Bool → Reported
stopped raised = record { posts = 1; delays = []; raised = raised }

-- the last of `range(1, max_retries + 1)` is not followed by a sleep
abbrev pub retry : ℕ → ℕ → Reported → Reported
retry zero delay rest = stopped false
retry (suc left) delay rest = record {
  posts = suc rest.posts;
  delays = delay ∷ rest.delays;
  raised = rest.raised;
}

abbrev pub after_post : Posted → ℕ → ℕ → Reported → Reported
after_post (responded code) left delay rest =
    if code == 204 || one_of usage_non_retryable_status_codes code
    then stopped false
    else if leb 500 code
    then retry left delay rest
    else stopped false
after_post unreachable left delay rest = retry left delay rest
after_post post_raised left delay rest = stopped true

module _ (post : ℕ → UsagePayload → Posted) (payload : UsagePayload) where
  -- the attempts that are left, after `made` posts
  abbrev pub attempts : ℕ → ℕ → ℕ → Reported
  attempts zero made delay = record { posts = 0; delays = []; raised = false }
  attempts (suc left) made delay =
      let rest = attempts left (made + 1) (delay * 2) in
      after_post (post made payload) left delay rest

-- nothing is posted without a base URL
abbrev pub if_configured : Option String → Reported → Reported
if_configured none reported = record { posts = 0; delays = []; raised = false }
if_configured (some base_url) reported =
    if str_eq base_url "" then record { posts = 0; delays = []; raised = false } else reported

unfoldable pub report_platform_usage :
    Option String
    → ℕ
    → (ℕ → UsagePayload → Posted)
    → String
    → String
    → Option CompletionUsage
    → Option ErrorClass
    → Reported
report_platform_usage base_url max_retries post correlation_id outcome usage error_class =
    if_configured base_url
      (attempts post (usage_payload correlation_id outcome usage error_class) max_retries 0 1)
