-- ===== src/Streaming.antt =====
-- The streamed answers of otari/src/gateway/streaming.py, with the usage of
-- otari/src/gateway/core/usage.py. A chunk is a type of the caller's.
pub mod Generator
pub mod Settlement
pub mod Billed
pub mod Attempts
pub mod Fallback
pub mod Kept
pub mod Chosen
mod Tests
use mozilla_ai.Common.{ℕ, String, Bool, true, false, Option, none, some, ◌==◌, if◌then◌else◌}
use Prim.Native.String.{◌++◌ as append}

-- A usage of the provider, or a `GatewayUsage` with its two counts beside. `cached` is the
-- `cached_tokens` of the prompt's details, none where there are no details or it is None. The
-- details of the completion, which nothing here reads, are left out.
pub record CompletionUsage : Type 0 where
  pub prompt_tokens : ℕ
  pub completion_tokens : ℕ
  pub total_tokens : ℕ
  pub cached : Option ℕ
  pub gateway : Option (ℕ × ℕ)

abbrev pub or_zero : Option ℕ → ℕ
or_zero none = 0
or_zero (some n) = n

abbrev read_of : Option ℕ → Option (ℕ × ℕ) → ℕ
read_of cached none = or_zero cached
read_of cached (some (read, write)) = read

abbrev write_of : Option (ℕ × ℕ) → ℕ
write_of none = 0
write_of (some (read, write)) = write

unfoldable pub cache_read_tokens_of : CompletionUsage → ℕ
cache_read_tokens_of u = read_of u.cached u.gateway

unfoldable pub cache_write_tokens_of : CompletionUsage → ℕ
cache_write_tokens_of u = write_of u.gateway

-- a given count, or the one that the usage carries
abbrev or_else : Option ℕ → ℕ → ℕ
or_else none n = n
or_else (some m) n = m

-- `GatewayUsage.from_completion_usage`
unfoldable pub from_completion_usage : CompletionUsage → Option ℕ → Option ℕ → CompletionUsage
from_completion_usage u read write = record u {
  gateway = some (or_else read (cache_read_tokens_of u), or_else write (cache_write_tokens_of u));
}

-- `a or b` on counts
abbrev pub or_nat : ℕ → ℕ → ℕ
or_nat a b = if a == 0 then b else a

-- `_merge_usage`
unfoldable pub merge_usage : CompletionUsage → CompletionUsage → CompletionUsage
merge_usage current update = record {
  prompt_tokens = or_nat update.prompt_tokens current.prompt_tokens;
  completion_tokens = or_nat update.completion_tokens current.completion_tokens;
  total_tokens = or_nat update.total_tokens current.total_tokens;
  cached = none;
  gateway = some (
    or_nat (cache_read_tokens_of update) (cache_read_tokens_of current),
    or_nat (cache_write_tokens_of update) (cache_write_tokens_of current),
  );
}

-- `CompletionUsage(prompt_tokens=0, completion_tokens=0, total_tokens=0)`
abbrev pub no_usage_yet : CompletionUsage
no_usage_yet = record {
  prompt_tokens = 0;
  completion_tokens = 0;
  total_tokens = 0;
  cached = none;
  gateway = none;
}

pub record StreamFormat : Type 0 where
  pub done_marker : String
  pub error_payload : String
  pub yield_done_on_error : Bool

abbrev openai_error : String
openai_error =
    "{\"error\": {\"message\": \"An error occurred during streaming\", \"type\": \"server_error\"}}"

abbrev anthropic_error : String
anthropic_error =
    "{\"type\": \"error\", \"error\": {\"type\": \"api_error\", \"message\": \"An error occurred during streaming\"}}"

abbrev pub openai_stream_format : StreamFormat
openai_stream_format = record {
  done_marker = "data: [DONE]\n\n";
  error_payload = append "data: " (append openai_error "\n\n");
  yield_done_on_error = true;
}

abbrev pub responses_stream_format : StreamFormat
responses_stream_format = record {
  done_marker = "data: [DONE]\n\n";
  error_payload = append "event: error\ndata: " (append openai_error "\n\n");
  yield_done_on_error = false;
}

abbrev pub anthropic_stream_format : StreamFormat
anthropic_stream_format = record {
  done_marker = "event: done\ndata: {}\n\n";
  error_payload = append "event: error\ndata: " (append anthropic_error "\n\n");
  yield_done_on_error = false;
}
