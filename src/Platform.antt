-- ===== src/Platform.antt =====
-- The hybrid mode, otari/src/gateway/api/routes/_platform.py, with the classification of errors of
-- otari/src/gateway/api/routes/_pipeline.py. What a call of a provider or of the platform ends with
-- is an argument. An HTTP status is a natural number; log lines are left out.
pub mod Errors
pub mod Attempts
pub mod Walk
pub mod Statuses
pub mod Resolve
pub mod McpServers
pub mod Forward
pub mod Payload
pub mod Shapes
pub mod Report
pub mod Bounded
pub mod Origin
pub mod Inside
mod Tests
use mozilla_ai.Common.{ℕ, String, Bool, Option, List}
use mozilla_ai.Common.Int.{ℤ}

-- what the platform resolves a request to
pub record ResolvedAttempt : Type 0 where
  pub attempt_id : String
  pub position : ℤ
  pub provider : String
  pub model : String
  pub api_base : Option String
  pub api_key : String
  pub managed : Bool

pub record ResolvedRoute : Type 0 where
  pub request_id : String
  pub fallback_enabled : Bool
  pub attempts : List ResolvedAttempt

pub record HttpException : Type 0 where
  pub status_code : ℕ
  pub detail : String
  pub retry_after : Option String
