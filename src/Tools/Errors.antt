-- ===== src/Tools/Errors.antt =====
-- tools/errors.py and the categories of domain/tool_models.py.
use travel_plan_agent.Common.{ℕ, String, Bool, Option}

pub data ToolErrorCategory : Type 0 where
  timeout connection rate_limit authentication permission invalid_request : ToolErrorCategory
  invalid_response upstream_unavailable : ToolErrorCategory

-- Times are in microseconds.
pub record ToolProviderError : Type 0 where
  pub category : ToolErrorCategory
  pub code : String
  pub operation : String
  pub retryable : Bool
  pub safe_message : String
  pub retry_after : Option ℕ

-- How a call of a provider ends: with a value, with a provider error, or with another exception,
-- which no handler of this code catches.
pub data Answer {ℓ} (A : Type ℓ) : Type ℓ where
  value : A → Answer A
  fault : ToolProviderError → Answer A
  crash : String → Answer A
