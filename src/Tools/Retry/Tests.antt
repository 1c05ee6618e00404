-- ===== src/Tools/Retry/Tests.antt =====
-- A call that is rate-limited twice and then answers, under policies of tools/retry.py.
use travel_plan_agent.Common.{
  ℕ, zero, suc, ◌≤◌, ◌<◌, ◌≡◌, refl, true, some, arith, leb, if◌then◌else◌,
}
use travel_plan_agent.Tools.Errors.{ToolProviderError, Answer, value, fault, rate_limit}
use travel_plan_agent.Tools.Retry.{RetryPolicy, returned, execute, post_init}
use travel_plan_agent.Tools.Retry.Explained.{Explains, execute-Explains, execute_recovers, Retries}

abbrev limited : ToolProviderError
limited = record {
  category = rate_limit;
  code = "429";
  operation = "search";
  retryable = true;
  safe_message = "later";
  retry_after = some 250_000;
}

abbrev call : ℕ → Answer ℕ
call n = if leb n 2 then fault limited else value 42

abbrev policy : RetryPolicy
policy = record { max_attempts = 3; base_delay = 100_000; max_delay = 200_000 }

abbrev jitter : ℕ → ℕ
jitter n = 500_000

policy_valid : post_init policy ≡ true
unfolding post_init
policy_valid = refl

execute-Explains_example : Explains policy call 1 (execute policy call jitter)
execute-Explains_example = execute-Explains policy call jitter policy_valid

limited_twice : (i : ℕ) → 1 ≤ i → i < 3 → Retries (call i)
limited_twice zero low high = refl
limited_twice (suc zero) low high = refl
limited_twice (suc (suc zero)) low high = refl
limited_twice (suc (suc (suc i))) low high = absurd (omega arith)

execute_recovers_example : (execute policy call jitter).0 ≡ returned 42 3
execute_recovers_example = execute_recovers policy call jitter 2 42 limited_twice refl (omega arith)
