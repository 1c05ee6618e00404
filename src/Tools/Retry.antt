-- ===== src/Tools/Retry.antt =====
-- tools/retry.py: the bounded retry loop. `call n` is the outcome of the n-th attempt and `jitter n`
-- the n-th random number, as millionths of its unit interval; delays are in microseconds.
pub mod Explained
mod Tests
use travel_plan_agent.Common.{
  ℕ, zero, suc, ◌+◌, ◌-◌, ◌*◌, ◌/◌, ◌^◌, min, max, Bool, true, false, Option, none, some, List, [],
  ◌∷◌, not, ◌||◌, ◌==◌, ltb, if◌then◌else◌, String,
}
use travel_plan_agent.Tools.Errors.{ToolProviderError, Answer, value, fault, crash}

pub record RetryEvent : Type 0 where
  pub attempt : ℕ
  pub next_attempt : ℕ
  pub delay : ℕ
  pub error : ToolProviderError

pub record RetryPolicy : Type 0 where
  pub max_attempts : ℕ
  pub base_delay : ℕ
  pub max_delay : ℕ

-- `__post_init__`; the delays cannot be negative here.
unfoldable pub post_init : RetryPolicy → Bool
post_init p = if ltb p.max_attempts 1 then false else true

-- `returned` is a `RetryOutcome`, `exhausted` a `ToolRetryExhausted`, `escaped` any other exception
-- of the call, and `exited` the `RuntimeError` behind the loop.
pub data Ended {ℓ} (A : Type ℓ) : Type ℓ where
  returned : A → ℕ → Ended A
  exhausted : ToolProviderError → ℕ → Ended A
  escaped : String → Ended A
  exited : Ended A

-- `error.retry_after_seconds or 0.0`
abbrev pub requested : ToolProviderError → ℕ
requested e = elim e.retry_after [ none ↦ 0 | some t ↦ t ]

unfoldable pub delay_of : RetryPolicy → ℕ → ℕ → ToolProviderError → ℕ
delay_of p jitter attempt e =
    let exponential = p.base_delay * 2 ^ (attempt - 1) in
    let jittered = exponential + min 1_000_000 jitter * exponential / 1_000_000 in
    min p.max_delay (max jittered (requested e))

unfoldable pub event_of : RetryPolicy → ℕ → ℕ → ToolProviderError → RetryEvent
unfolding delay_of
event_of p jitter attempt e = record {
  attempt = attempt;
  next_attempt = attempt + 1;
  delay = delay_of p jitter attempt e;
  error = e;
}

abbrev pub Run {ℓ} : Type ℓ → Type ℓ
Run A = Ended A × List RetryEvent

abbrev pub after_event {ℓ} : {A : Type ℓ} → RetryEvent → Run A → Run A
after_event e (r, events) = (r, e ∷ events)

module _ {ℓ} {A : Type ℓ} (p : RetryPolicy) (call : ℕ → Answer A) (jitter : ℕ → ℕ) where
  -- The rounds that are left, and the number of the attempt.
  unfoldable pub attempts : ℕ → ℕ → Run A
  attempts zero n = (exited, [])
  attempts (suc left) n = elim (call n) [
    | value a ↦ (returned a n, [])
    | crash m ↦ (escaped m, [])
    | fault e ↦ elim (not e.retryable || n == p.max_attempts) [
      | true ↦ (exhausted e n, [])
      | false ↦ after_event (event_of p (jitter n) n e) (attempts left (n + 1))
    ]
  ]

  -- `for attempt in range(1, self.max_attempts + 1)`
  unfoldable pub execute : Run A
  unfolding attempts
  execute = attempts p.max_attempts 1
