-- ===== src/Tools/Retry/Explained.antt =====
-- What an outcome of the retry loop tells of the calls that were made.
use travel_plan_agent.Common.{
  ℕ, zero, suc, ◌+◌, ◌≤◌, ◌<◌, ◌≡◌, refl, ◌⊎◌, inl, inr, true, false, List, [], ◌∷◌, arith, subst,
  ◌∙◌, min, length, Bool-cases, not, ◌||◌, ◌==◌,
}
use travel_plan_agent.Tools.Errors.{ToolProviderError, Answer, value, fault, crash}
use travel_plan_agent.Tools.Retry.{
  RetryEvent, RetryPolicy, Ended, returned, exhausted, escaped, exited, requested, event_of, Run,
  attempts, execute, post_init,
}

module _ {A : Type 0} (p : RetryPolicy) (call : ℕ → Answer A) where
  -- The event of an attempt that failed with an error that may be retried. The wait is at most the
  -- maximum and, up to it, at least what the provider asked.
  pub record FailedAt (n : ℕ) (e : RetryEvent) : Type 0 where
    pub failed : call n ≡ fault e.error
    pub may_retry : e.error.retryable ≡ true
    pub numbered : e.attempt ≡ n
    pub next : e.next_attempt ≡ n + 1
    pub bounded : e.delay ≤ p.max_delay
    pub honoured : min p.max_delay (requested e.error) ≤ e.delay

  -- The events are those of the attempts `n`, `n + 1`, ...
  abbrev pub Failed : ℕ → List RetryEvent → Type 0
  Failed n [] = Unit
  Failed n (e ∷ es) = FailedAt n e × Failed (n + 1) es

  -- Why the run ended as it did, with its last attempt at `n`.
  abbrev pub Ends : Ended A → ℕ → Type 0
  Ends (returned a k) n = (k ≡ n) × (call n ≡ value a)
  Ends (exhausted e k) n =
      (k ≡ n) × (call n ≡ fault e) × ((e.retryable ≡ false) ⊎ (n ≡ p.max_attempts))
  Ends (escaped m) n = call n ≡ crash m
  Ends exited n = ⊥

  abbrev pub Explains : ℕ → Run A → Type 0
  Explains n (r, events) =
      Failed n events × Ends r (n + length events) × (n + length events ≤ p.max_attempts)

  event_of-FailedAt :
      (j n : ℕ) (f : ToolProviderError)
      → call n ≡ fault f
      → f.retryable ≡ true
      → FailedAt n (event_of p j n f)
  unfolding event_of
  event_of-FailedAt j n f e h = record {
    failed = e;
    may_retry = h;
    numbered = refl;
    next = refl;
    bounded = omega arith;
    honoured = omega arith;
  }

  module _ (jitter : ℕ → ℕ) where
    -- One round, from the outcome of its attempt and what the later rounds give.
    round-Explains :
        (left n : ℕ) (o : Answer A)
        → call n ≡ o
        → n ≤ p.max_attempts
        → (suc n ≤ p.max_attempts → Explains (n + 1) (attempts p call jitter left (n + 1)))
        → Explains n (attempts p call jitter (suc left) n)
    unfolding attempts
    round-Explains left n (value a) e room later = rw (e, attempts) (ground arith)
    round-Explains left n (crash m) e room later = rw (e, attempts) (ground arith)
    round-Explains left n (fault f) e room later =
        elim (Bool-cases (not f.retryable || n == p.max_attempts)) [
          | inl stop ↦ rw (e, attempts, stop) (ground arith)
          | inr go ↦
              let (failed, ended, bounded) = later (ground arith) in
              let r = attempts p call jitter left (n + 1) in
              let shift : n + 1 + length r.1 ≡ n + suc (length r.1) = omega arith in
              rw (e, attempts, go)
                (
                  (event_of-FailedAt (jitter n) n f e (ground arith), failed),
                  subst (Ends r.0) shift ended,
                  omega arith,
                )
        ]

    attempts-Explains :
        (left n : ℕ)
        → n + left ≡ suc p.max_attempts
        → n ≤ p.max_attempts
        → Explains n (attempts p call jitter left n)
    attempts-Explains zero n total room = absurd (omega arith)
    attempts-Explains (suc left) n total room =
        round-Explains left n (call n) refl room
          (λ more. attempts-Explains left (n + 1) (omega arith) (omega arith))

    -- With at least one attempt allowed, the run is explained by its calls: the attempts before the
    -- last one failed with errors that may be retried and each has its event, in order, with a
    -- bounded wait; the last one is at most the maximum, and its outcome is what the run reports,
    -- an error only if it may not be retried or no attempt is left. The loop is never left by its
    -- end.
    pub execute-Explains : post_init p ≡ true → Explains 1 (execute p call jitter)
    unfolding execute post_init
    execute-Explains h = attempts-Explains p.max_attempts 1 (omega arith) (ground arith)

-- An outcome after which the loop goes on, if an attempt is left.
abbrev pub Retries {ℓ} : {A : Type ℓ} → Answer A → Type 0
Retries (value a) = ⊥
Retries (crash m) = ⊥
Retries (fault e) = e.retryable ≡ true

module _ {A : Type 0} (p : RetryPolicy) (call : ℕ → Answer A) (jitter : ℕ → ℕ) where
  round-Retries :
      (left n : ℕ) (o : Answer A)
      → call n ≡ o
      → Retries o
      → n < p.max_attempts
      → (attempts p call jitter (suc left) n).0 ≡ (attempts p call jitter left (n + 1)).0
  unfolding attempts
  round-Retries left n (fault f) e h more = rw (e, attempts) (ground arith)
  round-Retries left n (value a) e h more = elim h [ ]
  round-Retries left n (crash m) e h more = elim h [ ]

  attempts_recover :
      (k n left : ℕ) (a : A)
      → n + left ≡ suc p.max_attempts
      → ((i : ℕ) → n ≤ i → i < n + k → Retries (call i))
      → call (n + k) ≡ value a
      → n + k ≤ p.max_attempts
      → (attempts p call jitter left n).0 ≡ returned a (n + k)
  unfolding attempts
  attempts_recover k n zero a total before last room = absurd (omega arith)
  attempts_recover zero n (suc left) a total before last room =
      let here : n + 0 ≡ n = omega arith in
      let found : call n ≡ value a = rw here at last in rw (here, found, attempts)
  attempts_recover (suc k) n (suc left) a total before last room =
      let shift : n + suc k ≡ n + 1 + k = omega arith in
      rw (shift) (
        round-Retries left n (call n) refl (before n (omega arith) (omega arith)) (omega arith)
        ∙ attempts_recover k (n + 1) left a (omega arith)
            (λ i low high. before i (omega arith) (omega arith)) (rw shift at last) (omega arith))

  -- A call that fails `k` times with errors that may be retried and then succeeds is returned, with
  -- its number of attempts, whenever the policy allows that many.
  pub execute_recovers :
      (k : ℕ) (a : A)
      → ((i : ℕ) → 1 ≤ i → i < 1 + k → Retries (call i))
      → call (1 + k) ≡ value a
      → 1 + k ≤ p.max_attempts
      → (execute p call jitter).0 ≡ returned a (1 + k)
  unfolding execute
  execute_recovers k a before last room =
      attempts_recover k 1 p.max_attempts a (omega arith) before last room
