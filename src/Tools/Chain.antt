-- ===== src/Tools/Chain.antt =====
-- tools/providers/chain.py: providers in the order of preference, each behind a circuit breaker.
-- A provider is a value of `P` with its name; `call` is how its call of this operation ends. The
-- clock is `clock n` at its n-th reading, in seconds.
pub mod Circuits
pub mod Failover
pub mod Skips
mod Tests
use travel_plan_agent.Common.{
  ℕ, suc, ◌+◌, String, Bool, true, false, Option, none, some, List, [], ◌∷◌, ◌++◌, leb,
  if◌then◌else◌, str_eq, Result, ok, raise, Exec, pure, throw, ◌>>=◌, ◌>>◌, length,
}
use travel_plan_agent.Tools.Errors.{
  ToolErrorCategory, ToolProviderError, Answer, value, fault, crash, timeout, connection,
  rate_limit, authentication, permission, invalid_request, invalid_response, upstream_unavailable,
}

-- `_FAILOVER_CATEGORIES`
unfoldable pub may_failover : ToolErrorCategory → Bool
may_failover timeout = true
may_failover connection = true
may_failover rate_limit = true
may_failover invalid_response = true
may_failover upstream_unavailable = true
may_failover authentication = false
may_failover permission = false
may_failover invalid_request = false

-- `_Circuit`
pub record Circuit : Type 0 where
  pub failures : ℕ
  pub open_until : Option ℕ

abbrev pub closed : Circuit
closed = record { failures = 0; open_until = none }

-- `attempted` is the trace of the providers that were called.
pub record Chain : Type 0 where
  pub failure_threshold : ℕ
  pub recovery_seconds : ℕ
  pub circuits : String → Circuit
  pub clock : ℕ → ℕ
  pub reads : ℕ
  pub attempted : List String

-- What ends `_execute` without a result: the last error, or an exception that no handler catches.
pub data ChainError : Type 0 where
  provider_error : ToolProviderError → ChainError
  uncaught : String → ChainError
  assertion : ChainError

abbrev pub ChainM : Type 0 → Type 0
ChainM A = Exec Chain ChainError A

abbrev pub set_circuit : String → Circuit → Chain → Chain
set_circuit name c s = record s { circuits = λ k. if str_eq k name then c else s.circuits k }

-- `_is_open`: an expired circuit is closed as it is read.
unfoldable pub is_open : String → ℕ → Chain → Bool × Chain
is_open name now s = elim (s.circuits name).open_until [
  | none ↦ (false, s)
  | some until ↦ if leb until now then (false, set_circuit name closed s) else (true, s)
]

unfoldable pub note_failure : String → Chain → Chain
note_failure name s =
    let failures = suc (s.circuits name).failures in
    if leb s.failure_threshold failures
    then set_circuit name
        (record { failures = failures; open_until = some (s.clock s.reads + s.recovery_seconds) })
        (record s { reads = s.reads + 1 })
    else set_circuit name
        (record { failures = failures; open_until = (s.circuits name).open_until }) s

unfoldable pub note_success : String → Chain → Chain
note_success name s = set_circuit name closed s

module _ {P A : Type 0} (name : P → String) (call : P → Answer A) where
  -- The comprehension over the providers whose circuit is not open.
  unfoldable pub available : List P → ℕ → Chain → List P × Chain
  unfolding is_open
  available [] now s = ([], s)
  available (p ∷ ps) now s =
      let (open_now, s₁) = is_open (name p) now s in
      let (rest, s₂) = available ps now s₁ in (if open_now then rest else p ∷ rest, s₂)

  abbrev begin : P → Chain → Chain
  begin p s = record s { attempted = s.attempted ++ name p ∷ [] }

  -- The loop over the available providers.
  unfoldable pub try_each : List P → ChainM A
  unfolding note_failure note_success may_failover
  try_each [] s = (raise assertion, s)
  try_each (p ∷ []) s = elim (call p) [
    | value a ↦ (ok a, note_success (name p) (begin p s))
    | crash m ↦ (raise (uncaught m), begin p s)
    | fault e ↦ (raise (provider_error e), note_failure (name p) (begin p s))
  ]
  try_each (p ∷ q ∷ ps) s = elim (call p) [
    | value a ↦ (ok a, note_success (name p) (begin p s))
    | crash m ↦ (raise (uncaught m), begin p s)
    | fault e ↦ elim (may_failover e.category) [
      | true ↦ try_each (q ∷ ps) (note_failure (name p) (begin p s))
      | false ↦ (raise (provider_error e), note_failure (name p) (begin p s))
    ]
  ]

  -- `self.providers[-1]`, of a list that is not empty
  unfoldable pub last : P → List P → P
  last p [] = p
  last p (q ∷ ps) = last q ps

  abbrev pub or_last : P → List P → List P → List P
  or_last p ps [] = last p ps ∷ []
  or_last p ps (a ∷ rest) = a ∷ rest

  -- `_execute`; the constructor refuses an empty tuple of providers, here `p ∷ ps`.
  unfoldable pub execute : P → List P → ChainM A
  unfolding available try_each last
  execute p ps s =
      let now = s.clock s.reads in
      let (free, s₁) = available (p ∷ ps) now (record s { reads = s.reads + 1 }) in
      try_each (or_last p ps free) s₁
