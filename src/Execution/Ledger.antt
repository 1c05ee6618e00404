-- ===== src/Execution/Ledger.antt =====
-- execution/budget.py: the meter of one agent run. Every method is an action of
-- `Exec Ledger ExecutionBudgetExceeded`; the lock makes each of them one step.
pub mod Calls
pub mod Bounds
pub mod Limits
mod Tests
use travel_plan_agent.Common.{
  ℕ, ◌+◌, ◌-◌, String, ite, Bool, true, false, Option, none, some, ltb, leb, max, min, not,
  if◌then◌else◌, round_div, str_eq, ok, Exec, pure, throw, ◌>>=◌, ◌>>◌,
}
use travel_plan_agent.Execution.Budget.{
  Counter, graph_steps, tool_calls, provider_attempts, cache_hits, llm_calls, llm_attempts,
  llm_input_chars, input_tokens, output_tokens, repair_rounds, interrupts, checkpoint_writes,
  trace_events, Counter-discrete, Limit, ExecutionBudget, ExecutionBudgetExceeded,
}

-- `clock n` is the n-th reading of the monotonic clock, in microseconds; `reads` counts them.
pub record Ledger : Type 0 where
  pub run_id : String
  pub budget : ExecutionBudget
  pub clock : ℕ → ℕ
  pub reads : ℕ
  pub started : ℕ
  pub values : Counter → ℕ
  pub token_usage_complete : Bool
  pub last_action_fingerprint : Option String
  pub repeated_fingerprint_count : ℕ

abbrev pub LedgerM : Type 0 → Type 0
LedgerM A = Exec Ledger ExecutionBudgetExceeded A

unfoldable pub update : (Counter → ℕ) → Counter → ℕ → Counter → ℕ
unfolding Counter-discrete
update values key v k = ite (Counter-discrete k key) v (values k)

unfoldable pub new_ledger : String → ExecutionBudget → (ℕ → ℕ) → Ledger
new_ledger run_id budget clock = record {
  run_id = run_id;
  budget = budget;
  clock = clock;
  reads = 1;
  started = clock 0;
  values = λ _. 0;
  token_usage_complete = true;
  last_action_fingerprint = none;
  repeated_fingerprint_count = 0;
}

-- The subtraction of ℕ stops at 0, as `max(0, ...)` does.
unfoldable pub elapsed_at : Ledger → ℕ
elapsed_at l = round_div (l.clock l.reads - l.started) 1000

unfoldable pub elapsed_ms : LedgerM ℕ
elapsed_ms l = (ok (elapsed_at l), record l { reads = l.reads + 1 })

unfoldable pub exceeded : Ledger → Limit → ℕ → ℕ → Bool → ExecutionBudgetExceeded
exceeded l limit used maximum deadline = record {
  run_id = l.run_id;
  limit = limit;
  used = used;
  maximum = maximum;
  deadline = deadline;
}

abbrev pub get : LedgerM Ledger
get l = (ok l, l)

abbrev pub set : Ledger → LedgerM Unit
set l' l = (ok tt, l')

-- The budget that is left, in milliseconds (the source divides by 1000 for seconds).
unfoldable pub remaining_ms : LedgerM ℕ
unfolding elapsed_ms exceeded
remaining_ms = do
  l ← get
  t ← elapsed_ms
  if leb l.budget.deadline_ms t
      then (do u ← elapsed_ms; throw (exceeded l Limit.deadline_ms u l.budget.deadline_ms true))
      else pure (l.budget.deadline_ms - t)

-- Timeouts in milliseconds; the floor of 0.001 s is 1 ms.
unfoldable pub effective_timeout : ℕ → LedgerM ℕ
unfolding remaining_ms
effective_timeout component_timeout = do
  remaining ← remaining_ms
  pure (max 1 (min component_timeout remaining))

-- Where the reserve passes the maximum, the source has a negative bound and ℕ has 0: both refuse.
unfoldable pub step_maximum : ExecutionBudget → Bool → ℕ
step_maximum b reserved =
    if reserved then b.max_graph_steps - b.terminal_step_reserve else b.max_graph_steps

unfoldable pub ensure_can_continue : Bool → LedgerM Unit
unfolding remaining_ms step_maximum exceeded
ensure_can_continue reserve_terminal_steps = do
  remaining_ms
  l ← get
  if leb (step_maximum l.budget reserve_terminal_steps) (l.values graph_steps)
      then throw
          (exceeded l Limit.max_graph_steps (l.values graph_steps) l.budget.max_graph_steps false)
      else pure tt

unfoldable pub consume : Counter → ℕ → ℕ → Limit → LedgerM Unit
unfolding remaining_ms exceeded update
consume key amount maximum limit = do
  remaining_ms
  l ← get
  if ltb maximum (l.values key + amount)
      then throw (exceeded l limit (l.values key) maximum false)
      else set (record l { values = update l.values key (l.values key + amount) })

unfoldable pub increment : Counter → LedgerM Unit
unfolding update
increment key = do l ← get; set (record l { values = update l.values key (l.values key + 1) })

unfoldable pub consume_graph_step : Bool → LedgerM Unit
unfolding consume step_maximum
consume_graph_step terminal = do
  l ← get
  consume graph_steps 1 (step_maximum l.budget (not terminal)) Limit.max_graph_steps

unfoldable pub consume_tool_call : LedgerM Unit
unfolding consume
consume_tool_call = do l ← get; consume tool_calls 1 l.budget.max_tool_calls Limit.max_tool_calls

unfoldable pub consume_provider_attempt : LedgerM Unit
unfolding consume
consume_provider_attempt = do
  l ← get
  consume provider_attempts 1 l.budget.max_provider_attempts Limit.max_provider_attempts

unfoldable pub note_cache_hit : LedgerM Unit
unfolding increment
note_cache_hit = increment cache_hits

unfoldable pub consume_llm_call : ℕ → LedgerM Unit
unfolding remaining_ms exceeded update
consume_llm_call input_chars = do
  remaining_ms
  l ← get
  if ltb l.budget.max_llm_calls (l.values llm_calls + 1)
      then throw (exceeded l Limit.max_llm_calls (l.values llm_calls) l.budget.max_llm_calls false)
      else if ltb l.budget.max_llm_input_chars (l.values llm_input_chars + input_chars)
      then throw (
          exceeded l Limit.max_llm_input_chars (l.values llm_input_chars)
            l.budget.max_llm_input_chars false)
      else set (record l {
        values =
            update (update l.values llm_calls (l.values llm_calls + 1)) llm_input_chars
              (l.values llm_input_chars + input_chars);
      })

unfoldable pub consume_llm_attempt : LedgerM Unit
unfolding consume
consume_llm_attempt = do
  l ← get
  consume llm_attempts 1 l.budget.max_llm_attempts Limit.max_llm_attempts

-- The branch of `complete_llm` with both counts known.
unfoldable pub add_tokens : ℕ → ℕ → LedgerM Unit
unfolding exceeded update
add_tokens input output = do
  l ← get
  if ltb l.budget.max_input_tokens (l.values input_tokens + input)
      then throw (
          exceeded l Limit.max_input_tokens (l.values input_tokens + input)
            l.budget.max_input_tokens false)
      else if ltb l.budget.max_output_tokens (l.values output_tokens + output)
      then throw (
          exceeded l Limit.max_output_tokens (l.values output_tokens + output)
            l.budget.max_output_tokens false)
      else set (record l {
        values =
            update (update l.values input_tokens (l.values input_tokens + input)) output_tokens
              (l.values output_tokens + output);
      })

unfoldable pub complete_llm : Option ℕ → Option ℕ → LedgerM Unit
unfolding add_tokens
complete_llm (some input) (some output) = add_tokens input output
complete_llm _ _ = do l ← get; set (record l { token_usage_complete = false })

unfoldable pub consume_repair_round : LedgerM Unit
unfolding consume
consume_repair_round = do
  l ← get
  consume repair_rounds 1 l.budget.max_repair_rounds Limit.max_repair_rounds

unfoldable pub consume_interrupt : LedgerM Unit
unfolding consume
consume_interrupt = do l ← get; consume interrupts 1 l.budget.max_interrupts Limit.max_interrupts

unfoldable pub consume_checkpoint_write : LedgerM Unit
unfolding consume
consume_checkpoint_write = do
  l ← get
  consume checkpoint_writes 1 l.budget.max_checkpoint_writes Limit.max_checkpoint_writes

unfoldable pub note_trace_event : LedgerM Unit
unfolding increment
note_trace_event = increment trace_events

abbrev same_fingerprint : Option String → String → Bool
same_fingerprint none f = false
same_fingerprint (some g) f = str_eq f g

-- The first half of `note_action_fingerprint`: the run of equal fingerprints is counted.
unfoldable pub count_fingerprint : String → Ledger → Ledger
count_fingerprint fingerprint l =
    if same_fingerprint l.last_action_fingerprint fingerprint
    then record l { repeated_fingerprint_count = l.repeated_fingerprint_count + 1 }
    else record l { last_action_fingerprint = some fingerprint; repeated_fingerprint_count = 1 }

unfoldable pub note_action_fingerprint : String → LedgerM Unit
unfolding count_fingerprint exceeded
note_action_fingerprint fingerprint = do
  l₀ ← get
  set (count_fingerprint fingerprint l₀)
  l ← get
  if ltb l.budget.max_repeated_fingerprint_count l.repeated_fingerprint_count
      then throw (
          exceeded l Limit.max_repeated_fingerprint_count (l.repeated_fingerprint_count - 1)
            l.budget.max_repeated_fingerprint_count false)
      else pure tt

-- `ExecutionUsage`: what `snapshot` publishes.
unfoldable pub snapshot : Ledger → Counter → Option ℕ
snapshot l input_tokens = if l.token_usage_complete then some (l.values input_tokens) else none
snapshot l output_tokens = if l.token_usage_complete then some (l.values output_tokens) else none
snapshot l key = some (l.values key)
