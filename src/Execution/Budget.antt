-- ===== src/Execution/Budget.antt =====
-- execution/models.py and execution/errors.py: the budget of a run, the counters that it bounds,
-- and the error of a counter that would pass its bound.
use travel_plan_agent.Common.{ℕ, String, Bool, true, false, ltb, leb, if◌then◌else◌}

-- The keys of `_values`.
pub data Counter : Type 0 where
  graph_steps tool_calls provider_attempts cache_hits llm_calls llm_attempts llm_input_chars :
      Counter
  input_tokens output_tokens repair_rounds interrupts checkpoint_writes trace_events : Counter

unfoldable pub Counter-discrete : Discrete Counter
Counter-discrete = hlevel

-- The names of the limits in an error.
pub data Limit : Type 0 where
  max_graph_steps max_tool_calls max_provider_attempts max_llm_calls max_llm_attempts : Limit
  max_llm_input_chars max_input_tokens max_output_tokens max_repair_rounds max_interrupts : Limit
  max_checkpoint_writes max_repeated_fingerprint_count deadline_ms : Limit

pub record ExecutionBudget : Type 0 where
  pub max_graph_steps : ℕ
  pub max_tool_calls : ℕ
  pub max_provider_attempts : ℕ
  pub max_llm_calls : ℕ
  pub max_llm_attempts : ℕ
  pub max_llm_input_chars : ℕ
  pub max_input_tokens : ℕ
  pub max_output_tokens : ℕ
  pub max_repair_rounds : ℕ
  pub max_interrupts : ℕ
  pub max_checkpoint_writes : ℕ
  pub max_trace_events : ℕ
  pub max_repeated_fingerprint_count : ℕ
  pub deadline_ms : ℕ
  pub terminal_step_reserve : ℕ
  pub terminal_trace_reserve : ℕ

-- The checks of `validate_reserves`.
unfoldable pub validate_reserves : ExecutionBudget → Bool
validate_reserves b =
    if leb b.max_graph_steps b.terminal_step_reserve
    then false
    else if leb b.max_trace_events b.terminal_trace_reserve
    then false
    else if ltb b.max_provider_attempts b.max_tool_calls
    then false
    else if ltb b.max_llm_attempts b.max_llm_calls
    then false
    else true

pub record ExecutionBudgetExceeded : Type 0 where
  pub run_id : String
  pub limit : Limit
  pub used : ℕ
  pub maximum : ℕ
  pub deadline : Bool
