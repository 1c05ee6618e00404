-- ===== src/Execution/Ledger/Tests.antt =====
-- A small budget and the calls of a short run, as the meter of execution/budget.py sees them.
use travel_plan_agent.Common.{
  ℕ, ◌*◌, ◌≡◌, ◌≢◌, refl, true, false, some, List, [], ◌∷◌, ◌≤◌, ◌<◌, arith, ok, raise, replicate,
  round_div,
}
use travel_plan_agent.Execution.Budget.{ExecutionBudget, Limit, validate_reserves}
use travel_plan_agent.Execution.Ledger.{
  Ledger, new_ledger, note_action_fingerprint, consume_graph_step, consume_tool_call,
  consume_llm_call, complete_llm, elapsed_at, exceeded,
}
use travel_plan_agent.Execution.Ledger.Calls.{
  Call, graph_step, tool_call, llm_call, llm_done, action, call, run_calls,
}
use travel_plan_agent.Execution.Ledger.Bounds.{
  IsWithin, run_calls-IsWithin, new_ledger-IsWithin, call_raise-keeps,
}
use travel_plan_agent.Execution.Ledger.Limits.{
  reserve_suffices, call-past_deadline, note_action-repeated,
}

abbrev budget : ExecutionBudget
budget = record {
  max_graph_steps = 3;
  max_tool_calls = 1;
  max_provider_attempts = 2;
  max_llm_calls = 1;
  max_llm_attempts = 2;
  max_llm_input_chars = 100;
  max_input_tokens = 50;
  max_output_tokens = 50;
  max_repair_rounds = 1;
  max_interrupts = 1;
  max_checkpoint_writes = 5;
  max_trace_events = 9;
  max_repeated_fingerprint_count = 2;
  deadline_ms = 1_000;
  terminal_step_reserve = 1;
  terminal_trace_reserve = 2;
}

-- A clock that stands still, and one that makes a second and a half a reading.
abbrev still : ℕ → ℕ
still n = 7

abbrev fast : ℕ → ℕ
fast n = n * 1_500_000

abbrev calls : List Call
calls =
    graph_step false
    ∷ tool_call
    ∷ tool_call
    ∷ llm_call 60
    ∷ llm_done (some 40) (some 3)
    ∷ graph_step false
    ∷ graph_step false
    ∷ []

abbrev start : Ledger
start = new_ledger "run" budget still

run_calls-IsWithin_example : IsWithin (run_calls calls start)
run_calls-IsWithin_example = run_calls-IsWithin calls (new_ledger-IsWithin "run" budget still)

-- The second call of a tool is refused.
abbrev after_tool : Ledger
after_tool = run_calls (tool_call ∷ []) start

tool_refused :
    (call tool_call after_tool).0 ≡ raise (exceeded after_tool Limit.max_tool_calls 1 1 false)
unfolding call run_calls consume_tool_call new_ledger elapsed_at round_div
tool_refused = refl

call_raise-keeps_example :
    (call tool_call after_tool).1
    ≡ record after_tool { reads = (call tool_call after_tool).1.reads }
call_raise-keeps_example =
    call_raise-keeps tool_call after_tool {e = exceeded after_tool Limit.max_tool_calls 1 1 false}
      tool_refused

budget_valid : validate_reserves budget ≡ true
unfolding validate_reserves
budget_valid = refl

calls_early : elapsed_at (run_calls calls start) < budget.deadline_ms
unfolding elapsed_at run_calls call new_ledger consume_graph_step consume_tool_call consume_llm_call
    complete_llm round_div
calls_early = ground arith

reserve_suffices_example : (consume_graph_step true (run_calls calls start)).0 ≡ ok tt
reserve_suffices_example =
    reserve_suffices calls "run" budget still budget_valid (omega arith) calls_early

clock_late : budget.deadline_ms ≤ elapsed_at (new_ledger "run" budget fast)
unfolding elapsed_at new_ledger round_div
clock_late = omega arith

call-past_deadline_example :
    (call tool_call (new_ledger "run" budget fast)).0
    ≡ raise (exceeded (new_ledger "run" budget fast) Limit.deadline_ms 3_000 1_000 true)
unfolding elapsed_at new_ledger round_div
call-past_deadline_example =
    call-past_deadline tool_call (new_ledger "run" budget fast) refl clock_late

start_other : start.last_action_fingerprint ≢ some "a"
unfolding new_ledger
start_other h = cc

note_action-repeated_example :
    (note_action_fingerprint "a" (run_calls (replicate 2 (action "a")) start)).0
    ≡ raise (exceeded start Limit.max_repeated_fingerprint_count 2 2 false)
unfolding new_ledger
note_action-repeated_example = note_action-repeated "a" 2 start start_other
