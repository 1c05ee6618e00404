-- ===== src/Execution/Ledger/Bounds.antt =====
-- The counters against their limits, and against what they were before a call.
use travel_plan_agent.Common.{ℕ, ◌≤◌, String, ◌≡◌, List, [], ◌∷◌, arith, raise}
use travel_plan_agent.Execution.Budget.{
  graph_steps, tool_calls, provider_attempts, llm_calls, llm_attempts, llm_input_chars,
  input_tokens, output_tokens, repair_rounds, interrupts, checkpoint_writes, ExecutionBudget,
  ExecutionBudgetExceeded,
}
use travel_plan_agent.Execution.Ledger.{
  Ledger, new_ledger, effective_timeout, ensure_can_continue, consume_graph_step, consume_tool_call,
  consume_provider_attempt, note_cache_hit, consume_llm_call, consume_llm_attempt, complete_llm,
  consume_repair_round, consume_interrupt, consume_checkpoint_write, note_trace_event,
  note_action_fingerprint, count_fingerprint,
}
use travel_plan_agent.Execution.Ledger.Calls.{
  Call, timeout, can_continue, graph_step, tool_call, provider_attempt, cache_hit, llm_call,
  llm_attempt, llm_done, repair_round, interrupt, checkpoint_write, trace_event, action, call,
  run_calls,
}

-- Every bounded counter is within its limit.
pub record IsWithin (l : Ledger) : Type 0 where
  pub steps : l.values graph_steps ≤ l.budget.max_graph_steps
  pub tools : l.values tool_calls ≤ l.budget.max_tool_calls
  pub attempts : l.values provider_attempts ≤ l.budget.max_provider_attempts
  pub llm : l.values llm_calls ≤ l.budget.max_llm_calls
  pub llm_tries : l.values llm_attempts ≤ l.budget.max_llm_attempts
  pub chars : l.values llm_input_chars ≤ l.budget.max_llm_input_chars
  pub input : l.values input_tokens ≤ l.budget.max_input_tokens
  pub output : l.values output_tokens ≤ l.budget.max_output_tokens
  pub repairs : l.values repair_rounds ≤ l.budget.max_repair_rounds
  pub pauses : l.values interrupts ≤ l.budget.max_interrupts
  pub writes : l.values checkpoint_writes ≤ l.budget.max_checkpoint_writes

call-IsWithin : (c : Call) {l : Ledger} → IsWithin l → IsWithin (call c l).1
unfolding call
call-IsWithin (timeout t) w = unfold effective_timeout in ground arith
call-IsWithin (can_continue r) w = unfold ensure_can_continue in ground arith
call-IsWithin (graph_step t) w = unfold consume_graph_step in ground arith
call-IsWithin tool_call w = unfold consume_tool_call in ground arith
call-IsWithin provider_attempt w = unfold consume_provider_attempt in ground arith
call-IsWithin cache_hit w = unfold note_cache_hit in ground arith
call-IsWithin (llm_call n) w = unfold consume_llm_call in ground arith
call-IsWithin llm_attempt w = unfold consume_llm_attempt in ground arith
call-IsWithin (llm_done i o) w = unfold complete_llm in ground arith
call-IsWithin repair_round w = unfold consume_repair_round in ground arith
call-IsWithin interrupt w = unfold consume_interrupt in ground arith
call-IsWithin checkpoint_write w = unfold consume_checkpoint_write in ground arith
call-IsWithin trace_event w = unfold note_trace_event in ground arith
call-IsWithin (action f) w = unfold note_action_fingerprint in ground arith

-- Whatever calls a run makes, in whatever order and with errors caught, every bounded counter of
-- a ledger that starts within its limits stays within them.
pub run_calls-IsWithin : (cs : List Call) {l : Ledger} → IsWithin l → IsWithin (run_calls cs l)
unfolding run_calls
run_calls-IsWithin [] w = w
run_calls-IsWithin (c ∷ cs) w = run_calls-IsWithin cs (call-IsWithin c w)

-- A new ledger is within every limit.
pub new_ledger-IsWithin :
    (run_id : String) (b : ExecutionBudget) (clock : ℕ → ℕ) → IsWithin (new_ledger run_id b clock)
unfolding new_ledger
new_ledger-IsWithin run_id b clock = omega arith

-- What a call that raises has done before: a noted action is counted, all else comes after the checks.
abbrev noted : Call → Ledger → Ledger
noted (action f) l = count_fingerprint f l
noted _ l = l

-- A call that raises changes nothing but the number of clock readings, whatever call it is, except for a
-- noted action: its fingerprint is the last one and is counted, also when it is refused.
pub call_raise-keeps :
    (c : Call) (l : Ledger) {e : ExecutionBudgetExceeded}
    → (call c l).0 ≡ raise e
    → (call c l).1 ≡ record (noted c l) { reads = (call c l).1.reads }
unfolding call count_fingerprint
call_raise-keeps (timeout t) l h = unfold effective_timeout in ground arith
call_raise-keeps (can_continue r) l h = unfold ensure_can_continue in ground arith
call_raise-keeps (graph_step t) l h = unfold consume_graph_step in ground arith
call_raise-keeps tool_call l h = unfold consume_tool_call in ground arith
call_raise-keeps provider_attempt l h = unfold consume_provider_attempt in ground arith
call_raise-keeps cache_hit l h = unfold note_cache_hit in ground arith
call_raise-keeps (llm_call n) l h = unfold consume_llm_call in ground arith
call_raise-keeps llm_attempt l h = unfold consume_llm_attempt in ground arith
call_raise-keeps (llm_done i o) l h = unfold complete_llm in ground arith
call_raise-keeps repair_round l h = unfold consume_repair_round in ground arith
call_raise-keeps interrupt l h = unfold consume_interrupt in ground arith
call_raise-keeps checkpoint_write l h = unfold consume_checkpoint_write in ground arith
call_raise-keeps trace_event l h = unfold note_trace_event in ground arith
call_raise-keeps (action f) l h = unfold note_action_fingerprint in ground arith
