-- ===== src/Execution/Ledger/Calls.antt =====
-- The calls that a run makes on its ledger, as data, and what every call keeps.
use travel_plan_agent.Common.{ℕ, String, ◌≡◌, Bool, Option, List, [], ◌∷◌, arith, pure, ◌>>◌}
use travel_plan_agent.Execution.Ledger.{
  Ledger, LedgerM, effective_timeout, ensure_can_continue, consume_graph_step, consume_tool_call,
  consume_provider_attempt, note_cache_hit, consume_llm_call, consume_llm_attempt, complete_llm,
  consume_repair_round, consume_interrupt, consume_checkpoint_write, note_trace_event,
  note_action_fingerprint,
}

pub data Call : Type 0 where
  timeout : ℕ → Call
  can_continue : Bool → Call
  graph_step : Bool → Call
  tool_call provider_attempt cache_hit : Call
  llm_call : ℕ → Call
  llm_attempt : Call
  llm_done : Option ℕ → Option ℕ → Call
  repair_round interrupt checkpoint_write trace_event : Call
  action : String → Call

unfoldable pub call : Call → LedgerM Unit
call (timeout t) = do effective_timeout t; pure tt
call (can_continue reserved) = ensure_can_continue reserved
call (graph_step terminal) = consume_graph_step terminal
call tool_call = consume_tool_call
call provider_attempt = consume_provider_attempt
call cache_hit = note_cache_hit
call (llm_call chars) = consume_llm_call chars
call llm_attempt = consume_llm_attempt
call (llm_done input output) = complete_llm input output
call repair_round = consume_repair_round
call interrupt = consume_interrupt
call checkpoint_write = consume_checkpoint_write
call trace_event = note_trace_event
call (action fingerprint) = note_action_fingerprint fingerprint

-- A run whose caller handles every error, and goes on.
unfoldable pub run_calls : List Call → Ledger → Ledger
run_calls [] l = l
run_calls (c ∷ cs) l = run_calls cs (call c l).1

-- What a call may change besides the counters.
pub budget-call : (c : Call) (l : Ledger) → (call c l).1.budget ≡ l.budget
unfolding call
budget-call (timeout t) l = unfold effective_timeout in ground arith
budget-call (can_continue r) l = unfold ensure_can_continue in ground arith
budget-call (graph_step t) l = unfold consume_graph_step in ground arith
budget-call tool_call l = unfold consume_tool_call in ground arith
budget-call provider_attempt l = unfold consume_provider_attempt in ground arith
budget-call cache_hit l = unfold note_cache_hit in ground arith
budget-call (llm_call n) l = unfold consume_llm_call in ground arith
budget-call llm_attempt l = unfold consume_llm_attempt in ground arith
budget-call (llm_done i o) l = unfold complete_llm in ground arith
budget-call repair_round l = unfold consume_repair_round in ground arith
budget-call interrupt l = unfold consume_interrupt in ground arith
budget-call checkpoint_write l = unfold consume_checkpoint_write in ground arith
budget-call trace_event l = unfold note_trace_event in ground arith
budget-call (action f) l = unfold note_action_fingerprint in ground arith
