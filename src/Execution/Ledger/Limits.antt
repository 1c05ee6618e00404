-- ===== src/Execution/Ledger/Limits.antt =====
-- The reserve of terminal steps, the deadline and repeated actions.
use native.Mathlib.Nat.{zero-add, suc-add, add-suc}
use travel_plan_agent.Common.{
  ℕ, zero, suc, ◌+◌, ◌-◌, ◌≤◌, ◌<◌, String, ◌≡◌, refl, Bool, true, false, some, List, [], ◌∷◌,
  arith, ok, raise, ap, ◌∙◌, ◌≢◌, Option-cases, inl, inr, ltb, if◌then◌else◌, replicate, str_eq_iff,
}
use travel_plan_agent.Execution.Budget.{graph_steps, Limit, ExecutionBudget, validate_reserves}
use travel_plan_agent.Execution.Ledger.{
  Ledger, new_ledger, effective_timeout, ensure_can_continue, consume_graph_step, consume_tool_call,
  consume_provider_attempt, note_cache_hit, consume_llm_call, consume_llm_attempt, complete_llm,
  consume_repair_round, consume_interrupt, consume_checkpoint_write, note_trace_event,
  note_action_fingerprint, elapsed_at, exceeded,
}
use travel_plan_agent.Execution.Ledger.Calls.{
  Call, timeout, can_continue, graph_step, tool_call, provider_attempt, cache_hit, llm_call,
  llm_attempt, llm_done, repair_round, interrupt, checkpoint_write, trace_event, action, call,
  run_calls, budget-call,
}

-- 1 for a terminal step, 0 for any other call.
abbrev pub terminal_weight : Call → ℕ
terminal_weight (graph_step true) = 1
terminal_weight _ = 0

abbrev pub terminals : List Call → ℕ
terminals [] = 0
terminals (c ∷ cs) = terminal_weight c + terminals cs

-- The steps that are not terminal stay below the reserve.
abbrev StepsBelow : Ledger → ℕ → Type 0
StepsBelow l t =
    l.values graph_steps ≤ (l.budget.max_graph_steps - l.budget.terminal_step_reserve) + t

call-StepsBelow :
    (c : Call) (l : Ledger) (t : ℕ)
    → StepsBelow l t
    → StepsBelow (call c l).1 (terminal_weight c + t)
unfolding call
call-StepsBelow (timeout u) l t w = unfold effective_timeout in ground arith
call-StepsBelow (can_continue r) l t w = unfold ensure_can_continue in ground arith
call-StepsBelow (graph_step true) l t w = unfold consume_graph_step in ground arith
call-StepsBelow (graph_step false) l t w = unfold consume_graph_step in ground arith
call-StepsBelow tool_call l t w = unfold consume_tool_call in ground arith
call-StepsBelow provider_attempt l t w = unfold consume_provider_attempt in ground arith
call-StepsBelow cache_hit l t w = unfold note_cache_hit in ground arith
call-StepsBelow (llm_call n) l t w = unfold consume_llm_call in ground arith
call-StepsBelow llm_attempt l t w = unfold consume_llm_attempt in ground arith
call-StepsBelow (llm_done i o) l t w = unfold complete_llm in ground arith
call-StepsBelow repair_round l t w = unfold consume_repair_round in ground arith
call-StepsBelow interrupt l t w = unfold consume_interrupt in ground arith
call-StepsBelow checkpoint_write l t w = unfold consume_checkpoint_write in ground arith
call-StepsBelow trace_event l t w = unfold note_trace_event in ground arith
call-StepsBelow (action f) l t w = unfold note_action_fingerprint in ground arith

run_calls-StepsBelow :
    (cs : List Call) (l : Ledger) (t : ℕ)
    → StepsBelow l t
    → StepsBelow (run_calls cs l) (terminals cs + t)
unfolding run_calls
run_calls-StepsBelow [] l t w = omega arith
run_calls-StepsBelow (c ∷ cs) l t w =
    omega (
      arith,
      run_calls-StepsBelow cs (call c l).1 (terminal_weight c + t) (call-StepsBelow c l t w),
    )

budget-run_calls : (cs : List Call) (l : Ledger) → (run_calls cs l).budget ≡ l.budget
unfolding run_calls
budget-run_calls [] l = refl
budget-run_calls (c ∷ cs) l = budget-run_calls cs (call c l).1 ∙ budget-call c l

abbrev after : List Call → String → ExecutionBudget → (ℕ → ℕ) → Ledger
after cs run_id b clock = run_calls cs (new_ledger run_id b clock)

terminal_step_lem :
    (l : Ledger)
    → l.values graph_steps < l.budget.max_graph_steps
    → elapsed_at l < l.budget.deadline_ms
    → (consume_graph_step true l).0 ≡ ok tt
unfolding consume_graph_step elapsed_at
terminal_step_lem l below early = ground arith

-- With a budget that passes validation, a run that has made fewer terminal steps than the reserve
-- can make one more while the deadline has not passed, whatever its other calls were.
pub reserve_suffices :
    (cs : List Call) (run_id : String) (b : ExecutionBudget) (clock : ℕ → ℕ)
    → validate_reserves b ≡ true
    → terminals cs < b.terminal_step_reserve
    → elapsed_at (after cs run_id b clock) < b.deadline_ms
    → (consume_graph_step true (after cs run_id b clock)).0 ≡ ok tt
unfolding validate_reserves new_ledger
reserve_suffices cs run_id b clock valid few early =
    let start = new_ledger run_id b clock in
    let below = run_calls-StepsBelow cs start 0 (omega arith) in
    let same = budget-run_calls cs start in
    let room : b.terminal_step_reserve < b.max_graph_steps = ground arith in
    terminal_step_lem (run_calls cs start) (ground arith)
      (ground (arith, ap (λ (x : ExecutionBudget). x.deadline_ms) same))

-- The calls that look at the deadline.
abbrev pub is_guarded : Call → Bool
is_guarded cache_hit = false
is_guarded (llm_done _ _) = false
is_guarded trace_event = false
is_guarded (action _) = false
is_guarded _ = true

-- Once the deadline has passed, every guarded call raises the deadline error of the run, with the
-- next reading of the clock as the time used.
pub call-past_deadline :
    (c : Call) (l : Ledger)
    → is_guarded c ≡ true
    → l.budget.deadline_ms ≤ elapsed_at l
    → (call c l).0
      ≡ raise (
          exceeded l Limit.deadline_ms
            (elapsed_at (record l { reads = l.reads + 1 }))
            l.budget.deadline_ms
            true)
unfolding call exceeded elapsed_at
call-past_deadline (timeout t) l g h = unfold effective_timeout in ground arith
call-past_deadline (can_continue r) l g h = unfold ensure_can_continue in ground arith
call-past_deadline (graph_step t) l g h = unfold consume_graph_step in ground arith
call-past_deadline tool_call l g h = unfold consume_tool_call in ground arith
call-past_deadline provider_attempt l g h = unfold consume_provider_attempt in ground arith
call-past_deadline (llm_call n) l g h = unfold consume_llm_call in ground arith
call-past_deadline llm_attempt l g h = unfold consume_llm_attempt in ground arith
call-past_deadline repair_round l g h = unfold consume_repair_round in ground arith
call-past_deadline interrupt l g h = unfold consume_interrupt in ground arith
call-past_deadline checkpoint_write l g h = unfold consume_checkpoint_write in ground arith
call-past_deadline cache_hit l g h = cc
call-past_deadline (llm_done i o) l g h = cc
call-past_deadline trace_event l g h = cc
call-past_deadline (action f) l g h = cc

-- Repeats of one action are counted one by one.
record Repeated (f : String) (m : ℕ) (l l' : Ledger) : Type 0 where
  last : l'.last_action_fingerprint ≡ some f
  count : l'.repeated_fingerprint_count ≡ m
  run : l'.run_id ≡ l.run_id
  same : l'.budget ≡ l.budget

note-Repeated :
    (f : String) (m : ℕ) (l₀ l : Ledger)
    → Repeated f m l₀ l
    → Repeated f (suc m) l₀ (call (action f) l).1
unfolding call note_action_fingerprint
note-Repeated f m l₀ l r = record {
  last = ground (arith, str_eq_iff f f, r.last);
  count = ground (arith, str_eq_iff f f, r.last, r.count);
  run = ground (arith, r.run);
  same = ground (arith, r.same);
}

note-Repeated_first :
    (f : String) (l : Ledger)
    → l.last_action_fingerprint ≢ some f
    → Repeated f 1 l (call (action f) l).1
unfolding call note_action_fingerprint
note-Repeated_first f l other = elim (Option-cases l.last_action_fingerprint) [
  | inl e ↦ record {
    last = ground arith;
    count = ground arith;
    run = ground arith;
    same = ground arith;
  }
  | inr (g, e) ↦ record {
    last = ground (arith, str_eq_iff f g);
    count = ground (arith, str_eq_iff f g);
    run = ground arith;
    same = ground arith;
  }
]

run_calls-Repeated :
    (f : String) (n m : ℕ) (l₀ l : Ledger)
    → Repeated f m l₀ l
    → Repeated f (n + m) l₀ (run_calls (replicate n (action f)) l)
unfolding run_calls
run_calls-Repeated f zero m l₀ l r = rw zero-add r
run_calls-Repeated f (suc n) m l₀ l r =
    rw (suc-add, ← add-suc)
      (run_calls-Repeated f n (suc m) l₀ (call (action f) l).1 (note-Repeated f m l₀ l r))

-- An action that is noted `n` times in a row, after another one, is refused at exactly the note
-- that takes its count above the maximum. An error of an earlier note does not reset the count.
pub note_action-repeated :
    (f : String) (n : ℕ) (l : Ledger)
    → l.last_action_fingerprint ≢ some f
    → (note_action_fingerprint f (run_calls (replicate n (action f)) l)).0 ≡ (
        if ltb l.budget.max_repeated_fingerprint_count (n + 1)
        then raise (
            exceeded l Limit.max_repeated_fingerprint_count n
              l.budget.max_repeated_fingerprint_count false)
        else ok tt)
unfolding run_calls call note_action_fingerprint
note_action-repeated f zero l other = elim (Option-cases l.last_action_fingerprint) [
  | inl e ↦ ground arith
  | inr (g, e) ↦ ground (arith, str_eq_iff f g)
]
note_action-repeated f (suc n) l other =
    let r = run_calls-Repeated f n 1 l (call (action f) l).1 (note-Repeated_first f l other) in
    ground (arith, str_eq_iff f f, r.last, r.count, r.run, r.same)
