-- ===== src/Execution.antt =====
-- travel_agent/execution: budgets and stores of agent runs.
pub mod Budget
pub mod Ledger
