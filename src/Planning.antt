-- ===== src/Planning.antt =====
-- The planner: what a plan is, and how a plan that fails its validation is repaired.
pub mod Models
pub mod Repair
pub mod Validator
pub mod Critic
