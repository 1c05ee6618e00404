-- ===== src/Memory.antt =====
-- travel_agent/memory: preferences that a user has confirmed, their store and their service.
pub mod Models
pub mod Policy
pub mod Repository
pub mod Service
