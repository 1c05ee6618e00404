-- ===== src/Weather.antt =====
-- The weather of a session: what a forecast means for a day, which changes are events, and what of it a
-- session keeps.
pub mod Models
pub mod Policy
pub mod Events
pub mod Persistence
pub mod Repair
mod Tests
