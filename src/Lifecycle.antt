-- ===== src/Lifecycle.antt =====
-- The lifecycle of a plan: a session with its versions, locks and previews, and the edits of it.
pub mod Models
pub mod Repository
pub mod Impact
pub mod Grounding
pub mod Actions
pub mod Fingerprints
pub mod Workflow
mod Tests
