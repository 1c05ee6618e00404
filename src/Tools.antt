-- ===== src/Tools.antt =====
-- travel_agent/tools: retries, the cache and the chain of providers.
pub mod Errors
pub mod Retry
pub mod Chain
pub mod Cache
